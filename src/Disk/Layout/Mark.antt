-- ===== src/Disk/Layout/Mark.antt =====
-- internal/disk/disk.go: what IsInstalled makes of the mark on META, and what Format does to it.
use Prim.Native.String.{String}
use mathlib.Core.Path.{subst}
use text.Mathlib.Text.{◌==◌ as str_eq}
use text.Mathlib.TextEquality.{eq_iff}
use invari_os.Base.{
  ℕ, zero, suc, ◌+◌, Bool, true, false, not, Option, none, some, List, [], ◌∷◌, Result, ok, err,
  ◌≡◌, ◌≢◌, refl, sym, ap, ◌∙◌, All, take, arith, ok_injective, if◌then◌else◌,
}
use invari_os.Base.Visits.{T, read, wrap_result, Keeps, Keeps-bind, Keeps-read, Keeps-wrap}
use invari_os.Disk.Hardware.{Hardware, HardwareLaws, Partition, Quiet, Leaves}
use invari_os.Disk.Meta.{is_initialized}
use invari_os.Disk.Meta
use invari_os.Disk.Meta.Marks.{is_initialized-true}
use invari_os.Disk.Layout.{
  PartitionInfo, Layout, Error, checking_meta, numbered, meta_number, first_named,
  wait_for_partition, installed_at, installed_on, is_installed, checked_meta, all_found, formatting,
  esp_name, state_name, data_name,
}
use invari_os.Disk.Layout.Partitioning.{format_one, format}

-- The entry with a zero-based number.
lookup : ℕ → List (Option Partition) → Option Partition
lookup k [] = none
lookup zero (o ∷ ts) = o
lookup (suc k) (o ∷ ts) = lookup k ts

record Found (name : String) (i : ℕ) (ts : List (Option Partition)) (x : PartitionInfo)
    : Type 0 where
  index : ℕ
  entry : lookup index ts ≡ some x.partition
  number_is : x.number ≡ i + suc index
  name_is : str_eq x.partition.name name ≡ true

first_named-Found :
    (name : String) (i : ℕ) (ts : List (Option Partition)) (x : PartitionInfo)
    → first_named name (numbered i ts) ≡ some x
    → Found name i ts x
unfolding first_named numbered lookup
first_named-Found name i [] x e = absurd (cc)
first_named-Found name i (none ∷ ts) x e =
    let f = first_named-Found name (i + 1) ts x e in
    record {
      index = suc f.index;
      entry = f.entry;
      number_is = (let n = f.number_is in omega arith);
      name_is = f.name_is;
    }
first_named-Found name i (some p ∷ ts) x e =
    split (str_eq p.name name) refl e (first_named-Found name (i + 1) ts x)
  where
    split :
        (b : Bool)
        → str_eq p.name name ≡ b
        → (if b
            then some (record { number = i + 1; partition = p })
            else first_named name (numbered (i + 1) ts))
          ≡ some x
        → (first_named name (numbered (i + 1) ts) ≡ some x → Found name (i + 1) ts x)
        → Found name i (some p ∷ ts) x
    split true y k later = record {
      index = 0;
      entry = cc;
      number_is = let n : i + 1 ≡ x.number = cc in omega arith;
      name_is = cc;
    }
    split false y k later =
        let f = later k in
        record {
          index = suc f.index;
          entry = f.entry;
          number_is = let n = f.number_is in omega arith;
          name_is = f.name_is;
        }

-- Two partitions that are found under different names have different numbers.
pub first_named-number_differs :
    (a b : String) (ts : List (Option Partition)) (x y : PartitionInfo)
    → str_eq a b ≡ false
    → first_named a (numbered 0 ts) ≡ some x
    → first_named b (numbered 0 ts) ≡ some y
    → x.number ≢ y.number
first_named-number_differs a b ts x y differ at_x at_y same =
    let f = first_named-Found a 0 ts x at_x in
    let g = first_named-Found b 0 ts y at_y in
    let index : f.index ≡ g.index = let m = f.number_is in let n = g.number_is in omega arith in
    let entry : some x.partition ≡ some y.partition =
      sym f.entry ∙ ap (λ k. lookup k ts) index ∙ g.entry in
    let name : x.partition.name ≡ y.partition.name = cc in
    let names : a ≡ b =
      sym ((eq_iff x.partition.name a).0 f.name_is)
      ∙ name
      ∙ (eq_iff y.partition.name b).0 g.name_is in
    absurd (cc ((eq_iff a b).1 names))

pub first_named-dev_name_differs :
    (h : Hardware) (laws : HardwareLaws h) (disk a b : String) (ts : List (Option Partition))
    (x y : PartitionInfo)
    → str_eq a b ≡ false
    → first_named a (numbered 0 ts) ≡ some x
    → first_named b (numbered 0 ts) ≡ some y
    → h.dev_name disk x.number ≢ h.dev_name disk y.number
first_named-dev_name_differs h laws disk a b ts x y differ at_x at_y same =
    first_named-number_differs a b ts x y differ at_x at_y
      (laws.dev_name_injective disk x.number y.number same)

module _ (h : Hardware) (disk q : String) (ts : List (Option Partition)) where
  -- The table is `ts`, and the device `q` holds no ADV and is not mounted.
  pub record Unmarked (s : h.State) : Type 0 where
    pub opens : h.open_disk s disk ≡ none
    pub table : h.read_table s disk ≡ ok ts
    pub unmounted : h.is_mounted s q ≡ false
    pub no_adv : h.is_adv (take h.adv_size (h.device_content s q)) ≡ false

  pub Unmarked-Quiet : (s t : h.State) → Unmarked s → Quiet h disk q s t → Unmarked t
  Unmarked-Quiet s t u k = record {
    opens = k.same_open ∙ u.opens;
    table = k.same_table ∙ u.table;
    unmounted = k.same_mount ∙ u.unmounted;
    no_adv = rw k.same_content u.no_adv;
  }

  All-Unmarked :
      (s : h.State) (vs : List h.State) → Unmarked s → All (Quiet h disk q s) vs → All Unmarked vs
  All-Unmarked s [] u k = tt
  All-Unmarked s (v ∷ vs) u k = (Unmarked-Quiet s v u k.0, All-Unmarked s vs u k.1)

  pub Keeps-Leaves : {E A : Type 0} (m : T h.State E A) → Leaves h disk q m → Keeps Unmarked m
  Keeps-Leaves m leave s u =
      let (k, ks) = leave s u.unmounted in
      (Unmarked-Quiet s (m s).1 u k, All-Unmarked s (m s).2 u ks)

  installed_at-true : (s : h.State) → installed_at h s q ≡ ok true → is_initialized h s q ≡ ok true
  unfolding installed_at checked_meta
  installed_at-true s k = split (wait_for_partition h q s) (is_initialized h s q) k
    where
      split :
          (r : Result Error (Unit {0})) (m : Result Meta.Error Bool)
          → ◌≡◌ {A = Result Error Bool}
              (elim r [ err e ↦ err e | ok _ ↦ wrap_result checking_meta m ])
              (ok true)
          → m ≡ ok true
      split (ok _) (ok b) k = cc
      split (ok _) (err why) k = absurd (cc)
      split (err why) m k = absurd (cc)

  installed_on-true :
      (s : h.State) (ps : List PartitionInfo)
      → installed_on h s disk ps ≡ ok true
      → installed_at h s (h.dev_name disk (meta_number ps)) ≡ ok true
  unfolding installed_on
  installed_on-true s ps k = split (all_found ps) k
    where
      split :
          (b : Bool)
          → (if not b then ok false else installed_at h s (h.dev_name disk (meta_number ps)))
            ≡ ok true
          → installed_at h s (h.dev_name disk (meta_number ps)) ≡ ok true
      split true k = k
      split false k = absurd (cc (ok_injective Error k))

  pub Unmarked-is_installed :
      q ≡ h.dev_name disk (meta_number (numbered 0 ts))
      → (s : h.State) → Unmarked s
      → is_installed h disk s ≢ ok true
  unfolding is_installed
  Unmarked-is_installed e s u k =
      let on : installed_on h s disk (numbered 0 ts) ≡ ok true =
        sym (rw (u.opens, is_installed) (rw (u.table, is_installed) refl)) ∙ k in
      let there = installed_on-true s (numbered 0 ts) on in
      let adv =
        is_initialized-true h s q
          (installed_at-true s (subst (λ d. installed_at h s d ≡ ok true) (sym e) there)) in
      absurd (cc (sym u.no_adv ∙ adv))

  module _ (P : h.State → Type 0) (p : PartitionInfo) (label : String)
      (mkfs : String → String → T h.State String (Unit {0})) where
    Keeps-format_one :
        Keeps P (mkfs (h.dev_name disk p.number) label) → Keeps P (format_one h disk p label mkfs)
    unfolding format_one
    Keeps-format_one keep =
        Keeps-bind P (read (wait_for_partition h (h.dev_name disk p.number))) _
          (Keeps-read P (wait_for_partition h (h.dev_name disk p.number)))
          λ _. Keeps-wrap P (formatting label) (mkfs (h.dev_name disk p.number) label) keep

  module _ (laws : HardwareLaws h) (layout : Layout) where
    pub Keeps-format :
        h.dev_name disk layout.esp.number ≢ q
        → h.dev_name disk layout.state.number ≢ q
        → h.dev_name disk layout.data_part.number ≢ q
        → Keeps Unmarked (format h disk layout)
    unfolding format
    Keeps-format no_esp no_state no_data =
        Keeps-bind Unmarked (format_one h disk layout.esp esp_name h.mkfs_vfat) _
          (Keeps-format_one Unmarked layout.esp esp_name h.mkfs_vfat (
            Keeps-Leaves (h.mkfs_vfat (h.dev_name disk layout.esp.number) esp_name)
              (laws.mkfs_vfat-Leaves disk q (h.dev_name disk layout.esp.number) esp_name no_esp)))
          λ _.
            Keeps-bind Unmarked (format_one h disk layout.state state_name h.mkfs_xfs) _
              (Keeps-format_one Unmarked layout.state state_name h.mkfs_xfs (
                Keeps-Leaves (h.mkfs_xfs (h.dev_name disk layout.state.number) state_name) (
                  laws.mkfs_xfs-Leaves disk q (h.dev_name disk layout.state.number) state_name
                    no_state)))
              λ _. Keeps-format_one Unmarked layout.data_part data_name h.mkfs_xfs (
                Keeps-Leaves (h.mkfs_xfs (h.dev_name disk layout.data_part.number) data_name) (
                  laws.mkfs_xfs-Leaves disk q (h.dev_name disk layout.data_part.number) data_name
                    no_data))
