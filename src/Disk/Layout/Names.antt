-- ===== src/Disk/Layout/Names.antt =====
-- internal/disk/disk.go: partitions found by name in a table, while entries are filled.
use Prim.Native.String.{String}
use text.Mathlib.Text.{◌==◌ as str_eq}
use text.Mathlib.TextEquality.{eq_iff}
use invari_os.Base.{
  ℕ, suc, ◌+◌, ◌≡◌, refl, sym, ◌∙◌, true, false, Option, none, some, List, [], ◌∷◌, ◌++◌, length,
  arith,
}
use mathlib.Core.Path.{subst}
use invari_os.Disk.Hardware.{Partition, AllFree}
use invari_os.Disk.Layout.{PartitionInfo, numbered, first_named, last_named}

-- No entry has the name.
abbrev pub Unnamed : String → List (Option Partition) → Type 0
Unnamed name [] = Unit {0}
Unnamed name (none ∷ ps) = Unnamed name ps
Unnamed name (some p ∷ ps) = (str_eq p.name name ≡ false) × Unnamed name ps

pub Unnamed-AllFree : (name : String) (ps : List (Option Partition)) → AllFree ps → Unnamed name ps
Unnamed-AllFree name [] h = tt
Unnamed-AllFree name (none ∷ ps) h = Unnamed-AllFree name ps h.1
Unnamed-AllFree name (some p ∷ ps) h = absurd (cc (h.0))

module _ (name : String) (p : Partition) where
  -- Filling an entry under another name, and under the name.
  pub Unnamed-fill :
      (front back : List (Option Partition))
      → str_eq p.name name ≡ false
      → Unnamed name (front ++ (none ∷ back))
      → Unnamed name (front ++ (some p ∷ back))
  Unnamed-fill [] back h u = (h, u)
  Unnamed-fill (none ∷ front) back h u = Unnamed-fill front back h u
  Unnamed-fill (some q ∷ front) back h u = (u.0, Unnamed-fill front back h u.1)

  pub first_named-fill_other :
      (front back : List (Option Partition)) (i : ℕ)
      → str_eq p.name name ≡ false
      → first_named name (numbered i (front ++ (some p ∷ back)))
        ≡ first_named name (numbered i (front ++ (none ∷ back)))
  unfolding first_named numbered
  first_named-fill_other [] back i h = rw h
  first_named-fill_other (none ∷ front) back i h = first_named-fill_other front back (i + 1) h
  first_named-fill_other (some q ∷ front) back i h =
      rw (first_named-fill_other front back (i + 1) h)

  pub last_named-fill_other :
      (front back : List (Option Partition)) (i : ℕ) (found : Option PartitionInfo)
      → str_eq p.name name ≡ false
      → last_named name found (numbered i (front ++ (some p ∷ back)))
        ≡ last_named name found (numbered i (front ++ (none ∷ back)))
  unfolding last_named numbered
  last_named-fill_other [] back i found h = rw (h, last_named)
  last_named-fill_other (none ∷ front) back i found h =
      last_named-fill_other front back (i + 1) found h
  last_named-fill_other (some q ∷ front) back i found h =
      last_named-fill_other front back (i + 1) _ h

  renumber :
      (i n : ℕ)
      → ◌≡◌ {A = Option PartitionInfo}
          (some (record { number = i + 1 + (n + 1); partition = p }))
          (some (record { number = i + (suc n + 1); partition = p }))
  renumber i n = ground arith

  pub first_named-fill :
      (front back : List (Option Partition)) (i : ℕ)
      → str_eq p.name name ≡ true
      → Unnamed name (front ++ (none ∷ back))
      → first_named name (numbered i (front ++ (some p ∷ back)))
        ≡ some (record { number = i + (length front + 1); partition = p })
  unfolding first_named numbered
  first_named-fill [] back i h u = rw h (ground arith)
  first_named-fill (none ∷ front) back i h u =
      first_named-fill front back (i + 1) h u ∙ renumber i (length front)
  first_named-fill (some q ∷ front) back i h u =
      rw u.0 (first_named-fill front back (i + 1) h u.1 ∙ renumber i (length front))

  pub last_named-Unnamed :
      (ps : List (Option Partition)) (i : ℕ) (found : Option PartitionInfo)
      → Unnamed name ps
      → last_named name found (numbered i ps) ≡ found
  unfolding last_named numbered
  last_named-Unnamed [] i found u = refl
  last_named-Unnamed (none ∷ ps) i found u = last_named-Unnamed ps (i + 1) found u
  last_named-Unnamed (some q ∷ ps) i found u =
      rw (u.0, last_named) (last_named-Unnamed ps (i + 1) found u.1)

  pub last_named-fill :
      (front back : List (Option Partition)) (i : ℕ) (found : Option PartitionInfo)
      → str_eq p.name name ≡ true
      → Unnamed name (front ++ (none ∷ back))
      → last_named name found (numbered i (front ++ (some p ∷ back)))
        ≡ some (record { number = i + (length front + 1); partition = p })
  unfolding last_named numbered
  last_named-fill [] back i found h u =
      rw (h, last_named) (last_named-Unnamed back (i + 1) _ u ∙ (ground arith))
  last_named-fill (none ∷ front) back i found h u =
      last_named-fill front back (i + 1) found h u ∙ renumber i (length front)
  last_named-fill (some q ∷ front) back i found h u =
      rw (u.0, last_named)
        (last_named-fill front back (i + 1) found h u.1 ∙ renumber i (length front))

-- An entry of `ts` is filled by `info` under a name, which makes `ts'`.
pub record Filled (name : String) (info : PartitionInfo) (ts ts' : List (Option Partition))
    : Type 0 where
  pub front : List (Option Partition)
  pub back : List (Option Partition)
  pub free : ts ≡ front ++ (none ∷ back)
  pub filled : ts' ≡ front ++ (some info.partition ∷ back)
  pub number_is : info.number ≡ length front + 1
  pub name_is : info.partition.name ≡ name

module _ {name : String} {info : PartitionInfo} {ts ts' : List (Option Partition)}
    (f : Filled name info ts ts') where
  matches : str_eq info.partition.name name ≡ true
  matches = (eq_iff info.partition.name name).1 f.name_is

  differs : (other : String) → str_eq name other ≡ false → str_eq info.partition.name other ≡ false
  differs other h = subst (λ n. str_eq n other ≡ false) (sym f.name_is) h

  info_is :
      some (record { number = 0 + (length f.front + 1); partition = info.partition }) ≡ some info
  info_is = ground (arith, f.number_is)

  pub Filled-first_named : Unnamed name ts → first_named name (numbered 0 ts') ≡ some info
  Filled-first_named u = rw f.filled (
      first_named-fill name info.partition f.front f.back 0 matches (subst (Unnamed name) f.free u)
      ∙ info_is)

  pub Filled-last_named : Unnamed name ts → last_named name none (numbered 0 ts') ≡ some info
  Filled-last_named u = rw f.filled (
      last_named-fill name info.partition f.front f.back 0 none matches
        (subst (Unnamed name) f.free u)
      ∙ info_is)

  module _ (other : String) (h : str_eq name other ≡ false) where
    pub Filled-Unnamed : Unnamed other ts → Unnamed other ts'
    Filled-Unnamed u = subst (Unnamed other) (sym f.filled) (
        Unnamed-fill other info.partition f.front f.back (differs other h)
          (subst (Unnamed other) f.free u))

    pub Filled-first_named_other :
        first_named other (numbered 0 ts') ≡ first_named other (numbered 0 ts)
    Filled-first_named_other =
        rw (f.filled, f.free)
          (first_named-fill_other other info.partition f.front f.back 0 (differs other h))

    pub Filled-last_named_other :
        last_named other none (numbered 0 ts') ≡ last_named other none (numbered 0 ts)
    Filled-last_named_other =
        rw (f.filled, f.free)
          (last_named-fill_other other info.partition f.front f.back 0 none (differs other h))
