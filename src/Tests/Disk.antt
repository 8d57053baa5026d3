-- ===== src/Tests/Disk.antt =====
-- internal/disk, internal/meta and internal/install on a machine in memory.
use Prim.Native.String.{String}
use mathlib.Core.Path.{subst}
use text.Mathlib.Text.{◌==◌ as str_eq}
use text.Mathlib.TextEquality.{eq_iff}
use invari_os.Base.{
  ℕ, zero, suc, ◌+◌, ◌≡◌, ◌≢◌, refl, ap, sym, ◌∙◌, Bool, true, false, Bool-cases, inl, inr, Option,
  none, some, List, [], ◌∷◌, ◌++◌, Result, ok, err, ok_injective, length, take, take-length_append,
  if◌then◌else◌, ◌==◌, arith,
}
use invari_os.Base.Visits.{T}
use invari_os.Disk.Hardware.{Hardware, HardwareLaws, Partition, Leaves, AllFree}
use invari_os.Tests.Efi.{Store, guid}

pub record Machine : Type 0 where
  pub devices : String → List ℕ
  pub table : List (Option Partition)
  pub variables : Store

abbrev Slots : Type 0
Slots = List (Option Partition)

-- The device of partition n has n letters.
abbrev tally : ℕ → String
tally zero = String.[]
tally (suc n) = String.◌∷◌ "p" (tally n)

tally_injective : (m n : ℕ) → tally m ≡ tally n → m ≡ n
tally_injective zero zero e = refl
tally_injective zero (suc n) e = absurd (cc)
tally_injective (suc m) zero e = absurd (cc)
tally_injective (suc m) (suc n) e = ap suc (tally_injective m n (cc))

abbrev pub named : String → Partition
named name = record { name = name; part_guid = guid; first_lba = 2048; last_lba = 4095 }

abbrev later :
    Result String (ℕ × Partition × Slots) → Option Partition → Result String (ℕ × Partition × Slots)
later (err why) o = err why
later (ok (n, p, t)) o = ok (n + 1, p, o ∷ t)

-- The first free entry.
abbrev allocate_in : Slots → String → Result String (ℕ × Partition × Slots)
allocate_in [] name = err "table full"
allocate_in (none ∷ t) name = ok (1, named name, some (named name) ∷ t)
allocate_in (some p ∷ t) name = later (allocate_in t name) (some p)

abbrev put_device : String → List ℕ → Machine → Machine
put_device path b s = record s { devices = λ p. if str_eq p path then b else s.devices p }

abbrev pub done : {S : Type 0} → T S String (Unit {0})
done s = (ok tt, s, [])

abbrev is_adv_block : List ℕ → Bool
is_adv_block [] = false
is_adv_block (x ∷ b) = x == 1

abbrev mkfs : String → String → T Machine String (Unit {0})
mkfs path label s = (ok tt, put_device path [] s, [])

abbrev pub machine : Hardware
machine = record {
  State = Machine;
  open_disk = λ s disk. none;
  disk_size = λ s disk. 0x40000000;
  read_table = λ s disk. ok s.table;
  Table = Slots;
  new_table = λ s disk. ok (none ∷ none ∷ none ∷ none ∷ none ∷ []);
  allocate_partition = λ t size name type. allocate_in t name;
  slots = λ t. t;
  largest_contiguous_allocatable = λ t. 0x10000000;
  write_table = λ t disk s. (ok tt, record s { table = t }, []);
  dev_name = λ disk n. tally n;
  stat_poll = λ s path k. true;
  open_for_write = λ s path. none;
  open_for_read = λ s path. none;
  write_at_0 = λ path buf s. (ok tt, put_device path (buf ++ (7 ∷ [])) s, []);
  sync_device = λ path. done;
  device_content = λ s path. s.devices path;
  is_mounted = λ s path. false;
  adv_size = 2;
  empty_adv = ok (1 ∷ 1 ∷ []);
  is_adv = is_adv_block;
  mkfs_vfat = mkfs;
  mkfs_xfs = mkfs;
}

put_device-other :
    (p q : String) (b : List ℕ) (s : Machine) → p ≢ q → (put_device p b s).devices q ≡ s.devices q
put_device-other p q b s differs = elim (Bool-cases (str_eq q p)) [
  | inl same ↦ absurd (differs (sym ((eq_iff q p).0 same)))
  | inr other ↦ rw other
]

put_device-same : (p : String) (b : List ℕ) (s : Machine) → (put_device p b s).devices p ≡ b
put_device-same p b s = rw ((eq_iff p p).1 refl)

mkfs-Leaves : (disk q p l : String) → p ≢ q → Leaves machine disk q (mkfs p l)
mkfs-Leaves disk q p l differs s unmounted = (
  record {
    same_content = put_device-other p q [] s differs;
    same_table = refl;
    same_open = refl;
    same_mount = refl;
  },
  tt,
)

pub done-Leaves : (disk q : String) → Leaves machine disk q {E = String} (done {S = Machine})
done-Leaves disk q s unmounted =
    (record { same_content = refl; same_table = refl; same_open = refl; same_mount = refl }, tt)

record Allocation (name : String) (t : Slots) (n : ℕ) (p : Partition) (t' : Slots) : Type 0 where
  front : Slots
  back : Slots
  was : t ≡ front ++ (none ∷ back)
  now : t' ≡ front ++ (some p ∷ back)
  number : n ≡ length front + 1
  called : p.name ≡ name

allocate_in-Allocation :
    (t : Slots) (name : String) (n : ℕ) (p : Partition) (t' : Slots)
    → allocate_in t name ≡ ok (n, p, t')
    → Allocation name t n p t'
allocate_in-Allocation [] name n p t' h = absurd (cc)
allocate_in-Allocation (none ∷ t) name n p t' h = record {
  front = [];
  back = t;
  was = refl;
  now = cc;
  number = cc;
  called = cc;
}
allocate_in-Allocation (some o ∷ t) name n p t' h =
    split (allocate_in t name) refl h (allocate_in-Allocation t name)
  where
    split :
        (r : Result String (ℕ × Partition × Slots))
        → allocate_in t name ≡ r
        → later r (some o) ≡ ok (n, p, t')
        → ((n : ℕ) (p : Partition) (t' : Slots)
            → allocate_in t name ≡ ok (n, p, t')
            → Allocation name t n p t')
        → Allocation name (some o ∷ t) n p t'
    split (err why) e k rest = absurd (cc)
    split (ok (m, r, u)) e k rest =
        let a = rest m r u e in
        let same = ok_injective String k in
        let partitions : r ≡ p = ap (λ x. x.1) same in
        record {
          front = some o ∷ a.front;
          back = a.back;
          was = ap (◌∷◌ (some o)) a.was;
          now =
              sym (ap (λ x. x.2) same)
              ∙ ap (◌∷◌ (some o)) a.now
              ∙ ap (λ z. some o ∷ (a.front ++ (some z ∷ a.back))) partitions;
          number = let count : m + 1 ≡ n = ap (λ x. x.0) same in omega (arith, a.number);
          called = sym (ap (λ (z : Partition). z.name) partitions) ∙ a.called;
        }

pub machine-HardwareLaws : HardwareLaws machine
machine-HardwareLaws = record {
  new_table-AllFree = λ s disk t h.
      subst AllFree (ok_injective String h) (refl, (refl, (refl, (refl, (refl, tt)))));
  allocate_partition_lem = λ t size name type n p t' h.
      let a = allocate_in-Allocation t name n p t' h in
      (a.front, a.back, a.was, a.now, a.number, a.called);
  read_table-write_table = λ t disk s u vs h. (
    refl,
    let same : record s { table = t } ≡ u = ap (λ x. x.1) h in
        ap (λ (z : Machine). ok z.table) (sym same),
  );
  write_at_0-content = λ disk q buf s u vs h.
      let same : put_device q (buf ++ (7 ∷ [])) s ≡ u = ap (λ x. x.1) h in
      (
        ap (λ (z : Machine). take (length buf) (z.devices q)) (sym same)
            ∙ ap (take (length buf)) (put_device-same q (buf ++ (7 ∷ [])) s)
            ∙ take-length_append buf (7 ∷ []),
        ap (λ (z : Machine). ok z.table) (sym same),
        refl,
        refl,
      );
  sync_device-Leaves = λ disk q p. done-Leaves disk q;
  mkfs_vfat-Leaves = mkfs-Leaves;
  mkfs_xfs-Leaves = mkfs-Leaves;
  dev_name_injective = λ disk m n e. tally_injective m n e;
  zeros_no_adv = refl;
  empty_adv-is_adv = λ b h.
      let same : 1 ∷ 1 ∷ [] ≡ b = ok_injective String h in
      (ap length (sym same), ap is_adv_block (sym same));
}
