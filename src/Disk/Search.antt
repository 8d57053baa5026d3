-- ===== src/Disk/Search.antt =====
-- internal/disk/disk.go: ListNonRemovableDisks and FindSystemDisk over /sys/class/block.
use Prim.Native.String.{String, ◌++◌ as join}
use text.Mathlib.Text.{starts_with}
use invari_os.Base.{
  ℕ, Bool, false, not, ◌&&◌, ◌||◌, Option, none, some, List, [], ◌∷◌, Result, ok, err, ◌==◌,
  if◌then◌else◌, length,
}
use invari_os.Base.Text.{trim_space}
use invari_os.Disk.Layout.{Error, reading_class, no_disk, too_many_disks}

-- One entry of the directory: its name, whether it has an attribute "partition", and the code
-- points of its attribute "removable" where that can be read.
pub record Entry : Type 0 where
  pub name : String
  pub has_partition : Bool
  pub removable : Option (List ℕ)

is_zero_text : List ℕ → Bool
is_zero_text [] = false
is_zero_text (c ∷ []) = c == b'0'
is_zero_text (c ∷ d ∷ s) = false

-- strings.TrimSpace(string(removable)) == "0", and false where the file cannot be read.
pub is_fixed : Option (List ℕ) → Bool
unfolding trim_space is_zero_text
is_fixed none = false
is_fixed (some s) = is_zero_text (trim_space s)

-- An entry that the loop does not skip.
pub is_candidate : Entry → Bool
unfolding is_fixed
is_candidate e =
    not (starts_with e.name "loop" || starts_with e.name "ram")
    && (not e.has_partition && is_fixed e.removable)

pub candidates : List Entry → List String
unfolding is_candidate
candidates [] = []
candidates (e ∷ es) = if is_candidate e then join "/dev/" e.name ∷ candidates es else candidates es

-- The argument is what os.ReadDir returns.
pub list_non_removable_disks : Result String (List Entry) → Result Error (List String)
unfolding candidates
list_non_removable_disks (err why) = err (reading_class why)
list_non_removable_disks (ok es) = ok (candidates es)

the_only_disk : List String → Result Error String
the_only_disk [] = err no_disk
the_only_disk (d ∷ []) = ok d
the_only_disk (d ∷ d' ∷ ds) = err (too_many_disks (length (d ∷ d' ∷ ds)))

pub find_system_disk : Result String (List Entry) → Result Error String
unfolding the_only_disk list_non_removable_disks
find_system_disk r = elim (list_non_removable_disks r) [
  | err e ↦ err e
  | ok disks ↦ the_only_disk disks
]
