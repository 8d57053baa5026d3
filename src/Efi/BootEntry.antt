-- ===== src/Efi/BootEntry.antt =====
-- internal/efi/efi.go: findByLabel, firstFreeNum, EnsureBootEntry and SetDefault.
pub mod Choice
pub mod Ensure
use invari_os.Base.{
  ℕ, zero, suc, ◌+◌, ◌-◌, List, [], ◌∷◌, Option, none, some, Result, ok, err, Bool, true, false,
  ◌||◌, not, if◌then◌else◌, ◌==◌, M, bind, pure, ◌>>=◌, ◌>>◌, In, ◌≡◌,
}
use invari_os.Efi.LoadOption.{
  GoUefi, Target, build_load_option, unmarshal_header, LoadOptionHeader, HeaderError,
}
use invari_os.Efi.Vars.{
  EfiVars, Variable, boot_order, loader_entry_default, boot_entry, Read, not_exist, read_failed,
  found, Stat, absent, stat_failed, present, Error, probing, no_free_slot, write_entry,
  write_loader_entry_default, Efi, get_boot_order, set_boot_order, write,
}

-- Equality of Go strings.
unfoldable pub text_eq : List ℕ → List ℕ → Bool
text_eq [] [] = true
text_eq [] (y ∷ ys) = false
text_eq (x ∷ xs) [] = false
text_eq (x ∷ xs) (y ∷ ys) = if x == y then text_eq xs ys else false

-- The map inOrder.
unfoldable pub in_order : List ℕ → ℕ → Bool
in_order [] n = false
in_order (m ∷ order) n = n == m || in_order order n

-- The entries of the old order behind the new first one.
unfoldable pub others : ℕ → List ℕ → List ℕ
others num [] = []
others num (n ∷ order) = if n == num then others num order else n ∷ others num order

module _ (e : EfiVars) (u : GoUefi) where
  -- An entry that cannot be read or decoded is not ours.
  unfoldable pub has_label : Read → List ℕ → Bool
  has_label not_exist label = false
  has_label read_failed label = false
  has_label (found b) label = elim (unmarshal_header b) [
    | err x ↦ false
    | ok hdr ↦ text_eq hdr.description label
  ]

  unfoldable pub labelled : e.Store → List ℕ → ℕ → Bool
  unfolding has_label
  labelled s label num = has_label (e.get_var s (boot_entry num)) label

  unfoldable pub find_by_label : e.Store → List ℕ → List ℕ → Option ℕ
  find_by_label s [] label = none
  find_by_label s (num ∷ order) label =
      if labelled s label num then some num else find_by_label s order label

  -- The loop of firstFreeNum with its rounds left: n runs from 0 to 0xfffe.
  unfoldable pub first_free_from : ℕ → e.Store → List ℕ → ℕ → Result Error ℕ
  first_free_from zero s order n = err no_free_slot
  first_free_from (suc left) s order n =
      let rest = first_free_from left s order (n + 1) in
      if in_order order n then rest else elim (e.stat s (boot_entry n)) [
        | absent ↦ ok n
        | stat_failed ↦ err (probing n)
        | present ↦ rest
      ]

  unfoldable pub first_free_num : e.Store → List ℕ → Result Error ℕ
  first_free_num s order = first_free_from 0xffff s order 0

  -- The number that EnsureBootEntry writes: the labelled entry's, or a free one.
  unfoldable pub choose_num : List ℕ → List ℕ → Efi e ℕ
  choose_num order label s = elim (find_by_label s order label) [
    | some num ↦ (ok num, s)
    | none ↦ (first_free_num s order, s)
  ]

  unfoldable pub ensure_boot_entry : List ℕ → Target → Efi e (Unit {0})
  ensure_boot_entry label t = do
    order ← get_boot_order e
    num ← choose_num order label
    write e (boot_entry num) (build_load_option u label t) (write_entry num)
    set_boot_order e (num ∷ others num order)

  unfoldable pub set_default : List ℕ → Efi e (Unit {0})
  set_default entry_filename =
      write e loader_entry_default (u.marshal_utf16_var entry_filename) write_loader_entry_default
