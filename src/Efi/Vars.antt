-- ===== src/Efi/Vars.antt =====
-- internal/efi/efi.go: the EFI variables, which github.com/foxboron/go-uefi reads and writes, and
-- BootOrder (bootOrder.Unmarshal, getBootOrder, setBootOrder, bootEntryName).
pub mod Order
use Prim.Native.Char.{code}
use Prim.Native.String.{String}
use invari_os.Base.{
  ℕ, ◌+◌, ◌*◌, ◌<◌, ◌≡◌, ◌≢◌, List, [], ◌∷◌, ◌++◌, Option, none, some, Result, ok, err, Bool, true,
  false, All, length, M, bind, pure, fail, ◌>>=◌, ◌>>◌,
}
use invari_os.Base.Bytes.{IsByte, le}
use invari_os.Base.Hex.{hex}
use invari_os.Efi.Utf16.{DecodeError}

-- The variables that the package names: two by fixed accessors, the Boot#### entries by name.
pub data Variable : Type 0 where
  boot_order : Variable
  loader_entry_default : Variable
  entry : List ℕ → Variable

-- GetVar before its result is unmarshalled: fs.ErrNotExist, any other failure, or the content.
pub data Read : Type 0 where
  not_exist : Read
  read_failed : Read
  found : List ℕ → Read

-- os.Stat of the efivarfs file of a variable.
pub data Stat : Type 0 where
  absent : Stat
  stat_failed : Stat
  present : Stat

-- The firmware's variables behind go-uefi and efivarfs. `write` returns true for a nil error.
pub record EfiVars : Type 1 where
  pub Store : Type 0
  pub get_var : Store → Variable → Read
  pub stat : Store → Variable → Stat
  pub write_var : Store → Variable → List ℕ → Bool × Store

-- What the package relies on: a content is bytes, a write that succeeds is read back, and it
-- touches no other variable.
pub record EfiVarsLaws (e : EfiVars) : Type 0 where
  pub get_var-IsByte :
      (s : e.Store) (v : Variable) (b : List ℕ) → e.get_var s v ≡ found b → All IsByte b
  pub get_var-write_var :
      (s : e.Store) (v : Variable) (b : List ℕ) (t : e.Store)
      → e.write_var s v b ≡ (true, t)
      → e.get_var t v ≡ found b
  pub get_var-write_var_other :
      (s : e.Store) (v w : Variable) (b : List ℕ) (t : e.Store)
      → e.write_var s v b ≡ (true, t)
      → w ≢ v
      → e.get_var t w ≡ e.get_var s w

pub data Error : Type 0 where
  write_loader_entry_default : Error
  read_boot_order : Error
  odd_boot_order : ℕ → Error
  write_boot_order : Error
  write_entry : ℕ → Error
  probing : ℕ → Error
  no_free_slot : Error

abbrev codes : String → List ℕ
codes String.[] = []
codes (String.◌∷◌ c s) = code c ∷ codes s

unfoldable pub boot_entry_name : ℕ → List ℕ
boot_entry_name n = codes "Boot" ++ hex 4 n

-- The variable of entry `n`.
unfoldable pub boot_entry : ℕ → Variable
unfolding boot_entry_name
boot_entry n = entry (boot_entry_name n)

-- bootOrder.Unmarshal: `none` is the odd length.
unfoldable pub unmarshal_boot_order : List ℕ → Option (List ℕ)
unmarshal_boot_order [] = some []
unmarshal_boot_order (x ∷ []) = none
unmarshal_boot_order (x ∷ y ∷ b) = elim (unmarshal_boot_order b) [
  | none ↦ none
  | some nums ↦ some ((x + 256 * y) ∷ nums)
]

unfoldable pub marshal_boot_order : List ℕ → List ℕ
marshal_boot_order [] = []
marshal_boot_order (n ∷ nums) = le 2 n ++ marshal_boot_order nums

module _ (e : EfiVars) where
  abbrev pub Efi : Type 0 → Type 0
  Efi A = M e.Store Error A

  unfoldable pub order_of : Read → Result Error (List ℕ)
  order_of not_exist = ok []
  order_of read_failed = err read_boot_order
  order_of (found b) = elim (unmarshal_boot_order b) [
    | none ↦ err (odd_boot_order (length b))
    | some nums ↦ ok nums
  ]

  unfoldable pub get_boot_order : Efi (List ℕ)
  unfolding order_of
  get_boot_order s = (order_of (e.get_var s boot_order), s)

  -- WriteVar, with the error that the caller wraps it in.
  unfoldable pub write : Variable → List ℕ → Error → Efi (Unit {0})
  write v b x s =
      let (done, t) = e.write_var s v b in elim done [ true ↦ (ok tt, t) | false ↦ (err x, t) ]

  unfoldable pub set_boot_order : List ℕ → Efi (Unit {0})
  unfolding write
  set_boot_order nums = write boot_order (marshal_boot_order nums) write_boot_order
