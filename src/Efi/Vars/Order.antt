-- ===== src/Efi/Vars/Order.antt =====
-- internal/efi/efi.go: BootOrder's wire format, and the entries' names.
use invari_os.Base.{
  ℕ, ◌^◌, ◌<◌, ◌≡◌, ◌≢◌, refl, ok_injective, List, [], ◌∷◌, some, ok, true, All, arith, inl, inr,
  Option-cases,
}
use mathlib.Core.Path.{subst}
use invari_os.Base.Bytes.{IsByte}
use invari_os.Base.Hex.{hex_injective}
use invari_os.Efi.Vars.{
  EfiVars, EfiVarsLaws, Variable, boot_order, Read, not_exist, read_failed, found, Error,
  boot_entry, unmarshal_boot_order, marshal_boot_order, order_of, get_boot_order, write,
  set_boot_order, write_boot_order,
}

abbrev pub IsU16 : ℕ → Type 0
IsU16 n = n < 2 ^ 16

-- For 16-bit numbers, bootOrder.Unmarshal of what setBootOrder writes is the same list.
pub unmarshal_boot_order-marshal :
    (nums : List ℕ) → All IsU16 nums → unmarshal_boot_order (marshal_boot_order nums) ≡ some nums
unfolding unmarshal_boot_order marshal_boot_order
unmarshal_boot_order-marshal [] h = refl
unmarshal_boot_order-marshal (n ∷ nums) (h, hs) =
    ground (arith, unmarshal_boot_order-marshal nums hs)

unmarshal_boot_order-IsU16 :
    (b nums : List ℕ) → All IsByte b → unmarshal_boot_order b ≡ some nums → All IsU16 nums
unfolding unmarshal_boot_order
unmarshal_boot_order-IsU16 [] [] h k = tt
unmarshal_boot_order-IsU16 [] (n ∷ nums) h k = absurd (cc)
unmarshal_boot_order-IsU16 (x ∷ []) nums h k = absurd (cc)
unmarshal_boot_order-IsU16 (x ∷ y ∷ b) [] h k = tt
unmarshal_boot_order-IsU16 (x ∷ y ∷ b) (n ∷ nums) h k =
    elim (Option-cases (unmarshal_boot_order b)) [
      | inl e ↦ absurd (ground arith)
      | inr (ms, e) ↦ ground (arith, unmarshal_boot_order-IsU16 b ms h.1.1 e)
    ]

-- Different numbers name different variables.
pub boot_entry_injective : (m n : ℕ) → IsU16 m → IsU16 n → boot_entry m ≡ boot_entry n → m ≡ n
unfolding boot_entry
boot_entry_injective m n hm hn e = hex_injective 4 m n (omega arith) (omega arith) (cc)

pub boot_order-ne-boot_entry : (n : ℕ) → boot_order ≢ boot_entry n
unfolding boot_entry
boot_order-ne-boot_entry n e = cc

module _ (e : EfiVars) where
  pub get_boot_order_ok :
      (s : e.Store) {order : List ℕ} {t : e.Store}
      → get_boot_order e s ≡ (ok order, t)
      → (t ≡ s) × (order_of e (e.get_var s boot_order) ≡ ok order)
  unfolding get_boot_order
  get_boot_order_ok s h = ground arith

  found-IsU16 :
      (b order : List ℕ) → All IsByte b → order_of e (found b) ≡ ok order → All IsU16 order
  unfolding order_of
  found-IsU16 b order h k = elim (Option-cases (unmarshal_boot_order b)) [
    | inl q ↦ absurd (ground arith)
    | inr (nums, q) ↦ unmarshal_boot_order-IsU16 b order h (ground arith)
  ]

  pub order_of-IsU16 :
      (laws : EfiVarsLaws e) (s : e.Store) (order : List ℕ)
      → order_of e (e.get_var s boot_order) ≡ ok order
      → All IsU16 order
  unfolding order_of
  order_of-IsU16 laws s order = split (e.get_var s boot_order) refl
    where
      split : (r : Read) → e.get_var s boot_order ≡ r → order_of e r ≡ ok order → All IsU16 order
      split not_exist q h = subst (All IsU16) (ok_injective Error h) tt
      split read_failed q h = absurd (cc)
      split (found b) q h = found-IsU16 b order (laws.get_var-IsByte s boot_order b q) h

  pub write_ok :
      (v : Variable) (b : List ℕ) (x : Error) (s : e.Store) {t : e.Store}
      → write e v b x s ≡ (ok tt, t)
      → e.write_var s v b ≡ (true, t)
  unfolding write
  write_ok v b x s h = ground arith

  pub set_boot_order_ok :
      (nums : List ℕ) (s : e.Store) {t : e.Store}
      → set_boot_order e nums s ≡ (ok tt, t)
      → e.write_var s boot_order (marshal_boot_order nums) ≡ (true, t)
  unfolding set_boot_order
  set_boot_order_ok nums s h = write_ok boot_order (marshal_boot_order nums) write_boot_order s h

  pub order_of-marshal :
      (t : e.Store) (nums : List ℕ)
      → All IsU16 nums
      → e.get_var t boot_order ≡ found (marshal_boot_order nums)
      → order_of e (e.get_var t boot_order) ≡ ok nums
  unfolding order_of
  order_of-marshal t nums h q = rw q (ground (arith, unmarshal_boot_order-marshal nums h))
