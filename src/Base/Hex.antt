-- ===== src/Base/Hex.antt =====
-- Upper-case hexadecimal numerals of a fixed width: %04X of a uint16 and %08X of a uint32.
use Prim.Native.Nat.{ℕ, zero, suc, ◌+◌, ◌-◌, ◌*◌, ◌/◌, ◌%◌, ◌^◌, ◌<◌}
use mathlib.Core.Path.{◌≡◌, refl, ap}
use mathlib.Core.List.{List, [], ◌∷◌, ◌++◌}
use native.Mathlib.Omega.{arith}
use native.Mathlib.Nat.{pow-suc}
use invari_os.Base.Lists.{length, length-append}
use invari_os.Base.Tests.{ltb, if◌then◌else◌}

unfoldable pub digit : ℕ → ℕ
digit d = if ltb d 10 then d + b'0' else d - 10 + b'A'

-- The `w` low digits of `n`, highest first.
unfoldable pub hex : ℕ → ℕ → List ℕ
hex zero n = []
hex (suc w) n = hex w (n / 16) ++ (digit (n % 16) ∷ [])

digit_value : ℕ → ℕ
digit_value c = if ltb c b'A' then c - b'0' else c - b'A' + 10

-- The number that a numeral denotes.
pub value_from : ℕ → List ℕ → ℕ
value_from acc [] = acc
value_from acc (c ∷ s) = value_from (acc * 16 + digit_value c) s

digit_value-digit : (d : ℕ) → d < 16 → digit_value (digit d) ≡ d
unfolding digit digit_value
digit_value-digit d h = ground arith

value_from-append :
    (acc : ℕ) (s t : List ℕ) → value_from acc (s ++ t) ≡ value_from (value_from acc s) t
unfolding value_from
value_from-append acc [] t = refl
value_from-append acc (c ∷ s) t = value_from-append (acc * 16 + digit_value c) s t

last_digit : (acc d : ℕ) → d < 16 → value_from acc (digit d ∷ []) ≡ acc * 16 + d
unfolding value_from
last_digit acc d h = omega (arith, digit_value-digit d h)

pub value_from-hex : (w n acc : ℕ) → n < 16 ^ w → value_from acc (hex w n) ≡ acc * 16 ^ w + n
unfolding hex
value_from-hex zero n acc h = unfold value_from in omega arith
value_from-hex (suc w) n acc h = omega (
  arith,
  pow-suc 16 w,
  value_from-append acc (hex w (n / 16)) (digit (n % 16) ∷ []),
  value_from-hex w (n / 16) acc (omega (arith, pow-suc 16 w)),
  last_digit (value_from acc (hex w (n / 16))) (n % 16) (omega arith),
  ap (λ (t : ℕ). acc * t) (pow-suc 16 w),
)

pub length-hex : (w n : ℕ) → length (hex w n) ≡ w
unfolding hex
length-hex zero n = refl
length-hex (suc w) n =
    omega (arith, length-append (hex w (n / 16)) (digit (n % 16) ∷ []), length-hex w (n / 16))

-- Numerals of one width are equal only for equal numbers.
pub hex_injective : (w m n : ℕ) → m < 16 ^ w → n < 16 ^ w → hex w m ≡ hex w n → m ≡ n
hex_injective w m n hm hn e =
    omega (arith, value_from-hex w m 0 hm, value_from-hex w n 0 hn, ap (value_from 0) e)
