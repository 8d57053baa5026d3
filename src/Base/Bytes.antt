-- ===== src/Base/Bytes.antt =====
-- Little-endian numbers of a fixed width, as encoding/binary writes and reads them.
use Prim.Native.Nat.{ℕ, zero, suc, ◌+◌, ◌*◌, ◌/◌, ◌%◌, ◌^◌, ◌<◌}
use mathlib.Core.Path.{◌≡◌, refl}
use mathlib.Core.List.{List, [], ◌∷◌, ◌++◌}
use mathlib.Core.Option
use mathlib.Core.Option.{Option, none, some}
use native.Mathlib.Omega.{arith}
use native.Mathlib.Nat.{pow-suc}
use invari_os.Base.Lists.{length, All}

abbrev pub IsByte : ℕ → Type 0
IsByte b = b < 256

-- The `w` low bytes of `n`.
abbrev pub le : ℕ → ℕ → List ℕ
le zero n = []
le (suc w) n = (n % 256) ∷ le w (n / 256)

-- binary.Read into an integer of `w` bytes: `none` is its error on a short buffer.
abbrev pub read_le : ℕ → List ℕ → Option (ℕ × List ℕ)
read_le zero b = some (0, b)
read_le (suc w) [] = none
read_le (suc w) (x ∷ b) = Option.map (λ p. (x + 256 * p.0, p.1)) (read_le w b)

pub read_le-le :
    (w n : ℕ) (rest : List ℕ) → n < 256 ^ w → read_le w (le w n ++ rest) ≡ some (n, rest)
read_le-le zero n rest h = ground arith
read_le-le (suc w) n rest h = ground (arith, pow-suc 256 w, read_le-le w (n / 256) rest)

pub length-le : (w n : ℕ) → length (le w n) ≡ w
length-le zero n = refl
length-le (suc w) n = omega (arith, length-le w (n / 256))

pub le-IsByte : (w n : ℕ) → All IsByte (le w n)
le-IsByte zero n = tt
le-IsByte (suc w) n = (omega arith, le-IsByte w (n / 256))
