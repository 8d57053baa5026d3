-- ===== src/Base/Text.antt =====
-- Texts as lists of code points: what the package strings does to them.
use Prim.Native.Nat.{ℕ}
use Prim.Native.Char.{code}
use Prim.Native.String.{String}
use mathlib.Core.Path.{◌≡◌, refl, ap}
use mathlib.Core.Bool.{Bool, true, false, ◌&&◌, ◌||◌}
use mathlib.Core.Option.{Option, none, some}
use mathlib.Core.List.{List, [], ◌∷◌, ◌++◌}
use native.Mathlib.Omega.{arith}
use invari_os.Base.Lists.{All}
use invari_os.Base.Tests.{leb, ◌==◌, if◌then◌else◌}

abbrev pub Text : Type 0
Text = List ℕ

abbrev pub codes : String → Text
codes String.[] = []
codes (String.◌∷◌ c s) = code c ∷ codes s

unfoldable pub same_text : Text → Text → Bool
same_text [] [] = true
same_text [] (y ∷ ys) = false
same_text (x ∷ xs) [] = false
same_text (x ∷ xs) (y ∷ ys) = x == y && same_text xs ys

pub same_text-eq : (a b : Text) → same_text a b ≡ true → a ≡ b
unfolding same_text
same_text-eq [] [] h = refl
same_text-eq [] (y ∷ ys) h = absurd (cc)
same_text-eq (x ∷ xs) [] h = absurd (cc)
same_text-eq (x ∷ xs) (y ∷ ys) h = ground (arith, same_text-eq xs ys)

pub same_text_refl : (a : Text) → same_text a a ≡ true
unfolding same_text
same_text_refl [] = refl
same_text_refl (x ∷ xs) = ground (arith, same_text_refl xs)

-- Adds a code point to the first of some pieces.
abbrev pub onto_first : ℕ → List Text → List Text
onto_first c [] = (c ∷ []) ∷ []
onto_first c (p ∷ ps) = (c ∷ p) ∷ ps

-- strings.Split(text, "\n").
unfoldable pub lines : Text → List Text
lines [] = [] ∷ []
lines (c ∷ s) = if c == 10 then [] ∷ lines s else onto_first c (lines s)

-- A text on one line.
abbrev pub IsLine : Text → Type 0
IsLine s = All (λ c. (c == 10) ≡ false) s

pub lines-line : (s t : Text) → IsLine s → lines (s ++ (10 ∷ t)) ≡ s ∷ lines t
unfolding lines
lines-line [] t h = refl
lines-line (c ∷ s) t h = ground (arith, h.0, lines-line s t h.1)

-- unicode.IsSpace.
unfoldable pub is_space : ℕ → Bool
is_space c =
    (leb 9 c && leb c 13)
    || c == 0x20
    || c == 0x85
    || c == 0xa0
    || c == 0x1680
    || (leb 0x2000 c && leb c 0x200a)
    || c == 0x2028
    || c == 0x2029
    || c == 0x202f
    || c == 0x205f
    || c == 0x3000

-- strings.TrimLeftFunc, strings.TrimRightFunc and strings.TrimFunc.
unfoldable pub trim_left : (ℕ → Bool) → Text → Text
trim_left p [] = []
trim_left p (c ∷ s) = if p c then trim_left p s else c ∷ s

unfoldable pub all_of : (ℕ → Bool) → Text → Bool
all_of p [] = true
all_of p (c ∷ s) = p c && all_of p s

unfoldable pub trim_right : (ℕ → Bool) → Text → Text
unfolding all_of
trim_right p [] = []
trim_right p (c ∷ s) = if all_of p (c ∷ s) then [] else c ∷ trim_right p s

unfoldable pub trim : (ℕ → Bool) → Text → Text
unfolding trim_left trim_right
trim p s = trim_right p (trim_left p s)

unfoldable pub trim_space : Text → Text
unfolding trim is_space
trim_space s = trim is_space s

-- No code point that is trimmed.
abbrev pub Free : (ℕ → Bool) → Text → Type 0
Free p s = All (λ c. p c ≡ false) s

trim_right-Free : (p : ℕ → Bool) (s : Text) → Free p s → trim_right p s ≡ s
unfolding trim_right
trim_right-Free p [] h = refl
trim_right-Free p (c ∷ s) h = rw h.0 (ap (◌∷◌ c) (trim_right-Free p s h.1))

pub trim-Free : (p : ℕ → Bool) (s : Text) → Free p s → trim p s ≡ s
unfolding trim
trim-Free p [] h = unfold trim_right in refl
trim-Free p (c ∷ s) h = rw h.0 (trim_right-Free p (c ∷ s) h)

-- A first code point that is not trimmed stays.
pub trim-first :
    (p : ℕ → Bool) (c : ℕ) (s : Text) → p c ≡ false → trim p (c ∷ s) ≡ c ∷ trim_right p s
unfolding trim
trim-first p c s h = rw h (rw h refl)

-- strings.CutPrefix, `none` for a text without the prefix.
unfoldable pub cut_prefix : Text → Text → Option Text
cut_prefix [] s = some s
cut_prefix (p ∷ ps) [] = none
cut_prefix (p ∷ ps) (c ∷ s) = if p == c then cut_prefix ps s else none

pub cut_prefix-append : (p s : Text) → cut_prefix p (p ++ s) ≡ some s
unfolding cut_prefix
cut_prefix-append [] s = refl
cut_prefix-append (c ∷ p) s = ground (arith, cut_prefix-append p s)

-- filepath.Join of a clean directory and a clean relative path.
abbrev pub under : Text → Text → Text
under dir path = dir ++ (b'/' ∷ path)

-- What stands in front of the last slash, and whether there is one.
abbrev pub before_slash : Text → Option Text
before_slash [] = none
before_slash (c ∷ s) = elim (before_slash s) [
  | some d ↦ some (c ∷ d)
  | none ↦ if c == b'/' then some [] else none
]

-- filepath.Dir of a clean path that is neither a bare name nor an entry of the root.
abbrev pub dir_of : Text → Text
dir_of path = elim (before_slash path) [ none ↦ b'.' ∷ [] | some d ↦ d ]
