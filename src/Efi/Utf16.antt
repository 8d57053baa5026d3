-- ===== src/Efi/Utf16.antt =====
-- internal/efi/efi.go, decodeUTF16Z, and what it uses of unicode/utf16. A Go string is the list
-- of its code points.
pub mod RoundTrip
use Prim.Native.Nat.{ℕ, ◌+◌, ◌-◌, ◌*◌, ◌/◌, ◌%◌, ◌≤◌, ◌<◌}
use invari_os.Base.Bytes.{le}
use invari_os.Base.{
  Bool, true, false, ◌&&◌, ◌||◌, List, [], ◌∷◌, ◌++◌, ltb, leb, ◌==◌, if◌then◌else◌, Result, ok,
  err, ◌⊎◌,
}

pub data DecodeError : Type 0 where
  no_nul_terminator : DecodeError

abbrev pub replacement_char : ℕ
replacement_char = 0xfffd

-- A unit that stands for itself, and the two halves of a surrogate pair.
abbrev pub is_plain : ℕ → Bool
is_plain u = ltb u 0xd800 || leb 0xe000 u

abbrev pub is_high : ℕ → Bool
is_high u = leb 0xd800 u && ltb u 0xdc00

abbrev pub is_low : ℕ → Bool
is_low u = leb 0xdc00 u && ltb u 0xe000

-- utf16.Decode. A surrogate that stands alone becomes U+FFFD.
unfoldable pub utf16_decode : List ℕ → List ℕ
utf16_decode [] = []
utf16_decode (u ∷ []) = (if is_plain u then u else replacement_char) ∷ []
utf16_decode (u ∷ v ∷ us) =
    let pair = ((u - 0xd800) * 0x400 + (v - 0xdc00) + 0x10000) ∷ utf16_decode us in
    let single = (if is_plain u then u else replacement_char) ∷ utf16_decode (v ∷ us) in
    if is_high u && is_low v then pair else single

-- utf16.Encode of one rune, and of a string's runes.
unfoldable pub encode_rune : ℕ → List ℕ
encode_rune r =
    if ltb r 0xd800 || (leb 0xe000 r && ltb r 0x10000)
    then r ∷ []
    else if leb 0x10000 r && leb r 0x10ffff
    then (0xd800 + (r - 0x10000) / 0x400) ∷ (0xdc00 + (r - 0x10000) % 0x400) ∷ []
    else replacement_char ∷ []

unfoldable pub utf16_encode : List ℕ → List ℕ
utf16_encode [] = []
utf16_encode (r ∷ rs) = encode_rune r ++ utf16_encode rs

-- The loop of decodeUTF16Z; the list is what it has not read.
unfoldable pub decode_utf16z_loop : List ℕ → List ℕ → Result DecodeError (List ℕ)
decode_utf16z_loop units [] = err no_nul_terminator
decode_utf16z_loop units (x ∷ []) = err no_nul_terminator
decode_utf16z_loop units (x ∷ y ∷ b) =
    let u = x + 256 * y in
    let rest = decode_utf16z_loop (units ++ (u ∷ [])) b in
    if u == 0 then ok (utf16_decode units) else rest

unfoldable pub decode_utf16z : List ℕ → Result DecodeError (List ℕ)
unfolding decode_utf16z_loop
decode_utf16z b = decode_utf16z_loop [] b

-- Units as bytes, two each.
abbrev pub unit_bytes : List ℕ → List ℕ
unit_bytes [] = []
unit_bytes (u ∷ us) = le 2 u ++ unit_bytes us

-- A code point other than NUL and the surrogates: what a label or a path is made of.
abbrev pub IsRune : ℕ → Type 0
IsRune r = (0 < r) × ((r < 0xd800) ⊎ ((0xe000 ≤ r) × (r ≤ 0x10ffff)))
