-- ===== src/Efi/Utf16/RoundTrip.antt =====
-- internal/efi/efi.go: decodeUTF16Z on UTF-16 with a final NUL.
use invari_os.Base.{
  ℕ, ◌+◌, ◌*◌, ◌/◌, ◌%◌, ◌<◌, ◌≡◌, refl, ap, ◌∙◌, List, [], ◌∷◌, ◌++◌, append_assoc, append-nil,
  All, All-append, arith, ok,
}
use invari_os.Base.Bytes.{le}
use invari_os.Efi.Utf16.{
  utf16_decode, encode_rune, utf16_encode, decode_utf16z_loop, decode_utf16z, IsRune, unit_bytes,
}

abbrev IsUnit : ℕ → Type 0
IsUnit u = (0 < u) × (u < 65536)

encode_rune-IsUnit : (r : ℕ) → IsRune r → All IsUnit (encode_rune r)
unfolding encode_rune
encode_rune-IsUnit r h = ground arith

utf16_decode-encode_rune :
    (r : ℕ) (us : List ℕ) → IsRune r → utf16_decode (encode_rune r ++ us) ≡ r ∷ utf16_decode us
unfolding utf16_decode encode_rune
utf16_decode-encode_rune r [] h = ground arith
utf16_decode-encode_rune r (u ∷ us) h = ground arith

utf16_decode-utf16_encode : (s : List ℕ) → All IsRune s → utf16_decode (utf16_encode s) ≡ s
unfolding utf16_encode
utf16_decode-utf16_encode [] h = unfold utf16_decode in refl
utf16_decode-utf16_encode (r ∷ rs) h =
    utf16_decode-encode_rune r (utf16_encode rs) h.0 ∙ ap (◌∷◌ r) (utf16_decode-utf16_encode rs h.1)

All-IsUnit : (s : List ℕ) → All IsRune s → All IsUnit (utf16_encode s)
unfolding utf16_encode
All-IsUnit [] h = tt
All-IsUnit (r ∷ rs) h =
    All-append IsUnit (encode_rune r) (utf16_encode rs) (encode_rune-IsUnit r h.0)
      (All-IsUnit rs h.1)

decode_loop-units :
    (us acc rest : List ℕ)
    → All IsUnit us
    → decode_utf16z_loop acc (unit_bytes us ++ (le 2 0 ++ rest)) ≡ ok (utf16_decode (acc ++ us))
unfolding decode_utf16z_loop
decode_loop-units [] acc rest h = rw append-nil
decode_loop-units (u ∷ us) acc rest (h, hs) =
    let same : u % 256 + 256 * (u / 256 % 256) ≡ u = omega arith in
    rw same
      (ground (arith, decode_loop-units us (acc ++ (u ∷ [])) rest hs, append_assoc acc (u ∷ []) us))

pub decode_utf16z-encode :
    (s rest : List ℕ)
    → All IsRune s
    → decode_utf16z (unit_bytes (utf16_encode s) ++ (le 2 0 ++ rest)) ≡ ok s
unfolding decode_utf16z
decode_utf16z-encode s rest h =
    decode_loop-units (utf16_encode s) [] rest (All-IsUnit s h)
    ∙ ap ok (utf16_decode-utf16_encode s h)
