-- ===== src/Efi/LoadOption/Header.antt =====
-- internal/efi/efi.go: loadOptionHeader.Unmarshal on what buildLoadOption wrote.
use invari_os.Base.{ℕ, ◌%◌, ◌^◌, ◌≡◌, List, ◌++◌, append_assoc, ok, length, All, arith}
use invari_os.Efi.Utf16.{IsRune, decode_utf16z}
use invari_os.Efi.Utf16.RoundTrip.{decode_utf16z-encode}
use invari_os.Efi.LoadOption.{
  GoUefi, Target, load_option_active, device_path, build_load_option, unmarshal_header,
}

module _ (u : GoUefi) where
  -- Reading the description of an entry gives the label, whatever follows it.
  decode-marshal :
      (label rest : List ℕ)
      → All IsRune label
      → decode_utf16z (u.marshal_utf16_var label ++ rest) ≡ ok label
  decode-marshal label rest h =
      rw (u.marshal_utf16_var_lem label, append_assoc) (decode_utf16z-encode label rest h)

  -- For a label of Unicode scalar values other than NUL, loadOptionHeader.Unmarshal of what
  -- buildLoadOption wrote returns the active attribute, the length of the device path modulo 2 ^
  -- 16, and the label.
  pub unmarshal_header-build_load_option :
      (label : List ℕ) (t : Target)
      → All IsRune label
      → unmarshal_header (build_load_option u label t)
        ≡ ok (record {
          attributes = load_option_active;
          file_path_list_length = length (device_path u t) % 2 ^ 16;
          description = label;
        })
  unfolding unmarshal_header build_load_option
  unmarshal_header-build_load_option label t h =
      ground (arith, decode-marshal label (device_path u t) h)
