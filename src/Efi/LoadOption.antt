-- ===== src/Efi/LoadOption.antt =====
-- internal/efi/efi.go: swapGUIDEndian, buildLoadOption and loadOptionHeader.Unmarshal.
pub mod Header
use invari_os.Base.{
  ℕ, ◌+◌, ◌-◌, ◌%◌, ◌^◌, ◌<◌, ◌≡◌, List, [], ◌∷◌, ◌++◌, Option, none, some, Result, ok, err, length,
}
use invari_os.Base.Bytes.{le, read_le}
use invari_os.Efi.Utf16.{DecodeError, utf16_encode, unit_bytes, decode_utf16z}

-- What the file takes from github.com/foxboron/go-uefi: the device path type numbers, and
-- MarshalUtf16Var, which writes UTF-16LE with a final NUL.
pub record GoUefi : Type 0 where
  pub marshal_utf16_var : List ℕ → List ℕ
  pub media_device_path : ℕ
  pub hard_drive_device_path : ℕ
  pub file_path_device_path : ℕ
  pub end_of_hardware_device_path : ℕ
  pub no_new_device_path : ℕ
  pub marshal_utf16_var_lem :
      (s : List ℕ) → marshal_utf16_var s ≡ unit_bytes (utf16_encode s) ++ le 2 0

-- [16]byte.
pub record Guid : Type 0 where
  pub g0 : ℕ
  pub g1 : ℕ
  pub g2 : ℕ
  pub g3 : ℕ
  pub g4 : ℕ
  pub g5 : ℕ
  pub g6 : ℕ
  pub g7 : ℕ
  pub g8 : ℕ
  pub g9 : ℕ
  pub g10 : ℕ
  pub g11 : ℕ
  pub g12 : ℕ
  pub g13 : ℕ
  pub g14 : ℕ
  pub g15 : ℕ

unfoldable pub swap_guid_endian : Guid → Guid
swap_guid_endian g = record g {
  g0 = g.g3;
  g1 = g.g2;
  g2 = g.g1;
  g3 = g.g0;
  g4 = g.g5;
  g5 = g.g4;
  g6 = g.g7;
  g7 = g.g6;
}

-- g[:]
abbrev pub guid_bytes : Guid → List ℕ
guid_bytes g =
    g.g0 ∷ g.g1 ∷ g.g2 ∷ g.g3 ∷ g.g4 ∷ g.g5 ∷ g.g6 ∷ g.g7 ∷ g.g8 ∷ g.g9 ∷ g.g10 ∷ g.g11 ∷ g.g12
    ∷ g.g13 ∷ g.g14 ∷ g.g15 ∷ []

-- The arguments of buildLoadOption behind the label.
pub record Target : Type 0 where
  pub part_number : ℕ
  pub part_guid : Guid
  pub first_lba : ℕ
  pub last_lba : ℕ
  pub loader_path : List ℕ

abbrev pub load_option_active : ℕ
load_option_active = 1

abbrev gpt_partition_format : ℕ
gpt_partition_format = 2

abbrev gpt_signature_type : ℕ
gpt_signature_type = 2

abbrev hd_node_len : ℕ
hd_node_len = 4 + 38

-- lastLBA-firstLBA+1 on uint64.
abbrev pub lba_count : ℕ → ℕ → ℕ
lba_count first last = (last + 2 ^ 64 - first + 1) % 2 ^ 64

module _ (u : GoUefi) where
  -- The bytes of the buffer devicePath: the three nodes in turn.
  unfoldable pub hard_drive_node : Target → List ℕ
  hard_drive_node t =
      le 1 u.media_device_path
      ++ (le 1 u.hard_drive_device_path
          ++ (le 2 hd_node_len
              ++ (le 4 t.part_number
                  ++ (le 8 t.first_lba
                      ++ (le 8 (lba_count t.first_lba t.last_lba)
                          ++ (guid_bytes (swap_guid_endian t.part_guid)
                              ++ (gpt_partition_format ∷ gpt_signature_type ∷ [])))))))

  unfoldable pub file_path_node : Target → List ℕ
  file_path_node t =
      let path_bytes = u.marshal_utf16_var t.loader_path in
      le 1 u.media_device_path
      ++ (le 1 u.file_path_device_path ++ (le 2 (4 + length path_bytes) ++ path_bytes))

  unfoldable pub end_node : List ℕ
  end_node = le 1 u.end_of_hardware_device_path ++ (le 1 u.no_new_device_path ++ le 2 4)

  unfoldable pub device_path : Target → List ℕ
  device_path t = hard_drive_node t ++ (file_path_node t ++ end_node)

  unfoldable pub build_load_option : List ℕ → Target → List ℕ
  build_load_option label t =
      le 4 load_option_active
      ++ (le 2 (length (device_path t)) ++ (u.marshal_utf16_var label ++ device_path t))

pub record LoadOptionHeader : Type 0 where
  pub attributes : ℕ
  pub file_path_list_length : ℕ
  pub description : List ℕ

pub data HeaderError : Type 0 where
  short_attributes : HeaderError
  short_file_path_list_length : HeaderError
  bad_description : DecodeError → HeaderError

unfoldable pub unmarshal_description : ℕ → ℕ → List ℕ → Result HeaderError LoadOptionHeader
unmarshal_description attributes len b = elim (decode_utf16z b) [
  | err e ↦ err (bad_description e)
  | ok desc ↦
      ok (record { attributes = attributes; file_path_list_length = len; description = desc })
]

unfoldable pub unmarshal_length : ℕ → List ℕ → Result HeaderError LoadOptionHeader
unfolding unmarshal_description
unmarshal_length attributes b = elim (read_le 2 b) [
  | none ↦ err short_file_path_list_length
  | some (len, rest) ↦ unmarshal_description attributes len rest
]

-- loadOptionHeader.Unmarshal.
unfoldable pub unmarshal_header : List ℕ → Result HeaderError LoadOptionHeader
unfolding unmarshal_length
unmarshal_header b = elim (read_le 4 b) [
  | none ↦ err short_attributes
  | some (attributes, rest) ↦ unmarshal_length attributes rest
]
