-- ===== src/Tests/Efi.antt =====
-- Firmware variables in memory, and internal/efi at work on them.
use invari_os.Base.{
  ℕ, ◌≡◌, ◌≢◌, refl, ap, sym, ◌∙◌, List, [], ◌∷◌, ◌++◌, some, ok, Bool, true, false, ◌&&◌, ltb,
  ltb→lt, ◌==◌, length, ◌%◌, ◌^◌, if◌then◌else◌, All, arith, Bool-cases, inl, inr,
}
use invari_os.Base.Bytes.{IsByte, le}
use invari_os.Base.Hex.{hex, digit}
use invari_os.Efi.Utf16.{
  decode_utf16z_loop, utf16_decode, encode_rune, IsRune, unit_bytes, utf16_encode, decode_utf16z,
}
use invari_os.Efi.Utf16.RoundTrip.{decode_utf16z-encode}
use invari_os.Efi.LoadOption.{
  load_option_active, device_path, hard_drive_node, file_path_node, end_node, swap_guid_endian,
  unmarshal_length, unmarshal_description, GoUefi, Guid, Target, build_load_option,
  unmarshal_header,
}
use invari_os.Efi.LoadOption.Header.{unmarshal_header-build_load_option}
use invari_os.Efi.Vars.{
  get_boot_order, order_of, set_boot_order, write, marshal_boot_order, unmarshal_boot_order,
  boot_entry_name, EfiVars, EfiVarsLaws, Variable, entry, loader_entry_default, boot_order,
  boot_entry, Read, not_exist, read_failed, found, Stat, absent, present,
}
use invari_os.Efi.BootEntry.{
  choose_num, find_by_label, labelled, has_label, first_free_num, first_free_from, in_order, others,
  text_eq, ensure_boot_entry,
}
use invari_os.Efi.Vars.Order.{unmarshal_boot_order-marshal}
use invari_os.Efi.BootEntry.Ensure.{Ensured, ensure_boot_entry-Ensured, ensure_boot_entry_again}

abbrev all_bytes : List ℕ → Bool
all_bytes [] = true
all_bytes (x ∷ b) = ltb x 256 && all_bytes b

all_bytes-IsByte : (b : List ℕ) → all_bytes b ≡ true → All IsByte b
all_bytes-IsByte [] h = tt
all_bytes-IsByte (x ∷ b) h = ground (arith, ltb→lt x 256, all_bytes-IsByte b)

-- A store that gives out and takes bytes only.
abbrev pub Store : Type 0
Store = Variable → Read

abbrev checked : Read → Read
checked not_exist = not_exist
checked read_failed = read_failed
checked (found b) = if all_bytes b then found b else read_failed

abbrev same_text : List ℕ → List ℕ → Bool
same_text [] [] = true
same_text [] (y ∷ ys) = false
same_text (x ∷ xs) [] = false
same_text (x ∷ xs) (y ∷ ys) = x == y && same_text xs ys

same_text_eq : (xs ys : List ℕ) → same_text xs ys ≡ true → xs ≡ ys
same_text_eq [] [] h = refl
same_text_eq [] (y ∷ ys) h = absurd (cc)
same_text_eq (x ∷ xs) [] h = absurd (cc)
same_text_eq (x ∷ xs) (y ∷ ys) h = ground (arith, same_text_eq xs ys)

same_text_refl : (xs : List ℕ) → same_text xs xs ≡ true
same_text_refl [] = refl
same_text_refl (x ∷ xs) = ground (arith, same_text_refl xs)

abbrev same_variable : Variable → Variable → Bool
same_variable boot_order boot_order = true
same_variable loader_entry_default loader_entry_default = true
same_variable (entry a) (entry b) = same_text a b
same_variable _ _ = false

same_variable_eq : (v w : Variable) → same_variable v w ≡ true → v ≡ w
same_variable_eq boot_order boot_order h = refl
same_variable_eq boot_order loader_entry_default h = absurd (cc)
same_variable_eq boot_order (entry b) h = absurd (cc)
same_variable_eq loader_entry_default boot_order h = absurd (cc)
same_variable_eq loader_entry_default loader_entry_default h = refl
same_variable_eq loader_entry_default (entry b) h = absurd (cc)
same_variable_eq (entry a) boot_order h = absurd (cc)
same_variable_eq (entry a) loader_entry_default h = absurd (cc)
same_variable_eq (entry a) (entry b) h = ap entry (same_text_eq a b h)

same_variable_refl : (v : Variable) → same_variable v v ≡ true
same_variable_refl boot_order = refl
same_variable_refl loader_entry_default = refl
same_variable_refl (entry a) = same_text_refl a

abbrev set : Variable → Read → Store → Store
set v r s w = if same_variable w v then r else s w

abbrev presence : Read → Stat
presence not_exist = absent
presence read_failed = present
presence (found b) = present

abbrev pub memory : EfiVars
memory = record {
  Store = Store;
  get_var = λ s v. checked (s v);
  stat = λ s v. presence (s v);
  write_var = λ s v b. if all_bytes b then (true, set v (found b) s) else (false, s);
}

checked-IsByte : (r : Read) (b : List ℕ) → checked r ≡ found b → All IsByte b
checked-IsByte not_exist b h = absurd (cc)
checked-IsByte read_failed b h = absurd (cc)
checked-IsByte (found a) b h = split (all_bytes a) refl h
  where
    split :
        (c : Bool) → all_bytes a ≡ c → (if c then found a else read_failed) ≡ found b → All IsByte b
    split true e k = all_bytes-IsByte b (let same : a ≡ b = cc in ap all_bytes (sym same) ∙ e)
    split false e k = absurd (cc)

set_other : (v w : Variable) (r : Read) (s : Store) → w ≢ v → set v r s w ≡ s w
set_other v w r s differs = elim (Bool-cases (same_variable w v)) [
  | inl same ↦ absurd (differs (same_variable_eq w v same))
  | inr other ↦ rw other
]

written :
    (v : Variable) (b : List ℕ) (s t : Store) (c : Bool)
    → all_bytes b ≡ c
    → ◌≡◌ {A = Bool × Store} (if c then (true, set v (found b) s) else (false, s)) (true, t)
    → (all_bytes b ≡ true) × (t ≡ set v (found b) s)
written v b s t true e h = (e, cc)
written v b s t false e h = absurd (cc (ap (λ x. x.0) h))

memory-EfiVarsLaws : EfiVarsLaws memory
memory-EfiVarsLaws = record {
  get_var-IsByte = λ s v b h. checked-IsByte (s v) b h;
  get_var-write_var = λ s v b t h.
      let (bytes, is) = written v b s t (all_bytes b) refl h in
      ap (λ f. checked (f v)) is ∙ rw (same_variable_refl v, bytes);
  get_var-write_var_other = λ s v w b t h k.
      let (bytes, is) = written v b s t (all_bytes b) refl h in
      ap (λ f. checked (f w)) is ∙ ap checked (set_other v w (found b) s k);
}

abbrev pub go_uefi : GoUefi
go_uefi = record {
  marshal_utf16_var = λ s. unit_bytes (utf16_encode s) ++ le 2 0;
  media_device_path = 4;
  hard_drive_device_path = 1;
  file_path_device_path = 4;
  end_of_hardware_device_path = 0x7f;
  no_new_device_path = 0xff;
  marshal_utf16_var_lem = λ s. refl;
}

abbrev pub guid : Guid
guid = record {
  g0 = 1;
  g1 = 2;
  g2 = 3;
  g3 = 4;
  g4 = 5;
  g5 = 6;
  g6 = 7;
  g7 = 8;
  g8 = 9;
  g9 = 10;
  g10 = 11;
  g11 = 12;
  g12 = 13;
  g13 = 14;
  g14 = 15;
  g15 = 16;
}

abbrev target : Target
target = record {
  part_number = 1;
  part_guid = guid;
  first_lba = 2048;
  last_lba = 657407;
  loader_path = 92 ∷ 69 ∷ 70 ∷ 73 ∷ [];
}

-- "ios", and a letter outside the basic plane.
abbrev label : List ℕ
label = 105 ∷ 111 ∷ 115 ∷ 0x1f600 ∷ []

label-IsRune : All IsRune label
label-IsRune = (ground arith, (ground arith, (ground arith, (ground arith, tt))))

-- Entries 0 and 1 exist, and the order lists 1 and a missing entry 5.
abbrev pub firmware : Store
firmware boot_order = found (1 ∷ 0 ∷ 5 ∷ 0 ∷ [])
firmware w = set (boot_entry 1) (found []) (set (boot_entry 0) (found []) (λ _. not_exist)) w

abbrev after_one : Store
after_one = (ensure_boot_entry memory go_uefi label target firmware).1

encoded_label_decoded :
    decode_utf16z (unit_bytes (utf16_encode label) ++ (le 2 0 ++ (7 ∷ []))) ≡ ok label
encoded_label_decoded = decode_utf16z-encode label (7 ∷ []) label-IsRune

one_succeeds : ensure_boot_entry memory go_uefi label target firmware ≡ (ok tt, after_one)
unfolding ensure_boot_entry get_boot_order order_of choose_num find_by_label labelled has_label
    first_free_num first_free_from in_order others set_boot_order write marshal_boot_order
    unmarshal_boot_order boot_entry boot_entry_name hex digit build_load_option device_path
    hard_drive_node file_path_node end_node swap_guid_endian unmarshal_header unmarshal_length
    unmarshal_description decode_utf16z decode_utf16z_loop utf16_decode utf16_encode encode_rune
    text_eq
one_succeeds = refl

two_succeeds :
    ensure_boot_entry memory go_uefi label target after_one
    ≡ (ok tt, (ensure_boot_entry memory go_uefi label target after_one).1)
unfolding ensure_boot_entry get_boot_order order_of choose_num find_by_label labelled has_label
    first_free_num first_free_from in_order others set_boot_order write marshal_boot_order
    unmarshal_boot_order boot_entry boot_entry_name hex digit build_load_option device_path
    hard_drive_node file_path_node end_node swap_guid_endian unmarshal_header unmarshal_length
    unmarshal_description decode_utf16z decode_utf16z_loop utf16_decode utf16_encode encode_rune
    text_eq
two_succeeds = refl

ensure_boot_entry-Ensured_example : Ensured memory go_uefi label target firmware after_one
ensure_boot_entry-Ensured_example =
    ensure_boot_entry-Ensured memory memory-EfiVarsLaws go_uefi label target firmware after_one
      one_succeeds

abbrev after_two : Store
after_two = (ensure_boot_entry memory go_uefi label target after_one).1

ensure_boot_entry_again_example :
    memory.get_var after_two boot_order ≡ memory.get_var after_one boot_order
ensure_boot_entry_again_example =
    ensure_boot_entry_again memory memory-EfiVarsLaws go_uefi label target firmware after_one
      after_two label-IsRune one_succeeds two_succeeds boot_order

unmarshal_header-build_load_option_example :
    unmarshal_header (build_load_option go_uefi label target)
    ≡ ok (record {
      attributes = load_option_active;
      file_path_list_length = length (device_path go_uefi target) % 2 ^ 16;
      description = label;
    })
unmarshal_header-build_load_option_example =
    unmarshal_header-build_load_option go_uefi label target label-IsRune

unmarshal_boot_order-marshal_example :
    unmarshal_boot_order (marshal_boot_order (1 ∷ 0xfffe ∷ [])) ≡ some (1 ∷ 0xfffe ∷ [])
unmarshal_boot_order-marshal_example =
    unmarshal_boot_order-marshal (1 ∷ 0xfffe ∷ []) (ground arith, (ground arith, tt))

-- Entries 0 and 1 are taken, so 2 is the lowest free number.
firmware-choose_num : choose_num memory go_uefi (1 ∷ 5 ∷ []) label firmware ≡ (ok 2, firmware)
unfolding choose_num find_by_label labelled has_label first_free_num first_free_from in_order
    boot_entry boot_entry_name hex digit unmarshal_header
firmware-choose_num = refl
