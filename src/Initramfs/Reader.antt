-- ===== src/Initramfs/Reader.antt =====
-- The newc format from its reader's side, as the kernel's documentation describes it: what one entry
-- of an archive stands for.
use invari_os.Base.{
  ℕ, zero, suc, ◌+◌, ◌-◌, ◌*◌, ◌%◌, ◌^◌, ◌<◌, Bool, true, false, ◌&&◌, ◌==◌, Option, none, some,
  List, [], ◌∷◌, ◌++◌, append_assoc, if◌then◌else◌, length, replicate, take, drop, All,
  length-append, length-replicate, take-length_append, drop-length_append, ◌≡◌, refl, sym, ap, ◌∙◌,
  arith,
}
use mathlib.Core.Path.{ap₂}
use invari_os.Base.Hex.{hex, value_from, value_from-hex, length-hex}
use invari_os.Initramfs.{Header, header_fields, hex_fields, fixed_part, pad}

pub record Member : Type 0 where
  pub ino : ℕ
  pub mode : ℕ
  pub nlink : ℕ
  pub name : List ℕ
  pub data_ : List ℕ

-- Whether a list starts with a text.
abbrev starts : List ℕ → List ℕ → Bool
starts [] b = true
starts (x ∷ p) [] = false
starts (x ∷ p) (y ∷ b) = x == y && starts p b

read_fields : ℕ → List ℕ → List ℕ
read_fields zero b = []
read_fields (suc n) b = value_from 0 (take 8 b) ∷ read_fields n (drop 8 b)

-- The six characters 070701.
abbrev magic : List ℕ
magic = 0x30 ∷ 0x37 ∷ 0x30 ∷ 0x37 ∷ 0x30 ∷ 0x31 ∷ []

-- The bytes up to the next multiple of four: 3 n + n is one.
abbrev pub up_to_4 : ℕ → ℕ
up_to_4 n = 3 * n % 4

-- The entry whose fields are read and whose name and data come next, and what follows it.
member_of : List ℕ → List ℕ → Option (Member × List ℕ)
member_of (ino ∷ mode ∷ _ ∷ _ ∷ nlink ∷ _ ∷ file_size ∷ _ ∷ _ ∷ _ ∷ _ ∷ name_size ∷ _ ∷ []) b =
    let body = drop (name_size + up_to_4 (110 + name_size)) b in
    some (
      record {
        ino = ino;
        mode = mode;
        nlink = nlink;
        name = take (name_size - 1) b;
        data_ = take file_size body;
      },
      drop (file_size + up_to_4 file_size) body,
    )
member_of _ b = none

pub read_entry : List ℕ → Option (Member × List ℕ)
unfolding member_of read_fields
read_entry b = if starts magic b then member_of (read_fields 13 (drop 6 b)) (drop 110 b) else none

-- The bytes of one entry.
abbrev pub entry_bytes : Header → List ℕ → List ℕ → List ℕ
entry_bytes h name data_ =
    fixed_part h
    ++ ((name ++ (0 ∷ []))
        ++ (replicate (pad (110 + h.name_size)) 0 ++ (data_ ++ replicate (pad h.file_size) 0)))

take-append : (n : ℕ) (xs ys : List ℕ) → length xs ≡ n → take n (xs ++ ys) ≡ xs
take-append n xs ys e = ap (λ k. take k (xs ++ ys)) (sym e) ∙ take-length_append xs ys

drop-append : (n : ℕ) (xs ys : List ℕ) → length xs ≡ n → drop n (xs ++ ys) ≡ ys
drop-append n xs ys e = ap (λ k. drop k (xs ++ ys)) (sym e) ∙ drop-length_append xs ys

length-hex_fields : (fs : List ℕ) → length (hex_fields fs) ≡ 8 * length fs
unfolding hex_fields
length-hex_fields [] = refl
length-hex_fields (f ∷ fs) =
    omega (arith, length-append (hex 8 f) (hex_fields fs), length-hex 8 f, length-hex_fields fs)

pub length-fixed_part : (h : Header) → length (fixed_part h) ≡ 110
unfolding fixed_part
length-fixed_part h = omega (arith, length-hex_fields (header_fields h))

read_fields-hex_fields :
    (fs rest : List ℕ)
    → All (λ f. f < 2 ^ 32) fs
    → read_fields (length fs) (hex_fields fs ++ rest) ≡ fs
unfolding read_fields hex_fields
read_fields-hex_fields [] rest h = refl
read_fields-hex_fields (f ∷ fs) rest (h, hs) =
    let assoc = append_assoc (hex 8 f) (hex_fields fs) rest in
    let first : value_from 0 (take 8 ((hex 8 f ++ hex_fields fs) ++ rest)) ≡ f =
      ap (λ b. value_from 0 (take 8 b)) assoc
      ∙ ap (value_from 0) (take-append 8 (hex 8 f) (hex_fields fs ++ rest) (length-hex 8 f))
      ∙ value_from-hex 8 f 0 (omega arith)
      ∙ omega arith in
    let others : read_fields (length fs) (drop 8 ((hex 8 f ++ hex_fields fs) ++ rest)) ≡ fs =
      ap (λ b. read_fields (length fs) (drop 8 b)) assoc
      ∙ ap (read_fields (length fs))
          (drop-append 8 (hex 8 f) (hex_fields fs ++ rest) (length-hex 8 f))
      ∙ read_fields-hex_fields fs rest hs in
    ap₂ ◌∷◌ first others

module _ (h : Header) (name data_ rest : List ℕ) (name_fits : h.name_size ≡ length name + 1)
    (data_fits : h.file_size ≡ length data_) where
  abbrev zeros_after_name : List ℕ
  zeros_after_name = replicate (pad (110 + h.name_size)) 0

  abbrev zeros_after_data : List ℕ
  zeros_after_data = replicate (pad h.file_size) 0

  -- What stands behind the 110 bytes, grouped as the reader takes it apart.
  abbrev tail : List ℕ
  tail = ((name ++ (0 ∷ [])) ++ zeros_after_name) ++ (data_ ++ (zeros_after_data ++ rest))

  regroup : entry_bytes h name data_ ++ rest ≡ fixed_part h ++ tail
  regroup = search (append_assoc)

  name_there : take (h.name_size - 1) tail ≡ name
  name_there =
      let behind = data_ ++ (zeros_after_data ++ rest) in
      ap (take (h.name_size - 1)) (
        append_assoc (name ++ (0 ∷ [])) zeros_after_name behind
        ∙ append_assoc name (0 ∷ []) (zeros_after_name ++ behind))
      ∙ take-append (h.name_size - 1) name ((0 ∷ []) ++ (zeros_after_name ++ behind)) (omega arith)

  data_there :
      drop (h.name_size + up_to_4 (110 + h.name_size)) tail ≡ data_ ++ (zeros_after_data ++ rest)
  data_there =
      drop-append (h.name_size + up_to_4 (110 + h.name_size))
        ((name ++ (0 ∷ [])) ++ zeros_after_name) _
        (omega (
          arith,
          length-append (name ++ (0 ∷ [])) zeros_after_name,
          length-append name (0 ∷ []),
          length-replicate {A = ℕ} (pad (110 + h.name_size)) 0,
        ))

  rest_there : drop (h.file_size + up_to_4 h.file_size) (data_ ++ (zeros_after_data ++ rest)) ≡ rest
  rest_there =
      ap (drop (h.file_size + up_to_4 h.file_size)) (sym (append_assoc data_ zeros_after_data rest))
      ∙ drop-append (h.file_size + up_to_4 h.file_size) (data_ ++ zeros_after_data) rest (
          omega (
            arith,
            length-append data_ zeros_after_data,
            length-replicate {A = ℕ} (pad h.file_size) 0,
          ))

  abbrev pub member : Member
  member = record { ino = h.ino; mode = h.mode; nlink = h.nlink; name = name; data_ = data_ }

  body_there : member_of (header_fields h) tail ≡ some (member, rest)
  unfolding member_of
  body_there =
      rw (data_there, name_there, rest_there)
        (ap
          (λ d.
            some (
              record { ino = h.ino; mode = h.mode; nlink = h.nlink; name = name; data_ = d },
              rest,
            ))
          (take-append h.file_size data_ (zeros_after_data ++ rest) (sym data_fits)))

  -- Reading an entry gives its fields, its name and its data, and what follows it.
  pub read_entry-entry_bytes :
      All (λ f. f < 2 ^ 32) (header_fields h)
      → read_entry (entry_bytes h name data_ ++ rest) ≡ some (member, rest)
  unfolding read_entry fixed_part
  read_entry-entry_bytes small =
      let fields : read_fields 13 (drop 6 (fixed_part h ++ tail)) ≡ header_fields h =
        read_fields-hex_fields (header_fields h) tail small in
      let behind : drop 110 (fixed_part h ++ tail) ≡ tail =
        drop-append 110 (fixed_part h) tail (length-fixed_part h) in
      ap read_entry regroup ∙ ap₂ member_of fields behind ∙ body_there
