-- ===== src/Initramfs.antt =====
-- internal/initramfs/cpio.go: the newc archive that WriteCPIO makes of a directory tree.
pub mod Reader
pub mod Writes
pub mod RoundTrip
pub mod Archive
use Prim.Native.String.{String}
use invari_os.Base.{
  ℕ, zero, suc, ◌+◌, ◌-◌, ◌%◌, ◌^◌, Bool, true, false, Option, none, some, List, [], ◌∷◌, ◌++◌,
  Result, ok, err, M, bind, ◌>>=◌, ◌>>◌, ltb, leb, ◌==◌, if◌then◌else◌, length, replicate,
}
use invari_os.Base.Hex.{hex}

-- Where the archive goes: the gzip writer, as the bytes that it was given. `write` returns the
-- error, `none` for none.
pub record Sink : Type 1 where
  pub State : Type 0
  pub write : List ℕ → State → Option String × State
  pub content : State → List ℕ
  pub close : State → Option String × State

pub data Error : Type 0 where
  creating : String → Error
  creating_gzip : String → Error
  walking : String → Error
  inspecting : String → Error
  reading_symlink : String → Error
  opening_file : String → Error
  writing_data : String → Error
  size_changed : ℕ → ℕ → Error
  writing : String → Error
  closing : String → Error

abbrev pub type_directory : ℕ
type_directory = 0x4000

abbrev pub type_regular : ℕ
type_regular = 0x8000

abbrev pub type_symlink : ℕ
type_symlink = 0xa000

-- "070701".
abbrev pub newc_magic : List ℕ
newc_magic = b'0' ∷ b'7' ∷ b'0' ∷ b'7' ∷ b'0' ∷ b'1' ∷ []

-- "TRAILER!!!".
abbrev pub trailer_name : List ℕ
trailer_name = b'T' ∷ b'R' ∷ b'A' ∷ b'I' ∷ b'L' ∷ b'E' ∷ b'R' ∷ b'!' ∷ b'!' ∷ b'!' ∷ []

pub record Header : Type 0 where
  pub ino : ℕ
  pub mode : ℕ
  pub file_size : ℕ
  pub nlink : ℕ
  pub name_size : ℕ

-- An opened file: what reading it to the end brings, and the error that ends the reading early.
pub record Opened : Type 0 where
  pub bytes : List ℕ
  pub read_error : Option String

-- What Lstat says of a path, with Readlink or Open behind it. `size` is Lstat's.
pub data Node : Type 0 where
  symlink : Result String (List ℕ) → Node
  directory : Node
  regular : ℕ → Result String Opened → Node

-- `perm` is Mode().Perm(), nine bits.
pub record Info : Type 0 where
  pub perm : ℕ
  pub node : Node

-- The fields of the switch: type, size, and what stands for the data.
pub data Payload : Type 0 where
  nothing : Payload
  target : List ℕ → Payload
  file : Opened → Payload

pub record Plan : Type 0 where
  pub file_type : ℕ
  pub file_size : ℕ
  pub payload : Payload

unfoldable pub plan_of : Node → Result Error Plan
plan_of (symlink (err why)) = err (reading_symlink why)
plan_of (symlink (ok data_)) =
    ok (record {
      file_type = type_symlink;
      file_size = length data_ % 2 ^ 32;
      payload = target data_;
    })
plan_of directory = ok (record { file_type = type_directory; file_size = 0; payload = nothing })
plan_of (regular size (err why)) = err (opening_file why)
plan_of (regular size (ok f)) =
    ok (record { file_type = type_regular; file_size = size % 2 ^ 32; payload = file f })

abbrev pub header_fields : Header → List ℕ
header_fields h =
    h.ino ∷ h.mode ∷ 0 ∷ 0 ∷ h.nlink ∷ 0 ∷ h.file_size ∷ 0 ∷ 0 ∷ 0 ∷ 0 ∷ h.name_size ∷ 0 ∷ []

unfoldable pub hex_fields : List ℕ → List ℕ
hex_fields [] = []
hex_fields (f ∷ fs) = hex 8 f ++ hex_fields fs

unfoldable pub fixed_part : Header → List ℕ
unfolding hex_fields
fixed_part h = newc_magic ++ hex_fields (header_fields h)

-- (4 - n%4) % 4.
abbrev pub pad : ℕ → ℕ
pad n = (4 - n % 4) % 4

module _ (w : Sink) where
  abbrev pub Writing : Type 0
  Writing = M w.State Error (Unit {0})

  abbrev written : (String → Error) → Option String × w.State → Result Error (Unit {0}) × w.State
  written f (none, s) = (ok tt, s)
  written f (some why, s) = (err (f why), s)

  unfoldable pub emit : (String → Error) → List ℕ → Writing
  emit f b s = written f (w.write b s)

  unfoldable pub write_padding : ℕ → Writing
  unfolding emit
  write_padding n s =
      let rest = emit writing (replicate (pad n) 0) s in if ltb 0 (pad n) then rest else (ok tt, s)

  unfoldable pub write_header : Header → List ℕ → Writing
  unfolding emit fixed_part write_padding
  write_header h name = do
    emit writing (fixed_part h)
    emit writing (name ++ (0 ∷ []))
    write_padding ((length (fixed_part h) + h.name_size) % 2 ^ 32)

  -- The check behind io.Copy.
  unfoldable pub copied : ℕ → Opened → Writing
  copied file_size f s = elim f.read_error [
    | some why ↦ (err (writing_data why), s)
    | none ↦
        if length f.bytes % 2 ^ 32 == file_size
        then (ok tt, s)
        else (err (size_changed file_size (length f.bytes)), s)
  ]

  -- io.Copy writes nothing for an empty file.
  unfoldable pub write_payload : ℕ → Payload → Writing
  unfolding emit copied
  write_payload file_size nothing s = (ok tt, s)
  write_payload file_size (target []) s = (ok tt, s)
  write_payload file_size (target (x ∷ data_)) s = emit writing_data (x ∷ data_) s
  write_payload file_size (file f) s = elim f.bytes [
    | [] ↦ copied file_size f s
    | _ ∷ _ ↦ bind (emit writing_data f.bytes s) (λ _. copied file_size f)
  ]

  unfoldable pub write_planned : Info → List ℕ → ℕ → Plan → Writing
  unfolding write_header write_payload write_padding
  write_planned info name ino p = do
    write_header
        (record {
          ino = ino;
          mode = p.file_type + info.perm;
          file_size = p.file_size;
          nlink = 1;
          name_size = (length name + 1) % 2 ^ 32;
        })
        name
    write_payload p.file_size p.payload
    write_padding p.file_size

  unfoldable pub planned : Info → List ℕ → ℕ → Result Error Plan → Writing
  unfolding write_planned
  planned info name ino (err e) s = (err e, s)
  planned info name ino (ok p) s = write_planned info name ino p s

  unfoldable pub write_entry : Result String Info → List ℕ → ℕ → Writing
  unfolding planned plan_of
  write_entry (err why) name ino s = (err (inspecting why), s)
  write_entry (ok info) name ino s = planned info name ino (plan_of info.node) s

  unfoldable pub write_trailer : Writing
  unfolding write_header write_padding
  write_trailer = do
    write_header
        (record {
          ino = 0;
          mode = 0;
          file_size = 0;
          nlink = 0;
          name_size = (length trailer_name + 1) % 2 ^ 32;
        })
        trailer_name
    write_padding 0
