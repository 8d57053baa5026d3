-- ===== src/Openbao.antt =====
-- internal/openbao/fetch.go: the release archive, from the network to the installed binary.
pub mod Verified
use Prim.Native.String.{String, ◌++◌ as join}
use text.Mathlib.Text.{◌==◌ as str_eq}
use invari_os.Base.{
  ℕ, Bool, true, false, not, ◌&&◌, ◌||◌, Option, none, some, List, [], ◌∷◌, ◌++◌, Result, ok, err,
  M, bind, ◌>>=◌, ◌>>◌, ◌==◌, if◌then◌else◌,
}
use invari_os.Base.Text.{is_space, same_text, onto_first, lines}

-- What a GET brings: no response, another status than 200, or a body, with the error that ends it
-- early.
pub data Reply : Type 0 where
  no_reply : String → Reply
  status : ℕ → Reply
  body : List ℕ → Option String → Reply

-- An entry of the tar archive; `read_error` ends the reading of its content.
pub record TarEntry : Type 0 where
  pub is_regular : Bool
  pub base_name : String
  pub content : List ℕ
  pub read_error : Option String

-- The entries that tar.Reader gives, and the error that it ends with (none at the end of the
-- archive).
pub record Tar : Type 0 where
  pub entries : List TarEntry
  pub error : Option String

-- The files that there are, with their content.
abbrev pub Files : Type 0
Files = String → Option (List ℕ)

-- The network, the file system's errors, sha256 with hex.EncodeToString, and gzip with tar. A text
-- is a list of code points.
pub record World : Type 0 where
  pub get : String → Reply
  pub create_error : String → Option String
  pub close_error : String → Option String
  pub remove_error : String → Option String
  pub open_error : String → Option String
  pub sha256 : List ℕ → List ℕ
  pub untar : List ℕ → Result String Tar

pub data Error : Type 0 where
  getting : String → Error
  unexpected_status : ℕ → Error
  creating : String → Error
  copying : String → Error
  closing : String → Error
  reading : String → Error
  not_listed : Error
  checksum_mismatch : List ℕ → List ℕ → Error
  opening_gzip : String → Error
  reading_tar_entry : String → Error
  no_bao_binary : Error

abbrev pub put : String → Option (List ℕ) → Files → Files
put path b fs p = if str_eq p path then b else fs p

-- Pieces at white space, empty ones included.
unfoldable pub pieces : List ℕ → List (List ℕ)
pieces [] = [] ∷ []
pieces (c ∷ s) = if is_space c then [] ∷ pieces s else onto_first c (pieces s)

unfoldable pub filled : List (List ℕ) → List (List ℕ)
filled [] = []
filled ([] ∷ ps) = filled ps
filled ((c ∷ p) ∷ ps) = (c ∷ p) ∷ filled ps

-- strings.Fields.
unfoldable pub fields : List ℕ → List (List ℕ)
unfolding pieces filled
fields s = filled (pieces s)

-- The sum of a line for the archive.
unfoldable pub sum_in : List ℕ → List (List ℕ) → Option (List ℕ)
unfolding same_text
sum_in name (sum ∷ file ∷ []) = if same_text file name then some sum else none
sum_in name _ = none

unfoldable pub or_else : Option (List ℕ) → Option (List ℕ) → Option (List ℕ)
or_else none b = b
or_else (some a) b = some a

-- The first line for the archive counts.
unfoldable pub listed_sum : List ℕ → List (List ℕ) → Option (List ℕ)
unfolding sum_in fields or_else
listed_sum name [] = none
listed_sum name (line ∷ ls) = or_else (sum_in name (fields line)) (listed_sum name ls)

unfoldable pub is_bao : TarEntry → Bool
is_bao e = e.is_regular && str_eq e.base_name "bao"

-- The entry at which the loop stops.
unfoldable pub first_bao : List TarEntry → Option TarEntry
unfolding is_bao
first_bao [] = none
first_bao (e ∷ es) = if is_bao e then some e else first_bao es

module _ (w : World) where
  abbrev pub Fetching : Type 0
  Fetching = M Files Error (Unit {0})

  -- The error that io.Copy and then Close leave in `err`.
  unfoldable pub copy_error : Option String → Option String → Option Error
  copy_error (some why) c = some (copying why)
  copy_error none (some why) = some (closing why)
  copy_error none none = none

  -- An incomplete file is removed, unless that fails.
  unfoldable pub cleaned : String → List ℕ → Error → Option String → Fetching
  cleaned dest b e none fs = (err e, put dest none fs)
  cleaned dest b e (some why) fs = (err e, put dest (some b) fs)

  unfoldable pub finish : String → List ℕ → Option Error → Fetching
  unfolding cleaned
  finish dest b none fs = (ok tt, put dest (some b) fs)
  finish dest b (some e) fs = cleaned dest b e (w.remove_error dest) fs

  unfoldable pub created : String → List ℕ → Option Error → Option String → Fetching
  unfolding finish
  created dest b e (some why) fs = (err (creating why), fs)
  created dest b e none fs = finish dest b e fs

  unfoldable pub save : String → Reply → Fetching
  unfolding copy_error created
  save dest (no_reply why) fs = (err (getting why), fs)
  save dest (status code) fs = (err (unexpected_status code), fs)
  save dest (body b stop) fs =
      created dest b (copy_error stop (w.close_error dest)) (w.create_error dest) fs

  unfoldable pub download_if_missing : String → String → Fetching
  unfolding save
  download_if_missing url dest fs = elim (fs dest) [
    | some b ↦ (ok tt, fs)
    | none ↦ save dest (w.get url) fs
  ]

  -- os.ReadFile, and os.Open with a reading to the end.
  unfoldable pub read_file : String → Files → Result Error (List ℕ)
  read_file path fs = elim (fs path) [
    | none ↦ err (reading path)
    | some b ↦ elim (w.open_error path) [ none ↦ ok b | some why ↦ err (reading why) ]
  ]

  unfoldable pub compare_sum : List ℕ → Result Error (List ℕ) → Result Error (Unit {0})
  unfolding same_text
  compare_sum want (err e) = err e
  compare_sum want (ok b) =
      if same_text (w.sha256 b) want then ok tt else err (checksum_mismatch want (w.sha256 b))

  unfoldable pub check_sum :
      String → List ℕ → Files → Result Error (List ℕ) → Result Error (Unit {0})
  unfolding compare_sum listed_sum read_file lines
  check_sum archive_path archive_name fs (err e) = err e
  check_sum archive_path archive_name fs (ok sums) = elim (listed_sum archive_name (lines sums)) [
    | none ↦ err not_listed
    | some want ↦ compare_sum want (read_file archive_path fs)
  ]

  unfoldable pub verify_checksum : String → List ℕ → String → Files → Result Error (Unit {0})
  unfolding check_sum
  verify_checksum archive_path archive_name checksums_path fs =
      check_sum archive_path archive_name fs (read_file checksums_path fs)

  -- The errors of creating, of copying and of closing; what is read so far stays at the
  -- destination.
  unfoldable pub installing :
      String → List ℕ → Option String → Option String → Option String → Fetching
  installing dest b (some why) r c fs = (err (creating why), fs)
  installing dest b none (some why) c fs = (err (copying why), put dest (some b) fs)
  installing dest b none none (some why) fs = (err (closing why), put dest (some b) fs)
  installing dest b none none none fs = (ok tt, put dest (some b) fs)

  unfoldable pub install : String → TarEntry → Fetching
  unfolding installing
  install dest e = installing dest e.content (w.create_error dest) e.read_error (w.close_error dest)

  unfoldable pub no_entry : Option String → Error
  no_entry none = no_bao_binary
  no_entry (some why) = reading_tar_entry why

  unfoldable pub from_tar : String → Result String Tar → Fetching
  unfolding install no_entry first_bao
  from_tar dest (err why) fs = (err (opening_gzip why), fs)
  from_tar dest (ok tar) fs = elim (first_bao tar.entries) [
    | none ↦ (err (no_entry tar.error), fs)
    | some e ↦ install dest e fs
  ]

  unfoldable pub from_archive : String → Result Error (List ℕ) → Fetching
  unfolding from_tar
  from_archive dest (err e) fs = (err e, fs)
  from_archive dest (ok b) fs = from_tar dest (w.untar b) fs

  unfoldable pub extract_bao_binary : String → String → Fetching
  unfolding from_archive read_file
  extract_bao_binary archive_path dest fs = from_archive dest (read_file archive_path fs) fs

  -- `archive_name` is the name as a text, and `name` as a string.
  unfoldable pub fetch : String → List ℕ → String → String → String → Fetching
  unfolding download_if_missing verify_checksum extract_bao_binary
  fetch name archive_name base_url downloads_dir dest = do
    download_if_missing (join base_url (join "/" name)) (join downloads_dir (join "/" name))
    download_if_missing (join base_url "/checksums.txt") (join downloads_dir "/checksums.txt")
    λ fs. (
      verify_checksum (join downloads_dir (join "/" name)) archive_name
          (join downloads_dir "/checksums.txt") fs,
      fs,
    )
    extract_bao_binary (join downloads_dir (join "/" name)) dest
