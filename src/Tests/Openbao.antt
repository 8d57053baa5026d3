-- ===== src/Tests/Openbao.antt =====
-- internal/openbao: a release of one file, whose sum is the text "5".
use Prim.Native.String.{◌++◌ as join}
use text.Mathlib.Text.{◌==◌ as str_eq}
use invari_os.Base.{ℕ, true, none, some, List, [], ◌∷◌, ok, err, if◌then◌else◌, ◌≡◌, refl}
use invari_os.Base.Text.{is_space, same_text, lines}
use invari_os.Openbao.{
  body, TarEntry, Files, World, copying, pieces, filled, fields, sum_in, or_else, listed_sum,
  is_bao, first_bao, copy_error, cleaned, finish, created, save, download_if_missing, read_file,
  compare_sum, check_sum, verify_checksum, installing, install, from_tar, from_archive,
  extract_bao_binary, fetch,
}
use invari_os.Openbao.Verified.{Verified, fetch-Verified, download_if_missing-absent}

abbrev entry : TarEntry
entry = record { is_regular = true; base_name = "bao"; content = 127 ∷ 69 ∷ []; read_error = none }

abbrev archive_name : List ℕ
archive_name = b't' ∷ b'g' ∷ b'z' ∷ []

abbrev pub world : World
world = record {
  get = λ url.
      if str_eq url "/checksums.txt"
      then body (b'5' ∷ b' ' ∷ b't' ∷ b'g' ∷ b'z' ∷ 10 ∷ []) none
      else if str_eq url "/tgz"
      then body (1 ∷ 2 ∷ []) none
      else body (1 ∷ []) (some "connection reset");
  create_error = λ path. none;
  close_error = λ path. none;
  remove_error = λ path. none;
  open_error = λ path. none;
  sha256 = λ b. b'5' ∷ [];
  untar = λ b. ok (record { entries = entry ∷ []; error = none });
}

abbrev no_files : Files
no_files path = none

abbrev fetched : Files
fetched = (fetch world "tgz" archive_name "" "/d" "/bao" no_files).1

fetch-succeeds : fetch world "tgz" archive_name "" "/d" "/bao" no_files ≡ (ok tt, fetched)
unfolding fetch download_if_missing save created finish cleaned copy_error verify_checksum check_sum
    compare_sum read_file listed_sum lines sum_in same_text or_else fields pieces filled is_space
    extract_bao_binary from_archive from_tar first_bao is_bao install installing
fetch-succeeds = refl

fetch-Verified_example :
    (s : Files) × (content : List ℕ) × (fetched "/bao" ≡ some content)
    × Verified world
        (join "/d" (join "/" "tgz"))
        (join "/d" "/checksums.txt")
        archive_name
        s
        content
fetch-Verified_example =
    fetch-Verified world "tgz" archive_name "" "/d" "/bao" no_files fetched fetch-succeeds

abbrev after_reset : Files
after_reset = (download_if_missing world "/other" "/f" no_files).1

download-fails :
    download_if_missing world "/other" "/f" no_files
    ≡ (err (copying "connection reset"), after_reset)
unfolding download_if_missing save created finish cleaned copy_error
download-fails = refl

download_if_missing-absent_example : after_reset "/f" ≡ none
download_if_missing-absent_example =
    download_if_missing-absent world "/f" no_files after_reset (copying "connection reset") refl
      "/other" refl download-fails
