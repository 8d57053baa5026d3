-- ===== src/Openbao/Verified.antt =====
-- internal/openbao/fetch.go: what is checked of what Fetch installs, and what a failed download
-- leaves.
use Prim.Native.String.{String, ◌++◌ as join}
use mathlib.Core.Path.{subst}
use text.Mathlib.TextEquality.{eq_iff}
use invari_os.Base.{
  ℕ, Bool-cases, inl, inr, Option, none, some, List, Result, ok, err, >>=-eq-ok, ◌≡◌, refl, sym, ap,
  ◌∙◌, arith,
}
use invari_os.Base.Text.{same_text, lines, same_text-eq}
use invari_os.Openbao.{
  Reply, no_reply, status, body, TarEntry, Tar, Files, World, Error, not_listed, creating, put,
  listed_sum, first_bao, copy_error, cleaned, finish, created, getting, unexpected_status, save,
  download_if_missing, read_file, compare_sum, check_sum, verify_checksum, installing, install,
  no_entry, from_tar, from_archive, extract_bao_binary, fetch,
}

put-same : (path : String) (b : Option (List ℕ)) (fs : Files) → put path b fs path ≡ b
put-same path b fs = rw ((eq_iff path path).1 refl)

module _ (w : World) where
  -- The first regular file named bao in an archive whose sum is the one that is listed for it.
  pub record Verified (archive_path sums_path : String) (name : List ℕ) (s : Files)
      (content : List ℕ) : Type 0 where
    pub archive : List ℕ
    pub sums : List ℕ
    pub tar : Tar
    pub entry : TarEntry
    pub archive_there : s archive_path ≡ some archive
    pub sums_there : s sums_path ≡ some sums
    pub listed : listed_sum name (lines sums) ≡ some (w.sha256 archive)
    pub unpacked : w.untar archive ≡ ok tar
    pub first : first_bao tar.entries ≡ some entry
    pub complete : entry.read_error ≡ none
    pub content_is : content ≡ entry.content

  read_file-ok :
      (path : String) (fs : Files) (b : List ℕ) → read_file w path fs ≡ ok b → fs path ≡ some b
  unfolding read_file
  read_file-ok path fs b h = ground arith

  compare_sum-ok :
      (want : List ℕ) (r : Result Error (List ℕ))
      → compare_sum w want r ≡ ok tt
      → (b : List ℕ) × (r ≡ ok b) × (w.sha256 b ≡ want)
  unfolding compare_sum
  compare_sum-ok want (err e) h = absurd (cc)
  compare_sum-ok want (ok b) h = elim (Bool-cases (same_text (w.sha256 b) want)) [
    | inl same ↦ (b, refl, same_text-eq (w.sha256 b) want same)
    | inr other ↦ absurd (ground arith)
  ]

  sum-ok :
      (path : String) (fs : Files) (o : Option (List ℕ))
      → ◌≡◌ {A = Result Error (Unit {0})}
          (elim o [ none ↦ err not_listed | some want ↦ compare_sum w want (read_file w path fs) ])
          (ok tt)
      → (b : List ℕ) × (fs path ≡ some b) × (o ≡ some (w.sha256 b))
  sum-ok path fs none h = absurd (cc)
  sum-ok path fs (some want) h =
      let (b, read, same) = compare_sum-ok want (read_file w path fs) h in
      (b, read_file-ok path fs b read, ap some (sym same))

  verify_checksum-ok :
      (path sums_path : String) (name : List ℕ) (fs : Files)
      → verify_checksum w path name sums_path fs ≡ ok tt
      → (sums : List ℕ) × (b : List ℕ) × (fs sums_path ≡ some sums)
        × (fs path ≡ some b)
        × (listed_sum name (lines sums) ≡ some (w.sha256 b))
  unfolding verify_checksum check_sum
  verify_checksum-ok path sums_path name fs h = split (read_file w sums_path fs) refl h
    where
      split :
          (r : Result Error (List ℕ))
          → read_file w sums_path fs ≡ r
          → check_sum w path name fs r ≡ ok tt
          → (sums : List ℕ) × (b : List ℕ) × (fs sums_path ≡ some sums)
            × (fs path ≡ some b)
            × (listed_sum name (lines sums) ≡ some (w.sha256 b))
      split (err e) q k = absurd (cc)
      split (ok sums) q k =
          let (b, there, listed) = sum-ok path fs (listed_sum name (lines sums)) k in
          (sums, b, read_file-ok sums_path fs sums q, there, listed)

  installing-ok :
      (dest : String) (b : List ℕ) (a r c : Option String) (fs t : Files)
      → installing w dest b a r c fs ≡ (ok tt, t)
      → (r ≡ none) × (t dest ≡ some b)
  unfolding installing
  installing-ok dest b (some why) r c fs t h = absurd (cc (ap (λ x. x.0) h))
  installing-ok dest b none (some why) c fs t h = absurd (cc (ap (λ x. x.0) h))
  installing-ok dest b none none (some why) fs t h = absurd (cc (ap (λ x. x.0) h))
  installing-ok dest b none none none fs t h =
      (refl, ap (λ x. x.1 dest) (sym h) ∙ put-same dest (some b) fs)

  from_tar-ok :
      (dest : String) (r : Result String Tar) (fs t : Files)
      → from_tar w dest r fs ≡ (ok tt, t)
      → (tar : Tar) × (e : TarEntry) × (r ≡ ok tar)
        × (first_bao tar.entries ≡ some e)
        × (e.read_error ≡ none)
        × (t dest ≡ some e.content)
  unfolding from_tar install
  from_tar-ok dest (err why) fs t h = absurd (cc (ap (λ x. x.0) h))
  from_tar-ok dest (ok tar) fs t h = split (first_bao tar.entries) refl h
    where
      split :
          (o : Option TarEntry)
          → first_bao tar.entries ≡ o
          → ◌≡◌ {A = Result Error (Unit {0}) × Files}
              (elim o [ none ↦ (err (no_entry w tar.error), fs) | some e ↦ install w dest e fs ])
              (ok tt, t)
          → (u : Tar) × (e : TarEntry) × (◌≡◌ {A = Result String Tar} (ok tar) (ok u))
            × (first_bao u.entries ≡ some e)
            × (e.read_error ≡ none)
            × (t dest ≡ some e.content)
      split none q k = absurd (cc (ap (λ x. x.0) k))
      split (some e) q k =
          let (complete, there) =
            installing-ok dest e.content (w.create_error dest) e.read_error (w.close_error dest) fs
              t k in
          (tar, e, refl, q, complete, there)

  extract-ok :
      (path dest : String) (fs t : Files) (b : List ℕ)
      → fs path ≡ some b
      → extract_bao_binary w path dest fs ≡ (ok tt, t)
      → from_tar w dest (w.untar b) fs ≡ (ok tt, t)
  unfolding extract_bao_binary from_archive
  extract-ok path dest fs t b there h = split (read_file w path fs) refl h
    where
      split :
          (r : Result Error (List ℕ))
          → read_file w path fs ≡ r
          → from_archive w dest r fs ≡ (ok tt, t)
          → from_tar w dest (w.untar b) fs ≡ (ok tt, t)
      split (err e) q k = absurd (cc (ap (λ x. x.0) k))
      split (ok c) q k =
          let same : some c ≡ some b = sym (read_file-ok path fs c q) ∙ there in
          let equal : c ≡ b = cc in subst (λ x. from_tar w dest (w.untar x) fs ≡ (ok tt, t)) equal k

  -- If Fetch reports no error, then behind the two downloads there are an archive and a list of
  -- sums, the list gives the archive's own sha256 for its name, and what stands at the destination
  -- is the whole content of the first regular file named bao in that archive.
  pub fetch-Verified :
      (name : String) (archive_name : List ℕ) (base_url downloads_dir dest : String) (fs t : Files)
      → fetch w name archive_name base_url downloads_dir dest fs ≡ (ok tt, t)
      → (s : Files) × (content : List ℕ) × (t dest ≡ some content)
        × Verified
            (join downloads_dir (join "/" name))
            (join downloads_dir "/checksums.txt")
            archive_name
            s
            content
  unfolding fetch
  fetch-Verified name archive_name base_url downloads_dir dest fs t h =
      let path = join downloads_dir (join "/" name) in
      let sums_path = join downloads_dir "/checksums.txt" in
      let (_, s1, _, h1) =
        >>=-eq-ok (download_if_missing w (join base_url (join "/" name)) path) _ fs h in
      let (_, s2, _, h2) =
        >>=-eq-ok (download_if_missing w (join base_url "/checksums.txt") sums_path) _ s1 h1 in
      let (_, s3, checked, h3) =
        >>=-eq-ok (λ f. (verify_checksum w path archive_name sums_path f, f)) _ s2 h2 in
      let same : s2 ≡ s3 = ap (λ x. x.1) checked in
      let (sums, b, sums_there, archive_there, listed) =
        verify_checksum-ok path sums_path archive_name s2 (ap (λ x. x.0) checked) in
      let extracted = subst (λ f. extract_bao_binary w path dest f ≡ (ok tt, t)) (sym same) h3 in
      let (tar, e, unpacked, first, complete, there) =
        from_tar-ok dest (w.untar b) s2 t (extract-ok path dest s2 t b archive_there extracted) in
      (
        s2,
        e.content,
        there,
        record {
          archive = b;
          sums = sums;
          tar = tar;
          entry = e;
          archive_there = archive_there;
          sums_there = sums_there;
          listed = listed;
          unpacked = unpacked;
          first = first;
          complete = complete;
          content_is = refl;
        },
      )

  module _ (dest : String) (fs t : Files) (e : Error) (missing : fs dest ≡ none) where
    unchanged :
        (x : Error)
        → ◌≡◌ {A = Result Error (Unit {0}) × Files} (err x, fs) (err e, t)
        → t dest ≡ none
    unchanged x h = ap (λ p. p.1 dest) (sym h) ∙ missing

    cleaned-absent :
        (b : List ℕ) (x : Error) (r : Option String)
        → r ≡ none
        → cleaned w dest b x r fs ≡ (err e, t)
        → t dest ≡ none
    unfolding cleaned
    cleaned-absent b x none q h = ap (λ p. p.1 dest) (sym h) ∙ put-same dest none fs
    cleaned-absent b x (some why) q h = absurd (cc)

    created-absent :
        (b : List ℕ) (o : Option Error) (c : Option String)
        → w.remove_error dest ≡ none
        → created w dest b o c fs ≡ (err e, t)
        → t dest ≡ none
    unfolding created finish
    created-absent b o (some why) works h = unchanged (creating why) h
    created-absent b none none works h = absurd (cc (ap (λ p. p.0) h))
    created-absent b (some x) none works h = cleaned-absent b x (w.remove_error dest) works h

    save-absent :
        (r : Reply) → w.remove_error dest ≡ none → save w dest r fs ≡ (err e, t) → t dest ≡ none
    unfolding save
    save-absent (no_reply why) works h = unchanged (getting why) h
    save-absent (status code) works h = unchanged (unexpected_status code) h
    save-absent (body b stop) works h =
        created-absent b (copy_error w stop (w.close_error dest)) (w.create_error dest) works h

    -- If downloadIfMissing fails for a file that was not there, and the file system lets files be
    -- removed, then the file is still not there: a partial download is never taken for a cached
    -- one.
    pub download_if_missing-absent :
        (url : String)
        → w.remove_error dest ≡ none
        → download_if_missing w url dest fs ≡ (err e, t)
        → t dest ≡ none
    unfolding download_if_missing
    download_if_missing-absent url works h =
        save-absent (w.get url) works (sym (rw (missing, download_if_missing) refl) ∙ h)
