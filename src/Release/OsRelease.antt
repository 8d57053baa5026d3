-- ===== src/Release/OsRelease.antt =====
-- cmd/build.go: hasOSReleaseKey, osReleaseVersionID and the test of .osrel in verifyUKI, on what
-- internal/version renders.
use invari_os.Base.{
  ℕ, Bool, true, false, Option, none, some, List, [], ◌∷◌, ◌++◌, Result, ok, err, ◌==◌, All,
  All-append, if◌then◌else◌, ◌≡◌, refl, ap, ◌∙◌, arith,
}
use invari_os.Base.Text.{
  Text, codes, lines, lines-line, IsLine, is_space, trim, trim-Free, trim-first, trim_space, Free,
  cut_prefix, cut_prefix-append,
}
use invari_os.Release.{os_release_for, os_release_id, to_lower, underscore}

pub data Error : Type 0 where
  version_id_not_found : Error
  no_section : Error
  no_id : Error
  no_version_id : Error

is_cut : Option Text → Bool
is_cut none = false
is_cut (some _) = true

unfoldable pub key_in : Text → List Text → Bool
unfolding is_cut
key_in prefix [] = false
key_in prefix (line ∷ ls) = if is_cut (cut_prefix prefix line) then true else key_in prefix ls

unfoldable pub has_os_release_key : Text → Text → Bool
unfolding key_in
has_os_release_key content key = key_in (key ++ (b'=' ∷ [])) (lines content)

is_quote : ℕ → Bool
is_quote c = c == b'"'

-- The first line with the prefix counts.
unfoldable pub first_value : List Text → Result Error Text
unfolding is_quote
first_value [] = err version_id_not_found
first_value (line ∷ ls) = elim (cut_prefix (codes "VERSION_ID=") (trim_space line)) [
  | none ↦ first_value ls
  | some v ↦ ok (trim is_quote v)
]

unfoldable pub os_release_version_id : Text → Result Error Text
unfolding first_value
os_release_version_id s = first_value (lines s)

-- What verifyUKI says of a section .osrel that it could read; `none` is a UKI without one.
unfoldable pub verify_osrel : Option Text → Result Error (Unit {0})
unfolding has_os_release_key
verify_osrel none = err no_section
verify_osrel (some content) =
    if has_os_release_key content (codes "ID")
    then (if has_os_release_key content (codes "VERSION_ID") then ok tt else err no_version_id)
    else err no_id

-- A version as git names them: no white space, and no quote.
abbrev pub IsPlain : Text → Type 0
IsPlain v = All (λ c. (is_space c ≡ false) × ((c == b'"') ≡ false)) v

space_of_newline : (c : ℕ) → is_space c ≡ false → (c == 10) ≡ false
unfolding is_space
space_of_newline c h = ground arith

IsPlain-IsLine : (v : Text) → IsPlain v → IsLine v
IsPlain-IsLine [] h = tt
IsPlain-IsLine (c ∷ v) h = (space_of_newline c h.0.0, IsPlain-IsLine v h.1)

IsPlain-spaces : (v : Text) → IsPlain v → Free is_space v
IsPlain-spaces [] h = tt
IsPlain-spaces (c ∷ v) h = (h.0.0, IsPlain-spaces v h.1)

IsPlain-quotes : (v : Text) → IsPlain v → Free is_quote v
unfolding is_quote
IsPlain-quotes [] h = tt
IsPlain-quotes (c ∷ v) h = (h.0.1, IsPlain-quotes v h.1)

lower_line : (c : ℕ) → (c == 10) ≡ false → (to_lower (underscore c) == 10) ≡ false
unfolding to_lower underscore
lower_line c h = ground arith

id-IsLine : (name : Text) → IsLine name → IsLine (os_release_id name)
unfolding os_release_id
id-IsLine [] h = tt
id-IsLine (c ∷ name) h = (lower_line c h.0, id-IsLine name h.1)

other_line :
    (c : ℕ) (s : Text) (ls : List Text)
    → is_space c ≡ false
    → (b'V' == c) ≡ false
    → first_value ((c ∷ s) ∷ ls) ≡ first_value ls
unfolding first_value trim_space cut_prefix
other_line c s ls h k = rw (trim-first is_space c s h, first_value) (rw (k, first_value) refl)

version_line :
    (v : Text) (ls : List Text) → IsPlain v → first_value ((codes "VERSION_ID=" ++ v) ∷ ls) ≡ ok v
unfolding first_value trim_space is_space
version_line v ls plain =
    let whole = trim-Free is_space (codes "VERSION_ID=" ++ v) (
      All-append (λ (c : ℕ). is_space c ≡ false) (codes "VERSION_ID=") v (ground arith)
        (IsPlain-spaces v plain)) in
    rw (whole, first_value)
      (rw (cut_prefix-append (codes "VERSION_ID=") v, first_value)
        (ap ok (trim-Free is_quote v (IsPlain-quotes v plain))))

module _ (name v : Text) (on_line : IsLine name) (plain : IsPlain v) where
  -- The lines of the file, up to the version's.
  first_lines :
      (rest : List Text) × (lines (os_release_for name v)
        ≡ (codes "NAME=\"" ++ (name ++ codes "\""))
          ∷ ((codes "ID=" ++ os_release_id name) ∷ ((codes "VERSION_ID=" ++ v) ∷ rest)))
  unfolding os_release_for
  first_lines =
      let tail =
        (codes "PRETTY_NAME=\"" ++ (name ++ (codes " (" ++ (v ++ codes ")\""))))
        ++ (10 ∷ (codes "HOME_URL=\"https://invarios.io/\"" ++ (10 ∷ []))) in
      let third = (codes "VERSION_ID=" ++ v) ++ (10 ∷ tail) in
      let second = (codes "ID=" ++ os_release_id name) ++ (10 ∷ third) in
      let IsL = λ (c : ℕ). (c == 10) ≡ false in
      (
        lines tail,
        lines-line (codes "NAME=\"" ++ (name ++ codes "\"")) second (
              All-append IsL (codes "NAME=\"") (name ++ codes "\"") (ground arith)
                (All-append IsL name (codes "\"") on_line (ground arith)))
            ∙ ap (◌∷◌ (codes "NAME=\"" ++ (name ++ codes "\""))) (
                lines-line (codes "ID=" ++ os_release_id name) third (
                  All-append IsL (codes "ID=") (os_release_id name) (ground arith)
                    (id-IsLine name on_line))
                ∙ ap (◌∷◌ (codes "ID=" ++ os_release_id name)) (
                    lines-line (codes "VERSION_ID=" ++ v) tail (
                      All-append IsL (codes "VERSION_ID=") v (ground arith)
                        (IsPlain-IsLine v plain)))),
      )

  -- The version that the build command reads back from the os-release file that it writes is the
  -- one that it put there, for every name on one line and every version without white space and
  -- quotes.
  pub os_release_version_id-os_release_for : os_release_version_id (os_release_for name v) ≡ ok v
  unfolding os_release_version_id is_space
  os_release_version_id-os_release_for =
      let ls = first_lines in
      let later = (codes "VERSION_ID=" ++ v) ∷ ls.0 in
      ap first_value ls.1
      ∙ other_line b'N' _ ((codes "ID=" ++ os_release_id name) ∷ later) refl refl
      ∙ other_line b'I' _ later refl refl
      ∙ version_line v ls.0 plain

  -- Such a file passes the test that verifyUKI makes of the section .osrel.
  pub verify_osrel-os_release_for : verify_osrel (some (os_release_for name v)) ≡ ok tt
  unfolding verify_osrel key_in cut_prefix
  verify_osrel-os_release_for =
      let ls = first_lines in
      let id_there = ap (key_in (codes "ID=")) ls.1 in
      let version_there = ap (key_in (codes "VERSION_ID=")) ls.1 in
      rw id_there (rw version_there refl)
