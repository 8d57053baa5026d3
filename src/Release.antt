-- ===== src/Release.antt =====
-- internal/version and internal/bootimage: the name of a build, its os-release file and the
-- reference of its boot artifact.
pub mod OsRelease
pub mod Agrees
use invari_os.Base.{ℕ, ◌+◌, Bool, ◌&&◌, ◌||◌, List, [], ◌∷◌, ◌++◌, map, leb, ◌==◌, if◌then◌else◌}
use invari_os.Base.Text.{Text, codes, same_text}

-- What -ldflags -X sets: Name, Tag and SHA of internal/version, Repository and Insecure of
-- internal/bootimage.
pub record Baked : Type 0 where
  pub name : Text
  pub tag : Text
  pub sha : Text
  pub repository : Text
  pub insecure : Text

-- The values that stand in the source.
abbrev pub unset : Baked
unset = record {
  name = codes "InvariOS";
  tag = codes "none";
  sha = codes "none";
  repository = codes "ghcr.io/invarios/esp";
  insecure = codes "false";
}

unfoldable pub version : Baked → Text
version b = if same_text b.tag [] || same_text b.tag (codes "none") then b.sha else b.tag

pub short : Baked → Text
short b = b.name ++ (32 ∷ version b)

-- strings.ToLower on ASCII.
unfoldable pub to_lower : ℕ → ℕ
to_lower c = if leb b'A' c && leb c b'Z' then (c + 32) else c

-- strings.ReplaceAll(name, " ", "_").
unfoldable pub underscore : ℕ → ℕ
underscore c = if c == 32 then 95 else c

unfoldable pub os_release_id : Text → Text
unfolding to_lower underscore
os_release_id name = map to_lower (map underscore name)

-- The five lines of osReleaseTemplate.
unfoldable pub os_release_template : Text → Text → Text → Text
os_release_template name id v =
    (codes "NAME=\"" ++ (name ++ codes "\""))
    ++ (10
        ∷ ((codes "ID=" ++ id)
            ++ (10
                ∷ ((codes "VERSION_ID=" ++ v)
                    ++ (10
                        ∷ ((codes "PRETTY_NAME=\"" ++ (name ++ (codes " (" ++ (v ++ codes ")\""))))
                            ++ (10 ∷ (codes "HOME_URL=\"https://invarios.io/\"" ++ (10 ∷ [])))))))))

unfoldable pub os_release_for : Text → Text → Text
unfolding os_release_template os_release_id
os_release_for name v = os_release_template name (os_release_id name) v

pub os_release : Baked → Text
os_release b = os_release_for b.name (version b)

unfoldable pub tag : Text → Text → Text
tag v arch = v ++ (b'-' ∷ arch)

unfoldable pub ref : Baked → Text → Text → Text
unfolding tag
ref b v arch = b.repository ++ (b':' ∷ tag v arch)

pub insecure_bool : Baked → Bool
insecure_bool b = same_text b.insecure (codes "true")
