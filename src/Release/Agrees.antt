-- ===== src/Release/Agrees.antt =====
-- cmd/build.go: the reference that the build pushes to and the name of the UKI; the values that a
-- binary is linked with.
use invari_os.Base.{Bool, true, false, [], ◌∷◌, ◌++◌, ◌≡◌, ◌≢◌, refl, arith, Bool-cases, inl, inr}
use invari_os.Base.Text.{Text, codes, IsLine, same_text, same_text-eq}
use invari_os.Release.{Baked, unset, version, tag, insecure_bool}

-- The verb %t.
abbrev pub bool_text : Bool → Text
bool_text true = codes "true"
bool_text false = codes "false"

-- The reference that pushBootImage pushes to.
unfoldable pub push_ref : Text → Text → Text → Text
unfolding tag
push_ref repository v arch = repository ++ (b':' ∷ tag v arch)

-- The name of the UKI on the ESP, for stageESP and for fetchBootArtifact.
pub uki_name : Text → Text
uki_name v = codes "invarios-" ++ (v ++ codes ".efi")

insecure_text : (b : Bool) → same_text (bool_text b) (codes "true") ≡ b
unfolding same_text
insecure_text true = refl
insecure_text false = refl

pub name-IsLine : IsLine unset.name
name-IsLine = ground arith

module _ (t sha repository : Text) (insecure : Bool) where
  -- A binary of these values, whose Name is left as it is.
  abbrev pub values : Baked
  values = record unset {
    tag = t;
    sha = sha;
    repository = repository;
    insecure = bool_text insecure;
  }

  pub version-values : t ≢ [] → t ≢ codes "none" → version values ≡ t
  unfolding version
  version-values named known = elim (Bool-cases (same_text t [])) [
    | inl e ↦ absurd (named (same_text-eq t [] e))
    | inr e ↦ elim (Bool-cases (same_text t (codes "none"))) [
      | inl f ↦ absurd (known (same_text-eq t (codes "none") f))
      | inr f ↦ rw e (rw f refl)
    ]
  ]

  pub insecure-values : insecure_bool values ≡ insecure
  unfolding insecure_bool
  insecure-values = insecure_text insecure
