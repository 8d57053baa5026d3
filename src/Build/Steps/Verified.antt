-- ===== src/Build/Steps/Verified.antt =====
-- cmd/build.go: what verifyRootfs and verifyUKI have found where they report no error.
use Prim.Native.String.{String}
use invari_os.Base.{
  ℕ, true, Bool-cases, Result-cases, inl, inr, All, if◌then◌else◌, Option, none, some, List, [],
  ◌∷◌, Result, ok, err, >>=-eq-ok, ◌≡◌, refl, sym, ap, ◌∙◌, arith,
}
use invari_os.Base.Text.{Text, under}
use invari_os.Release.OsRelease.{
  IsPlain, verify_osrel, os_release_version_id, os_release_version_id-os_release_for,
}
use invari_os.Release.OsRelease
use invari_os.Build.Machine.{Host, Error, missing, not_executable}
use invari_os.Build.Layout.{Options}
use invari_os.Build.Prepare.{
  is_executable, executables, ca_bundle, verify_executables, verify_ca, verify_rootfs,
}
use invari_os.Build.Uki.{verify_opened, verify_section, judged}
use invari_os.Build.{Archiver}
use invari_os.Build.Steps.{l}

module _ (h : Host) (a : Archiver h.State) (o : Options) where
  verify_executables-ok :
      (rootfs : Text) (rels : List Text) (s : h.State)
      → verify_executables h rootfs rels s ≡ ok tt
      → All
          (λ rel.
            (mode : ℕ) × (h.stat s (under rootfs rel) ≡ ok mode) × (is_executable h mode ≡ true))
          rels
  unfolding verify_executables
  verify_executables-ok rootfs [] s e = tt
  verify_executables-ok rootfs (rel ∷ rels) s e =
      split (h.stat s (under rootfs rel)) refl e (verify_executables-ok rootfs rels s)
    where
      Found : Text → Type 0
      Found r = (mode : ℕ) × (h.stat s (under rootfs r) ≡ ok mode) × (is_executable h mode ≡ true)

      split :
          (r : Result String ℕ)
          → h.stat s (under rootfs rel) ≡ r
          → ◌≡◌ {A = Result Error (Unit {0})}
              (elim r [
                | err why ↦ err (missing rel why)
                | ok mode ↦
                    if is_executable h mode
                    then verify_executables h rootfs rels s
                    else err (not_executable rel)
              ])
              (ok tt)
          → (verify_executables h rootfs rels s ≡ ok tt → All Found rels)
          → All Found (rel ∷ rels)
      split (err why) at k later = absurd (cc)
      split (ok mode) at k later = elim (Bool-cases (is_executable h mode)) [
        | inl runs ↦ ((mode, at, runs), later (ground arith))
        | inr not ↦ absurd (ground arith)
      ]

  verify_ca-ok :
      (rootfs : Text) (s : h.State)
      → verify_ca h rootfs s ≡ ok tt
      → (mode : ℕ) × (h.stat s (under rootfs ca_bundle) ≡ ok mode)
  unfolding verify_ca
  verify_ca-ok rootfs s e = elim (Result-cases (h.stat s (under rootfs ca_bundle))) [
    | inl there ↦ there
    | inr (why, at) ↦
        let bad : verify_ca h rootfs s ≡ err (missing ca_bundle why) = rw (at, verify_ca) refl in
        absurd (cc (sym bad ∙ e))
  ]

  pub verify_rootfs-ok :
      (s : h.State) {t : h.State}
      → verify_rootfs h (l h a o) s ≡ (ok tt, t)
      → All
          (λ rel.
            (mode : ℕ) × (h.stat s (under (l h a o).rootfs rel) ≡ ok mode)
            × (is_executable h mode ≡ true))
          executables
        × ((mode : ℕ) × (h.stat s (under (l h a o).rootfs ca_bundle) ≡ ok mode))
        × (s ≡ t)
  unfolding verify_rootfs
  verify_rootfs-ok s e =
      let (_, u, first, second) =
        >>=-eq-ok (λ x. (verify_executables h (l h a o).rootfs executables x, x)) _ s e in
      let at : s ≡ u = ap (λ p. p.1) first in
      (
        verify_executables-ok (l h a o).rootfs executables s (ap (λ p. p.0) first),
        verify_ca-ok (l h a o).rootfs s
            (ap (λ x. verify_ca h (l h a o).rootfs x) at ∙ ap (λ p. p.0) second),
        at ∙ ap (λ p. p.1) second,
      )

  judged-ok : (r : Result OsRelease.Error (Unit {0})) → judged h r ≡ ok tt → r ≡ ok tt
  unfolding judged
  judged-ok (ok _) e = refl
  judged-ok (err x) e = absurd (cc)

  pub verify_opened-ok :
      (r : Result String (Option (Result String Text)))
      → verify_opened h r ≡ ok tt
      → (content : Text) × (r ≡ ok (some (ok content))) × (verify_osrel (some content) ≡ ok tt)
  unfolding verify_opened verify_section judged verify_osrel
  verify_opened-ok (err why) e = absurd (cc)
  verify_opened-ok (ok none) e = absurd (cc)
  verify_opened-ok (ok (some (err why))) e = absurd (cc)
  verify_opened-ok (ok (some (ok content))) e =
      (content, refl, judged-ok (verify_osrel (some content)) e)
