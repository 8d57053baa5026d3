-- ===== src/Build/Steps.antt =====
-- cmd/build.go: labelled steps of a build that report no error.
pub mod Verified
pub mod Chain
use Prim.Native.String.{String}
use invari_os.Base.{
  ℕ, true, Bool-cases, Result-cases, inl, inr, All, if◌then◌else◌, Option, none, some, List, [],
  ◌∷◌, Result, ok, err, ◌>>=◌, >>=-eq-ok, ◌≡◌, ok_injective, refl, sym, ap, ◌∙◌, arith,
}
use invari_os.Base.Text.{Text, codes, under}
use invari_os.Ociimage.{push}
use invari_os.Ociimage
use invari_os.Release.OsRelease.{
  IsPlain, verify_osrel, os_release_version_id, os_release_version_id-os_release_for,
}
use invari_os.Release.OsRelease
use invari_os.Release.Agrees.{push_ref}
use invari_os.Build.Machine.{
  Host, Error, missing, not_executable, labelled, checked, in_step, Build, for_image,
}
use invari_os.Build.Layout.{Options, BuildLayout, new_build_layout}
use invari_os.Build.Prepare.{
  prepare, git_describe, build_invarios_binary, is_executable, executables, ca_bundle,
  verify_executables, verify_ca, verify_rootfs,
}
use invari_os.Build.Images.{
  push_boot_image, install_systemd_boot, install_kernel, install_fsutils, install_ca_certificates,
}
use invari_os.Build.Uki.{build, verify_uki, verify_opened, verify_section, judged}
use invari_os.Build.Files.{copy_file, dir_mode, file_mode}
use invari_os.Build.Stage.{
  build_fat_image, build_iso, stage_esp, stage_dir, sdboot_name, uki_path, loader_name, loader_conf,
}
use invari_os.Build.{
  disk_out, Archiver, judged_text, fetch_openbao, write_initramfs, uki_config, uki_out, initrd_path,
  stage_rootfs, assemble, publish, read_version,
}

module _ (h : Host) (a : Archiver h.State) (o : Options) where
  abbrev pub l : BuildLayout
  l = new_build_layout o.root

  labelled-ok :
      {A : Type 0} (label : String) (p : Result Error A × h.State) {t : h.State} {b : A}
      → labelled h label p ≡ (ok b, t)
      → p ≡ (ok b, t)
  labelled-ok label (ok c, s) e = e
  labelled-ok label (err x, s) e = absurd (cc (ap (λ p. p.0) e))

  pub in_step-ok :
      {A : Type 0} (label : String) (m : Build h A) (s : h.State) {t : h.State} {b : A}
      → in_step h label m s ≡ (ok b, t)
      → m s ≡ (ok b, t)
  in_step-ok label m s e = labelled-ok label (m s) e

  -- The first of two labelled steps.
  pub step :
      {A B : Type 0} (label : String) (m : Build h A) (f : A → Build h B) (s t : h.State) {b : B}
      → (in_step h label m >>= f) s ≡ (ok b, t)
      → (c : A) × (u : h.State) × (m s ≡ (ok c, u)) × (f c u ≡ (ok b, t))
  step label m f s t e =
      let (c, u, first, rest) = >>=-eq-ok (in_step h label m) f s e in
      (c, u, in_step-ok label m s first, rest)
