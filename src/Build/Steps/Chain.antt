-- ===== src/Build/Steps/Chain.antt =====
-- cmd/build.go: the stages of runBuild, one behind the other, where they report no error.
use invari_os.Base.{some, Result, ok, err, >>=-eq-ok, ◌≡◌, ok_injective, sym, ap, ◌∙◌}
use invari_os.Base.Text.{Text, codes, under}
use invari_os.Ociimage.{push}
use invari_os.Ociimage
use invari_os.Release.OsRelease.{
  IsPlain, verify_osrel, os_release_version_id, os_release_version_id-os_release_for,
}
use invari_os.Release.OsRelease
use invari_os.Release.Agrees.{push_ref}
use invari_os.Build.Machine.{Host, Error, checked, for_image}
use invari_os.Build.Layout.{Options, new_build_layout}
use invari_os.Build.Prepare.{prepare, git_describe, build_invarios_binary}
use invari_os.Build.Images.{
  push_boot_image, install_systemd_boot, install_kernel, install_fsutils, install_ca_certificates,
}
use invari_os.Build.Uki.{build, verify_uki}
use invari_os.Build.Files.{copy_file, dir_mode, file_mode}
use invari_os.Build.Stage.{
  build_fat_image, build_iso, stage_esp, stage_dir, sdboot_name, uki_path, loader_name, loader_conf,
}
use invari_os.Build.{
  disk_out, Archiver, judged_text, fetch_openbao, write_initramfs, uki_config, uki_out, initrd_path,
  stage_rootfs, assemble, publish, read_version,
}
use invari_os.Build.Steps.{l, in_step-ok, step}
use invari_os.Build.Steps.Verified.{verify_opened-ok}

module _ (h : Host) (a : Archiver h.State) (o : Options) where
  for_image-ok :
      (p : Result Ociimage.Error (Unit {0}) × h.State) {t : h.State}
      → for_image h p ≡ (ok tt, t)
      → p ≡ (ok tt, t)
  for_image-ok (ok _, s) e = ap (λ q. (ok tt, q.1)) e
  for_image-ok (err x, s) e = absurd (cc (ap (λ p. p.0) e))

  stage_esp-ok :
      (sdboot_dir uki v : Text) (s t : h.State) {stage : Text}
      → stage_esp h (l h a o) sdboot_dir uki v s ≡ (ok stage, t)
      → stage ≡ stage_dir (l h a o)
  unfolding stage_esp
  stage_esp-ok sdboot_dir uki v s t e =
      let (_, s1, _, k1) =
        >>=-eq-ok (λ u. checked h (h.remove_all (stage_dir (l h a o)) u)) _ s e in
      let (_, s2, _, k2) =
        >>=-eq-ok
          (copy_file h (under sdboot_dir (codes "systemd-bootx64.efi"))
            (under (stage_dir (l h a o)) sdboot_name) file_mode)
          _ s1 k1 in
      let (_, s3, _, k3) =
        >>=-eq-ok (copy_file h uki (under (stage_dir (l h a o)) (uki_path v)) file_mode) _ s2 k2 in
      let (_, s4, _, k4) =
        >>=-eq-ok
          (λ u. checked h (h.mkdir_all (under (stage_dir (l h a o)) (codes "loader")) dir_mode u)) _
          s3 k3 in
      let (_, _, _, k5) =
        >>=-eq-ok
          (λ u.
            checked h
              (h.write_file (under (stage_dir (l h a o)) loader_name) loader_conf file_mode u))
          _ s4 k4 in
      sym (ok_injective Error (ap (λ p. p.0) k5))

  judged_version :
      (r : Result OsRelease.Error Text) {v : Text} → judged_text h a r ≡ ok v → r ≡ ok v
  judged_version (ok v) e = ap ok (ok_injective Error e)
  judged_version (err x) e = absurd (cc)

  pub read_version-ok :
      (release : Text) (s : h.State) {t : h.State} {v : Text}
      → read_version h a release s ≡ (ok v, t)
      → (os_release_version_id release ≡ ok v) × (s ≡ t)
  unfolding read_version
  read_version-ok release s e =
      (judged_version (os_release_version_id release) (ap (λ p. p.0) e), ap (λ p. p.1) e)

  pub stage_rootfs-ok :
      (s t : h.State) {tag : Text}
      → stage_rootfs h a o (l h a o) s ≡ (ok tag, t)
      → (sha : Text) × (s0 : h.State) × (s1 : h.State) × (s2 : h.State) × (s3 : h.State)
        × (git_describe h o.root s0 ≡ (ok (tag, sha), s1))
        × (build_invarios_binary h o (l h a o) tag sha s2 ≡ (ok tt, s3))
  unfolding stage_rootfs new_build_layout
  stage_rootfs-ok s t e =
      let (_, s0, _, k0) = step h a o "preparing build directories" (prepare h (l h a o)) _ s t e in
      let (described, s1, got, k1) =
        step h a o "determining version" (git_describe h o.root) _ s0 t k0 in
      let (_, s2, _, k2) =
        step h a o "fetching OpenBao"
          (fetch_openbao h a o.openbao_version (l h a o).downloads
            (under (l h a o).rootfs (codes "usr/bin/bao")))
          _ s1 t k1 in
      let (_, s3, linked, k3) =
        step h a o "building invarios binary"
          (build_invarios_binary h o (l h a o) described.0 described.1) _ s2 t k2 in
      let (_, s4, _, k4) =
        step h a o "installing kernel" (install_kernel h o (l h a o)) _ s3 t k3 in
      let (_, s5, _, k5) =
        step h a o "installing fsutils" (install_fsutils h o (l h a o)) _ s4 t k4 in
      let (_, _, _, k6) =
        step h a o "installing CA certificates" (install_ca_certificates h o (l h a o)) _ s5 t k5 in
      let same = ok_injective Error (ap (λ p. p.0) k6) in
      (
        described.1,
        s0,
        s1,
        s2,
        s3,
        got ∙ ap (λ x. (ok (x, described.1), s1)) same,
        ap (λ x. build_invarios_binary h o (l h a o) x described.1 s2) (sym same) ∙ linked,
      )

  pub assemble-ok :
      (release : Text) (s t : h.State) {sdboot_dir : Text}
      → assemble h a o (l h a o) release s ≡ (ok sdboot_dir, t)
      → (content : Text) × (h.osrel t (uki_out (l h a o)) ≡ ok (some (ok content)))
        × (verify_osrel (some content) ≡ ok tt)
  unfolding assemble verify_uki
  assemble-ok release s t e =
      let (sdboot, s1, _, k1) =
        step h a o "installing systemd-boot" (install_systemd_boot h o (l h a o)) _ s t e in
      let (_, s2, _, k2) =
        step h a o "writing os-release"
          (λ u.
            checked h
              (h.write_file (under (l h a o).rootfs (codes "etc/os-release")) release file_mode u))
          _ s1 t k1 in
      let (_, s3, _, k3) =
        step h a o "building initramfs"
          (write_initramfs h a (l h a o).rootfs (initrd_path (l h a o))) _ s2 t k2 in
      let (_, s4, _, k4) =
        step h a o "building UKI" (build h (uki_config (l h a o) sdboot release)) _ s3 t k3 in
      let (_, s5, verified, k5) =
        step h a o "verifying UKI" (verify_uki h (uki_out (l h a o))) _ s4 t k4 in
      let (content, section, good) =
        verify_opened-ok h a o (h.osrel s4 (uki_out (l h a o))) (ap (λ p. p.0) verified) in
      let same = ap (λ p. p.1) verified ∙ ap (λ p. p.1) k5 in
      (content, ap (λ u. h.osrel u (uki_out (l h a o))) (sym same) ∙ section, good)

  pub publish-ok :
      (sdboot_dir v : Text) (s t : h.State)
      → publish h a o (l h a o) sdboot_dir v s ≡ (ok tt, t)
      → (s1 : h.State) × (s2 : h.State) × (s3 : h.State) × (stage_esp h
            (l h a o)
            sdboot_dir
            (uki_out (l h a o))
            v
            s
          ≡ (ok (stage_dir (l h a o)), s1))
        × (push h.registry
              (push_ref o.push_repo v o.arch)
              o.arch
              (stage_dir (l h a o))
              o.insecure
              s1
            ≡ (ok tt, s2))
        × (build_fat_image h (disk_out (l h a o)) (stage_dir (l h a o)) s2 ≡ (ok tt, s3))
        × (build_iso h (l h a o) (stage_dir (l h a o)) s3 ≡ (ok tt, t))
  unfolding publish push_boot_image
  publish-ok sdboot_dir v s t e =
      let (stage, s1, staged, k1) =
        step h a o "staging ESP contents" (stage_esp h (l h a o) sdboot_dir (uki_out (l h a o)) v) _
          s t e in
      let (_, s2, pushed, k2) =
        step h a o "pushing boot image" (push_boot_image h o stage v) _ s1 t k1 in
      let (_, s3, disk, k3) =
        step h a o "building EFI boot disk" (build_fat_image h (disk_out (l h a o)) stage) _ s2 t
          k2 in
      let at = stage_esp-ok sdboot_dir (uki_out (l h a o)) v s s1 staged in
      let sent =
        for_image-ok (push h.registry (push_ref o.push_repo v o.arch) o.arch stage o.insecure s1)
          pushed in
      let iso = in_step-ok h a o "building ISO" (build_iso h (l h a o) stage) s3 k3 in
      (
        s1,
        s2,
        s3,
        staged ∙ ap (λ d. (ok d, s1)) at,
        ap (λ d. push h.registry (push_ref o.push_repo v o.arch) o.arch d o.insecure s1) (sym at)
            ∙ sent,
        ap (λ d. build_fat_image h (disk_out (l h a o)) d s2) (sym at) ∙ disk,
        ap (λ d. build_iso h (l h a o) d s3) (sym at) ∙ iso,
      )
