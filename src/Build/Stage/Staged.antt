-- ===== src/Build/Stage/Staged.antt =====
-- cmd/build.go: the tree that stageESP leaves, which is pushed and put on the images.
use invari_os.Base.{
  ℕ, none, some, List, [], ◌∷◌, ◌++◌, ok, >>=-eq-ok, ◌≡◌, ◌≢◌, sym, ap, ◌∙◌, arith,
}
use invari_os.Base.Text.{Text, codes, under}
use invari_os.Build.Machine.{Host, checked}
use invari_os.Build.Files.{copy_file, dir_mode, file_mode}
use invari_os.Build.Files.Copied.{FileLaws, checked-ok, copy_file-Copied}
use invari_os.Build.Layout.{BuildLayout}
use invari_os.Build.Stage.{stage_esp, stage_dir, sdboot_name, uki_path, loader_name, loader_conf}

-- A path that is neither the directory nor below it.
pub record Outside (d p : Text) : Type 0 where
  pub not_it : p ≢ d
  pub not_below : (r : Text) → p ≢ under d r

append_cancel : (d p q : Text) → d ++ p ≡ d ++ q → p ≡ q
append_cancel [] p q e = e
append_cancel (c ∷ d) p q e = append_cancel d p q (cc)

under-ne : (d p q : Text) → p ≢ q → under d p ≢ under d q
under-ne d p q differs e = let same = append_cancel d (b'/' ∷ p) (b'/' ∷ q) e in differs (cc)

-- The three names on the ESP differ, whatever the version is.
sdboot-uki : (v : Text) → sdboot_name ≢ uki_path v
sdboot-uki v e = absurd (ground arith)

loader-uki : (v : Text) → loader_name ≢ uki_path v
loader-uki v e = absurd (ground arith)

sdboot-loader : sdboot_name ≢ loader_name
sdboot-loader e = absurd (ground arith)

module _ (h : Host) (laws : FileLaws h) (l : BuildLayout) (sdboot_dir uki v : Text) where
  open laws use {file}

  abbrev pub boot_source : Text
  boot_source = under sdboot_dir (codes "systemd-bootx64.efi")

  -- Exactly three files: the boot loader, the UKI under its version's name, and loader.conf.
  pub record Staged (s t : h.State) : Type 0 where
    pub boot : List ℕ
    pub image : List ℕ
    pub boot_was : file s boot_source ≡ some boot
    pub image_was : file s uki ≡ some image
    pub boot_is : file t (under (stage_dir l) sdboot_name) ≡ some boot
    pub image_is : file t (under (stage_dir l) (uki_path v)) ≡ some image
    pub loader_is : file t (under (stage_dir l) loader_name) ≡ some loader_conf
    pub nothing_else :
        (q : Text)
        → q ≢ sdboot_name
        → q ≢ uki_path v
        → q ≢ loader_name
        → file t (under (stage_dir l) q) ≡ none

  -- Let stageESP report no error, over a file system that keeps FileLaws, for a boot loader and a
  -- UKI that stand outside its directory. Then the directory holds exactly three files: the boot
  -- loader at EFI/BOOT/BOOTX64.EFI and the UKI at EFI/Linux/invarios-<version>.efi, as they were
  -- before, and the text of loader.conf; whatever stood there before is gone.
  pub stage_esp-Staged :
      (s t : h.State) (d : Text)
      → Outside (stage_dir l) boot_source
      → Outside (stage_dir l) uki
      → stage_esp h l sdboot_dir uki v s ≡ (ok d, t)
      → Staged s t
  unfolding stage_esp
  stage_esp-Staged s t d boot_out uki_out e =
      let at_boot = under (stage_dir l) sdboot_name in
      let at_uki = under (stage_dir l) (uki_path v) in
      let at_loader = under (stage_dir l) loader_name in
      let (_, s1, swept, k1) = >>=-eq-ok (λ u. checked h (h.remove_all (stage_dir l) u)) _ s e in
      let (_, s2, first, k2) = >>=-eq-ok (copy_file h boot_source at_boot file_mode) _ s1 k1 in
      let (_, s3, second, k3) = >>=-eq-ok (copy_file h uki at_uki file_mode) _ s2 k2 in
      let (_, s4, made, k4) =
        >>=-eq-ok (λ u. checked h (h.mkdir_all (under (stage_dir l) (codes "loader")) dir_mode u)) _
          s3 k3 in
      let (_, s5, wrote, k5) =
        >>=-eq-ok (λ u. checked h (h.write_file at_loader loader_conf file_mode u)) _ s4 k4 in
      let removed = checked-ok h laws (h.remove_all (stage_dir l) s) s1 swept in
      let a = copy_file-Copied h laws boot_source at_boot file_mode s1 s2 first in
      let b = copy_file-Copied h laws uki at_uki file_mode s2 s3 second in
      let made_ok =
        checked-ok h laws (h.mkdir_all (under (stage_dir l) (codes "loader")) dir_mode s3) s4
          made in
      let wrote_ok = checked-ok h laws (h.write_file at_loader loader_conf file_mode s4) s5 wrote in
      let ends = ap (λ p. p.1) k5 in
      let kept = λ (q : Text) (o : Outside (stage_dir l) q).
        laws.remove_all-outside (stage_dir l) q s s1 removed o.not_it o.not_below in
      let late = λ (q : Text) (no_loader : q ≢ at_loader).
        ap (λ u. file u q) (sym ends)
        ∙ laws.write_file-other at_loader q loader_conf file_mode s4 s5 wrote_ok no_loader
        ∙ ap (λ p. file p.1 q) (sym made_ok)
        ∙ laws.mkdir_all-file (under (stage_dir l) (codes "loader")) q dir_mode s3 in
      record {
        boot = a.content;
        image = b.content;
        boot_was = sym (kept boot_source boot_out) ∙ a.source;
        image_was =
            sym (kept uki uki_out) ∙ sym (a.others uki (uki_out.not_below sdboot_name)) ∙ b.source;
        boot_is =
            late at_boot (under-ne (stage_dir l) sdboot_name loader_name sdboot-loader)
            ∙ b.others at_boot (under-ne (stage_dir l) sdboot_name (uki_path v) (sdboot-uki v))
            ∙ a.destination;
        image_is =
            late at_uki
              (under-ne (stage_dir l) (uki_path v) loader_name (λ x. loader-uki v (sym x)))
            ∙ b.destination;
        loader_is =
            ap (λ u. file u at_loader) (sym ends)
            ∙ laws.write_file-self at_loader loader_conf file_mode s4 s5 wrote_ok;
        nothing_else = λ q no_boot no_uki no_loader.
            late (under (stage_dir l) q) (under-ne (stage_dir l) q loader_name no_loader)
            ∙ b.others (under (stage_dir l) q) (under-ne (stage_dir l) q (uki_path v) no_uki)
            ∙ a.others (under (stage_dir l) q) (under-ne (stage_dir l) q sdboot_name no_boot)
            ∙ laws.remove_all-under (stage_dir l) q s s1 removed;
      }
