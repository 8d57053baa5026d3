-- ===== src/Build/Images.antt =====
-- cmd/build.go: what is pulled from and pushed to registries.
use invari_os.Base.{ok, ◌>>◌}
use invari_os.Base.Text.{Text, codes, under}
use invari_os.Ociimage.{pull_and_extract, push}
use invari_os.Release.Agrees.{push_ref}
use invari_os.Build.Machine.{Host, Build, checked, for_image}
use invari_os.Build.Files.{copy_file, dir_mode, file_mode}
use invari_os.Build.Layout.{Options, BuildLayout}

module _ (h : Host) where
  -- `race` is how the goroutines of the pull race.
  unfoldable pub pull : Text → Text → Text → Build h (Unit {0})
  pull ref arch dir s = for_image h (pull_and_extract h.registry (h.race ref) ref arch dir s)

  unfoldable pub install_kernel : Options → BuildLayout → Build h (Unit {0})
  unfolding pull
  install_kernel o l = do
    pull o.kernel_image o.arch (under l.scratch (codes "kernel"))
    copy_file h (under (under l.scratch (codes "kernel")) (codes "vmlinuz"))
        (under l.out (codes "vmlinuz")) file_mode
    copy_file h (under (under l.scratch (codes "kernel")) (codes "kernel.config"))
        (under l.out (codes "kernel.config")) file_mode

  unfoldable pub install_fsutils : Options → BuildLayout → Build h (Unit {0})
  unfolding pull
  install_fsutils o l = pull o.fsutils_image o.arch l.rootfs

  unfoldable pub install_ca_certificates : Options → BuildLayout → Build h (Unit {0})
  unfolding pull
  install_ca_certificates o l = pull o.ca_certificates_image o.arch l.rootfs

  abbrev pub sdboot_dir : BuildLayout → Text
  sdboot_dir l = under l.scratch (codes "systemd-boot")

  unfoldable pub install_systemd_boot : Options → BuildLayout → Build h Text
  unfolding pull
  install_systemd_boot o l = do
    pull o.systemd_boot_image o.arch (under l.scratch (codes "systemd-boot-pulled"))
    λ s. checked h (h.mkdir_all (sdboot_dir l) dir_mode s)
    copy_file h (under (under l.scratch (codes "systemd-boot-pulled")) (codes "systemd-boot.efi"))
        (under (sdboot_dir l) (codes "systemd-bootx64.efi")) file_mode
    copy_file h (under (under l.scratch (codes "systemd-boot-pulled")) (codes "boot.efi.stub"))
        (under (sdboot_dir l) (codes "linuxx64.efi.stub")) file_mode
    λ s. (ok (sdboot_dir l), s)

  unfoldable pub push_boot_image : Options → Text → Text → Build h (Unit {0})
  push_boot_image o stage_dir version_id s =
      for_image h
        (push h.registry (push_ref o.push_repo version_id o.arch) o.arch stage_dir o.insecure s)
