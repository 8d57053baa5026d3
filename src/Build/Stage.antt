-- ===== src/Build/Stage.antt =====
-- cmd/build.go: stageESP, buildFATImage and buildISO.
pub mod Staged
use Prim.Native.String.{String}
use invari_os.Base.{
  ℕ, ◌*◌, Option, none, some, List, [], ◌∷◌, ◌++◌, Result, ok, err, bind, ◌>>=◌, ◌>>◌,
}
use invari_os.Base.Text.{Text, codes, under}
use invari_os.Release.Agrees.{uki_name}
use invari_os.Build.Machine.{Host, Error, plain, Build, checked, in_step}
use invari_os.Build.Files.{copy_file, create_sized_file, dir_mode, file_mode}
use invari_os.Build.Layout.{BuildLayout}

abbrev pub loader_conf : Text
loader_conf = codes "timeout 0\n"

-- 128 MiB.
abbrev pub esp_image_size : ℕ
esp_image_size = 128 * 1024 * 1024

abbrev pub stage_dir : BuildLayout → Text
stage_dir l = under l.scratch (codes "esp")

abbrev pub sdboot_name : Text
sdboot_name = codes "EFI/BOOT/BOOTX64.EFI"

abbrev pub uki_path : Text → Text
uki_path v = under (codes "EFI/Linux") (uki_name v)

abbrev pub loader_name : Text
loader_name = codes "loader/loader.conf"

module _ (h : Host) where
  unfoldable pub stage_esp : BuildLayout → Text → Text → Text → Build h Text
  stage_esp l sdboot_dir uki version_id = do
    λ s. checked h (h.remove_all (stage_dir l) s)
    copy_file h (under sdboot_dir (codes "systemd-bootx64.efi")) (under (stage_dir l) sdboot_name)
        file_mode
    copy_file h uki (under (stage_dir l) (uki_path version_id)) file_mode
    λ s. checked h (h.mkdir_all (under (stage_dir l) (codes "loader")) dir_mode s)
    λ s. checked h (h.write_file (under (stage_dir l) loader_name) loader_conf file_mode s)
    λ s. (ok (stage_dir l), s)

  unfoldable pub build_fat_image : Text → Text → Build h (Unit {0})
  build_fat_image image_path stage = do
    λ s. checked h (h.remove_all image_path s)
    create_sized_file h image_path esp_image_size
    λ s. checked h (h.make_vfat image_path stage s)

  abbrev ran : Result String Text × h.State → Result Error (Unit {0}) × h.State
  ran (ok _, s) = (ok tt, s)
  ran (err why, s) = (err (plain why), s)

  unfoldable pub build_iso : BuildLayout → Text → Build h (Unit {0})
  unfolding build_fat_image
  build_iso l stage = do
    λ s. checked h (h.remove_all (under l.scratch (codes "iso")) s)
    λ s. checked h (h.mkdir_all (under l.scratch (codes "iso")) dir_mode s)
    in_step h "building El Torito EFI boot image"
        (build_fat_image (under (under l.scratch (codes "iso")) (codes "efiboot.img")) stage)
    λ s. ran (
        h.run
          (record {
            program = codes "xorriso";
            args =
                codes "-as"
                ∷ codes "mkisofs"
                ∷ codes "-R"
                ∷ codes "-J"
                ∷ codes "-V"
                ∷ codes "OPENBAO"
                ∷ codes "-o"
                ∷ under l.out (codes "invarios.iso")
                ∷ codes "-e"
                ∷ codes "efiboot.img"
                ∷ codes "-no-emul-boot"
                ∷ under l.scratch (codes "iso")
                ∷ [];
            dir = [];
            environment = [];
          })
          s)
