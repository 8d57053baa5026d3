-- ===== src/Build.antt =====
-- cmd/build.go: runBuild, over the host.
pub mod Machine
pub mod Files
pub mod Layout
pub mod Prepare
pub mod Linked
pub mod Images
pub mod Uki
pub mod Stage
pub mod Steps
pub mod Gate
use Prim.Native.String.{String}
use invari_os.Base.{ℕ, Option, none, some, List, [], ◌∷◌, ◌++◌, Result, ok, err, bind, ◌>>=◌, ◌>>◌}
use invari_os.Base.Text.{Text, codes, under}
use invari_os.Release.{unset, os_release_for}
use invari_os.Release.OsRelease.{os_release_version_id}
use invari_os.Release.OsRelease
use invari_os.Openbao.{Files as BaoFiles, fetch}
use invari_os.Openbao
use invari_os.Initramfs.{Sink}
use invari_os.Initramfs
use invari_os.Initramfs.Archive.{Item, write_cpio}
use invari_os.Build.Machine.{Host, Error, fetching, os_release, archiving, Build, checked, in_step}
use invari_os.Build.Files.{file_mode}
use invari_os.Build.Layout.{Options, BuildLayout, new_build_layout}
use invari_os.Build.Prepare.{prepare, git_describe, build_invarios_binary, verify_rootfs}
use invari_os.Build.Images.{
  install_kernel, install_fsutils, install_ca_certificates, install_systemd_boot, push_boot_image,
}
use invari_os.Build.Uki.{Config, build, verify_uki}
use invari_os.Build.Stage.{stage_esp, build_fat_image, build_iso}

abbrev pub kernel_cmdline : Text
kernel_cmdline = codes "console=tty0 console=ttyS0,115200"

abbrev pub initrd_path : BuildLayout → Text
initrd_path l = under l.out (codes "initramfs.cpio.gz")

abbrev pub uki_out : BuildLayout → Text
uki_out l = under l.out (codes "invarios.efi")

abbrev pub disk_out : BuildLayout → Text
disk_out l = under l.out (codes "invarios-efi.img")

unfoldable pub uki_config : BuildLayout → Text → Text → Config
uki_config l sdboot_dir release = record {
  stub_path = under sdboot_dir (codes "linuxx64.efi.stub");
  kernel_path = under l.out (codes "vmlinuz");
  initrd_path = initrd_path l;
  cmdline = kernel_cmdline;
  os_release = release;
  output_path = uki_out l;
}

-- What WriteCPIO works on: the gzip writer behind the output file, the errors of creating the
-- file, of gzip.NewWriterLevel and of closing the file, and the walk of a tree.
pub record Archiver (S : Type 0) : Type 1 where
  pub sink : Sink
  pub start : Text → S → sink.State
  pub leave : sink.State → S → S
  pub create_error : Text → S → Option String
  pub gzip_error : Option String
  pub close_error : Text → S → Option String
  pub walk : Text → S → Result String (List Item)

-- openbao's name of the archive, and its address.
abbrev pub archive_name : Text → Text
archive_name v = codes "openbao_" ++ (v ++ codes "_linux_amd64.tar.gz")

abbrev pub base_url : Text → Text
base_url v = codes "https://github.com/openbao/openbao/releases/download/v" ++ v

module _ (h : Host) (a : Archiver h.State) where
  abbrev fetched :
      h.State → Result Openbao.Error (Unit {0}) × BaoFiles → Result Error (Unit {0}) × h.State
  fetched s (ok _, fs) = (ok tt, h.set_files fs s)
  fetched s (err e, fs) = (err (fetching e), h.set_files fs s)

  -- openbao.Fetch on the host's files.
  unfoldable pub fetch_openbao : Text → Text → Text → Build h (Unit {0})
  fetch_openbao v downloads dest s = fetched s (
      fetch h.world (h.name (archive_name v)) (archive_name v) (h.name (base_url v))
        (h.name downloads) (h.name dest) (h.files s))

  abbrev archived :
      h.State → Result Initramfs.Error (Unit {0}) × a.sink.State → Result Error (Unit {0}) × h.State
  archived s (ok _, t) = (ok tt, a.leave t s)
  archived s (err e, t) = (err (archiving e), a.leave t s)

  -- initramfs.WriteCPIO of a tree into a file.
  unfoldable pub write_initramfs : Text → Text → Build h (Unit {0})
  write_initramfs root out s = archived s (
      write_cpio a.sink (a.create_error out s) a.gzip_error (a.close_error out s) (a.walk root s)
        (a.start out s))

  abbrev pub judged_text : Result OsRelease.Error Text → Result Error Text
  judged_text (ok v) = ok v
  judged_text (err e) = err (os_release e)

  unfoldable pub read_version : Text → Build h Text
  read_version release s = (judged_text (os_release_version_id release), s)

  -- Everything up to the root file system, with the tag that git describes.
  unfoldable pub stage_rootfs : Options → BuildLayout → Build h Text
  stage_rootfs o l = do
    in_step h "preparing build directories" (prepare h l)
    described ← in_step h "determining version" (git_describe h l.root)
    in_step h "fetching OpenBao"
        (fetch_openbao o.openbao_version l.downloads (under l.rootfs (codes "usr/bin/bao")))
    in_step h "building invarios binary" (build_invarios_binary h o l described.0 described.1)
    in_step h "installing kernel" (install_kernel h o l)
    in_step h "installing fsutils" (install_fsutils h o l)
    in_step h "installing CA certificates" (install_ca_certificates h o l)
    λ s. (ok described.0, s)

  -- From the verified root file system to the verified UKI, with the directory of systemd-boot.
  unfoldable pub assemble : Options → BuildLayout → Text → Build h Text
  assemble o l release = do
    sdboot_dir ← in_step h "installing systemd-boot" (install_systemd_boot h o l)
    in_step h "writing os-release" (λ s.
        checked h (h.write_file (under l.rootfs (codes "etc/os-release")) release file_mode s))
    in_step h "building initramfs" (write_initramfs l.rootfs (initrd_path l))
    in_step h "building UKI" (build h (uki_config l sdboot_dir release))
    in_step h "verifying UKI" (verify_uki h (uki_out l))
    λ s. (ok sdboot_dir, s)

  -- From the staged ESP to the images.
  unfoldable pub publish : Options → BuildLayout → Text → Text → Build h (Unit {0})
  publish o l sdboot_dir version_id = do
    stage ← in_step h "staging ESP contents" (stage_esp h l sdboot_dir (uki_out l) version_id)
    in_step h "pushing boot image" (push_boot_image h o stage version_id)
    in_step h "building EFI boot disk" (build_fat_image h (disk_out l) stage)
    in_step h "building ISO" (build_iso h l stage)

  unfoldable pub run_build : Options → Build h (Unit {0})
  unfolding new_build_layout
  run_build o = do
    tag ← stage_rootfs o (new_build_layout o.root)
    in_step h "verifying rootfs" (verify_rootfs h (new_build_layout o.root))
    sdboot_dir ← assemble o (new_build_layout o.root) (os_release_for unset.name tag)
    version_id ←
        in_step h "reading os-release VERSION_ID" (read_version (os_release_for unset.name tag))
    publish o (new_build_layout o.root) sdboot_dir version_id
