-- ===== src/Build/Layout.antt =====
-- cmd/build.go: the flags and buildLayout.
use invari_os.Base.{Bool}
use invari_os.Base.Text.{Text, codes, under}

pub record Options : Type 0 where
  pub root : Text
  pub arch : Text
  pub kernel_image : Text
  pub systemd_boot_image : Text
  pub fsutils_image : Text
  pub ca_certificates_image : Text
  pub openbao_version : Text
  pub push_repo : Text
  pub pull_repo : Text
  pub insecure : Bool

pub record BuildLayout : Type 0 where
  pub root : Text
  pub downloads : Text
  pub scratch : Text
  pub rootfs : Text
  pub out : Text

abbrev pub scratch_dir : Text
scratch_dir = codes "/tmp/invarios-build"

unfoldable pub new_build_layout : Text → BuildLayout
new_build_layout root = record {
  root = root;
  downloads = under root (codes "downloads");
  scratch = scratch_dir;
  rootfs = under scratch_dir (codes "rootfs");
  out = under root (codes "out");
}
