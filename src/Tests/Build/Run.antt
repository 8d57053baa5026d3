-- ===== src/Tests/Build/Run.antt =====
-- cmd/build.go: a whole build in memory.
use invari_os.Base.{ℕ, false, none, List, [], ok}
use invari_os.Base.Text.{Text, codes}
use invari_os.Ociimage.{cleaned}
use invari_os.Openbao.{copy_error, cleaned as bao_cleaned}
use invari_os.Initramfs.{Sink, copied as data_copied}
use invari_os.Build.Files.{copy_error as file_copy_error, copied}
use invari_os.Build.Layout.{Options}
use invari_os.Build.{Archiver, run_build}
use invari_os.Tests.Build.{Files, memory}

abbrev sink : Sink
sink = record { State = List ℕ; write = λ b s. (none, s); content = λ s. s; close = λ s. (none, s) }

abbrev archiver : Archiver Files
archiver = record {
  sink = sink;
  start = λ out s. [];
  leave = λ t s. s;
  create_error = λ out s. none;
  gzip_error = none;
  close_error = λ out s. none;
  walk = λ root s. ok [];
}

abbrev options : Options
options = record {
  root = codes ".";
  arch = codes "amd64";
  kernel_image = codes "kernel";
  systemd_boot_image = codes "systemd-boot";
  fsutils_image = codes "fsutils";
  ca_certificates_image = codes "ca";
  openbao_version = codes "2";
  push_repo = codes "localhost:5000/esp";
  pull_repo = codes "10.0.2.2:5000/esp";
  insecure = false;
}

abbrev empty : Files
empty p = none

abbrev built : Files
built = (run_build memory archiver options empty).1

-- Git in memory describes the commit as it does the tag.
abbrev sha : Text
sha = codes "v1.2"
