-- ===== src/Build/Machine.antt =====
-- The machine that cmd/build.go and internal/uki run on: the file system, the programs that are
-- run, the registry and the network, over an unknown state.
use Prim.Native.String.{String}
use invari_os.Base.{ℕ, Option, none, some, List, Result, ok, err, M}
use invari_os.Base.Text.{Text}
use invari_os.Ociimage.{Registry}
use invari_os.Ociimage
use invari_os.Openbao.{World, Files}
use invari_os.Openbao
use invari_os.Initramfs
use invari_os.Release.OsRelease

-- os.Remove's answer.
pub data RemoveReply : Type 0 where
  removed : RemoveReply
  not_exist : RemoveReply
  not_removed : String → RemoveReply

-- What filepath.WalkDir and the calls that copyTree makes first say of an entry: an error of the
-- walk, of Rel, of Info or of Readlink; a symbolic link with its target; a directory or a file with
-- its permissions. `here` is the root itself.
pub data Kind : Type 0 where
  symlink : Result String Text → Kind
  directory : ℕ → Kind
  regular : ℕ → Kind

pub data Visit : Type 0 where
  walk_failed : String → Visit
  here : Result String Kind → Visit
  visited : Text → Result String Kind → Visit

-- exec.Cmd; `environment` is what is added to that of the process.
pub record Command : Type 0 where
  pub program : Text
  pub args : List Text
  pub dir : Text
  pub environment : List Text

-- pe.Section, with what the build sets.
pub record Section : Type 0 where
  pub name : Text
  pub path : Text

-- Operations, `none` for no error. A file is opened with its content and the error that ends its
-- reading early. `osrel` is pe.Open, Section(".osrel") and the reading of the section.
pub record Host : Type 1 where
  pub State : Type 0
  pub remove_all : Text → State → Option String × State
  pub mkdir_all : Text → ℕ → State → Option String × State
  pub remove : Text → State → RemoveReply × State
  pub link : Text → Text → State → Option String × State
  pub stat : State → Text → Result String ℕ
  pub walk : State → Text → List Visit
  pub open_file : State → Text → Result String (List ℕ × Option String)
  pub create : Text → ℕ → State → Option String × State
  pub write : Text → List ℕ → State → Option String × State
  pub close : Text → State → Option String × State
  pub truncate : Text → ℕ → State → Option String × State
  pub write_file : Text → List ℕ → ℕ → State → Option String × State
  pub mkdir_temp : State → Result String Text × State
  pub run : Command → State → Result String Text × State
  pub make_vfat : Text → Text → State → Option String × State
  pub assemble : Text → Text → List Section → State → Option String × State
  pub osrel : State → Text → Result String (Option (Result String Text))
  pub registry : Registry State
  pub race : Text → Ociimage.Race
  -- The files as internal/openbao sees them, whose names are strings.
  pub name : Text → String
  pub world : World
  pub files : State → Files
  pub set_files : Files → State → State

-- `within` is fmt.Errorf with a label and %w.
pub data Error : Type 0 where
  plain : String → Error
  missing : Text → String → Error
  not_executable : Text → Error
  fetching : Openbao.Error → Error
  archiving : Initramfs.Error → Error
  image : Ociimage.Error → Error
  os_release : OsRelease.Error → Error
  within : String → Error → Error

module _ (h : Host) where
  abbrev pub Build : Type 0 → Type 0
  Build A = M h.State Error A

  abbrev pub checked : Option String × h.State → Result Error (Unit {0}) × h.State
  checked (none, s) = (ok tt, s)
  checked (some why, s) = (err (plain why), s)

  abbrev pub lifted : {A : Type 0} → Result String A → Result Error A
  lifted (ok a) = ok a
  lifted (err why) = err (plain why)

  abbrev pub labelled : {A : Type 0} → String → Result Error A × h.State → Result Error A × h.State
  labelled label (ok a, s) = (ok a, s)
  labelled label (err e, s) = (err (within label e), s)

  abbrev pub in_step : {A : Type 0} → String → Build A → Build A
  in_step label m s = labelled label (m s)

  abbrev pub for_image :
      Result Ociimage.Error (Unit {0}) × h.State → Result Error (Unit {0}) × h.State
  for_image (ok _, s) = (ok tt, s)
  for_image (err e, s) = (err (image e), s)
