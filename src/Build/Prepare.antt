-- ===== src/Build/Prepare.antt =====
-- cmd/build.go: prepare, gitDescribe, buildInvariosBinary and verifyRootfs.
use Prim.Native.String.{String}
use Prim.Native.Nat.{bit_and}
use invari_os.Base.{
  ℕ, Bool, true, false, List, [], ◌∷◌, ◌++◌, Result, ok, err, bind, ◌>>=◌, ◌>>◌, ◌==◌,
  if◌then◌else◌,
}
use invari_os.Base.Text.{Text, codes, under, trim_space}
use invari_os.Release.Agrees.{bool_text}
use invari_os.Build.Machine.{
  Command, Host, RemoveReply, removed, not_exist, not_removed, Error, plain, missing,
  not_executable, Build, checked, in_step,
}
use invari_os.Build.Files.{copy_tree, dir_mode}
use invari_os.Build.Layout.{Options, BuildLayout}

abbrev pub module_path : Text
module_path = codes "github.com/invarios/invarios"

abbrev pub empty_dirs : List Text
empty_dirs =
    codes "usr/bin"
    ∷ codes "etc"
    ∷ codes "proc"
    ∷ codes "sys"
    ∷ codes "dev"
    ∷ codes "run"
    ∷ codes "tmp"
    ∷ codes "var"
    ∷ codes "state"
    ∷ codes "data"
    ∷ []

abbrev pub executables : List Text
executables = codes "init" ∷ codes "usr/bin/bao" ∷ codes "usr/bin/invarios" ∷ []

abbrev pub ca_bundle : Text
ca_bundle = codes "etc/ssl/certs/ca-certificates.crt"

-- What -ldflags sets: a variable of a package of the module.
abbrev set_flag : Text → Text → Text
set_flag variable value =
    codes "-X " ++ (module_path ++ (codes "/internal/" ++ (variable ++ (b'=' ∷ value))))

unfoldable pub ldflags : Text → Text → Text → Bool → Text
ldflags tag sha repository insecure =
    set_flag (codes "version.Tag") tag
    ++ (b' '
        ∷ (set_flag (codes "version.SHA") sha
            ++ (b' '
                ∷ (set_flag (codes "bootimage.Repository") repository
                    ++ (b' ' ∷ set_flag (codes "bootimage.Insecure") (bool_text insecure))))))

-- The go build of buildInvariosBinary. The rest of the environment is the build's own.
unfoldable pub link_command : Options → BuildLayout → Text → Text → Command
unfolding ldflags
link_command o l tag sha = record {
  program = codes "go";
  args =
      codes "build"
      ∷ codes "-ldflags"
      ∷ ldflags tag sha o.pull_repo o.insecure
      ∷ codes "-o"
      ∷ under l.rootfs (codes "usr/bin/invarios")
      ∷ codes "."
      ∷ [];
  dir = l.root;
  environment = codes "CGO_ENABLED=0" ∷ codes "GOOS=linux" ∷ (codes "GOARCH=" ++ o.arch) ∷ [];
}

module _ (h : Host) where
  unfoldable pub make_dirs : List Text → Build h (Unit {0})
  make_dirs [] s = (ok tt, s)
  make_dirs (dir ∷ dirs) s = bind (checked h (h.mkdir_all dir dir_mode s)) (λ _. make_dirs dirs)

  unfoldable pub make_dirs_under : Text → List Text → Build h (Unit {0})
  make_dirs_under root [] s = (ok tt, s)
  make_dirs_under root (dir ∷ dirs) s =
      bind (checked h (h.mkdir_all (under root dir) dir_mode s)) (λ _. make_dirs_under root dirs)

  -- The template is copied where there is one.
  unfoldable pub copy_template : BuildLayout → Build h (Unit {0})
  copy_template l s = elim (h.stat s (under l.root (codes "rootfs"))) [
    | err why ↦ (ok tt, s)
    | ok mode ↦
        in_step h "copying rootfs template" (copy_tree h (under l.root (codes "rootfs")) l.rootfs) s
  ]

  unfoldable pub prepare : BuildLayout → Build h (Unit {0})
  unfolding make_dirs copy_template make_dirs_under
  prepare l = do
    λ s. checked h (h.remove_all l.scratch s)
    λ s. checked h (h.remove_all l.out s)
    make_dirs (l.downloads ∷ l.scratch ∷ l.rootfs ∷ l.out ∷ [])
    copy_template l
    make_dirs_under l.rootfs empty_dirs

  abbrev trimmed : Result String Text × h.State → Result Error Text × h.State
  trimmed (ok out, s) = (ok (trim_space out), s)
  trimmed (err why, s) = (err (plain why), s)

  unfoldable pub run_git : Text → List Text → Build h Text
  run_git dir args s =
      trimmed (h.run (record { program = codes "git"; args = args; dir = dir; environment = [] }) s)

  abbrev describe_tag : List Text
  describe_tag =
      codes "describe"
      ∷ codes "--tags"
      ∷ codes "--always"
      ∷ codes "--dirty"
      ∷ codes "--match"
      ∷ codes "v[0-9]*"
      ∷ []

  abbrev describe_commit : List Text
  describe_commit =
      codes "describe"
      ∷ codes "--always"
      ∷ codes "--dirty"
      ∷ codes "--match=none"
      ∷ codes "--abbrev=8"
      ∷ []

  unfoldable pub git_describe : Text → Build h (Text × Text)
  unfolding run_git
  git_describe root = do
    tag ← in_step h "describing tag" (run_git root describe_tag)
    sha ← in_step h "describing commit" (run_git root describe_commit)
    λ s. (ok (tag, sha), s)

  -- What Run reports of a program whose output goes to the terminal.
  abbrev pub ran : Result String Text × h.State → Result Error (Unit {0}) × h.State
  ran (ok _, s) = (ok tt, s)
  ran (err why, s) = (err (plain why), s)

  -- A file that is not there need not be removed.
  abbrev gone : RemoveReply × h.State → Result Error (Unit {0}) × h.State
  gone (removed, s) = (ok tt, s)
  gone (not_exist, s) = (ok tt, s)
  gone (not_removed why, s) = (err (plain why), s)

  unfoldable pub build_invarios_binary : Options → BuildLayout → Text → Text → Build h (Unit {0})
  unfolding link_command
  build_invarios_binary o l tag sha = do
    λ s. ran (h.run (link_command o l tag sha) s)
    λ s. gone (h.remove (under l.rootfs (codes "init")) s)
    λ s. checked h (h.link (codes "usr/bin/invarios") (under l.rootfs (codes "init")) s)

  -- 0111.
  abbrev pub is_executable : ℕ → Bool
  is_executable mode = if bit_and mode 73 == 0 then false else true

  unfoldable pub verify_executables : Text → List Text → h.State → Result Error (Unit {0})
  verify_executables rootfs [] s = ok tt
  verify_executables rootfs (rel ∷ rels) s = elim (h.stat s (under rootfs rel)) [
    | err why ↦ err (missing rel why)
    | ok mode ↦
        if is_executable mode then verify_executables rootfs rels s else err (not_executable rel)
  ]

  unfoldable pub verify_ca : Text → h.State → Result Error (Unit {0})
  verify_ca rootfs s = elim (h.stat s (under rootfs ca_bundle)) [
    | err why ↦ err (missing ca_bundle why)
    | ok mode ↦ ok tt
  ]

  unfoldable pub verify_rootfs : BuildLayout → Build h (Unit {0})
  unfolding verify_executables verify_ca
  verify_rootfs l = do
    λ s. (verify_executables l.rootfs executables s, s)
    λ s. (verify_ca l.rootfs s, s)
