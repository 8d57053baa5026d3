-- ===== src/Mount.antt =====
-- internal/mount: the virtual file systems, the ephemeral root, and the STATE and DATA volumes.
pub mod Settled
use Prim.Native.String.{String, ◌++◌ as join}
use invari_os.Base.{
  ℕ, Bool, true, false, Option, none, some, List, [], ◌∷◌, ◌++◌, Result, ok, err, M, bind, ◌>>=◌,
  ◌>>◌, if◌then◌else◌,
}
use invari_os.Disk.Hardware.{Hardware}
use invari_os.Disk.Layout
use invari_os.Disk.Layout.{Layout, read_layout}

-- The flags that the package passes: NoExec is MS_NOEXEC, MS_NOSUID and MS_NODEV.
pub data Flag : Type 0 where
  no_exec : Flag
  remount : Flag
  read_only : Flag
  bind_mount : Flag

-- unix.Mount's arguments.
pub record Call : Type 0 where
  pub source : String
  pub target : String
  pub fstype : String
  pub flags : List Flag
  pub options : String

-- unix.Unmount's answer.
pub data UnmountReply : Type 0 where
  unmounted : UnmountReply
  busy : UnmountReply
  unmount_failed : String → UnmountReply

-- The kernel's mounts, `none` for no error.
pub record Mounts : Type 1 where
  pub State : Type 0
  pub mount : Call → State → Option String × State
  pub unmount : String → State → UnmountReply × State
  pub mkdir_all : String → State → Option String × State

pub data Error : Type 0 where
  mounting : String → String → Error
  creating : String → String → Error
  remounting_root : String → Error
  reading_layout : Layout.Error → Error
  unmounting : String → String → Error
  busy_not_remounted : String → String → Error
  remounted_read_only : String → Error

abbrev pub state_dir : String
state_dir = "/state"

abbrev pub data_dir : String
data_dir = "/data"

abbrev pub etc_overlay_dir : String
etc_overlay_dir = "/run/overlays/etc"

abbrev pub tmpfs_targets : List String
tmpfs_targets = "/run" ∷ "/tmp" ∷ "/var" ∷ []

abbrev plain : String → String → Call
plain fstype target = record {
  source = fstype;
  target = target;
  fstype = fstype;
  flags = [];
  options = "";
}

abbrev pub virtual_filesystems : List Call
virtual_filesystems =
    plain "proc" "/proc"
    ∷ plain "sysfs" "/sys"
    ∷ plain "devtmpfs" "/dev"
    ∷ plain "efivarfs" "/sys/firmware/efi/efivars"
    ∷ []

module _ (k : Mounts) where
  abbrev pub Mounting : Type 0
  Mounting = M k.State Error (Unit {0})

  checked : (String → Error) → Option String × k.State → Result Error (Unit {0}) × k.State
  checked f (none, s) = (ok tt, s)
  checked f (some why, s) = (err (f why), s)

  pub mount_call : (String → Error) → Call → Mounting
  unfolding checked
  mount_call f c s = checked f (k.mount c s)

  pub make_dir : String → Mounting
  unfolding checked
  make_dir dir s = checked (creating dir) (k.mkdir_all dir s)

  -- One mount after the other, up to the first that fails.
  mount_each : List Call → Mounting
  unfolding mount_call
  mount_each [] s = (ok tt, s)
  mount_each (c ∷ cs) s = bind (mount_call (mounting c.target) c s) (λ _. mount_each cs)

  pub virtual : Mounting
  unfolding mount_each
  virtual = mount_each virtual_filesystems

  make_dirs : List String → Mounting
  unfolding make_dir
  make_dirs [] s = (ok tt, s)
  make_dirs (dir ∷ dirs) s = bind (make_dir dir s) (λ _. make_dirs dirs)

  abbrev tmpfs : String → Call
  tmpfs target = record (plain "tmpfs" target) { flags = no_exec ∷ [] }

  mount_tmpfs : List String → Mounting
  unfolding mount_call
  mount_tmpfs [] s = (ok tt, s)
  mount_tmpfs (target ∷ targets) s =
      bind (mount_call (mounting target) (tmpfs target) s) (λ _. mount_tmpfs targets)

  abbrev lower : String
  lower = join etc_overlay_dir "/lower"

  abbrev upper : String
  upper = join etc_overlay_dir "/upper"

  abbrev work : String
  work = join etc_overlay_dir "/work"

  abbrev overlay_options : String
  overlay_options =
      join "lowerdir=" (join lower (join ",upperdir=" (join upper (join ",workdir=" work))))

  pub overlay_etc : Mounting
  unfolding make_dirs mount_call
  overlay_etc = do
    make_dirs (lower ∷ upper ∷ work ∷ [])
    mount_call (mounting lower) (record {
      source = "/etc";
      target = lower;
      fstype = "";
      flags = bind_mount ∷ [];
      options = "";
    })
    mount_call (mounting "/etc") (record {
      source = "overlay";
      target = "/etc";
      fstype = "overlay";
      flags = no_exec ∷ [];
      options = overlay_options;
    })

  pub ephemeral : Mounting
  unfolding mount_tmpfs overlay_etc mount_call
  ephemeral = do
    mount_tmpfs tmpfs_targets
    overlay_etc
    mount_call remounting_root (record {
      source = "";
      target = "/";
      fstype = "";
      flags = remount ∷ read_only ∷ [];
      options = "";
    })

  abbrev remount_call : String → Call
  remount_call target = record {
    source = "";
    target = target;
    fstype = "";
    flags = remount ∷ read_only ∷ no_exec ∷ [];
    options = "";
  }

  unfoldable pub remounted : String → Option String × k.State → Result Error (Unit {0}) × k.State
  remounted target (none, s) = (err (remounted_read_only target), s)
  remounted target (some why, s) = (err (busy_not_remounted target why), s)

  unfoldable pub unmount_answer :
      String → UnmountReply × k.State → Result Error (Unit {0}) × k.State
  unfolding remounted
  unmount_answer target (unmounted, s) = (ok tt, s)
  unmount_answer target (unmount_failed why, s) = (err (unmounting target why), s)
  unmount_answer target (busy, s) = remounted target (k.mount (remount_call target) s)

  unfoldable pub unmount_or_remount_read_only : String → Mounting
  unfolding unmount_answer
  unmount_or_remount_read_only target s = unmount_answer target (k.unmount target s)

  abbrev error_list : Result Error (Unit {0}) → List Error
  error_list (ok _) = []
  error_list (err e) = e ∷ []

  -- errors.Join of what is listed; no error is the empty list.
  unfoldable pub unmount_volumes : k.State → List Error × k.State
  unfolding unmount_or_remount_read_only
  unmount_volumes s =
      let (first, s1) = unmount_or_remount_read_only data_dir s in
      let (second, s2) = unmount_or_remount_read_only state_dir s1 in
      (error_list first ++ error_list second, s2)

  module _ (h : Hardware) where
    -- The volume of a partition.
    pub mount_xfs : String → ℕ → String → Mounting
    unfolding make_dir mount_call
    mount_xfs disk number target = do
      make_dir target
      mount_call (mounting target) (record {
        source = h.dev_name disk number;
        target = target;
        fstype = "xfs";
        flags = no_exec ∷ [];
        options = "";
      })

    mount_layout : String → Result Layout.Error Layout → Mounting
    unfolding mount_xfs
    mount_layout disk (err e) s = (err (reading_layout e), s)
    mount_layout disk (ok layout) s =
        bind (mount_xfs disk layout.state.number state_dir s)
          (λ _. mount_xfs disk layout.data_part.number data_dir)

    -- `m` is the machine whose disk is read.
    pub volumes : String → h.State → Mounting
    unfolding mount_layout
    volumes disk m = mount_layout disk (read_layout h disk m)
