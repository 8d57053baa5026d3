-- ===== src/Install.antt =====
-- internal/install/install.go: the install sequence, from an empty disk to the reboot.
pub mod Marker
pub mod Completed
pub mod Detect
use Prim.Native.String.{String, ◌++◌ as join}
use invari_os.Base.{
  ℕ, Bool, true, false, Option, none, some, List, [], ◌∷◌, ◌++◌, Result, ok, err, M, ◌≡◌, ◌≢◌, All,
}
use invari_os.Base.Visits.{T, ◌>>=◌, ◌>>◌, bind, visit, read, wrap, wrap_result}
use invari_os.Efi.Vars.{EfiVars}
use invari_os.Efi.Vars
use invari_os.Efi.LoadOption.{GoUefi, Target}
use invari_os.Efi.BootEntry.{set_default, ensure_boot_entry}
use invari_os.Disk.Hardware.{Hardware, Quiet, Leaves}
use invari_os.Disk.Layout
use invari_os.Disk.Layout.{Layout, check_minimum_size, wait_for_partition}
use invari_os.Disk.Layout.Partitioning.{partition, format}
use invari_os.Disk.Meta
use invari_os.Disk.Meta.{wipe, init}

-- The rest of the machine that the sequence uses: the firmware's variables, the network, the
-- registry, temporary directories and files, the mount of the ESP, and power.Do(power.Reboot).
-- A text of code points is what go-uefi encodes.
pub record Site (h : Hardware) (e : EfiVars) : Type 0 where
  pub nvram : h.State → e.Store
  pub set_nvram : e.Store → h.State → h.State
  pub runes : String → List ℕ
  pub network_up : T h.State String (Unit {0})
  pub mkdir_temp : String → T h.State String String
  pub remove_all : String → T h.State String (Unit {0})
  pub pull_and_extract : String → T h.State String (Unit {0})
  pub read_file : h.State → String → Result String (List ℕ)
  pub mount_vfat : String → String → T h.State String (Unit {0})
  pub unmount : String → T h.State String (Unit {0})
  pub remove : String → T h.State String (Unit {0})
  pub mkdir_all : String → T h.State String (Unit {0})
  pub write_file : String → List ℕ → T h.State String (Unit {0})
  pub reboot : T h.State String (Unit {0})

-- What the sequence relies on: apart from a mount of the device itself, none of these calls
-- changes a device from which nothing is mounted, nor the table on the disk.
pub record SiteLaws (h : Hardware) (e : EfiVars) (x : Site h e) (disk q : String) : Type 0 where
  pub mkdir_temp-Leaves : (name : String) → Leaves h disk q (x.mkdir_temp name)
  pub mount_vfat-Leaves : (p dir : String) → p ≢ q → Leaves h disk q (x.mount_vfat p dir)
  pub unmount-Leaves : (dir : String) → Leaves h disk q (x.unmount dir)
  pub remove-Leaves : (dir : String) → Leaves h disk q (x.remove dir)
  pub mkdir_all-Leaves : (dir : String) → Leaves h disk q (x.mkdir_all dir)
  pub write_file-Leaves : (path : String) (b : List ℕ) → Leaves h disk q (x.write_file path b)
  pub set_nvram-Quiet : (store : e.Store) (s : h.State) → Quiet h disk q s (x.set_nvram store s)

pub data Error : Type 0 where
  minimum_size : Layout.Error → Error
  bringing_up_network : String → Error
  creating_extract_dir : String → Error
  pulling_boot_artifact : String → Error
  reading_uki : String → Error
  reading_sd_boot : String → Error
  reading_loader_conf : String → Error
  partitioning : Layout.Error → Error
  waiting_for_meta : Layout.Error → Error
  wiping_meta : Meta.Error → Error
  formatting : Layout.Error → Error
  creating_mount_point : String → Error
  mounting_esp : String → Error
  creating_directory : String → Error
  writing_file : String → Error
  setting_default : Vars.Error → Error
  ensuring_boot_entry : Vars.Error → Error
  initializing_meta : Meta.Error → Error
  rebooting : String → Error

pub record BootArtifact : Type 0 where
  pub uki_name : String
  pub uki : List ℕ
  pub sdboot : List ℕ
  pub loader_conf : List ℕ

abbrev pub boot_entry_label : String
boot_entry_label = "invarios"

abbrev pub sdboot_esp_path : String
sdboot_esp_path = "EFI/BOOT/BOOTX64.EFI"

abbrev pub sdboot_fw_path : String
sdboot_fw_path = "\\EFI\\BOOT\\BOOTX64.EFI"

abbrev pub loader_conf_path : String
loader_conf_path = "loader/loader.conf"

-- filepath.Join of two clean paths.
abbrev pub under : String → String → String
under dir path = join dir (join "/" path)

-- A deferred call, whose own error is dropped.
abbrev pub deferred : {S E A : Type 0} → T S String (Unit {0}) → T S E A → T S E A
deferred cleanup m s = let (r, t, vs) = m s in let (_, u, ws) = cleanup t in (r, u, vs ++ ws)

-- A clean-up that only an error brings.
abbrev pub undo :
    {S E A : Type 0} → T S String (Unit {0}) → Result E A × S × List S → Result E A × S × List S
undo cleanup (ok a, t, vs) = (ok a, t, vs)
undo cleanup (err e, t, vs) = let (_, u, ws) = cleanup t in (err e, u, vs ++ ws)

abbrev pub on_error : {S E A : Type 0} → T S String (Unit {0}) → T S E A → T S E A
on_error cleanup m s = undo cleanup (m s)

module _ (h : Hardware) (e : EfiVars) (u : GoUefi) (x : Site h e) where
  abbrev pub Install : Type 0 → Type 0
  Install A = T h.State Error A

  -- The variable writes of one call are one step here.
  unfoldable pub efi : {A : Type 0} → (Vars.Error → Error) → M e.Store Vars.Error A → Install A
  efi f m s =
      let (r, store) = m (x.nvram s) in
      (wrap_result f r, x.set_nvram store s, x.set_nvram store s ∷ [])

  read_artifact : String → String → h.State → Result Error BootArtifact
  read_artifact dir uki_name s = elim (x.read_file s (under dir (under "EFI/Linux" uki_name))) [
    | err why ↦ err (reading_uki why)
    | ok uki ↦ elim (x.read_file s (under dir sdboot_esp_path)) [
      | err why ↦ err (reading_sd_boot why)
      | ok sdboot ↦ elim (x.read_file s (under dir loader_conf_path)) [
        | err why ↦ err (reading_loader_conf why)
        | ok loader_conf ↦
            ok (record {
              uki_name = uki_name;
              uki = uki;
              sdboot = sdboot;
              loader_conf = loader_conf;
            })
      ]
    ]
  ]

  pull_into : String → String → Install BootArtifact
  unfolding read_artifact
  pull_into uki_name dir = do
    wrap pulling_boot_artifact (x.pull_and_extract dir)
    read (read_artifact dir uki_name)

  -- fetchBootArtifact; the version names the UKI.
  pub fetch_boot_artifact : String → Install BootArtifact
  unfolding pull_into
  fetch_boot_artifact version = do
    dir ← wrap creating_extract_dir (x.mkdir_temp "boot-artifact-*")
    deferred (x.remove_all dir) (pull_into (join "invarios-" (join version ".efi")) dir)

  unfoldable pub write_file : String → String → List ℕ → Install (Unit {0})
  write_file dir path b = do
    wrap creating_directory (x.mkdir_all dir)
    wrap writing_file (x.write_file path b)

  unfoldable pub mount_esp : String → Install String
  mount_esp dev = do
    dir ← wrap creating_mount_point (x.mkdir_temp "esp-*")
    on_error (x.remove dir) (wrap mounting_esp (x.mount_vfat dev dir))
    read (λ _. ok dir)

  -- The three files behind the mount, each with the directory that it stands in.
  unfoldable pub copy_files : BootArtifact → String → Install (Unit {0})
  unfolding write_file
  copy_files b dir = do
    write_file (under dir "EFI/Linux") (under dir (under "EFI/Linux" b.uki_name)) b.uki
    write_file (under dir "EFI/BOOT") (under dir sdboot_esp_path) b.sdboot
    write_file (under dir "loader") (under dir loader_conf_path) b.loader_conf

  unfoldable pub write_esp : String → Layout → BootArtifact → Install (Unit {0})
  unfolding mount_esp copy_files
  write_esp disk layout b = do
    dir ← mount_esp (h.dev_name disk layout.esp.number)
    deferred (deferred (x.remove dir) (x.unmount dir)) (copy_files b dir)

  unfoldable pub esp_target : Layout → Target
  esp_target layout = record {
    part_number = layout.esp.number;
    part_guid = layout.esp.partition.part_guid;
    first_lba = layout.esp.partition.first_lba;
    last_lba = layout.esp.partition.last_lba;
    loader_path = x.runes sdboot_fw_path;
  }

  -- Run between meta.Wipe and meta.Init.
  unfoldable pub prepare : String → Layout → BootArtifact → Install (Unit {0})
  unfolding efi write_esp esp_target
  prepare disk layout b = do
    wrap formatting (format h disk layout)
    write_esp disk layout b
    efi setting_default (set_default e u (x.runes b.uki_name))
    efi ensuring_boot_entry (ensure_boot_entry e u (x.runes boot_entry_label) (esp_target layout))

  abbrev pub meta_path : String → Layout → String
  meta_path disk layout = h.dev_name disk layout.meta.number

  -- Run behind disk.Partition, up to the reboot.
  unfoldable pub finish : String → Layout → BootArtifact → Install (Unit {0})
  unfolding prepare
  finish disk layout b = do
    read (λ s. wrap_result waiting_for_meta (wait_for_partition h (meta_path disk layout) s))
    wrap wiping_meta (wipe h (meta_path disk layout))
    prepare disk layout b
    wrap initializing_meta (init h (meta_path disk layout))

  pub run : String → String → Install (Unit {0})
  unfolding fetch_boot_artifact finish
  run version disk = do
    read (λ s. wrap_result minimum_size (check_minimum_size h disk s))
    wrap bringing_up_network x.network_up
    b ← fetch_boot_artifact version
    layout ← wrap partitioning (partition h disk)
    finish disk layout b
    wrap rebooting x.reboot
