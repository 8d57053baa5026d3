-- ===== src/Tests/Install.antt =====
-- internal/disk and internal/install on the machine in memory.
use Prim.Native.String.{String}
use invari_os.Base.{ℕ, ◌≡◌, ◌≢◌, refl, true, [], ◌∷◌, ok, All}
use invari_os.Disk.Layout.{
  PartitionInfo, Layout, read_layout, is_installed, wait_for_partition, wait_from,
}
use invari_os.Disk.Layout.Partitioning.{
  pair_up, allocate, data_size, fill_data, fill_state, fill_meta, fill, planned, partition, format,
  format_one,
}
use invari_os.Disk.Layout.RoundTrip.{read_layout-partition}
use invari_os.Disk.Meta.{init, wipe, write_at_start}
use invari_os.Base.Hex.{hex, digit}
use invari_os.Efi.Utf16.{decode_utf16z_loop, utf16_decode, encode_rune, utf16_encode, decode_utf16z}
use invari_os.Efi.LoadOption.{
  device_path, hard_drive_node, file_path_node, end_node, swap_guid_endian, unmarshal_length,
  unmarshal_description, build_load_option, unmarshal_header,
}
use invari_os.Efi.Vars.{
  get_boot_order, order_of, set_boot_order, write, marshal_boot_order, unmarshal_boot_order,
  boot_entry_name, boot_entry,
}
use invari_os.Efi.BootEntry.{
  choose_num, find_by_label, labelled, has_label, first_free_num, first_free_from, in_order, others,
  text_eq, ensure_boot_entry, set_default,
}
use invari_os.Install.{
  Site, SiteLaws, BootArtifact, prepare, finish, meta_path, write_esp, mount_esp, copy_files,
  write_file, efi, esp_target,
}
use invari_os.Install.Completed.{finish-is_installed}
use invari_os.Install.Marker.{prepare-not_installed}
use invari_os.Tests.Efi.{memory, go_uefi, firmware}
use invari_os.Tests.Disk.{Machine, machine, machine-HardwareLaws, named, done, done-Leaves}

abbrev pub site : Site machine memory
site = record {
  nvram = λ s. s.variables;
  set_nvram = λ v s. record s { variables = v };
  runes = λ text. [];
  network_up = done;
  mkdir_temp = λ name s. (ok name, s, []);
  remove_all = λ dir. done;
  pull_and_extract = λ dir. done;
  read_file = λ s path. ok [];
  mount_vfat = λ dev dir. done;
  unmount = λ dir. done;
  remove = λ dir. done;
  mkdir_all = λ dir. done;
  write_file = λ path b. done;
  reboot = done;
}

pub site-SiteLaws : (disk q : String) → SiteLaws machine memory site disk q
site-SiteLaws disk q = record {
  mkdir_temp-Leaves = λ name s unmounted.
      (record { same_content = refl; same_table = refl; same_open = refl; same_mount = refl }, tt);
  mount_vfat-Leaves = λ p dir differs. done-Leaves disk q;
  unmount-Leaves = λ dir. done-Leaves disk q;
  remove-Leaves = λ dir. done-Leaves disk q;
  mkdir_all-Leaves = λ dir. done-Leaves disk q;
  write_file-Leaves = λ path b. done-Leaves disk q;
  set_nvram-Quiet = λ store s. record {
    same_content = refl;
    same_table = refl;
    same_open = refl;
    same_mount = refl;
  };
}

-- A disk that was installed before: its META holds an ADV.
abbrev pub used : Machine
used = record { devices = λ p. 1 ∷ 1 ∷ []; table = []; variables = firmware }

abbrev info : ℕ → String → PartitionInfo
info n name = record { number = n; partition = named name }

abbrev pub layout : Layout
layout = record {
  esp = info 1 "ESP";
  meta = info 2 "META";
  state = info 3 "STATE";
  data_part = info 4 "DATA";
}

abbrev pub disk : String
disk = "/dev/vda"

abbrev pub partitioned : Machine
partitioned = (partition machine disk used).1

pub used-partition : partition machine disk used ≡ (ok layout, partitioned, [])
unfolding partition planned fill fill_meta fill_state fill_data data_size allocate pair_up
used-partition = refl

read_layout-partition_example : read_layout machine disk partitioned ≡ ok layout
read_layout-partition_example =
    read_layout-partition machine machine-HardwareLaws disk used partitioned layout used-partition

abbrev pub meta_device : String
meta_device = meta_path machine memory go_uefi site disk layout

abbrev pub wiped : Machine
wiped = (wipe machine meta_device partitioned).1

pub partitioned-wipe : wipe machine meta_device partitioned ≡ (ok tt, wiped, [])
unfolding wipe write_at_start
partitioned-wipe = refl

abbrev pub artifact : BootArtifact
artifact = record { uki_name = "invarios-1.efi"; uki = []; sdboot = []; loader_conf = [] }

prepare-not_installed_example :
    All
      (λ (t : Machine). is_installed machine disk t ≢ ok true)
      ((prepare machine memory go_uefi site disk layout artifact wiped).1
        ∷ (prepare machine memory go_uefi site disk layout artifact wiped).2)
prepare-not_installed_example =
    prepare-not_installed machine machine-HardwareLaws memory go_uefi site disk layout artifact
      (site-SiteLaws disk meta_device) used partitioned wiped used-partition refl partitioned-wipe

abbrev installed : Machine
installed = (finish machine memory go_uefi site disk layout artifact partitioned).1

partitioned-finish :
    (finish machine memory go_uefi site disk layout artifact partitioned)
    ≡ (ok tt, installed, (finish machine memory go_uefi site disk layout artifact partitioned).2)
unfolding finish prepare write_esp mount_esp copy_files write_file efi esp_target format format_one
    wait_for_partition wait_from wipe write_at_start init set_default ensure_boot_entry
    get_boot_order order_of choose_num find_by_label labelled has_label first_free_num
    first_free_from in_order others set_boot_order write marshal_boot_order unmarshal_boot_order
    boot_entry boot_entry_name hex digit build_load_option device_path hard_drive_node
    file_path_node end_node swap_guid_endian unmarshal_header unmarshal_length unmarshal_description
    decode_utf16z decode_utf16z_loop utf16_decode utf16_encode encode_rune text_eq partition
partitioned-finish = refl

finish-is_installed_example : is_installed machine disk installed ≡ ok true
finish-is_installed_example =
    finish-is_installed machine machine-HardwareLaws memory go_uefi site disk layout artifact
      (site-SiteLaws disk meta_device) used partitioned installed used-partition refl
      partitioned-finish refl refl
