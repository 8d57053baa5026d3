-- ===== src/Tests/Root.antt =====
-- cmd/root.go: the start behind an install that lost its power before meta.Init.
use invari_os.Base.{false, some, List, [], ◌∷◌, Result, ok, inl, ◌≢◌, refl}
use invari_os.Install.{prepare}
use invari_os.Boot.Root.{boots, run_root, interrupted-never_boots}
use invari_os.Tests.Efi.{memory, go_uefi}
use invari_os.Tests.Disk.{Machine, machine, machine-HardwareLaws}
use invari_os.Tests.Mount.{kernel, both_writable}
use invari_os.Tests.Install.{
  site, site-SiteLaws, used, layout, disk, partitioned, used-partition, meta_device, wiped,
  partitioned-wipe, artifact,
}
use Prim.Native.String.{String}
use invari_os.Disk.Search.{Entry}

abbrev entries : Machine → Result String (List Entry)
entries s = ok (record { name = "vda"; has_partition = false; removable = some (48 ∷ []) } ∷ [])

abbrev cut_off : Machine
cut_off = (prepare machine memory go_uefi site disk layout artifact wiped).1

interrupted-never_boots_example :
    (run_root kernel machine memory go_uefi site "v1" entries (both_writable, cut_off)).0
    ≢ boots disk
interrupted-never_boots_example =
    interrupted-never_boots kernel machine memory go_uefi site "v1" entries machine-HardwareLaws
      disk layout artifact (site-SiteLaws disk meta_device) used partitioned wiped cut_off
      both_writable used-partition refl partitioned-wipe (inl refl)
