-- ===== src/Install/Detect.antt =====
-- internal/install/install.go: Detect.
pub mod Answers
use Prim.Native.String.{String}
use invari_os.Base.{Bool, List, Result, ok, err}
use invari_os.Disk.Hardware.{Hardware}
use invari_os.Disk.Layout
use invari_os.Disk.Layout.{is_installed}
use invari_os.Disk.Search.{Entry, find_system_disk}

installed_with : String → Result Layout.Error Bool → Result Layout.Error (Bool × String)
installed_with disk (err e) = err e
installed_with disk (ok installed) = ok (installed, disk)

detect_on :
    (h : Hardware) → h.State → Result Layout.Error String → Result Layout.Error (Bool × String)
unfolding installed_with
detect_on h s (err e) = err e
detect_on h s (ok disk) = installed_with disk (is_installed h disk s)

pub detect :
    (h : Hardware) → Result String (List Entry) → h.State → Result Layout.Error (Bool × String)
unfolding detect_on
detect h entries s = detect_on h s (find_system_disk entries)
