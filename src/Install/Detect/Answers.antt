-- ===== src/Install/Detect/Answers.antt =====
-- internal/install/install.go: when Detect says that a disk is installed.
use Prim.Native.String.{String}
use invari_os.Base.{Bool, true, List, Result, ok, err, ok_injective, ◌≡◌, sym, ap, ◌∙◌}
use invari_os.Disk.Hardware.{Hardware}
use invari_os.Disk.Layout
use invari_os.Disk.Layout.{is_installed}
use invari_os.Disk.Search.{Entry, find_system_disk}
use invari_os.Install.Detect.{detect, detect_on, installed_with}

installed_with-true :
    (disk other : String) (r : Result Layout.Error Bool)
    → installed_with disk r ≡ ok (true, other)
    → (disk ≡ other) × (r ≡ ok true)
unfolding installed_with
installed_with-true disk other (err e) q = absurd (cc)
installed_with-true disk other (ok b) q =
    let p = ok_injective Layout.Error q in (ap (λ x. x.1) p, ap (λ x. ok x.0) p)

detect_on-true :
    (h : Hardware) (s : h.State) (disk : String) (r : Result Layout.Error String)
    → detect_on h s r ≡ ok (true, disk)
    → (r ≡ ok disk) × (is_installed h disk s ≡ ok true)
unfolding detect_on
detect_on-true h s disk (err e) q = absurd (cc)
detect_on-true h s disk (ok other) q =
    let (same, yes_it_is) = installed_with-true other disk (is_installed h other s) q in
    (ap ok same, ap (λ d. is_installed h d s) (sym same) ∙ yes_it_is)

pub detect-true :
    (h : Hardware) (entries : Result String (List Entry)) (s : h.State) (disk : String)
    → detect h entries s ≡ ok (true, disk)
    → (find_system_disk entries ≡ ok disk) × (is_installed h disk s ≡ ok true)
unfolding detect
detect-true h entries s disk q = detect_on-true h s disk (find_system_disk entries) q
