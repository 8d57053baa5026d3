-- ===== src/Disk/Layout/Ready.antt =====
-- internal/disk/disk.go: when IsInstalled says yes.
use Prim.Native.String.{String}
use invari_os.Base.{true, Option, none, List, ok, ◌≡◌, refl, ap}
use invari_os.Base.Visits.{wrap_result}
use invari_os.Disk.Hardware.{Hardware, Partition}
use invari_os.Disk.Meta.{is_initialized}
use invari_os.Disk.Layout.{
  numbered, meta_number, all_found, wait_for_partition, wait_from, installed_at, checked_meta,
  installed_on, is_installed, checking_meta,
}

module _ (h : Hardware) (s : h.State) where
  -- A device node that is there at the first poll.
  wait_for_partition-there :
      (path : String) → h.stat_poll s path 0 ≡ true → wait_for_partition h path s ≡ ok tt
  unfolding wait_for_partition wait_from
  wait_for_partition-there path there = rw (there, wait_from) refl

  pub is_installed-true :
      (disk path : String) (ts : List (Option Partition))
      → h.open_disk s disk ≡ none
      → h.read_table s disk ≡ ok ts
      → all_found (numbered 0 ts) ≡ true
      → h.dev_name disk (meta_number (numbered 0 ts)) ≡ path
      → h.stat_poll s path 0 ≡ true
      → is_initialized h s path ≡ ok true
      → is_installed h disk s ≡ ok true
  unfolding is_installed installed_on installed_at checked_meta
  is_installed-true disk path ts opens table found at there marked =
      rw (opens, is_installed)
        (rw (table, is_installed)
          (rw (found, installed_on)
            (rw at (
              rw (wait_for_partition-there path there, installed_at)
                (ap (wrap_result checking_meta) marked)))))
