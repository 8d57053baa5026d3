-- ===== src/Boot/Root.antt =====
-- cmd/root.go: the root command, runInitialize and runInstall: what PID 1 does from its start until
-- it hangs, reboots into an install, or has an installed disk's volumes mounted.
use Prim.Native.String.{String}
use invari_os.Base.{
  Bool, true, false, List, [], ◌∷◌, Result, ok, err, M, ◌>>◌, In, All, inl, inr, ◌≡◌, ◌≢◌, ap, ◌∙◌,
}
use invari_os.Efi.Vars.{EfiVars}
use invari_os.Efi.LoadOption.{GoUefi}
use invari_os.Disk.Hardware.{Hardware, HardwareLaws}
use invari_os.Disk.Layout
use invari_os.Disk.Layout.{Layout, is_installed}
use invari_os.Disk.Layout.Partitioning.{partition}
use invari_os.Disk.Meta.{wipe}
use invari_os.Disk.Search.{Entry, find_system_disk}
use invari_os.Install
use invari_os.Install.{Site, SiteLaws, BootArtifact, prepare, meta_path}
use invari_os.Install.Detect.{detect}
use invari_os.Install.Detect.Answers.{detect-true}
use invari_os.Install.Marker.{prepare-not_installed}
use invari_os.Mount
use invari_os.Mount.{Mounts, virtual, ephemeral, volumes}

-- Why console.Fatal hangs the node.
pub data Reason : Type 0 where
  initializing : Mount.Error → Reason
  detecting : Layout.Error → Reason
  installing : Install.Error → Reason
  mounting_volumes : Mount.Error → Reason

-- `boots` is runBoot behind the mount of the volumes.
pub data End : Type 0 where
  fatal : Reason → End
  rebooted : String → End
  boots : String → End

-- `version` names the build; `entries` is what /sys/class/block lists.
module _ (k : Mounts) (h : Hardware) (e : EfiVars) (g : GoUefi) (x : Site h e) (version : String)
    (entries : h.State → Result String (List Entry)) where
  abbrev pub World : Type 0
  World = k.State × h.State

  -- Between the two, console.Setup, which fails no boot.
  pub run_initialize : M k.State Mount.Error (Unit {0})
  run_initialize = do virtual k; ephemeral k

  abbrev pub install_ended :
      String → k.State → Result Install.Error (Unit {0}) × h.State × List h.State → End × World
  install_ended disk a (ok _, t, ts) = (rebooted disk, (a, t))
  install_ended disk a (err why, t, ts) = (fatal (installing why), (a, t))

  pub run_install : String → World → End × World
  run_install disk (a, s) = install_ended disk a (Install.run h e g x version disk s)

  abbrev pub volumes_mounted :
      String → h.State → Result Mount.Error (Unit {0}) × k.State → End × World
  volumes_mounted disk s (ok _, a) = (boots disk, (a, s))
  volumes_mounted disk s (err why, a) = (fatal (mounting_volumes why), (a, s))

  pub start_boot : String → World → End × World
  start_boot disk (a, s) = volumes_mounted disk s (volumes k h disk s a)

  pub detected : Result Layout.Error (Bool × String) → World → End × World
  unfolding run_install start_boot
  detected (err why) (a, s) = (fatal (detecting why), (a, s))
  detected (ok (false, disk)) (a, s) = run_install disk (a, s)
  detected (ok (true, disk)) (a, s) = start_boot disk (a, s)

  pub initialized : h.State → Result Mount.Error (Unit {0}) × k.State → End × World
  unfolding detected
  initialized s (err why, a) = (fatal (initializing why), (a, s))
  initialized s (ok _, a) = detected (detect h (entries s) s) (a, s)

  pub run_root : World → End × World
  unfolding run_initialize initialized
  run_root (a, s) = initialized s (run_initialize a)

  install_ended-boots :
      (disk other : String) (a : k.State)
      (p : Result Install.Error (Unit {0}) × h.State × List h.State)
      → (install_ended disk a p).0 ≢ boots other
  install_ended-boots disk other a (ok _, t, ts) q = absurd (cc)
  install_ended-boots disk other a (err why, t, ts) q = absurd (cc)

  volumes_mounted-boots :
      (disk other : String) (s : h.State) (p : Result Mount.Error (Unit {0}) × k.State)
      → (volumes_mounted disk s p).0 ≡ boots other
      → disk ≡ other
  volumes_mounted-boots disk other s (ok _, a) q = cc
  volumes_mounted-boots disk other s (err why, a) q = absurd (cc)

  detected-boots :
      (r : Result Layout.Error (Bool × String)) (a : k.State) (s : h.State) (disk : String)
      → (detected r (a, s)).0 ≡ boots disk
      → r ≡ ok (true, disk)
  unfolding detected
  detected-boots (err why) a s disk q = absurd (cc)
  detected-boots (ok (false, other)) a s disk q =
      absurd (install_ended-boots other disk a (Install.run h e g x version other s) q)
  detected-boots (ok (true, other)) a s disk q =
      ap (λ d. ok (true, d)) (volumes_mounted-boots other disk s (volumes k h other s a) q)

  initialized-boots :
      (s : h.State) (p : Result Mount.Error (Unit {0}) × k.State) (disk : String)
      → (initialized s p).0 ≡ boots disk
      → detect h (entries s) s ≡ ok (true, disk)
  unfolding initialized
  initialized-boots s (err why, a) disk q = absurd (cc)
  initialized-boots s (ok _, a) disk q = detected-boots (detect h (entries s) s) a s disk q

  -- The node boots only a disk that is the system disk and that IsInstalled accepts.
  pub run_root-installed :
      (w : World) (disk : String)
      → (run_root w).0 ≡ boots disk
      → (find_system_disk (entries w.1) ≡ ok disk) × (is_installed h disk w.1 ≡ ok true)
  unfolding run_root
  run_root-installed (a, s) disk q =
      detect-true h (entries s) s disk (initialized-boots s (run_initialize a) disk q)

  module _ (laws : HardwareLaws h) (disk : String) (layout : Layout) (b : BootArtifact)
      (site : SiteLaws h e x disk (meta_path h e g x disk layout)) (s s1 s2 : h.State)
      {vs ws : List h.State} where
    -- Let an install have made the layout in s1 and have wiped its META in s2, with nothing mounted
    -- from META. Let the power fail at any state that the rest of it visits before meta.Init. Then,
    -- whatever the kernel's mounts answer at the next start, the root command does not boot that
    -- disk.
    pub interrupted-never_boots :
        (t : h.State) (a : k.State)
        → partition h disk s ≡ (ok layout, s1, vs)
        → h.is_mounted s1 (meta_path h e g x disk layout) ≡ false
        → wipe h (meta_path h e g x disk layout) s1 ≡ (ok tt, s2, ws)
        → In t ((prepare h e g x disk layout b s2).1 ∷ (prepare h e g x disk layout b s2).2)
        → (run_root (a, t)).0 ≢ boots disk
    interrupted-never_boots t a made unmounted wiped visited q =
        at_member ((prepare h e g x disk layout b s2).1 ∷ (prepare h e g x disk layout b s2).2)
          visited
          (prepare-not_installed h laws e g x disk layout b site s s1 s2 made unmounted wiped)
          (run_root-installed (a, t) disk q).1
      where
        at_member :
            (us : List h.State)
            → In t us
            → All (λ u. is_installed h disk u ≢ ok true) us
            → is_installed h disk t ≢ ok true
        at_member [] i n = absurd (i tt)
        at_member (u ∷ us) (inl same) n = λ y. n.0 (ap (is_installed h disk) same ∙ y)
        at_member (u ∷ us) (inr later) n = at_member us later n.1
