-- ===== src/Install/Marker.antt =====
-- internal/install/install.go: the disk between the wipe of META and its initialization.
use Prim.Native.String.{String}
use invari_os.Base.{
  ℕ, true, false, Option, List, ◌∷◌, Result, ok, err, M, ◌≡◌, ◌≢◌, refl, sym, ap, ◌∙◌, All,
  All-append, All-map,
}
use invari_os.Base.Visits.{T, wrap, Keeps, Keeps-bind, Keeps-read, Keeps-wrap}
use invari_os.Efi.Vars.{EfiVars}
use invari_os.Efi.Vars
use invari_os.Efi.LoadOption.{GoUefi}
use invari_os.Efi.BootEntry.{set_default, ensure_boot_entry}
use invari_os.Disk.Hardware.{Hardware, HardwareLaws, Partition}
use invari_os.Disk.Layout.{Layout, numbered, meta_number, is_installed}
use invari_os.Disk.Layout.Partitioning.{format, partition}
use invari_os.Disk.Layout.RoundTrip.{
  Partitioned, partition-Partitioned, meta_number-Allocated, first_esp, first_meta, first_state,
  first_data,
}
use invari_os.Disk.Layout.Mark.{
  Unmarked, Unmarked-is_installed, Unmarked-Quiet, Keeps-Leaves, Keeps-format,
  first_named-dev_name_differs,
}
use invari_os.Disk.Meta.{wipe}
use invari_os.Disk.Meta.Marks.{wipe-holds}
use invari_os.Install.{
  Site, SiteLaws, Error, BootArtifact, deferred, on_error, undo, efi, write_file, mount_esp,
  copy_files, write_esp, prepare, meta_path, under, creating_directory, writing_file,
  creating_mount_point, mounting_esp, sdboot_esp_path, loader_conf_path, formatting,
  setting_default, ensuring_boot_entry, boot_entry_label, esp_target,
}

module _ {S E A : Type 0} (P : S → Type 0) (cleanup : T S String (Unit {0})) (m : T S E A)
    (keep_c : Keeps P cleanup) (keep_m : Keeps P m) where
  Keeps-deferred : Keeps P (deferred cleanup m)
  Keeps-deferred s k =
      let (l, ls) = keep_m s k in
      let (n, ns) = keep_c (m s).1 l in (n, All-append P (m s).2 (cleanup (m s).1).2 ls ns)

  Keeps-on_error : Keeps P (on_error cleanup m)
  Keeps-on_error s k = split (m s) (keep_m s k)
    where
      split :
          (p : Result E A × S × List S)
          → P p.1 × All P p.2
          → P (undo cleanup p).1 × All P (undo cleanup p).2
      split (ok a, t, vs) l = l
      split (err x, t, vs) (l, ls) =
          let (n, ns) = keep_c t l in (n, All-append P vs (cleanup t).2 ls ns)

module _ (h : Hardware) (e : EfiVars) (g : GoUefi) (x : Site h e) (disk q : String)
    (ts : List (Option Partition)) (site : SiteLaws h e x disk q) where
  abbrev U : h.State → Type 0
  U = Unmarked h disk q ts

  Keeps-write_file : (dir path : String) (b : List ℕ) → Keeps U (write_file h e g x dir path b)
  unfolding write_file
  Keeps-write_file dir path b =
      Keeps-bind U (wrap creating_directory (x.mkdir_all dir)) _
        (Keeps-wrap U creating_directory (x.mkdir_all dir)
          (Keeps-Leaves h disk q ts (x.mkdir_all dir) (site.mkdir_all-Leaves dir)))
        λ _.
          Keeps-wrap U writing_file (x.write_file path b)
            (Keeps-Leaves h disk q ts (x.write_file path b) (site.write_file-Leaves path b))

  Keeps-mount_esp : (dev : String) → dev ≢ q → Keeps U (mount_esp h e g x dev)
  unfolding mount_esp
  Keeps-mount_esp dev differs =
      Keeps-bind U (wrap creating_mount_point (x.mkdir_temp "esp-*")) _
        (Keeps-wrap U creating_mount_point (x.mkdir_temp "esp-*")
          (Keeps-Leaves h disk q ts (x.mkdir_temp "esp-*") (site.mkdir_temp-Leaves "esp-*")))
        λ dir.
          Keeps-bind U (on_error (x.remove dir) (wrap mounting_esp (x.mount_vfat dev dir))) _
            (Keeps-on_error U (x.remove dir) (wrap mounting_esp (x.mount_vfat dev dir))
              (Keeps-Leaves h disk q ts (x.remove dir) (site.remove-Leaves dir))
              (Keeps-wrap U mounting_esp (x.mount_vfat dev dir) (
                Keeps-Leaves h disk q ts (x.mount_vfat dev dir)
                  (site.mount_vfat-Leaves dev dir differs))))
            λ _. Keeps-read {E = Error} U (λ _. ok dir)

  Keeps-copy_files : (b : BootArtifact) (dir : String) → Keeps U (copy_files h e g x b dir)
  unfolding copy_files
  Keeps-copy_files b dir =
      Keeps-bind U
        (write_file h e g x (under dir "EFI/Linux") (under dir (under "EFI/Linux" b.uki_name))
          b.uki)
        _
        (Keeps-write_file (under dir "EFI/Linux") (under dir (under "EFI/Linux" b.uki_name)) b.uki)
        λ _.
          Keeps-bind U
            (write_file h e g x (under dir "EFI/BOOT") (under dir sdboot_esp_path) b.sdboot) _
            (Keeps-write_file (under dir "EFI/BOOT") (under dir sdboot_esp_path) b.sdboot)
            λ _. Keeps-write_file (under dir "loader") (under dir loader_conf_path) b.loader_conf

  Keeps-write_esp :
      (layout : Layout) (b : BootArtifact)
      → h.dev_name disk layout.esp.number ≢ q
      → Keeps U (write_esp h e g x disk layout b)
  unfolding write_esp
  Keeps-write_esp layout b differs =
      Keeps-bind U (mount_esp h e g x (h.dev_name disk layout.esp.number)) _
        (Keeps-mount_esp (h.dev_name disk layout.esp.number) differs)
        λ dir.
          Keeps-deferred U (deferred (x.remove dir) (x.unmount dir)) (copy_files h e g x b dir)
            (Keeps-deferred U (x.remove dir) (x.unmount dir)
              (Keeps-Leaves h disk q ts (x.remove dir) (site.remove-Leaves dir))
              (Keeps-Leaves h disk q ts (x.unmount dir) (site.unmount-Leaves dir)))
            (Keeps-copy_files b dir)

  Keeps-efi :
      {A : Type 0} (f : Vars.Error → Error) (m : M e.Store Vars.Error A) → Keeps U (efi h e g x f m)
  unfolding efi
  Keeps-efi f m s u =
      let k =
        Unmarked-Quiet h disk q ts s (x.set_nvram (m (x.nvram s)).1 s) u
          (site.set_nvram-Quiet (m (x.nvram s)).1 s) in
      (k, (k, tt))

  Keeps-prepare :
      HardwareLaws h
      → (layout : Layout) (b : BootArtifact) → h.dev_name disk layout.esp.number ≢ q
      → h.dev_name disk layout.state.number ≢ q
      → h.dev_name disk layout.data_part.number ≢ q
      → Keeps U (prepare h e g x disk layout b)
  unfolding prepare
  Keeps-prepare laws layout b no_esp no_state no_data =
      Keeps-bind U (wrap formatting (format h disk layout)) _
        (Keeps-wrap U formatting (format h disk layout)
          (Keeps-format h disk q ts laws layout no_esp no_state no_data))
        λ _. Keeps-bind U (write_esp h e g x disk layout b) _ (Keeps-write_esp layout b no_esp) λ _.
          Keeps-bind U (efi h e g x setting_default (set_default e g (x.runes b.uki_name))) _
            (Keeps-efi setting_default (set_default e g (x.runes b.uki_name)))
            λ _.
              Keeps-efi ensuring_boot_entry
                (ensure_boot_entry e g (x.runes boot_entry_label) (esp_target h e g x layout))

module _ (h : Hardware) (laws : HardwareLaws h) (e : EfiVars) (g : GoUefi) (x : Site h e)
    (disk : String) (layout : Layout) (b : BootArtifact)
    (site : SiteLaws h e x disk (meta_path h e g x disk layout)) (s1 s2 : h.State)
    {ws : List h.State} where
  -- Between Wipe and Init the disk keeps its table, and its META holds no ADV.
  pub prepare-Unmarked :
      (p : Partitioned h laws disk layout s1)
      → h.is_mounted s1 (meta_path h e g x disk layout) ≡ false
      → wipe h (meta_path h e g x disk layout) s1 ≡ (ok tt, s2, ws)
      → All
          (Unmarked h disk (meta_path h e g x disk layout) p.ts)
          ((prepare h e g x disk layout b s2).1 ∷ (prepare h e g x disk layout b s2).2)
  prepare-Unmarked p unmounted wiped =
      let q = meta_path h e g x disk layout in
      let a = p.allocated in
      let (no_adv, table, opens, mount) = wipe-holds h laws disk q s1 s2 unmounted wiped in
      let start : Unmarked h disk q p.ts s2 = record {
        opens = opens ∙ p.opens;
        table = table ∙ p.reads;
        unmounted = mount;
        no_adv = no_adv;
      } in
      let m = first_meta layout p.ts a in
      let apart = first_named-dev_name_differs h laws disk in
      Keeps-prepare h e g x disk q p.ts site laws layout b
        (apart "ESP" "META" p.ts layout.esp layout.meta refl (first_esp layout p.ts a) m)
        (apart "STATE" "META" p.ts layout.state layout.meta refl (first_state layout p.ts a) m)
        (apart "DATA" "META" p.ts layout.data_part layout.meta refl (first_data layout p.ts a) m) s2
        start

module _ (h : Hardware) (laws : HardwareLaws h) (e : EfiVars) (g : GoUefi) (x : Site h e)
    (disk : String) (layout : Layout) (b : BootArtifact)
    (site : SiteLaws h e x disk (meta_path h e g x disk layout)) (s s1 s2 : h.State)
    {vs ws : List h.State} where
  -- Let Partition make the layout in s1, let Wipe of its META then end in s2, and let nothing be
  -- mounted from META. Then every state that the rest of the install visits before meta.Init, its
  -- last state included and whether it fails or not, is one that IsInstalled does not accept: a
  -- power loss there leaves a disk that is installed anew.
  pub prepare-not_installed :
      partition h disk s ≡ (ok layout, s1, vs)
      → h.is_mounted s1 (meta_path h e g x disk layout) ≡ false
      → wipe h (meta_path h e g x disk layout) s1 ≡ (ok tt, s2, ws)
      → All
          (λ t. is_installed h disk t ≢ ok true)
          ((prepare h e g x disk layout b s2).1 ∷ (prepare h e g x disk layout b s2).2)
  prepare-not_installed made unmounted wiped =
      let q = meta_path h e g x disk layout in
      let p = partition-Partitioned h laws disk s s1 layout made in
      let meta_is : q ≡ h.dev_name disk (meta_number (numbered 0 p.ts)) =
        ap (h.dev_name disk) (sym (meta_number-Allocated layout p.ts p.allocated)) in
      All-map (Unmarked h disk q p.ts) (λ t. is_installed h disk t ≢ ok true)
        (Unmarked-is_installed h disk q p.ts meta_is)
        ((prepare h e g x disk layout b s2).1 ∷ (prepare h e g x disk layout b s2).2)
        (prepare-Unmarked h laws e g x disk layout b site s1 s2 p unmounted wiped)
