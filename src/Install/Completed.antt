-- ===== src/Install/Completed.antt =====
-- internal/install/install.go: the disk of an install that has ended.
use Prim.Native.String.{String}
use mathlib.Core.Path.{subst}
use invari_os.Base.{true, false, none, List, ok, ◌≡◌, sym, ap, ◌∙◌}
use invari_os.Base.Visits.{read, wrap, wrap_result, >>=-eq-ok, read-eq-ok, wrap-eq-ok}
use invari_os.Efi.Vars.{EfiVars}
use invari_os.Efi.LoadOption.{GoUefi}
use invari_os.Disk.Hardware.{Hardware, HardwareLaws}
use invari_os.Disk.Layout.{Layout, is_installed, wait_for_partition}
use invari_os.Disk.Layout.Partitioning.{partition}
use invari_os.Disk.Layout.RoundTrip.{
  partition-Partitioned, meta_number-Allocated, all_found-Allocated,
}
use invari_os.Disk.Layout.Mark.{Unmarked}
use invari_os.Disk.Layout.Ready.{is_installed-true}
use invari_os.Disk.Meta.{wipe, init}
use invari_os.Disk.Meta.Marks.{init-holds, is_initialized-adv}
use invari_os.Install.{
  Site, SiteLaws, BootArtifact, prepare, finish, meta_path, waiting_for_meta, wiping_meta,
  initializing_meta,
}
use invari_os.Install.Marker.{prepare-Unmarked}

module _ (h : Hardware) (laws : HardwareLaws h) (e : EfiVars) (g : GoUefi) (x : Site h e)
    (disk : String) (layout : Layout) (b : BootArtifact)
    (site : SiteLaws h e x disk (meta_path h e g x disk layout)) (s s1 t : h.State)
    {vs ws : List h.State} where
  -- Let Partition make the layout in s1, let nothing be mounted from its META there, and let the
  -- rest of the install end in t without an error. Then, if in t the device node of META is there
  -- and can be opened, IsInstalled says yes: the next boot runs the installed system.
  pub finish-is_installed :
      partition h disk s ≡ (ok layout, s1, vs)
      → h.is_mounted s1 (meta_path h e g x disk layout) ≡ false
      → finish h e g x disk layout b s1 ≡ (ok tt, t, ws)
      → h.stat_poll t (meta_path h e g x disk layout) 0 ≡ true
      → h.open_for_read t (meta_path h e g x disk layout) ≡ none
      → is_installed h disk t ≡ ok true
  unfolding finish
  finish-is_installed made unmounted done there opens =
      let q = meta_path h e g x disk layout in
      let p = partition-Partitioned h laws disk s s1 layout made in
      let waits = λ (u : h.State). wrap_result waiting_for_meta (wait_for_partition h q u) in
      let (_, s2, _, _, waited, k1) = >>=-eq-ok (read waits) _ s1 done in
      let (_, at) = read-eq-ok waits s1 waited in
      let (_, s3, ws3, _, wiped, k2) = >>=-eq-ok (wrap wiping_meta (wipe h q)) _ s2 k1 in
      let (_, s4, ws4, _, prepared, k3) = >>=-eq-ok (prepare h e g x disk layout b) _ s3 k2 in
      let begins : wipe h q s1 ≡ (ok tt, s3, ws3) =
        ap (wipe h q) (sym at) ∙ wrap-eq-ok wiping_meta (wipe h q) s2 wiped in
      let way = prepare-Unmarked h laws e g x disk layout b site s1 s3 p unmounted begins in
      let ready : Unmarked h disk q p.ts s4 =
        subst (Unmarked h disk q p.ts) (ap (λ r. r.1) prepared) way.0 in
      let (adv, table, still_opens) =
        init-holds h laws disk q s4 t ready.unmounted
          (wrap-eq-ok initializing_meta (init h q) s4 k3) in
      is_installed-true h t disk q p.ts (still_opens ∙ ready.opens) (table ∙ ready.table)
        (all_found-Allocated layout p.ts p.allocated)
        (ap (h.dev_name disk) (meta_number-Allocated layout p.ts p.allocated)) there
        (is_initialized-adv h laws disk q t opens adv)
