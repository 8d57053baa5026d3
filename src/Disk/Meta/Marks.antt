-- ===== src/Disk/Meta/Marks.antt =====
-- internal/meta/meta.go: what Init and Wipe do to META, and what IsInitialized makes of it.
use Prim.Native.String.{String}
use invari_os.Base.{
  ℕ, ◌≡◌, sym, ap, ◌∙◌, Bool, true, false, Option, none, some, List, Result, ok, err, take, length,
  replicate, length-replicate, ok_injective,
}
use invari_os.Base.Visits.{wrap_result, read, wrap, >>=-eq-ok, read-eq-ok, wrap-eq-ok}
use invari_os.Disk.Hardware.{Hardware, HardwareLaws}
use invari_os.Disk.Meta.{
  Error, opening, writing, check, write_at_start, creating_adv, wipe, init, is_initialized,
}

wrap_result_ok :
    {A : Type 0} (f : String → Error) (r : Result String A) {a : A}
    → wrap_result f r ≡ ok a
    → r ≡ ok a
wrap_result_ok f (ok a) k = cc
wrap_result_ok f (err x) k = absurd (cc)

module _ (h : Hardware) where
  pub is_initialized-true :
      (s : h.State) (q : String)
      → is_initialized h s q ≡ ok true
      → h.is_adv (take h.adv_size (h.device_content s q)) ≡ true
  unfolding is_initialized
  is_initialized-true s q e = split (h.open_for_read s q) e
    where
      split :
          (o : Option String)
          → ◌≡◌ {A = Result Error Bool}
              (elim o [
                | some why ↦ err (opening why)
                | none ↦ ok (h.is_adv (take h.adv_size (h.device_content s q)))
              ])
              (ok true)
          → h.is_adv (take h.adv_size (h.device_content s q)) ≡ true
      split none k = ok_injective Error k
      split (some why) k = absurd (cc)

  module _ (laws : HardwareLaws h) (disk q : String) (s u : h.State) {vs : List h.State}
      (unmounted : h.is_mounted s q ≡ false) where
    pub write_at_start-holds :
        (buf : List ℕ)
        → write_at_start h q buf s ≡ (ok tt, u, vs)
        → (take (length buf) (h.device_content u q) ≡ buf)
          × (h.read_table u disk ≡ h.read_table s disk)
          × (h.open_disk u disk ≡ h.open_disk s disk)
          × (h.is_mounted u q ≡ false)
    unfolding write_at_start
    write_at_start-holds buf e =
        let (_, s1, _, _, opened, e1) =
          >>=-eq-ok (read (λ s. check opening (h.open_for_write s q))) _ s e in
        let (_, at) = read-eq-ok (λ s. check opening (h.open_for_write s q)) s opened in
        let (_, s2, ws, _, wrote, e2) = >>=-eq-ok (wrap writing (h.write_at_0 q buf)) _ s1 e1 in
        let (content, table, opens, mount) =
          laws.write_at_0-content disk q buf s1 s2 ws
            (wrap-eq-ok writing (h.write_at_0 q buf) s1 wrote) in
        let still = mount ∙ ap (λ x. h.is_mounted x q) at ∙ unmounted in
        let k = (laws.sync_device-Leaves disk q q s2 still).0 in
        let ends = ap (λ x. x.1) e2 in
        (
          ap (λ x. take (length buf) (h.device_content x q)) (sym ends)
              ∙ ap (take (length buf)) k.same_content
              ∙ content,
          ap (λ x. h.read_table x disk) (sym ends)
              ∙ k.same_table
              ∙ table
              ∙ ap (λ x. h.read_table x disk) at,
          ap (λ x. h.open_disk x disk) (sym ends)
              ∙ k.same_open
              ∙ opens
              ∙ ap (λ x. h.open_disk x disk) at,
          ap (λ x. h.is_mounted x q) (sym ends) ∙ k.same_mount ∙ still,
        )

    pub wipe-holds :
        wipe h q s ≡ (ok tt, u, vs)
        → (h.is_adv (take h.adv_size (h.device_content u q)) ≡ false)
          × (h.read_table u disk ≡ h.read_table s disk)
          × (h.open_disk u disk ≡ h.open_disk s disk)
          × (h.is_mounted u q ≡ false)
    unfolding wipe
    wipe-holds e =
        let (zeros, table, opens, mount) = write_at_start-holds (replicate h.adv_size 0) e in
        let first : take h.adv_size (h.device_content u q) ≡ replicate h.adv_size 0 =
          sym (ap (λ n. take n (h.device_content u q)) (length-replicate h.adv_size 0)) ∙ zeros in
        (ap h.is_adv first ∙ laws.zeros_no_adv, table, opens, mount)

  module _ (laws : HardwareLaws h) (disk q : String) where
    pub init-holds :
        (s u : h.State) {vs : List h.State}
        → h.is_mounted s q ≡ false
        → init h q s ≡ (ok tt, u, vs)
        → (h.is_adv (take h.adv_size (h.device_content u q)) ≡ true)
          × (h.read_table u disk ≡ h.read_table s disk)
          × (h.open_disk u disk ≡ h.open_disk s disk)
    unfolding init
    init-holds s u unmounted e =
        let adv = λ (x : h.State). wrap_result creating_adv h.empty_adv in
        let (buf, s1, _, ws, made, e1) = >>=-eq-ok (read adv) _ s e in
        let (has, at) = read-eq-ok adv s made in
        let (size, good) =
          laws.empty_adv-is_adv buf (wrap_result_ok creating_adv h.empty_adv has) in
        let (content, table, opens, _) =
          write_at_start-holds laws disk q s u unmounted buf
            (ap (write_at_start h q buf) (sym at) ∙ e1) in
        let first : take h.adv_size (h.device_content u q) ≡ buf =
          ap (λ n. take n (h.device_content u q)) (sym size) ∙ content in
        (ap h.is_adv first ∙ good, table, opens)

    -- What IsInitialized says of a device with an ADV that can be opened.
    pub is_initialized-adv :
        (s : h.State)
        → h.open_for_read s q ≡ none
        → h.is_adv (take h.adv_size (h.device_content s q)) ≡ true
        → is_initialized h s q ≡ ok true
    unfolding is_initialized
    is_initialized-adv s opens adv = rw (opens, is_initialized) (ap ok adv)
