-- ===== src/Network/Maintain/Kept.antt =====
-- internal/network/network.go: the link under maintain, where the kernel refuses nothing.
use Prim.Native.String.{String}
use mathlib.Core.Path.{subst}
use text.Mathlib.Text.{◌==◌ as str_eq}
use text.Mathlib.TextEquality.{eq_iff}
use invari_os.Base.{
  ℕ, zero, suc, ◌+◌, Bool, true, false, Bool-cases, inl, inr, Option, none, some, List, [], ◌∷◌,
  Result, ok, ◌⊎◌, ◌≡◌, ◌≢◌, refl, sym, ap, ◌∙◌, if◌then◌else◌,
}
use invari_os.Network.Config.{Ip, Ack, Config, lease_config, config_changed}
use invari_os.Network.Timers.{Timers, lease_timers}
use invari_os.Network.Renew.{Renewal, renewed, expired, canceled, stuck}
use invari_os.Network.Renew.Pace.{Brought, renew_until-Brought}
use invari_os.Network.Link.{
  Node, Lease, AddReply, added, exists, Error, adding_default_route, writing_resolv_conf, reply_of,
  resolv_lines, write_dns, address_reply, add_address, set_route, apply, unapply, link_named,
  find_link, on_link, with_link, reconfigure, release,
}
use invari_os.Network.Link.InForce.{View, NodeLaws, InForce, apply-InForce}
use invari_os.Network.Maintain.{
  Turn, End, never_expires, stopped, stopped_released, running, renewing, reacquiring, Reacquired,
  acquired, given_up, out_of_turns, reacquire, follow, resumed, lost, settled, timed, maintain,
}
use invari_os.Network.Maintain.Acquired.{reacquire-Holding}

module _ (n : Node) (v : View n) (laws : NodeLaws n v) (iface : String) where
  -- A kernel that has the link and takes every address, route and file; an address that is there
  -- already it may answer with EEXIST.
  pub record Willing : Type 0 where
    pub dial : (s : n.State) → n.dial s ≡ none
    pub others : List String
    pub links : (s : n.State) → n.links s ≡ ok (iface ∷ others)
    pub addr_add :
        (link : String) (ip mask : Ip) (s : n.State)
        → (t : n.State) × ((n.addr_add link ip mask s ≡ (added, t))
            ⊎ (n.addr_add link ip mask s ≡ (exists, t)))
    pub route_replace :
        (link : String) (gw : Ip) (s : n.State)
        → (t : n.State) × (n.route_replace link gw s ≡ (none, t))
    pub write_resolv_conf :
        (text : String) (s : n.State) → (t : n.State) × (n.write_resolv_conf text s ≡ (none, t))

  -- The config is in force, or is one that configChanged takes for one that is.
  pub data Kept : Config → n.State → Type 0 where
    in_force : {cfg : Config} {before t : n.State} → InForce n v iface cfg before t → Kept cfg t
    unchanged :
        {old cfg : Config} {t : n.State} → Kept old t → config_changed old cfg ≡ false → Kept cfg t

  -- Every lease that a renewal brings names a name server.
  abbrev pub NamesServers : (ℕ → Turn) → Type 0
  NamesServers world =
      (k i : ℕ) (ack : Ack) → ((world k).rounds i).renewed ≡ some ack → ack.dns ≢ []

  -- The config that maintain holds, at its end or where it is when the turns run out, is kept. It
  -- holds none in a reacquire, nor where the context is done there.
  abbrev pub Ends : End × n.State → Type 0
  Ends (never_expires cfg, t) = Kept cfg t
  Ends (stopped cfg, t) = Kept cfg t
  Ends (stopped_released, t) = Unit {0}
  Ends (running cfg, t) = Kept cfg t
  Ends (renewing cfg, t) = Kept cfg t
  Ends (reacquiring, t) = Unit {0}

  Ends-if : (b : Bool) (x y : End × n.State) → Ends x → Ends y → Ends (if b then x else y)
  Ends-if true x y hx hy = hx
  Ends-if false x y hx hy = hy

  module _ (w : Willing) where
    set_route_willing :
        (link : String) (gw : Ip) (s : n.State)
        → (t : n.State) × (set_route n link gw s ≡ (ok tt, t))
    unfolding set_route
    set_route_willing link [] s = (s, refl)
    set_route_willing link (b ∷ gw) s =
        let (t, e) = w.route_replace link (b ∷ gw) s in (t, ap (reply_of adding_default_route) e)

    write_dns_willing :
        (servers : List Ip) (s : n.State)
        → servers ≢ []
        → (t : n.State) × (write_dns n servers s ≡ (ok tt, t))
    unfolding write_dns
    write_dns_willing [] s some_server = absurd (some_server refl)
    write_dns_willing (ns ∷ servers) s some_server =
        let (t, e) = w.write_resolv_conf (resolv_lines n.ip_text (ns ∷ servers)) s in
        (t, ap (reply_of writing_resolv_conf) e)

    addressed :
        {p : AddReply × n.State} {t : n.State}
        → (p ≡ (added, t)) ⊎ (p ≡ (exists, t))
        → address_reply n p ≡ (ok tt, t)
    unfolding address_reply
    addressed (inl e) = ap (address_reply n) e
    addressed (inr e) = ap (address_reply n) e

    apply_willing :
        (link : String) (cfg : Config) (s : n.State)
        → cfg.dns ≢ []
        → (t : n.State) × (apply n link cfg s ≡ (ok tt, t))
    unfolding apply add_address
    apply_willing link cfg s some_server =
        let (s1, e1) = w.addr_add link cfg.ip cfg.mask s in
        let first : add_address n link cfg s ≡ (ok tt, s1) = addressed e1 in
        let (s2, e2) = set_route_willing link cfg.gw s1 in
        let (t, e3) = write_dns_willing cfg.dns s2 some_server in (t, rw (first, e2) e3)

    find_link_willing : (s : n.State) → find_link n iface s ≡ ok iface
    unfolding find_link link_named
    find_link_willing s =
        let here : str_eq iface iface ≡ true = (eq_iff iface iface).1 refl in
        rw (w.links s, here, find_link) refl

    with_link_willing :
        (f : String → n.State → Result Error (Unit {0}) × n.State) (s : n.State)
        → with_link n iface f s ≡ f iface s
    unfolding with_link on_link
    with_link_willing f s =
        rw (w.dial s, with_link) (ap (λ r. on_link n r f s) (find_link_willing s))

    Kept-reconfigure :
        (old updated : Config) (s : n.State)
        → updated.dns ≢ []
        → Kept updated (reconfigure n iface old updated s)
    unfolding reconfigure
    Kept-reconfigure old updated s some_server =
        let before = unapply n iface old s in
        let (t, e) = apply_willing iface updated before some_server in
        subst (Kept updated)
          (sym (
            ap (λ p. p.1)
              (with_link_willing (λ link u. apply n link updated (unapply n link old u)) s ∙ e)))
          (in_force (apply-InForce n v laws iface updated before t e))

    Kept-follow :
        (cfg updated : Config) (s : n.State)
        → updated.dns ≢ []
        → Kept cfg s
        → Kept updated (follow n iface cfg updated s)
    unfolding follow
    Kept-follow cfg updated s some_server kept = elim (Bool-cases (config_changed cfg updated)) [
      | inl differs ↦ rw differs (Kept-reconfigure cfg updated s some_server)
      | inr same ↦ rw same (unchanged kept same)
    ]

    module _ (world : ℕ → Turn) (serves : NamesServers world)
        (again : Lease → Config → n.State → End × n.State)
        (later : (l : Lease) (c : Config) (u : n.State) → Kept c u → Ends (again l c u)) where
      Ends-resumed :
          (turn : Turn) (s : n.State) (p : Reacquired × n.State)
          → reacquire n iface turn.attempt_count turn.attempts 0 s ≡ p
          → Ends (resumed n iface again p)
      unfolding resumed
      Ends-resumed turn s (acquired lease cfg, t) e =
          let held =
            reacquire-Holding n v laws iface lease cfg turn.attempt_count turn.attempts 0 s t e in
          later lease cfg t (in_force held.in_force)
      Ends-resumed turn s (given_up, t) e = tt
      Ends-resumed turn s (out_of_turns, t) e = tt

      Ends-lost :
          (turn : Turn) (cfg : Config) (s : n.State)
          → Kept cfg s
          → Ends (lost n iface turn again cfg s)
      unfolding lost
      Ends-lost turn cfg s kept = Ends-if turn.canceled _ _ kept (
          Ends-resumed turn (release n iface cfg s)
            (reacquire n iface turn.attempt_count turn.attempts 0 (release n iface cfg s)) refl)

      Ends-settled :
          (k : ℕ) (cfg : Config) (s : n.State) (r : Renewal)
          → Kept cfg s
          → Brought (world k).rounds r
          → Ends (settled n iface (world k) again cfg s r)
      unfolding settled lease_config
      Ends-settled k cfg s (renewed ack at) kept (i, got) =
          later _ _ _ (Kept-follow cfg (lease_config ack) s (serves k i ack got) kept)
      Ends-settled k cfg s (expired at) kept b = Ends-lost (world k) cfg s kept
      Ends-settled k cfg s (canceled at) kept b = Ends-lost (world k) cfg s kept
      Ends-settled k cfg s stuck kept b = kept

      Ends-timed :
          (k : ℕ) (cfg : Config) (s : n.State) (t : Timers)
          → Kept cfg s
          → Ends (timed n iface (world k) again cfg s t)
      unfolding timed
      Ends-timed k cfg s t kept =
          Ends-if (world k).slept _ _
            (Ends-settled k cfg s _ kept (
              renew_until-Brought (world k).round_count (world k).rounds 0 t.expiry
                (world k).begin))
            kept

      Ends-turn :
          (k : ℕ) (cfg : Config) (s : n.State) (o : Option Timers)
          → Kept cfg s
          → Ends (elim o [
            | none ↦ (never_expires cfg, s)
            | some t ↦ timed n iface (world k) again cfg s t
          ])
      Ends-turn k cfg s none kept = kept
      Ends-turn k cfg s (some t) kept = Ends-timed k cfg s t kept

    -- Over a kernel that keeps NodeLaws and refuses nothing but an address that is there already,
    -- where every lease that a renewal brings names a name server: let maintain start with a config
    -- that is in force. After any number of turns, with leases renewed, changed, lost and acquired
    -- anew, whatever config maintain then holds is in force on the interface, or is one that
    -- configChanged takes for one that is: also while maintain goes on, before a turn or in a
    -- renewal, and where it ends because the lease never expires or the context is done. It holds
    -- none while it acquires a new lease, nor where the context is done there.
    pub maintain-Kept :
        (world : ℕ → Turn) (turns k : ℕ) (lease : Lease) (cfg : Config) (s : n.State)
        → NamesServers world
        → Kept cfg s
        → Ends (maintain n iface turns world k lease cfg s)
    unfolding maintain
    maintain-Kept world zero k lease cfg s serves kept = kept
    maintain-Kept world (suc turns) k lease cfg s serves kept =
        Ends-turn world serves (λ l c u. maintain n iface turns world (k + 1) l c u)
          (λ l c u x. maintain-Kept world turns (k + 1) l c u serves x) k cfg s
          (lease_timers lease.ack lease.creation_time) kept
