-- ===== src/Network/Link/InForce.antt =====
-- internal/network/network.go: the link behind an apply that reports no error.
use Prim.Native.String.{String}
use invari_os.Base.{
  Option, none, some, List, [], ◌∷◌, ok, >>=-eq-ok, In, ◌≡◌, ◌≢◌, refl, sym, ap, ◌∙◌,
}
use mathlib.Core.Path.{subst}
use invari_os.Network.Config.{Ip, Config}
use invari_os.Network.Link.{
  Node, AddReply, added, exists, add_failed, Error, reply_of, resolv_lines, write_dns,
  address_reply, add_address, set_route, apply, adding_default_route, writing_resolv_conf,
}

-- What the kernel and the resolver's file hold: the addresses on a link, the gateway of the default
-- route (nil for none), and the text.
pub record View (n : Node) : Type 0 where
  pub addresses : n.State → String → List (Ip × Ip)
  pub gateway : n.State → Ip
  pub resolv_conf : n.State → String

-- An operation that succeeds does what it says and nothing else.
pub record NodeLaws (n : Node) (v : View n) : Type 0 where
  pub addr_add-added :
      (link : String) (ip mask : Ip) (s t : n.State)
      → n.addr_add link ip mask s ≡ (added, t)
      → In (ip, mask) (v.addresses t link) × (v.gateway t ≡ v.gateway s)
  pub addr_add-exists :
      (link : String) (ip mask : Ip) (s t : n.State)
      → n.addr_add link ip mask s ≡ (exists, t)
      → In (ip, mask) (v.addresses t link) × (v.gateway t ≡ v.gateway s)
  pub route_replace_lem :
      (link : String) (gw : Ip) (s t : n.State)
      → n.route_replace link gw s ≡ (none, t)
      → (v.gateway t ≡ gw) × (v.addresses t link ≡ v.addresses s link)
  pub write_resolv_conf_lem :
      (text link : String) (s t : n.State)
      → n.write_resolv_conf text s ≡ (none, t)
      → (v.resolv_conf t ≡ text)
        × (v.addresses t link ≡ v.addresses s link)
        × (v.gateway t ≡ v.gateway s)

-- A nil gateway leaves the route as it was.
abbrev pub gateway_or : Ip → Ip → Ip
gateway_or [] old = old
gateway_or (b ∷ gw) old = b ∷ gw

module _ (n : Node) (v : View n) where
  -- `t` is what setting `cfg` up on the link made of `s`.
  pub record InForce (link : String) (cfg : Config) (s t : n.State) : Type 0 where
    pub address : In (cfg.ip, cfg.mask) (v.addresses t link)
    pub route : v.gateway t ≡ gateway_or cfg.gw (v.gateway s)
    pub resolver : v.resolv_conf t ≡ resolv_lines n.ip_text cfg.dns
    pub has_server : cfg.dns ≢ []

  module _ (laws : NodeLaws n v) (link : String) where
    address_reply_ok :
        (ip mask : Ip) (s t : n.State) (p : AddReply × n.State)
        → n.addr_add link ip mask s ≡ p
        → address_reply n p ≡ (ok tt, t)
        → In (ip, mask) (v.addresses t link) × (v.gateway t ≡ v.gateway s)
    unfolding address_reply
    address_reply_ok ip mask s t (added, u) e h = laws.addr_add-added link ip mask s t (e ∙ cc)
    address_reply_ok ip mask s t (exists, u) e h = laws.addr_add-exists link ip mask s t (e ∙ cc)
    address_reply_ok ip mask s t (add_failed why, u) e h = absurd (cc)

    reply_of_ok :
        (f : String → Error) (p : Option String × n.State) (t : n.State)
        → reply_of f p ≡ (ok tt, t)
        → p ≡ (none, t)
    reply_of_ok f (none, u) t h = cc
    reply_of_ok f (some why, u) t h = absurd (cc)

    set_route_ok :
        (gw : Ip) (s t : n.State)
        → set_route n link gw s ≡ (ok tt, t)
        → (v.gateway t ≡ gateway_or gw (v.gateway s)) × (v.addresses t link ≡ v.addresses s link)
    unfolding set_route
    set_route_ok [] s t h =
        let same : s ≡ t = cc in (ap v.gateway (sym same), ap (λ x. v.addresses x link) (sym same))
    set_route_ok (b ∷ gw) s t h =
        laws.route_replace_lem link (b ∷ gw) s t (reply_of_ok adding_default_route _ t h)

    write_dns_ok :
        (servers : List Ip) (s t : n.State)
        → write_dns n servers s ≡ (ok tt, t)
        → (v.resolv_conf t ≡ resolv_lines n.ip_text servers)
          × (v.addresses t link ≡ v.addresses s link)
          × (v.gateway t ≡ v.gateway s)
          × (servers ≢ [])
    unfolding write_dns
    write_dns_ok [] s t h = absurd (cc)
    write_dns_ok (ns ∷ servers) s t h =
        let (text, addresses, gateway) =
          laws.write_resolv_conf_lem (resolv_lines n.ip_text (ns ∷ servers)) link s t
            (reply_of_ok writing_resolv_conf _ t h) in
        (text, addresses, gateway, λ e. absurd (cc))

    -- If apply reports no error, over a kernel that keeps NodeLaws: the link has the config's
    -- address, the default route goes through its gateway (through the old one if it names none),
    -- and the resolver's file lists its name servers, of which there is one at least.
    pub apply-InForce :
        (cfg : Config) (s t : n.State) → apply n link cfg s ≡ (ok tt, t) → InForce link cfg s t
    unfolding apply add_address
    apply-InForce cfg s t h =
        let (_, s1, first, h1) = >>=-eq-ok (add_address n link cfg) _ s h in
        let (_, s2, second, third) = >>=-eq-ok (set_route n link cfg.gw) _ s1 h1 in
        let (in1, route1) =
          address_reply_ok cfg.ip cfg.mask s s1 (n.addr_add link cfg.ip cfg.mask s) refl first in
        let (route2, addresses2) = set_route_ok cfg.gw s1 s2 second in
        let (text3, addresses3, route3, some_server) = write_dns_ok cfg.dns s2 t third in
        record {
          address = subst (In (cfg.ip, cfg.mask)) (sym (addresses3 ∙ addresses2)) in1;
          route = route3 ∙ route2 ∙ ap (gateway_or cfg.gw) route1;
          resolver = text3;
          has_server = some_server;
        }
