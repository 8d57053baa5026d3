-- ===== src/Network/Link.antt =====
-- internal/network/network.go: apply, unapply, reconfigure, withLink, findLink, writeResolvConf
-- and acquireAndApply, over the kernel's link state and the DHCP server.
pub mod InForce
pub mod Holds
use Prim.Native.String.{String, ◌++◌ as join}
use text.Mathlib.Text.{◌==◌ as str_eq}
use invari_os.Base.{
  ℕ, Bool, true, false, Option, none, some, List, [], ◌∷◌, Result, ok, err, M, bind, ◌>>=◌, ◌>>◌,
  if◌then◌else◌, ◌≡◌,
}
use invari_os.Network.Config.{Ip, Ack, Config, lease_config}

-- What conn.AddrAdd answers.
pub data AddReply : Type 0 where
  added : AddReply
  exists : AddReply
  add_failed : String → AddReply

-- nclient4.Lease.
pub record Lease : Type 0 where
  pub ack : Ack
  pub creation_time : ℕ

-- jsimonetti/rtnetlink's connection on one interface, the file /etc/resolv.conf and the DHCP
-- client: operations on an unknown state, `none` for no error. `ip_text` is net.IP.String.
pub record Node : Type 1 where
  pub State : Type 0
  pub dial : State → Option String
  pub links : State → Result String (List String)
  pub link_up : String → State → Option String × State
  pub addr_add : String → Ip → Ip → State → AddReply × State
  pub addr_del : String → Ip → Ip → State → Option String × State
  pub route_replace : String → Ip → State → Option String × State
  pub route_del : String → State → Option String × State
  pub write_resolv_conf : String → State → Option String × State
  pub ip_text : Ip → String
  pub request_lease : String → State → Result String Lease × State

pub data Error : Type 0 where
  dialing : String → Error
  listing_links : String → Error
  link_not_found : String → Error
  bringing_up : String → Error
  dhcp : String → Error
  assigning_address : String → Error
  adding_default_route : String → Error
  no_dns_servers : Error
  writing_resolv_conf : String → Error

-- An operation's error, as the caller wraps it.
abbrev pub reply_of :
    {S : Type 0} → (String → Error) → Option String × S → Result Error (Unit {0}) × S
reply_of f (none, s) = (ok tt, s)
reply_of f (some why, s) = (err (f why), s)

-- The text of /etc/resolv.conf.
pub resolv_lines : (Ip → String) → List Ip → String
resolv_lines text [] = ""
resolv_lines text (ns ∷ servers) =
    join "nameserver " (join (text ns) (join "\n" (resolv_lines text servers)))

unfoldable pub link_named : String → List String → Result Error String
link_named name [] = err (link_not_found name)
link_named name (link ∷ links) = if str_eq link name then ok link else link_named name links

module _ (n : Node) where
  abbrev pub Net : Type 0 → Type 0
  Net A = M n.State Error A

  unfoldable pub write_dns : List Ip → Net (Unit {0})
  unfolding resolv_lines
  write_dns [] s = (err no_dns_servers, s)
  write_dns (ns ∷ servers) s =
      reply_of writing_resolv_conf (n.write_resolv_conf (resolv_lines n.ip_text (ns ∷ servers)) s)

  -- An address that is there already is kept.
  unfoldable pub address_reply : AddReply × n.State → Result Error (Unit {0}) × n.State
  address_reply (added, s) = (ok tt, s)
  address_reply (exists, s) = (ok tt, s)
  address_reply (add_failed why, s) = (err (assigning_address why), s)

  unfoldable pub add_address : String → Config → Net (Unit {0})
  unfolding address_reply
  add_address link cfg s = address_reply (n.addr_add link cfg.ip cfg.mask s)

  -- No gateway is the nil IP.
  unfoldable pub set_route : String → Ip → Net (Unit {0})
  set_route link [] s = (ok tt, s)
  set_route link (b ∷ gw) s = reply_of adding_default_route (n.route_replace link (b ∷ gw) s)

  unfoldable pub apply : String → Config → Net (Unit {0})
  unfolding add_address set_route write_dns
  apply link cfg = do add_address link cfg; set_route link cfg.gw; write_dns cfg.dns

  pub drop_route : String → Ip → n.State → n.State
  drop_route link [] s = s
  drop_route link (b ∷ gw) s = (n.route_del link s).1

  -- Every error is logged and passed over.
  pub unapply : String → Config → n.State → n.State
  unfolding drop_route
  unapply link cfg s = (n.addr_del link cfg.ip cfg.mask (drop_route link cfg.gw s)).1

  unfoldable pub find_link : String → n.State → Result Error String
  unfolding link_named
  find_link name s = elim (n.links s) [
    | err why ↦ err (listing_links why)
    | ok links ↦ link_named name links
  ]

  unfoldable pub on_link : {A : Type 0} → Result Error String → (String → Net A) → Net A
  on_link (err why) f s = (err why, s)
  on_link (ok link) f s = f link s

  unfoldable pub with_link : {A : Type 0} → String → (String → Net A) → Net A
  unfolding find_link on_link
  with_link iface f s = elim (n.dial s) [
    | some why ↦ (err (dialing why), s)
    | none ↦ on_link (find_link iface s) f s
  ]

  unfoldable pub reconfigure : String → Config → Config → n.State → n.State
  unfolding with_link unapply apply
  reconfigure iface old updated s =
      (with_link iface (λ link u. apply link updated (unapply link old u)) s).1

  -- The release when a lease is over.
  pub release : String → Config → n.State → n.State
  unfolding with_link unapply
  release iface cfg s = (with_link iface (λ link u. (ok tt, unapply link cfg u)) s).1

  abbrev leased : Result String Lease × n.State → Result Error Lease × n.State
  leased (ok lease, s) = (ok lease, s)
  leased (err why, s) = (err (dhcp why), s)

  unfoldable pub lease_for : String → Net Lease
  lease_for iface s = leased (n.request_lease iface s)

  unfoldable pub configured :
      Lease → Result Error (Unit {0}) × n.State → Result Error (Lease × Config) × n.State
  configured lease (ok _, s) = (ok (lease, lease_config lease.ack), s)
  configured lease (err why, s) = (err why, s)

  unfoldable pub acquire_and_apply : String → Net (Lease × Config)
  unfolding lease_for configured with_link apply
  acquire_and_apply iface = do
    lease ← lease_for iface
    λ s. configured lease (with_link iface (λ link. apply link (lease_config lease.ack)) s)

  raise_link : String → Net (Unit {0})
  raise_link link s = reply_of bringing_up (n.link_up link s)

  start : String → String → Net (Lease × Config)
  unfolding raise_link lease_for configured apply
  start iface link = do
    raise_link link
    lease ← lease_for iface
    λ s. configured lease (apply link (lease_config lease.ack) s)

  -- Up, with the lease and the config that it hands to maintain.
  pub up : String → Net (Lease × Config)
  unfolding with_link start
  up iface = with_link iface (start iface)
