-- ===== src/Network/Link/Holds.antt =====
-- internal/network/network.go: withLink and acquireAndApply where they report no error.
use Prim.Native.String.{String}
use mathlib.Core.Path.{subst}
use text.Mathlib.Text.{◌==◌ as str_eq}
use text.Mathlib.TextEquality.{eq_iff}
use invari_os.Base.{
  Bool-cases, inl, inr, Option, none, some, List, [], ◌∷◌, Result, ok, err, >>=-eq-ok, ◌≡◌, refl,
  sym, ap, ◌∙◌, arith,
}
use invari_os.Network.Config.{Config, lease_config}
use invari_os.Network.Link.{
  Node, Lease, Error, listing_links, dialing, apply, link_named, find_link, on_link, with_link,
  lease_for, configured, acquire_and_apply,
}
use invari_os.Network.Link.InForce.{View, NodeLaws, InForce, apply-InForce}

link_named-ok :
    (name link : String) (links : List String) → link_named name links ≡ ok link → link ≡ name
unfolding link_named
link_named-ok name link [] h = absurd (cc)
link_named-ok name link (l ∷ links) h = elim (Bool-cases (str_eq l name)) [
  | inl same ↦ let found : l ≡ link = ground arith in sym found ∙ (eq_iff l name).0 same
  | inr other ↦ link_named-ok name link links (ground arith)
]

module _ (n : Node) (v : View n) (laws : NodeLaws n v) (iface : String) where
  find_link-ok : (s : n.State) (link : String) → find_link n iface s ≡ ok link → link ≡ iface
  unfolding find_link
  find_link-ok s link h = split (n.links s) h
    where
      split :
          (r : Result String (List String))
          → ◌≡◌ {A = Result Error String}
              (elim r [ err why ↦ err (listing_links why) | ok links ↦ link_named iface links ])
              (ok link)
          → link ≡ iface
      split (err why) k = absurd (cc)
      split (ok links) k = link_named-ok iface link links k

  -- with_link that succeeds has run its function on the interface.
  with_link-ok :
      (f : String → n.State → Result Error (Unit {0}) × n.State) (s t : n.State)
      → with_link n iface f s ≡ (ok tt, t)
      → f iface s ≡ (ok tt, t)
  unfolding with_link on_link
  with_link-ok f s t h = dialed (n.dial s) h
    where
      found :
          (r : Result Error String)
          → find_link n iface s ≡ r
          → on_link n r f s ≡ (ok tt, t)
          → f iface s ≡ (ok tt, t)
      found (err e) q k = absurd (cc (ap (λ x. x.0) k))
      found (ok link) q k = subst (λ l. f l s ≡ (ok tt, t)) (find_link-ok s link q) k

      dialed :
          (o : Option String)
          → ◌≡◌ {A = Result Error (Unit {0}) × n.State}
              (elim o [
                | some why ↦ (err (dialing why), s)
                | none ↦ on_link n (find_link n iface s) f s
              ])
              (ok tt, t)
          → f iface s ≡ (ok tt, t)
      dialed (some why) k = absurd (cc (ap (λ x. x.0) k))
      dialed none k = found (find_link n iface s) refl k

  -- A lease's config is in force on the interface.
  pub record Holding (lease : Lease) (cfg : Config) (t : n.State) : Type 0 where
    pub config_is : cfg ≡ lease_config lease.ack
    pub before : n.State
    pub in_force : InForce n v iface cfg before t

  configured-ok :
      (lease l : Lease) (cfg : Config) (t : n.State) (p : Result Error (Unit {0}) × n.State)
      → configured n lease p ≡ (ok (l, cfg), t)
      → (p ≡ (ok tt, t)) × (lease ≡ l) × (lease_config lease.ack ≡ cfg)
  unfolding configured
  configured-ok lease l cfg t (err why, u) h = absurd (cc (ap (λ x. x.0) h))
  configured-ok lease l cfg t (ok _, u) h = (cc, cc, cc)

  pub acquire_and_apply-Holding :
      (lease : Lease) (cfg : Config) (s t : n.State)
      → acquire_and_apply n iface s ≡ (ok (lease, cfg), t)
      → Holding lease cfg t
  unfolding acquire_and_apply
  acquire_and_apply-Holding lease cfg s t h =
      let (got, u, _, rest) = >>=-eq-ok (lease_for n iface) _ s h in
      let (applied, same_lease, same_config) =
        configured-ok got lease cfg t
          (with_link n iface (λ link. apply n link (lease_config got.ack)) u) rest in
      let ran = with_link-ok (λ link. apply n link (lease_config got.ack)) u t applied in
      record {
        config_is = sym same_config ∙ ap (λ (x : Lease). lease_config x.ack) same_lease;
        before = u;
        in_force =
            subst (λ c. InForce n v iface c u t) same_config
              (apply-InForce n v laws iface (lease_config got.ack) u t ran);
      }
