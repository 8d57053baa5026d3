-- ===== src/Network/Maintain/Acquired.antt =====
-- internal/network/network.go: the link behind a reacquire that brings a lease.
use Prim.Native.String.{String}
use invari_os.Base.{
  ℕ, zero, suc, ◌+◌, Bool, true, false, Bool-cases, inl, inr, Result, ok, err, ◌≡◌, refl, ap, ◌∙◌,
  arith,
}
use invari_os.Network.Config.{Config}
use invari_os.Network.Link.{Node, Lease, Error, acquire_and_apply}
use invari_os.Network.Link.InForce.{View, NodeLaws}
use invari_os.Network.Link.Holds.{Holding, acquire_and_apply-Holding}
use invari_os.Network.Maintain.{Attempt, Reacquired, acquired, tried, reacquire}

module _ (n : Node) (v : View n) (laws : NodeLaws n v) (iface : String) (lease : Lease)
    (cfg : Config) where
  tried-Holding :
      (slept : Bool) (again : n.State → Reacquired × n.State)
      → ((s t : n.State) → again s ≡ (acquired lease cfg, t) → Holding n v laws iface lease cfg t)
      → (s t : n.State) (p : Result Error (Lease × Config) × n.State)
      → acquire_and_apply n iface s ≡ p
      → tried n iface slept again p ≡ (acquired lease cfg, t)
      → Holding n v laws iface lease cfg t
  unfolding tried
  tried-Holding slept again later s t (ok (l, c), u) q h =
      acquire_and_apply-Holding n v laws iface lease cfg s t (q ∙ cc)
  tried-Holding true again later s t (err why, u) q h = later u t h
  tried-Holding false again later s t (err why, u) q h = absurd (cc (ap (λ x. x.0) h))

  -- If reacquire brings a lease, after however many failed attempts, over a kernel that keeps
  -- NodeLaws: its config is the lease's own, and is in force on the interface: the address is on
  -- the link, the route goes through the gateway, and the resolver's file lists the name servers.
  pub reacquire-Holding :
      (turns : ℕ) (world : ℕ → Attempt) (k : ℕ) (s t : n.State)
      → reacquire n iface turns world k s ≡ (acquired lease cfg, t)
      → Holding n v laws iface lease cfg t
  unfolding reacquire
  reacquire-Holding zero world k s t h = absurd (cc (ap (λ x. x.0) h))
  reacquire-Holding (suc turns) world k s t h = elim (Bool-cases (world k).canceled) [
    | inl stop ↦ absurd (ground arith)
    | inr go ↦
        tried-Holding (world k).slept (λ u. reacquire n iface turns world (k + 1) u)
          (λ u x e. reacquire-Holding turns world (k + 1) u x e) s t (acquire_and_apply n iface s)
          refl (ground arith)
  ]
