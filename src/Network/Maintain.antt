-- ===== src/Network/Maintain.antt =====
-- internal/network/network.go: maintain and reacquire, with what the clock and the context do in
-- each turn as an argument.
pub mod Acquired
pub mod Kept
use Prim.Native.String.{String}
use invari_os.Base.{ℕ, zero, suc, ◌+◌, Bool, none, some, Result, ok, err, if◌then◌else◌}
use invari_os.Network.Config.{Config, lease_config, config_changed}
use invari_os.Network.Timers.{Timers, lease_timers}
use invari_os.Network.Renew.{Round, Renewal, renewed, expired, canceled, stuck, renew_until}
use invari_os.Network.Link.{Node, Lease, Error, reconfigure, release, acquire_and_apply}

-- One turn of reacquire: whether the context is done at its start, and whether the sleep behind a
-- failed attempt ends by the timer.
pub record Attempt : Type 0 where
  pub canceled : Bool
  pub slept : Bool

-- One turn of maintain: whether the sleep until the renewal ends by the timer, when renewUntil
-- starts, its rounds and how many of them there are, whether the context is done behind it, and the turns of
-- reacquire and how many of them there are.
pub record Turn : Type 0 where
  pub slept : Bool
  pub begin : ℕ
  pub rounds : ℕ → Round
  pub round_count : ℕ
  pub canceled : Bool
  pub attempts : ℕ → Attempt
  pub attempt_count : ℕ

-- How the loop ends: the lease never expires, or the context is done while a config is set up, or
-- after the release of one. The last three are no result of the program, but where it is when the
-- turns that are looked at run out: before a further turn, in a renewUntil, or in a reacquire.
pub data End : Type 0 where
  never_expires : Config → End
  stopped : Config → End
  stopped_released : End
  running : Config → End
  renewing : Config → End
  reacquiring : End

-- What reacquire brings, and `none` where the context is done. `out_of_turns` is no result of the
-- program.
pub data Reacquired : Type 0 where
  acquired : Lease → Config → Reacquired
  given_up : Reacquired
  out_of_turns : Reacquired

module _ (n : Node) (iface : String) where
  -- The end of a turn of reacquire; `again` is the next one.
  unfoldable pub tried :
      Bool
      → (n.State → Reacquired × n.State)
      → Result Error (Lease × Config) × n.State
      → Reacquired × n.State
  tried slept again (ok (lease, cfg), s) = (acquired lease cfg, s)
  tried slept again (err why, s) = let rest = again s in if slept then rest else (given_up, s)

  unfoldable pub reacquire : ℕ → (ℕ → Attempt) → ℕ → n.State → Reacquired × n.State
  unfolding tried
  reacquire zero world k s = (out_of_turns, s)
  reacquire (suc turns) world k s =
      let rest =
        tried (world k).slept (λ t. reacquire turns world (k + 1) t)
          (acquire_and_apply n iface s) in
      if (world k).canceled then (given_up, s) else rest

  -- The config that a renewed lease brings is set up where it differs.
  pub follow : Config → Config → n.State → n.State
  follow cfg updated s = if config_changed cfg updated then reconfigure n iface cfg updated s else s

  abbrev Again : Type 0
  Again = Lease → Config → n.State → End × n.State

  resumed : Again → Reacquired × n.State → End × n.State
  resumed again (acquired lease cfg, s) = again lease cfg s
  resumed again (given_up, s) = (stopped_released, s)
  resumed again (out_of_turns, s) = (reacquiring, s)

  -- Behind a renewUntil without a lease.
  lost : Turn → Again → Config → n.State → End × n.State
  unfolding resumed
  lost turn again cfg s =
      let rest =
        resumed again (reacquire turn.attempt_count turn.attempts 0 (release n iface cfg s)) in
      if turn.canceled then (stopped cfg, s) else rest

  settled : Turn → Again → Config → n.State → Renewal → End × n.State
  unfolding follow lost
  settled turn again cfg s (renewed ack at) =
      again (record { ack = ack; creation_time = at }) (lease_config ack)
        (follow cfg (lease_config ack) s)
  settled turn again cfg s (expired at) = lost turn again cfg s
  settled turn again cfg s (canceled at) = lost turn again cfg s
  settled turn again cfg s stuck = (renewing cfg, s)

  -- A turn of maintain whose lease has timers.
  timed : Turn → Again → Config → n.State → Timers → End × n.State
  unfolding settled
  timed turn again cfg s t =
      let rest =
        settled turn again cfg s (renew_until turn.round_count turn.rounds 0 t.expiry turn.begin) in
      if turn.slept then rest else (stopped cfg, s)

  pub maintain : ℕ → (ℕ → Turn) → ℕ → Lease → Config → n.State → End × n.State
  unfolding timed
  maintain zero world k lease cfg s = (running cfg, s)
  maintain (suc turns) world k lease cfg s = elim (lease_timers lease.ack lease.creation_time) [
    | none ↦ (never_expires cfg, s)
    | some t ↦ timed (world k) (λ l c u. maintain turns world (k + 1) l c u) cfg s t
  ]
