-- ===== src/Network/Renew.antt =====
-- internal/network/network.go: renewUntil, with the clock and the answers of the server as
-- arguments.
pub mod Pace
use invari_os.Base.{
  ℕ, zero, suc, ◌+◌, ◌-◌, ◌/◌, ◌≤◌, ◌<◌, min, max, Bool, true, false, ◌||◌, not, Option, none, some,
  ltb, leb, ◌==◌, if◌then◌else◌,
}
use invari_os.Network.Config.{Ack}
use invari_os.Network.Timers.{renew_retry_min, dhcp_timeout}

-- One round of the loop as the world plays it: whether the context is done at its start, how long
-- the exchange takes and what it brings, how much later than asked the sleep ends, and whether it
-- ends by the timer.
pub record Round : Type 0 where
  pub canceled : Bool
  pub took : ℕ
  pub renewed : Option Ack
  pub overslept : ℕ
  pub slept : Bool

-- `renewed` at a time, or the loop's (nil, false) at a time. `stuck` is no result of the program:
-- the rounds ran out.
pub data Renewal : Type 0 where
  renewed : Ack → ℕ → Renewal
  expired : ℕ → Renewal
  canceled : ℕ → Renewal
  stuck : Renewal

-- min(max(remaining/2, renewRetryMin), remaining), on durations that are not negative.
pub retry_wait : ℕ → ℕ
retry_wait remaining = min (max (remaining / 2) renew_retry_min) remaining

-- The timeout of an exchange.
pub attempt_timeout : ℕ → ℕ
attempt_timeout remaining = min dhcp_timeout remaining

-- The end of a round whose exchange failed at time `now`; `again` is the next round.
retry : Round → ℕ → ℕ → (ℕ → Renewal) → Renewal
unfolding retry_wait
retry r expiry now again =
    let wait = retry_wait (expiry - now) in
    let rest = again (now + wait + r.overslept) in
    if leb wait 0 then expired now else if not r.slept then canceled now else rest

-- time.Until(expiry) <= 0 is `expiry - now` being 0. Round `n` is `world n`.
pub renew_until : ℕ → (ℕ → Round) → ℕ → ℕ → ℕ → Renewal
unfolding retry
renew_until zero world n expiry now = stuck
renew_until (suc rounds) world n expiry now =
    let r = world n in
    let again = λ (t : ℕ). renew_until rounds world (n + 1) expiry t in
    let next = retry r expiry (now + r.took) again in
    if leb (expiry - now) 0
    then expired now
    else if r.canceled
    then canceled now
    else elim r.renewed [ some ack ↦ renewed ack (now + r.took) | none ↦ next ]
