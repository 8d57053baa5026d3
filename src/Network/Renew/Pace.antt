-- ===== src/Network/Renew/Pace.antt =====
-- internal/network/network.go: how often renewUntil tries, and when it gives up.
use invari_os.Base.{
  ℕ, zero, suc, ◌+◌, ◌-◌, ◌*◌, ◌≤◌, ◌<◌, true, false, some, ◌≡◌, arith, ◌⊎◌, inl, inr, Bool-cases,
  Option-cases, leb,
}
use invari_os.Network.Timers.{renew_retry_min}
use invari_os.Network.Renew.{
  Round, Renewal, renewed, expired, canceled, stuck, retry_wait, retry, renew_until,
}

-- While the lease lasts, the pause is positive, does not pass the end of the lease, and is a
-- minute or more unless it is all of the rest.
retry_wait_bounds :
    (remaining : ℕ)
    → 0 < remaining
    → (0 < retry_wait remaining)
      × (retry_wait remaining ≤ remaining)
      × ((renew_retry_min ≤ retry_wait remaining) ⊎ (retry_wait remaining ≡ remaining))
unfolding retry_wait
retry_wait_bounds remaining h = ground arith

-- A minute for each round left, and two more.
abbrev pub IsEnough : ℕ → ℕ → Type 0
IsEnough rounds remaining = remaining + 2 * renew_retry_min ≤ rounds * renew_retry_min

-- Why the loop ended: a round of the world brought the lease, the lease's time was up, or a round
-- was canceled. Nothing justifies `stuck`.
abbrev pub Justified : (ℕ → Round) → ℕ → Renewal → Type 0
Justified world expiry (renewed ack t) = (n : ℕ) × ((world n).renewed ≡ some ack)
Justified world expiry (expired t) = expiry ≤ t
Justified world expiry (canceled t) =
    (n : ℕ) × (((world n).canceled ≡ true) ⊎ ((world n).slept ≡ false))
Justified world expiry stuck = ⊥

retry-Justified :
    (world : ℕ → Round) (n expiry now : ℕ) (again : ℕ → Renewal)
    → (0 < expiry - now
        → Justified world expiry (again (now + retry_wait (expiry - now) + (world n).overslept)))
    → Justified world expiry (retry (world n) expiry now again)
unfolding retry
retry-Justified world n expiry now again h = elim (Bool-cases (leb (retry_wait (expiry - now)) 0)) [
  | inl over ↦ rw over (ground arith)
  | inr more ↦ elim (Bool-cases (world n).slept) [
    | inl woken ↦ rw (more, woken) (h (ground arith))
    | inr cut ↦ rw (more, cut) (n, inr cut)
  ]
]

-- With a minute for each round left until the expiry and two more, renewUntil returns, however
-- long exchanges and sleeps take: with a lease that a round's exchange brought, at or behind the
-- expiry, or because a round found the context done or its sleep cut short.
pub renew_until-Justified :
    (rounds : ℕ) (world : ℕ → Round) (n expiry now : ℕ)
    → IsEnough rounds (expiry - now)
    → Justified world expiry (renew_until rounds world n expiry now)
unfolding renew_until
renew_until-Justified zero world n expiry now h = absurd (omega arith)
renew_until-Justified (suc rounds) world n expiry now h = elim (Bool-cases (leb (expiry - now) 0)) [
  | inl over ↦ rw over (ground arith)
  | inr open_yet ↦ elim (Bool-cases (world n).canceled) [
    | inl stop ↦ rw (open_yet, stop) (n, inl stop)
    | inr go ↦ elim (Option-cases (world n).renewed) [
      | inr (ack, got) ↦ rw (open_yet, go, got) (n, got)
      | inl nothing ↦
          rw (open_yet, go, nothing)
            (retry-Justified world n expiry (now + (world n).took)
              (λ t. renew_until rounds world (n + 1) expiry t)
              λ p.
                renew_until-Justified rounds world (n + 1) expiry _
                  (omega (arith, retry_wait_bounds (expiry - (now + (world n).took)) p)))
    ]
  ]
]

-- A lease that is brought was brought by a round, however few rounds there are.
abbrev pub Brought : (ℕ → Round) → Renewal → Type 0
Brought world (renewed ack t) = (n : ℕ) × ((world n).renewed ≡ some ack)
Brought world (expired t) = Unit {0}
Brought world (canceled t) = Unit {0}
Brought world stuck = Unit {0}

retry-Brought :
    (world : ℕ → Round) (r : Round) (expiry now : ℕ) (again : ℕ → Renewal)
    → ((t : ℕ) → Brought world (again t))
    → Brought world (retry r expiry now again)
unfolding retry
retry-Brought world r expiry now again h = elim (Bool-cases (leb (retry_wait (expiry - now)) 0)) [
  | inl over ↦ rw over tt
  | inr more ↦ elim (Bool-cases r.slept) [
    | inl woken ↦ rw (more, woken) (h _)
    | inr cut ↦ rw (more, cut) tt
  ]
]

pub renew_until-Brought :
    (rounds : ℕ) (world : ℕ → Round) (n expiry now : ℕ)
    → Brought world (renew_until rounds world n expiry now)
unfolding renew_until
renew_until-Brought zero world n expiry now = tt
renew_until-Brought (suc rounds) world n expiry now = elim (Bool-cases (leb (expiry - now) 0)) [
  | inl over ↦ rw over tt
  | inr open_yet ↦ elim (Bool-cases (world n).canceled) [
    | inl stop ↦ rw (open_yet, stop) tt
    | inr go ↦ elim (Option-cases (world n).renewed) [
      | inr (ack, got) ↦ rw (open_yet, go, got) (n, got)
      | inl nothing ↦
          rw (open_yet, go, nothing)
            (retry-Brought world (world n) expiry (now + (world n).took)
              (λ t. renew_until rounds world (n + 1) expiry t)
              λ t. renew_until-Brought rounds world (n + 1) expiry t)
    ]
  ]
]
