-- ===== src/Network/Timers.antt =====
-- internal/network/network.go: leaseTimers. Times and durations are nanoseconds; a lease time is
-- at most 2 ^ 32 - 1 seconds, so no sum or product here leaves an int64 before the year 2262.
use invari_os.Base.{
  ℕ, ◌+◌, ◌*◌, ◌/◌, ◌≤◌, ◌<◌, ◌||◌, Option, none, some, leb, if◌then◌else◌, ◌≡◌, ◌⊎◌, refl, arith,
}
use invari_os.Network.Config.{Ack}

abbrev pub second : ℕ
second = 1000000000

abbrev pub minute : ℕ
minute = 60 * second

abbrev pub infinite_lease : ℕ
infinite_lease = 0xffffffff * second

abbrev pub dhcp_timeout : ℕ
dhcp_timeout = 15 * second

abbrev pub renew_retry_min : ℕ
renew_retry_min = minute

abbrev pub reacquire_retry : ℕ
reacquire_retry = 30 * second

pub record Timers : Type 0 where
  pub renew : ℕ
  pub expiry : ℕ

-- The accessor of a time option: the option's value, or the default that the caller gives.
abbrev pub time_or : Option ℕ → ℕ → ℕ
time_or none d = d
time_or (some t) d = t

renew_after : ℕ → ℕ → ℕ
renew_after lease t1 = if leb t1 0 || leb lease t1 then lease / 2 else t1

pub lease_timers : Ack → ℕ → Option Timers
unfolding renew_after
lease_timers ack created =
    let lease = time_or ack.lease_time 0 in
    if leb lease 0 || leb infinite_lease lease
    then none
    else some (record {
      renew = created + renew_after lease (time_or ack.renewal_time (lease / 2));
      expiry = created + lease;
    })

-- The lease runs out at some time, which the server named.
abbrev pub IsFinite : Ack → ℕ → Type 0
IsFinite ack lease = (ack.lease_time ≡ some lease) × (0 < lease) × (lease < infinite_lease)

-- A lease that ends, of two nanoseconds or more, has timers: whatever T1 the server names, renewal
-- starts behind the lease's creation and before its expiry, which is the creation and the lease.
pub lease_timers_inside :
    (ack : Ack) (created lease : ℕ)
    → IsFinite ack lease
    → 2 ≤ lease
    → (t : Timers) × (lease_timers ack created ≡ some t)
      × (created < t.renew)
      × (t.renew < t.expiry)
      × (t.expiry ≡ created + lease)
unfolding lease_timers
lease_timers_inside ack created lease (given, pos, fin) two =
    let t1 = time_or ack.renewal_time (lease / 2) in
    (
      record { renew = created + renew_after lease t1; expiry = created + lease },
      ground arith,
      ground arith,
      ground arith,
      refl,
    )

-- A lease that ends, with a server's T1 that is positive and inside it: renewal starts at T1.
pub lease_timers_at_t1 :
    (ack : Ack) (created lease t1 : ℕ)
    → IsFinite ack lease
    → ack.renewal_time ≡ some t1
    → 0 < t1
    → t1 < lease
    → lease_timers ack created ≡ some (record { renew = created + t1; expiry = created + lease })
unfolding lease_timers
lease_timers_at_t1 ack created lease t1 h named pos inside = ground arith

-- A lease that never ends has no timers.
pub lease_timers_infinite :
    (ack : Ack) (created : ℕ)
    → (time_or ack.lease_time 0 ≡ 0) ⊎ (infinite_lease ≤ time_or ack.lease_time 0)
    → lease_timers ack created ≡ none
unfolding lease_timers
lease_timers_infinite ack created h = ground arith
