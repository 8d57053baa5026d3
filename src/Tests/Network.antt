-- ===== src/Tests/Network.antt =====
-- internal/network: a lease, two configs of it, and a renewal that the server answers late.
use invari_os.Base.{
  ℕ, ◌+◌, ◌*◌, ◌≡◌, ◌<◌, ◌↔◌, refl, inl, inr, true, false, none, some, [], ◌∷◌, ◌++◌, ◌==◌,
  if◌then◌else◌, arith,
}
use invari_os.Network.Config.{Ip, Ack, Config, v4_in_v6_prefix, default_mask, config_changed}
use invari_os.Network.Config.Changed.{canonical, config_changed_iff}
use invari_os.Network.Timers.{
  second, minute, Timers, lease_timers, lease_timers_inside, lease_timers_at_t1,
}
use invari_os.Network.Renew.{Round, renew_until}
use invari_os.Network.Renew.Pace.{Justified, renew_until-Justified}

abbrev host : Ip
host = 192 ∷ 0 ∷ 2 ∷ 10 ∷ []

abbrev gateway : Ip
gateway = 192 ∷ 0 ∷ 2 ∷ 1 ∷ []

abbrev ack : Ack
ack = record {
  your_ip_addr = host;
  subnet_mask = some default_mask;
  router = gateway ∷ [];
  dns = gateway ∷ [];
  lease_time = some (3600 * second);
  renewal_time = some (600 * second);
}

abbrev short_form : Config
short_form = record { ip = host; mask = default_mask; gw = gateway; dns = gateway ∷ [] }

abbrev long_form : Config
long_form = record {
  ip = v4_in_v6_prefix ++ host;
  mask = default_mask;
  gw = gateway;
  dns = (v4_in_v6_prefix ++ gateway) ∷ [];
}

config_changed_iff_example :
    (config_changed short_form long_form ≡ false) ↔ (canonical short_form ≡ canonical long_form)
config_changed_iff_example =
    config_changed_iff short_form long_form
      (record { ip = inr (inl refl); gw = inr (inl refl); dns = (inr (inl refl), tt) })
      (record { ip = inr (inr refl); gw = inr (inl refl); dns = (inr (inr refl), tt) })

hour_lease_timers :
    lease_timers ack 5 ≡ some (record { renew = 5 + 600 * second; expiry = 5 + 3600 * second })
hour_lease_timers =
    lease_timers_at_t1 ack 5 (3600 * second) (600 * second) (refl, ground arith, ground arith) refl
      (ground arith) (ground arith)

lease_timers_inside_example :
    (t : Timers) × (lease_timers ack 5 ≡ some t)
    × (5 < t.renew)
    × (t.renew < t.expiry)
    × (t.expiry ≡ 5 + 3600 * second)
lease_timers_inside_example =
    lease_timers_inside ack 5 (3600 * second) (refl, ground arith, ground arith) (ground arith)

-- Each exchange takes 15 s and fails, but the third.
abbrev world : ℕ → Round
world n = record {
  canceled = false;
  took = 15 * second;
  renewed = if n == 2 then some ack else none;
  overslept = 1;
  slept = true;
}

renew_until-Justified_example :
    Justified world (30 * minute) (renew_until 32 world 0 (30 * minute) (10 * minute))
renew_until-Justified_example =
    renew_until-Justified 32 world 0 (30 * minute) (10 * minute) (ground arith)
