-- ===== src/Tests/Mgmtapi.antt =====
-- internal/mgmtapi: a failing start, a start that works, and a late one; two power requests.
use invari_os.Base.{none, some, List, [], ◌∷◌, ok, err, length, replicate, ◌≡◌, ◌≤◌}
use invari_os.Supervise.Mode.{mode_not_implemented}
use invari_os.Supervise.Supervisor.{new_supervisor}
use invari_os.Power.{new_pending}
use invari_os.Mgmtapi.{Texts, too_large, decoded, status_ok, status_accepted, status_conflict}
use invari_os.Mgmtapi.Once.{
  Post, reboot_route, shutdown_route, bootstrap_codes, power_codes, count, count-bootstrap_codes,
  power_codes-new_pending,
}

abbrev pub texts : Texts
texts = record { of_bootstrap = λ e. "error"; of_power = λ e. "error" }

abbrev posts : List Post
posts =
    record {
      body = decoded "ha";
      replies = record { persist = none; start = err (mode_not_implemented "ha") };
    }
    ∷ record {
      body = too_large;
      replies = record { persist = none; start = err (mode_not_implemented "") };
    }
    ∷ record {
      body = decoded "single-dev";
      replies = record { persist = none; start = ok (record { process = some 7 }) };
    }
    ∷ record {
      body = decoded "single-dev";
      replies = record { persist = none; start = ok (record { process = some 8 }) };
    }
    ∷ []

count-bootstrap_codes_example :
    count texts status_ok (bootstrap_codes texts new_supervisor posts) ≤ 1
count-bootstrap_codes_example = count-bootstrap_codes texts posts new_supervisor

power_codes-new_pending_example :
    power_codes texts new_pending (shutdown_route ∷ reboot_route ∷ [])
    ≡ status_accepted ∷ replicate (length (reboot_route ∷ [])) status_conflict
power_codes-new_pending_example = power_codes-new_pending texts shutdown_route (reboot_route ∷ [])
