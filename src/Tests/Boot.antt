-- ===== src/Tests/Boot.antt =====
-- cmd/root.go: a boot that recovers a mode, is asked to bootstrap again, and goes down.
use invari_os.Base.{ℕ, true, false, Option, none, some, List, [], ◌∷◌, ◌++◌, Result, ok, refl}
use invari_os.Supervise.State
use invari_os.Supervise.State.{Files, Op, Reply, done, persist_mode, persisted_mode, run_ops}
use invari_os.Supervise.Mode.{Start, mode_single_dev}
use invari_os.Tests.Supervise.{codec, empty_disk}
use invari_os.Supervise.Supervisor.{BootstrapReplies, StopReplies, exited, delivered}
use invari_os.Supervise.Supervisor.Lifecycle.{idle, Legal}
use invari_os.Mgmtapi.{decoded}
use invari_os.Mgmtapi.Once.{reboot_route, shutdown_route}
use invari_os.Boot.{Http, given_up, post_bootstrap, post_power, stop_events, run_boot}
use invari_os.Boot.Workload.{run_boot-Legal}
use invari_os.Boot.Recovered.{Running, recovery, run_boot-Recovered}
use invari_os.Boot.Service.{Outside, run_on}
use invari_os.Boot.Service.Answered.{Answered, run_on-Answered}
use invari_os.Tests.Link.{memory, bare}
use invari_os.Tests.Mgmtapi.{texts}
use invari_os.Tests.Mount.{kernel, both_writable}
use Prim.Native.String.{String}

abbrev persisted : Result State.Error (Option String)
persisted = ok (some "single-dev")

abbrev starts : ℕ → BootstrapReplies
starts pid = record { persist = none; start = ok (record { process = some pid }) }

abbrev requests : List Http
requests =
    post_bootstrap (decoded "single-dev") given_up (starts 8)
    ∷ post_power shutdown_route
    ∷ post_power reboot_route
    ∷ []

abbrev stubborn : StopReplies
stubborn = record { sigterm = none; in_grace = none; kill = delivered; wait = exited }

run_boot-Legal_example : Legal idle (
    (run_boot texts persisted (starts 7) requests).events
    ++ stop_events true (run_boot texts persisted (starts 7) requests).supervisor stubborn)
run_boot-Legal_example = run_boot-Legal texts persisted (starts 7) requests true stubborn

-- The first boot persists the mode, with no error.
all_done : Op → Reply
all_done op = done

abbrev written : Files
written = (persist_mode codec mode_single_dev all_done empty_disk).1

abbrev bao_starts : Start
bao_starts path args = ok 7

run_boot-Recovered_example :
    Running texts mode_single_dev
      (record { process = some 7 })
      (run_boot texts
        (persisted_mode codec written)
        (recovery texts mode_single_dev (λ e. "error") codec bao_starts all_done written)
        requests)
unfolding persist_mode run_ops all_done
run_boot-Recovered_example =
    run_boot-Recovered texts mode_single_dev (λ e. "error") codec bao_starts all_done all_done
      empty_disk written requests refl

-- A node that is asked to shut down while its server fails.
abbrev outside : Outside
outside = record {
  persisted = persisted;
  replies = starts 7;
  listen = none;
  requests = requests;
  failed = some "accept: bad descriptor";
  drained = none;
  server_first = false;
  taken = true;
  stop = stubborn;
  reboot_fails = false;
}

run_on-Answered_example :
    Answered texts kernel memory outside (run_on texts kernel memory outside both_writable bare).0
run_on-Answered_example = run_on-Answered texts kernel memory outside both_writable bare
