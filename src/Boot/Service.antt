-- ===== src/Boot/Service.antt =====
-- cmd/root.go: runBoot behind the mount of the volumes, up to the select and what follows it.
pub mod Answered
use Prim.Native.String.{String}
use invari_os.Base.{Bool, true, false, Option, none, some, List, [], Result, ok, err, if◌then◌else◌}
use invari_os.Supervise.State
use invari_os.Supervise.Supervisor.{BootstrapReplies, StopReplies}
use invari_os.Network.Link.{up}
use invari_os.Network.Link
use invari_os.Mgmtapi.{Texts, ServeError, listening, serving}
use invari_os.Mount.{Mounts}
use invari_os.Boot.{Node, Http, Action, fatal_error, run_boot, run_power}
use invari_os.Power

abbrev interface : String
interface = "eth0"

-- What a boot meets: the persisted mode and the answers to its recovery; net.Listen's error, the
-- requests, Serve's own error, and Shutdown's; whether select takes the server's end where both
-- are there; whether Run takes the stop, and how the workload takes it; whether reboot(2) fails.
pub record Outside : Type 0 where
  pub persisted : Result State.Error (Option String)
  pub replies : BootstrapReplies
  pub listen : Option String
  pub requests : List Http
  pub failed : Option String
  pub drained : Option String
  pub server_first : Bool
  pub taken : Bool
  pub stop : StopReplies
  pub reboot_fails : Bool

-- console.Fatal for a server that ended on its own; what runPower did, and whether reboot(2) took
-- the machine down or console.Fatal keeps the reason on the screen for ever; or a node that goes on
-- serving.
pub data End : Type 0 where
  fatal : ServeError → End
  down : List Action → End
  hung : Power.Error → List Action → End
  waiting : End

-- Nobody asks where nobody listens.
unfoldable pub heard : Option String → List Http → List Http
heard none qs = qs
heard (some why) qs = []

-- ListenAndServe's error while its context is not done.
unfoldable pub ended_alone : Option String → Option String → Option ServeError
ended_alone (some why) failed = some (listening why)
ended_alone none (some why) = some (serving why)
ended_alone none none = none

unfoldable pub powered : List Action → End
unfolding fatal_error
powered as' = elim (fatal_error as') [ none ↦ down as' | some e ↦ hung e as' ]

-- The select: `done` is whether pending's channel is closed, `rest` what runPower does then.
unfoldable pub selected : Bool → Bool → Option ServeError → List Action → End
unfolding powered
selected first true none rest = powered rest
selected first true (some why) rest = if first then fatal why else powered rest
selected first false none rest = waiting
selected first false (some why) rest = fatal why

-- Up's error is printed, and no more.
abbrev printed : {A : Type 0} {S : Type 0} → Result Link.Error A × S → S
printed (r, x) = x

module _ (texts : Texts) (k : Mounts) (n : Link.Node) where
  unfoldable pub booted : Outside → Node
  unfolding heard
  booted o = run_boot texts o.persisted o.replies (heard o.listen o.requests)

  -- `s` are the mounts, `x` the network; the network is as Up leaves it.
  unfoldable pub run_on : Outside → k.State → n.State → End × n.State
  unfolding booted selected ended_alone
  run_on o s x = (
    selected o.server_first (booted o).pending.done (ended_alone o.listen o.failed) (
        run_power k (booted o).pending.action o.failed o.drained o.taken (booted o).supervisor
          o.stop s o.reboot_fails),
    printed (up n interface x),
  )
