-- ===== src/Boot.antt =====
-- cmd/root.go: runBoot and runPower, over what the other parts answer.
pub mod Workload
pub mod Down
pub mod Root
pub mod Service
pub mod Recovered
use Prim.Native.String.{String}
use invari_os.Base.{
  ℕ, Bool, true, false, Option, none, some, List, [], ◌∷◌, ◌++◌, Result, ok, err, if◌then◌else◌,
}
use invari_os.Supervise.Mode.{Cmd}
use invari_os.Supervise.Mode
use invari_os.Supervise.State
use invari_os.Supervise.Supervisor.{
  Supervisor, new_supervisor, Event, BootstrapReplies, StopReplies, Step, bootstrap, stop, Request,
  bootstrap_request, stop_request,
}
use invari_os.Power.{Pending, new_pending, request, do_power}
use invari_os.Power
use invari_os.Mgmtapi.{Response, Texts, Decoded, decoded, handle_bootstrap, serve, ServerCall}
use invari_os.Mgmtapi.Once.{PowerRoute, power_post}
use invari_os.Mount.{Mounts, unmount_volumes}
use invari_os.Mount

-- How far a call of Supervisor.Bootstrap comes before its context is done: to its answer, not even
-- to Run, or to Run but not to the answer.
pub data Reach : Type 0 where
  answered : Reach
  not_taken : Reach
  given_up : Reach

-- An HTTP request that the server takes to a handler.
pub data Http : Type 0 where
  post_bootstrap : Decoded → Reach → BootstrapReplies → Http
  post_power : PowerRoute → Http

-- The supervisor that answers, with what it did so far, and the pending action.
pub record Node : Type 0 where
  pub supervisor : Supervisor
  pub events : List Event
  pub pending : Pending

-- What Run makes of a request.
served_call : BootstrapReplies → String → Node → Result Mode.Error Cmd × Node
served_call r mode n =
    let step = bootstrap n.supervisor mode r in
    (step.answer, record n { supervisor = step.next; events = n.events ++ step.events })

-- Supervisor.Bootstrap.
call_bootstrap : Reach → BootstrapReplies → String → Node → Result Mode.Error Cmd × Node
unfolding served_call
call_bootstrap answered r mode n = served_call r mode n
call_bootstrap not_taken r mode n = (err Mode.context_done, n)
call_bootstrap given_up r mode n = (err Mode.context_done, (served_call r mode n).1)

pub handle : Texts → Node → Http → Node
unfolding call_bootstrap
handle texts n (post_bootstrap body reach r) =
    (handle_bootstrap texts (call_bootstrap reach r) body n).1
handle texts n (post_power route) = record n { pending = (power_post texts n.pending route).1 }

-- The requests in the order in which the handlers reach the supervisor and the pending action,
-- those included that are in flight while the server drains.
pub handle_all : Texts → Node → List Http → Node
unfolding handle
handle_all texts n [] = n
handle_all texts n (q ∷ qs) = handle_all texts (handle texts n q) qs

-- The recovery of a persisted mode, with a context that is never done. `r` is what the outside
-- answers to it.
pub recover : Node → Result State.Error (Option String) → BootstrapReplies → Node
unfolding call_bootstrap
recover n (err e) r = n
recover n (ok none) r = n
recover n (ok (some mode)) r = (call_bootstrap answered r mode n).1

-- What runPower does, in order.
pub data Action : Type 0 where
  drain : List ServerCall → Action
  stop_workload : List Event → Action
  unmount : List Mount.Error → Action
  kernel : Power.Call → Action
  fatal : Power.Error → Action

kernel_calls : List Power.Call → List Action
kernel_calls [] = []
kernel_calls (c ∷ cs) = kernel c ∷ kernel_calls cs

handed_over : List Power.Call × Result Power.Error (Unit {0}) → List Action
unfolding kernel_calls
handed_over (calls, ok _) = kernel_calls calls
handed_over (calls, err e) = kernel_calls calls ++ (fatal e ∷ [])

-- Stop's request is either taken by Run or not, if the grace period ends first.
pub stop_events : Bool → Supervisor → StopReplies → List Event
stop_events taken m r = if taken then (stop m r).events else []

module _ (k : Mounts) where
  -- `served` and `drained` are what Serve and Shutdown answer, and `failed` whether reboot(2) does.
  pub run_power :
      String
      → Option String
      → Option String
      → Bool
      → Supervisor
      → StopReplies
      → k.State
      → Bool
      → List Action
  unfolding handed_over stop_events
  run_power action served drained taken m r s failed =
      drain (serve served drained).0
      ∷ stop_workload (stop_events taken m r)
      ∷ unmount (unmount_volumes k s).0
      ∷ handed_over (do_power action failed)

-- The error with which runPower ends in console.Fatal, if it does.
unfoldable pub fatal_error : List Action → Option Power.Error
fatal_error [] = none
fatal_error (fatal e ∷ as') = some e
fatal_error (drain _ ∷ as') = fatal_error as'
fatal_error (stop_workload _ ∷ as') = fatal_error as'
fatal_error (unmount _ ∷ as') = fatal_error as'
fatal_error (kernel _ ∷ as') = fatal_error as'

pub fresh_node : Node
fresh_node = record { supervisor = new_supervisor; events = []; pending = new_pending }

-- Everything up to the select: the recovery, and the requests that are served.
pub run_boot : Texts → Result State.Error (Option String) → BootstrapReplies → List Http → Node
unfolding handle_all recover fresh_node
run_boot texts persisted r qs = handle_all texts (recover fresh_node persisted r) qs
