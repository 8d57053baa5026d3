-- ===== src/Supervise/Supervisor.antt =====
-- internal/supervise/supervisor.go and stop.go: the steps of Run. What persistFn, bootstrapFn and
-- the process answer comes with each request.
pub mod Lifecycle
pub mod Chosen
use Prim.Native.String.{String}
use invari_os.Base.{
  ℕ, Bool, true, false, Option, none, some, List, [], ◌∷◌, ◌++◌, Result, ok, err, if◌then◌else◌,
}
use invari_os.Supervise.Mode.{
  Cmd, Error, is_stopping, already_bootstrapped, persisting_state, signaling_workload,
  waiting_for_workload, killing_workload, waiting_for_killed_workload, killed_after_grace_period,
}

pub record Supervisor : Type 0 where
  pub bootstrapped : Bool
  pub stopping : Bool
  pub cmd : Option Cmd

unfoldable pub new_supervisor : Supervisor
new_supervisor = record { bootstrapped = false; stopping = false; cmd = none }

-- What a step does outside the supervisor's own state.
pub data Event : Type 0 where
  persisted : String → Event
  persist_failed : String → Event
  started : String → Cmd → Event
  start_failed : String → Event
  terminated : ℕ → Event
  signal_failed : ℕ → Event
  reaped : ℕ → Event
  killed : ℕ → Event
  kill_failed : ℕ → Event

-- `answer` is what the caller gets.
pub record Step (A : Type 0) : Type 0 where
  pub answer : Result Error A
  pub next : Supervisor
  pub events : List Event

-- The answers of persistFn (its error, if any) and of bootstrapFn.
pub record BootstrapReplies : Type 0 where
  pub persist : Option String
  pub start : Result Error Cmd

unfoldable pub start_workload : Supervisor → String → Result Error Cmd → Step Cmd
start_workload m mode (err e) = record {
  answer = err e;
  next = m;
  events = persisted mode ∷ start_failed mode ∷ [];
}
start_workload m mode (ok cmd) = record {
  answer = ok cmd;
  next = record m { bootstrapped = true; cmd = some cmd };
  events = persisted mode ∷ started mode cmd ∷ [];
}

unfoldable pub persist_then_start : Supervisor → String → BootstrapReplies → Step Cmd
unfolding start_workload
persist_then_start m mode r = elim r.persist [
  | some why ↦ record {
    answer = err (persisting_state why);
    next = m;
    events = persist_failed mode ∷ [];
  }
  | none ↦ start_workload m mode r.start
]

unfoldable pub bootstrap : Supervisor → String → BootstrapReplies → Step Cmd
unfolding persist_then_start
bootstrap m mode r =
    if m.stopping
    then record { answer = err is_stopping; next = m; events = [] }
    else if m.bootstrapped
    then record { answer = err already_bootstrapped; next = m; events = [] }
    else persist_then_start m mode r

-- cmd.Wait: nil, an *exec.ExitError, or a failure to wait.
pub data WaitResult : Type 0 where
  exited : WaitResult
  exit_error : WaitResult
  wait_failed : String → WaitResult

pub data KillResult : Type 0 where
  delivered : KillResult
  process_done : KillResult
  not_delivered : String → KillResult

-- How the process takes a stop: the error of SIGTERM, Wait's result if it comes before the
-- deadline, and what Kill and Wait return after it.
pub record StopReplies : Type 0 where
  pub sigterm : Option String
  pub in_grace : Option WaitResult
  pub kill : KillResult
  pub wait : WaitResult

pub ignore_exit_status : WaitResult → Option String
ignore_exit_status exited = none
ignore_exit_status exit_error = none
ignore_exit_status (wait_failed why) = some why

abbrev answer_of : (String → Error) → Error → Option String → Error
answer_of wrap otherwise none = otherwise
answer_of wrap otherwise (some why) = wrap why

-- The answer and the events behind the deadline.
kill_workload : ℕ → StopReplies → Result Error (Unit {0}) × List Event
unfolding ignore_exit_status
kill_workload pid r =
    let late = err (
      answer_of waiting_for_killed_workload killed_after_grace_period
        (ignore_exit_status r.wait)) in
    elim r.kill [
      | not_delivered why ↦ (err (killing_workload why), kill_failed pid ∷ [])
      | delivered ↦ (late, killed pid ∷ reaped pid ∷ [])
      | process_done ↦ (late, reaped pid ∷ [])
    ]

pub wait_answer : WaitResult → Result Error (Unit {0})
unfolding ignore_exit_status
wait_answer w = elim (ignore_exit_status w) [
  | none ↦ ok tt
  | some why ↦ err (waiting_for_workload why)
]

wait_workload : ℕ → StopReplies → Result Error (Unit {0}) × List Event
unfolding kill_workload wait_answer
wait_workload pid r = elim r.in_grace [
  | some w ↦ (wait_answer w, reaped pid ∷ [])
  | none ↦ kill_workload pid r
]

stop_process : ℕ → StopReplies → Result Error (Unit {0}) × List Event
unfolding wait_workload
stop_process pid r = elim r.sigterm [
  | some why ↦ (err (signaling_workload why), signal_failed pid ∷ [])
  | none ↦ (let (answer, events) = wait_workload pid r in (answer, terminated pid ∷ events))
]

-- `cmd == nil || cmd.Process == nil` is the first case and the second.
stop_cmd : Option Cmd → StopReplies → Result Error (Unit {0}) × List Event
unfolding stop_process
stop_cmd none r = (ok tt, [])
stop_cmd (some cmd) r = elim cmd.process [ none ↦ (ok tt, []) | some pid ↦ stop_process pid r ]

unfoldable pub stop : Supervisor → StopReplies → Step (Unit {0})
unfolding stop_cmd
stop m r =
    let (answer, events) = stop_cmd m.cmd r in
    record { answer = answer; next = record m { stopping = true; cmd = none }; events = events }

-- What Run's select takes from its channels.
pub data Request : Type 0 where
  bootstrap_request : String → BootstrapReplies → Request
  stop_request : StopReplies → Request

abbrev pub after : Supervisor → Request → Supervisor
after m (bootstrap_request mode r) = (bootstrap m mode r).next
after m (stop_request r) = (stop m r).next

abbrev pub events_of : Supervisor → Request → List Event
events_of m (bootstrap_request mode r) = (bootstrap m mode r).events
events_of m (stop_request r) = (stop m r).events

-- The requests that Run serves until its context is canceled, in the order in which it takes them.
unfoldable pub run : Supervisor → List Request → Supervisor
run m [] = m
run m (q ∷ qs) = run (after m q) qs

unfoldable pub trace : Supervisor → List Request → List Event
trace m [] = []
trace m (q ∷ qs) = events_of m q ++ trace (after m q) qs
