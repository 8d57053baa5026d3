-- ===== src/Supervise/Supervisor/Lifecycle.antt =====
-- internal/supervise/supervisor.go and stop.go: what a supervisor does to the node, over any
-- sequence of requests.
use Prim.Native.String.{String}
use invari_os.Base.{
  ℕ, Bool, true, false, Option, none, some, List, [], ◌∷◌, ◌++◌, Result, ok, err, ◌≡◌, refl, arith,
}
use invari_os.Supervise.Mode.{Cmd, Error}
use invari_os.Supervise.Supervisor.{
  Supervisor, new_supervisor, Event, persisted, persist_failed, started, start_failed, terminated,
  signal_failed, reaped, killed, kill_failed, StopReplies, bootstrap, stop, stop_cmd, Request,
  bootstrap_request, stop_request, trace,
}

-- Where the node's workload stands: none yet, a mode on disk that is about to start, a process
-- that runs, one that was sent SIGTERM, or one that is dealt with.
pub data Phase : Type 0 where
  idle : Phase
  chosen : String → Phase
  running : Cmd → Phase
  dying : ℕ → Phase
  gone : Phase

-- The event sequences that the package's comments allow.
abbrev pub Legal : Phase → List Event → Type 0
Legal phase [] = Unit {0}
Legal idle (persist_failed m ∷ es) = Legal idle es
Legal idle (persisted m ∷ es) = Legal (chosen m) es
Legal (chosen m) (start_failed n ∷ es) = (m ≡ n) × Legal idle es
Legal (chosen m) (started n cmd ∷ es) = (m ≡ n) × Legal (running cmd) es
Legal (running cmd) (terminated pid ∷ es) = (cmd.process ≡ some pid) × Legal (dying pid) es
Legal (running cmd) (signal_failed pid ∷ es) = (cmd.process ≡ some pid) × Legal gone es
Legal (dying pid) (killed p ∷ es) = (pid ≡ p) × Legal (dying pid) es
Legal (dying pid) (kill_failed p ∷ es) = (pid ≡ p) × Legal gone es
Legal (dying pid) (reaped p ∷ es) = (pid ≡ p) × Legal gone es
Legal phase (e ∷ es) = ⊥

abbrev pub fresh : Supervisor
fresh = record { bootstrapped = false; stopping = false; cmd = none }

abbrev pub active : Cmd → Supervisor
active c = record { bootstrapped = true; stopping = false; cmd = some c }

abbrev pub halted : Bool → Supervisor
halted b = record { bootstrapped = b; stopping = true; cmd = none }

-- A supervisor that was told to stop does nothing more.
pub trace-halted : (b : Bool) (qs : List Request) → trace (halted b) qs ≡ []
unfolding trace bootstrap stop
trace-halted b [] = refl
trace-halted b (bootstrap_request mode r ∷ qs) = trace-halted b qs
trace-halted b (stop_request r ∷ qs) = trace-halted b qs

stop_cmd-Legal : (c : Cmd) (r : StopReplies) → Legal (running c) ((stop_cmd (some c) r).1 ++ [])
unfolding stop_cmd
stop_cmd-Legal c r = ground arith

trace-active : (c : Cmd) (qs : List Request) → Legal (running c) (trace (active c) qs)
unfolding trace bootstrap stop
trace-active c [] = tt
trace-active c (bootstrap_request mode r ∷ qs) = trace-active c qs
trace-active c (stop_request r ∷ qs) = rw (trace-halted true qs) (stop_cmd-Legal c r)

trace-stop : (qs : List Request) (r : StopReplies) → Legal idle (trace fresh (stop_request r ∷ qs))
unfolding trace stop stop_cmd
trace-stop qs r = rw (trace-halted false qs) tt

trace-boot :
    (mode : String) (qs : List Request) (p : Option String) (s : Result Error Cmd)
    → Legal idle (trace fresh qs)
    → Legal idle (trace fresh (bootstrap_request mode (record { persist = p; start = s }) ∷ qs))
unfolding trace bootstrap
trace-boot mode qs (some why) s h = h
trace-boot mode qs none (err e) h = (refl, h)
trace-boot mode qs none (ok c) h = (refl, trace-active c qs)

trace-fresh : (qs : List Request) → Legal idle (trace fresh qs)
trace-fresh [] = unfold trace in tt
trace-fresh (bootstrap_request mode r ∷ qs) = trace-boot mode qs r.persist r.start (trace-fresh qs)
trace-fresh (stop_request r ∷ qs) = trace-stop qs r

-- Whatever requests come, in any order and with any answers of the outside, the events of a new
-- supervisor are legal: a workload starts only right behind the persisting of its mode, at most
-- one workload is ever started, a process is sent SIGTERM only if it is the running workload's,
-- SIGKILL only behind SIGTERM, it is reaped at most once, and after it is dealt with nothing more
-- happens.
pub trace-Legal : (qs : List Request) → Legal idle (trace new_supervisor qs)
unfolding new_supervisor
trace-Legal qs = trace-fresh qs
