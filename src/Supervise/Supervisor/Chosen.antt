-- ===== src/Supervise/Supervisor/Chosen.antt =====
-- internal/supervise/supervisor.go and stop.go: which bootstrap request Run starts a workload for.
use Prim.Native.String.{String}
use invari_os.Base.{
  Bool, true, false, Option, none, some, List, [], ◌∷◌, ◌++◌, Result, ok, err, ◌≡◌, refl, ap, arith,
}
use invari_os.Supervise.Mode.{Cmd, Error}
use invari_os.Supervise.Supervisor.Lifecycle.{fresh, active, halted, trace-halted}
use invari_os.Supervise.Supervisor.{
  new_supervisor, Event, persisted, persist_failed, started, start_failed, terminated,
  signal_failed, reaped, killed, kill_failed, BootstrapReplies, StopReplies, bootstrap, stop,
  stop_cmd, Request, bootstrap_request, stop_request, run, trace,
}

-- The workloads that are started, with their modes.
abbrev pub starts : List Event → List (String × Cmd)
starts [] = []
starts (started mode cmd ∷ es) = (mode, cmd) ∷ starts es
starts (persisted _ ∷ es) = starts es
starts (persist_failed _ ∷ es) = starts es
starts (start_failed _ ∷ es) = starts es
starts (terminated _ ∷ es) = starts es
starts (signal_failed _ ∷ es) = starts es
starts (reaped _ ∷ es) = starts es
starts (killed _ ∷ es) = starts es
starts (kill_failed _ ∷ es) = starts es

-- What a request that is persisted and whose workload starts would choose.
abbrev pub offered : String → BootstrapReplies → Option (String × Cmd)
offered mode r = elim r.persist [
  | some why ↦ none
  | none ↦ elim r.start [ err e ↦ none | ok cmd ↦ some (mode, cmd) ]
]

-- The first request before any stop for which neither the persisting nor the start fails.
pub chosen : List Request → List (String × Cmd)
chosen [] = []
chosen (stop_request r ∷ qs) = []
chosen (bootstrap_request mode r ∷ qs) =
    let rest = chosen qs in elim (offered mode r) [ some c ↦ c ∷ [] | none ↦ rest ]

abbrev pub is_any : List (String × Cmd) → Bool
is_any [] = false
is_any (c ∷ cs) = true

stop_starts : (c : Cmd) (r : StopReplies) → starts ((stop_cmd (some c) r).1 ++ []) ≡ []
unfolding stop_cmd
stop_starts c r = ground arith

run-halted : (b : Bool) (qs : List Request) → (run (halted b) qs).bootstrapped ≡ b
unfolding run bootstrap stop
run-halted b [] = refl
run-halted b (bootstrap_request mode r ∷ qs) = run-halted b qs
run-halted b (stop_request r ∷ qs) = run-halted b qs

trace-active : (c : Cmd) (qs : List Request) → starts (trace (active c) qs) ≡ []
unfolding trace bootstrap stop
trace-active c [] = refl
trace-active c (bootstrap_request mode r ∷ qs) = trace-active c qs
trace-active c (stop_request r ∷ qs) = rw (trace-halted true qs) (stop_starts c r)

run-active : (c : Cmd) (qs : List Request) → (run (active c) qs).bootstrapped ≡ true
unfolding run bootstrap stop
run-active c [] = refl
run-active c (bootstrap_request mode r ∷ qs) = run-active c qs
run-active c (stop_request r ∷ qs) = run-halted true qs

abbrev Chooses : List Request → Type 0
Chooses qs =
    (starts (trace fresh qs) ≡ chosen qs) × ((run fresh qs).bootstrapped ≡ is_any (chosen qs))

Chooses-bootstrap :
    (mode : String) (qs : List Request) (p : Option String) (s : Result Error Cmd)
    → Chooses qs
    → Chooses (bootstrap_request mode (record { persist = p; start = s }) ∷ qs)
unfolding trace run bootstrap chosen
Chooses-bootstrap mode qs (some why) s h = h
Chooses-bootstrap mode qs none (err e) h = h
Chooses-bootstrap mode qs none (ok c) h =
    (ap (λ x. (mode, c) ∷ x) (trace-active c qs), run-active c qs)

Chooses-stop : (r : StopReplies) (qs : List Request) → Chooses (stop_request r ∷ qs)
unfolding trace run stop stop_cmd chosen
Chooses-stop r qs = (ap starts (trace-halted false qs), run-halted false qs)

Chooses-all : (qs : List Request) → Chooses qs
Chooses-all [] = (unfold trace chosen in refl, unfold run chosen in refl)
Chooses-all (bootstrap_request mode r ∷ qs) =
    Chooses-bootstrap mode qs r.persist r.start (Chooses-all qs)
Chooses-all (stop_request r ∷ qs) = Chooses-stop r qs

-- Whatever requests come, a new supervisor starts a workload for the first bootstrap request before
-- any stop for which neither the persisting of its mode nor the start fails, however many requests
-- failed before, and for no other; and it is marked as bootstrapped exactly if there is one.
pub trace-chosen :
    (qs : List Request)
    → (starts (trace new_supervisor qs) ≡ chosen qs)
      × ((run new_supervisor qs).bootstrapped ≡ is_any (chosen qs))
unfolding new_supervisor
trace-chosen qs = Chooses-all qs
