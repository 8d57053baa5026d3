-- ===== src/Boot/Recovered.antt =====
-- cmd/root.go: the boot behind one in which a mode was persisted.
use Prim.Native.String.{String}
use mathlib.Core.Path.{subst}
use text.Mathlib.Text.{◌==◌ as str_eq}
use invari_os.Base.{
  ℕ, Bool, true, false, if◌then◌else◌, refl, Bool-cases, inl, inr, Option, none, some, List, [],
  ◌∷◌, ◌++◌, append-nil, Result, ok, err, ◌≡◌, sym, ap, ◌∙◌,
}
use invari_os.Supervise.Mode
use invari_os.Supervise.Mode.{
  Cmd, Start, mode_single_dev, bao_path, bao_args, starting_bao, mode_not_implemented,
  start_open_bao, bootstrap_workload,
}
use invari_os.Supervise.State
use invari_os.Supervise.State.{Json, Files, Op, Reply, persist_mode, persisted_mode}
use invari_os.Supervise.State.Atomic.{decision, persist_mode-decision}
use invari_os.Supervise.Supervisor.{
  new_supervisor, Event, persisted, persist_failed, start_failed, started, BootstrapReplies,
  bootstrap,
}
use invari_os.Supervise.Supervisor.Lifecycle.{active}
use invari_os.Mgmtapi.{Texts, too_large, malformed, decoded, handle_bootstrap}
use invari_os.Boot.{
  Http, post_bootstrap, post_power, Node, Reach, answered, not_taken, given_up, served_call,
  call_bootstrap, handle, handle_all, recover, fresh_node, run_boot,
}
use invari_os.Boot.Workload.{answer_state}

module _ (texts : Texts) (mode : String) (cmd : Cmd) where
  -- The mode was persisted, its workload was started, and nothing else was done.
  pub record Running (n : Node) : Type 0 where
    pub supervisor : n.supervisor ≡ active cmd
    pub events : n.events ≡ persisted mode ∷ started mode cmd ∷ []

  Running-served :
      (r : BootstrapReplies) (other : String) (n : Node)
      → Running n
      → Running (served_call r other n).1
  unfolding served_call bootstrap
  Running-served r other n h = record {
    supervisor = ap (λ m. (bootstrap m other r).next) h.supervisor;
    events =
        ap (λ m. n.events ++ (bootstrap m other r).events) h.supervisor
        ∙ append-nil n.events
        ∙ h.events;
  }

  Running-call :
      (c : Reach) (r : BootstrapReplies) (other : String) (n : Node)
      → Running n
      → Running (call_bootstrap c r other n).1
  unfolding call_bootstrap
  Running-call answered r other n h = Running-served r other n h
  Running-call not_taken r other n h = h
  Running-call given_up r other n h = Running-served r other n h

  Running-handle : (n : Node) (q : Http) → Running n → Running (handle texts n q)
  unfolding handle handle_bootstrap
  Running-handle n (post_power route) h = record { supervisor = h.supervisor; events = h.events }
  Running-handle n (post_bootstrap too_large c r) h = h
  Running-handle n (post_bootstrap (malformed why) c r) h = h
  Running-handle n (post_bootstrap (decoded other) c r) h = elim (Bool-cases (str_eq other "")) [
    | inl e ↦ rw (e, handle) h
    | inr e ↦
        rw (e, handle)
          (subst Running (sym (answer_state texts (call_bootstrap c r other n)))
            (Running-call c r other n h))
  ]

  Running-handle_all : (qs : List Http) (n : Node) → Running n → Running (handle_all texts n qs)
  unfolding handle_all
  Running-handle_all [] n h = h
  Running-handle_all (q ∷ qs) n h = Running-handle_all qs (handle texts n q) (Running-handle n q h)

module _ (texts : Texts) (mode : String) (print : State.Error → String) where
  abbrev failure : Result State.Error (Unit {0}) → Option String
  failure (ok _) = none
  failure (err e) = some (print e)

  -- What PersistMode and Bootstrap answer to the recovery: `t` are the files then, and `print` is
  -- how an error reads.
  abbrev pub recovery : Json → Start → (Op → Reply) → Files → BootstrapReplies
  recovery j start again t = record {
    persist = failure (persist_mode j mode again t).0;
    start = bootstrap_workload start mode;
  }

  -- The node as it is before any request, but for the events of a recovery that started nothing.
  abbrev pub awaiting : List Event → Node
  awaiting es = record fresh_node { events = es }

  -- What becomes of a recovery, by PersistMode's answer, whether the mode is ModeSingleDev, and the
  -- start of bao; `n` is the node behind the requests `qs`.
  abbrev pub Recovered :
      Result State.Error (Unit {0}) → Bool → Result String ℕ → List Http → Node → Type 0
  Recovered (err e) single bao qs n = n ≡ handle_all texts (awaiting (persist_failed mode ∷ [])) qs
  Recovered (ok _) false bao qs n =
      n ≡ handle_all texts (awaiting (persisted mode ∷ start_failed mode ∷ [])) qs
  Recovered (ok _) true (err why) qs n =
      n ≡ handle_all texts (awaiting (persisted mode ∷ start_failed mode ∷ [])) qs
  Recovered (ok _) true (ok pid) qs n = Running texts mode (record { process = some pid }) n

  recover-Recovered :
      (p : Result State.Error (Unit {0})) (single : Bool) (bao : Result String ℕ) (qs : List Http)
      → let answer : Result Mode.Error Cmd =
          if single
          then elim bao [
            | err why ↦ err (starting_bao why)
            | ok pid ↦ ok (record { process = some pid })
          ]
          else err (mode_not_implemented mode) in
        let r : BootstrapReplies = record { persist = failure p; start = answer } in
        Recovered p single bao qs (handle_all texts (recover fresh_node (ok (some mode)) r) qs)
  unfolding recover call_bootstrap served_call bootstrap fresh_node new_supervisor
  recover-Recovered (err e) single bao qs = refl
  recover-Recovered (ok _) false bao qs = refl
  recover-Recovered (ok _) true (err why) qs = refl
  recover-Recovered (ok _) true (ok pid) qs =
      let cmd : Cmd = record { process = some pid } in
      let r : BootstrapReplies = record { persist = none; start = ok cmd } in
      Running-handle_all texts mode cmd qs (recover fresh_node (ok (some mode)) r)
        (record { supervisor = refl; events = refl })

  -- Let PersistMode of a mode have returned no error in some boot, and let the next boot find the
  -- files that it left. That boot calls PersistMode for this mode, and behind its success Bootstrap,
  -- before it serves a request. If PersistMode returns no error, the mode is ModeSingleDev and bao starts, then
  -- whatever requests come, this process is the workload of the supervisor, which starts no other.
  -- If PersistMode returns an error, bao does not start, or the mode is any other, then nothing is
  -- started, and the requests are served as on a node that awaits its first bootstrap.
  pub run_boot-Recovered :
      (j : Json) (start : Start) (reply again : Op → Reply) (fs t : Files) (qs : List Http)
      → persist_mode j mode reply fs ≡ (ok tt, t)
      → Recovered
          (persist_mode j mode again t).0
          (str_eq mode mode_single_dev)
          (start bao_path bao_args)
          qs
          (run_boot texts (persisted_mode j t) (recovery j start again t) qs)
  unfolding run_boot bootstrap_workload start_open_bao
  run_boot-Recovered j start reply again fs t qs kept =
      let decided : persisted_mode j t ≡ ok (some mode) =
        ap (λ x. persisted_mode j x.1) (sym kept)
        ∙ persist_mode-decision j mode reply fs
        ∙ ap (λ x. decision j x.0 mode fs) kept in
      let p = (persist_mode j mode again t).0 in
      let single = str_eq mode mode_single_dev in
      let bao = start bao_path bao_args in
      subst
        (λ d.
          Recovered p single bao qs
            (handle_all texts (recover fresh_node d (recovery j start again t)) qs))
        (sym decided) (recover-Recovered p single bao qs)
