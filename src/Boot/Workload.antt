-- ===== src/Boot/Workload.antt =====
-- cmd/root.go: what one boot does to its workload, from recovering the mode to the stop.
use Prim.Native.String.{String}
use mathlib.Core.Path.{subst}
use text.Mathlib.Text.{◌==◌ as str_eq}
use invari_os.Base.{
  Bool, true, false, Bool-cases, inl, inr, Option, none, some, List, [], ◌∷◌, ◌++◌, append-nil,
  append_assoc, Result, ok, err, ◌≡◌, refl, sym, ap, ◌∙◌,
}
use invari_os.Supervise.Mode
use invari_os.Supervise.Mode.{Cmd}
use invari_os.Supervise.State
use invari_os.Supervise.Supervisor.{
  Supervisor, new_supervisor, BootstrapReplies, StopReplies, Request, bootstrap_request,
  stop_request, after, events_of, run, trace,
}
use invari_os.Supervise.Supervisor.Lifecycle.{idle, Legal, trace-Legal}
use invari_os.Power.{Pending}
use invari_os.Mgmtapi.{Texts, too_large, malformed, decoded, handle_bootstrap, bootstrap_answer}
use invari_os.Boot.{
  Http, post_bootstrap, post_power, Node, Reach, answered, not_taken, given_up, served_call,
  call_bootstrap, handle, handle_all, recover, stop_events, fresh_node, run_boot,
}

run-append :
    (rs : List Request) (m : Supervisor) (q : Request) → run m (rs ++ (q ∷ [])) ≡ after (run m rs) q
unfolding run
run-append [] m q = refl
run-append (r ∷ rs) m q = run-append rs (after m r) q

trace-append :
    (rs : List Request) (m : Supervisor) (q : Request)
    → trace m (rs ++ (q ∷ [])) ≡ trace m rs ++ events_of (run m rs) q
unfolding trace run
trace-append [] m q = append-nil (events_of m q)
trace-append (r ∷ rs) m q =
    ap (λ x. events_of m r ++ x) (trace-append rs (after m r) q)
    ∙ sym (append_assoc (events_of m r) (trace (after m r) rs) (events_of (run (after m r) rs) q))

-- The supervisor of a node is what some requests made of a new one.
record Reached (n : Node) : Type 0 where
  served : List Request
  supervisor : n.supervisor ≡ run new_supervisor served
  events : n.events ≡ trace new_supervisor served

-- One more request.
Reached-more :
    (n : Node) (p : Pending) (q : Request)
    → Reached n
    → Reached (record {
      supervisor = after n.supervisor q;
      events = n.events ++ events_of n.supervisor q;
      pending = p;
    })
Reached-more n p q r = record {
  served = r.served ++ (q ∷ []);
  supervisor = ap (λ m. after m q) r.supervisor ∙ sym (run-append r.served new_supervisor q);
  events =
      ap (λ x. x ++ events_of n.supervisor q) r.events
      ∙ ap (λ m. trace new_supervisor r.served ++ events_of m q) r.supervisor
      ∙ sym (trace-append r.served new_supervisor q);
}

Reached-call :
    (c : Reach) (b : BootstrapReplies) (mode : String) (n : Node)
    → Reached n
    → Reached (call_bootstrap c b mode n).1
unfolding call_bootstrap served_call
Reached-call answered b mode n r = Reached-more n n.pending (bootstrap_request mode b) r
Reached-call not_taken b mode n r = r
Reached-call given_up b mode n r = Reached-more n n.pending (bootstrap_request mode b) r

module _ (texts : Texts) where
  pub answer_state : (p : Result Mode.Error Cmd × Node) → (bootstrap_answer texts p).1 ≡ p.1
  unfolding bootstrap_answer
  answer_state (ok cmd, n) = refl
  answer_state (err e, n) = refl

  Reached-handle : (n : Node) (q : Http) → Reached n → Reached (handle texts n q)
  unfolding handle handle_bootstrap
  Reached-handle n (post_power route) r = record {
    served = r.served;
    supervisor = r.supervisor;
    events = r.events;
  }
  Reached-handle n (post_bootstrap too_large c b) r = r
  Reached-handle n (post_bootstrap (malformed why) c b) r = r
  Reached-handle n (post_bootstrap (decoded mode) c b) r = elim (Bool-cases (str_eq mode "")) [
    | inl e ↦ rw (e, handle) r
    | inr e ↦
        rw (e, handle)
          (subst Reached (sym (answer_state (call_bootstrap c b mode n)))
            (Reached-call c b mode n r))
  ]

  Reached-handle_all : (qs : List Http) (n : Node) → Reached n → Reached (handle_all texts n qs)
  unfolding handle_all
  Reached-handle_all [] n r = r
  Reached-handle_all (q ∷ qs) n r = Reached-handle_all qs (handle texts n q) (Reached-handle n q r)

  Reached-recover :
      (n : Node) (p : Result State.Error (Option String)) (b : BootstrapReplies)
      → Reached n
      → Reached (recover n p b)
  unfolding recover
  Reached-recover n (err e) b r = r
  Reached-recover n (ok none) b r = r
  Reached-recover n (ok (some mode)) b r = Reached-call answered b mode n r

  Reached-run_boot :
      (p : Result State.Error (Option String)) (b : BootstrapReplies) (qs : List Http)
      → Reached (run_boot texts p b qs)
  unfolding run_boot fresh_node
  Reached-run_boot p b qs = Reached-handle_all qs (recover fresh_node p b) (
      Reached-recover fresh_node p b
        (record { served = []; supervisor = unfold run in refl; events = unfold trace in refl }))

  -- Over a whole boot, whatever mode was persisted, whatever requests come and whatever the outside
  -- answers, up to and including the stop of runPower: the events are legal. A workload starts only
  -- right behind the persisting of its mode, at most one is started, the recovered one included,
  -- and only that one is signaled, killed and reaped.
  pub run_boot-Legal :
      (p : Result State.Error (Option String)) (b : BootstrapReplies) (qs : List Http)
      (taken : Bool) (r : StopReplies)
      → Legal idle
          ((run_boot texts p b qs).events ++ stop_events taken (run_boot texts p b qs).supervisor r)
  unfolding stop_events
  run_boot-Legal p b qs false r =
      let n = Reached-run_boot p b qs in
      subst (Legal idle) (sym (append-nil (run_boot texts p b qs).events ∙ n.events))
        (trace-Legal n.served)
  run_boot-Legal p b qs true r =
      let n = run_boot texts p b qs in
      let m = Reached-more n n.pending (stop_request r) (Reached-run_boot p b qs) in
      subst (Legal idle) (sym m.events) (trace-Legal m.served)
