-- ===== src/Mgmtapi/Once.antt =====
-- internal/mgmtapi/mgmtapi.go: sequences of requests, as a node's operators see them.
use Prim.Native.String.{String}
use text.Mathlib.Text.{◌==◌ as str_eq}
use invari_os.Base.{
  ℕ, suc, ◌≤◌, true, false, List, [], ◌∷◌, Result, ok, err, Result-cases, if◌then◌else◌, ◌==◌,
  length, replicate, ◌≡◌, refl, ap, ◌∙◌, arith, inl, inr, ◌⊎◌, Bool-cases,
}
use invari_os.Supervise.Mode
use invari_os.Supervise.Mode.{Cmd}
use invari_os.Supervise.Supervisor.{
  Supervisor, BootstrapReplies, bootstrap, persist_then_start, start_workload,
}
use invari_os.Power.{reboot, shutdown, Pending, new_pending, request, is_action, close_done}
use invari_os.Mgmtapi.{
  Response, Texts, Decoded, too_large, malformed, decoded, handle_bootstrap, bootstrap_answer,
  bootstrap_failed, handle_power, power_answer, power_failed, write_json, write_error, status_ok,
  status_accepted, status_conflict,
}

-- A POST /bootstrap: its body, and what persistFn and bootstrapFn answer if they are called.
pub record Post : Type 0 where
  pub body : Decoded
  pub replies : BootstrapReplies

-- The two power routes of mux, with the action and the status word that it gives handlePower.
pub data PowerRoute : Type 0 where
  reboot_route : PowerRoute
  shutdown_route : PowerRoute

module _ (texts : Texts) where
  -- One POST /bootstrap at the supervisor.
  pub post : Supervisor → Post → Response × Supervisor
  post m p =
      handle_bootstrap texts
        (λ mode k. ((bootstrap k mode p.replies).answer, (bootstrap k mode p.replies).next)) p.body
        m

  -- The status codes of POST /bootstrap requests, in the order in which the supervisor serves them.
  pub bootstrap_codes : Supervisor → List Post → List ℕ
  unfolding post
  bootstrap_codes m [] = []
  bootstrap_codes m (p ∷ ps) = (post m p).0.code ∷ bootstrap_codes (post m p).1 ps

  unfoldable pub power_post : Pending → PowerRoute → Response × Pending
  power_post p reboot_route = handle_power texts (λ a q. request q a) reboot "rebooting" p
  power_post p shutdown_route = handle_power texts (λ a q. request q a) shutdown "shutting-down" p

  pub power_codes : Pending → List PowerRoute → List ℕ
  unfolding power_post
  power_codes p [] = []
  power_codes p (r ∷ rs) = (power_post p r).0.code ∷ power_codes (power_post p r).1 rs

  -- How often a code stands in a list.
  abbrev pub count : ℕ → List ℕ → ℕ
  count c [] = 0
  count c (x ∷ xs) = if x == c then suc (count c xs) else count c xs

  failed_code : (e : Mode.Error) → ((bootstrap_failed texts e).code == status_ok) ≡ false
  unfolding bootstrap_failed write_error write_json
  failed_code e = ground arith

  answer_code :
      {S : Type 0} (p : Result Mode.Error Cmd × S) (e : Mode.Error)
      → p.0 ≡ err e
      → ((bootstrap_answer texts p).0.code == status_ok) ≡ false
  unfolding bootstrap_answer
  answer_code (ok cmd, s) e h = absurd (cc)
  answer_code (err x, s) e h = failed_code x

  answer_state : {S : Type 0} (p : Result Mode.Error Cmd × S) → (bootstrap_answer texts p).1 ≡ p.1
  unfolding bootstrap_answer
  answer_state (ok cmd, s) = refl
  answer_state (err x, s) = refl

  -- What bootstrap makes of a supervisor that already has its workload.
  bootstrap_late :
      (m : Supervisor) (mode : String) (r : BootstrapReplies)
      → m.bootstrapped ≡ true
      → (e : Mode.Error) × ((bootstrap m mode r).answer ≡ err e) × ((bootstrap m mode r).next ≡ m)
  unfolding bootstrap
  bootstrap_late m mode r h = elim (Bool-cases m.stopping) [
    | inl s ↦ (Mode.is_stopping, rw s, rw s)
    | inr s ↦ (Mode.already_bootstrapped, rw (s, h), rw (s, h))
  ]

  -- A bootstrapped supervisor answers no request with 200, and stays as it is.
  post_late :
      (m : Supervisor) (b : Decoded) (r : BootstrapReplies)
      → m.bootstrapped ≡ true
      → (((post m (record { body = b; replies = r })).0.code == status_ok) ≡ false)
        × ((post m (record { body = b; replies = r })).1 ≡ m)
  unfolding post handle_bootstrap write_error write_json
  post_late m too_large r h = (refl, refl)
  post_late m (malformed why) r h = (refl, refl)
  post_late m (decoded mode) r h = elim (Bool-cases (str_eq mode "")) [
    | inl e ↦ (rw e, rw e)
    | inr e ↦
        let (x, answer, next) = bootstrap_late m mode r h in
        let p : Result Mode.Error Cmd × Supervisor =
          ((bootstrap m mode r).answer, (bootstrap m mode r).next) in
        (rw e (answer_code p x answer), rw e (answer_state p ∙ next))
  ]

  bootstrap_answers :
      (m : Supervisor) (mode : String) (r : BootstrapReplies)
      → ((e : Mode.Error) × ((bootstrap m mode r).answer ≡ err e))
        ⊎ ((bootstrap m mode r).next.bootstrapped ≡ true)
  unfolding bootstrap persist_then_start start_workload
  bootstrap_answers m mode r = elim (Result-cases (bootstrap m mode r).answer) [
    | inl (cmd, e) ↦ inr (ground arith)
    | inr (x, e) ↦ inl (x, e)
  ]

  post_any :
      (m : Supervisor) (b : Decoded) (r : BootstrapReplies)
      → (((post m (record { body = b; replies = r })).0.code == status_ok) ≡ false)
        ⊎ ((post m (record { body = b; replies = r })).1.bootstrapped ≡ true)
  unfolding post handle_bootstrap write_error write_json
  post_any m too_large r = inl refl
  post_any m (malformed why) r = inl refl
  post_any m (decoded mode) r = elim (Bool-cases (str_eq mode "")) [
    | inl e ↦ inl (rw e)
    | inr e ↦
        let p : Result Mode.Error Cmd × Supervisor =
          ((bootstrap m mode r).answer, (bootstrap m mode r).next) in
        elim (bootstrap_answers m mode r) [
          | inl (x, answer) ↦ inl (rw e (answer_code p x answer))
          | inr there ↦
              inr (rw e (ap (λ (k : Supervisor). k.bootstrapped) (answer_state p) ∙ there))
        ]
  ]

  count-late :
      (ps : List Post) (m : Supervisor)
      → m.bootstrapped ≡ true
      → count status_ok (bootstrap_codes m ps) ≡ 0
  unfolding bootstrap_codes
  count-late [] m h = refl
  count-late (p ∷ ps) m h =
      let (code, same) = post_late m p.body p.replies h in rw (code, same) (count-late ps m h)

  -- Whatever bodies come and whatever persistFn and bootstrapFn answer, the supervisor in any
  -- state included: of the status codes of a sequence of POST /bootstrap requests at most one is
  -- 200.
  pub count-bootstrap_codes :
      (ps : List Post) (m : Supervisor) → count status_ok (bootstrap_codes m ps) ≤ 1
  unfolding bootstrap_codes
  count-bootstrap_codes [] m = ground arith
  count-bootstrap_codes (p ∷ ps) m = elim (post_any m p.body p.replies) [
    | inl code ↦ rw code (count-bootstrap_codes ps (post m p).1)
    | inr there ↦ elim (Bool-cases ((post m p).0.code == status_ok)) [
      | inl yes_code ↦ rw (yes_code, count-late ps (post m p).1 there) (ground arith)
      | inr no_code ↦ rw no_code (count-bootstrap_codes ps (post m p).1)
    ]
  ]

  pub late_power :
      (p : Pending) (r : PowerRoute)
      → str_eq p.action "" ≡ false
      → ((power_post p r).0.code ≡ status_conflict) × ((power_post p r).1 ≡ p)
  unfolding power_post handle_power power_answer power_failed request is_action write_error
      write_json
  late_power p reboot_route h = (rw h, rw h)
  late_power p shutdown_route h = (rw h, rw h)

  codes_late :
      (rs : List PowerRoute) (p : Pending)
      → str_eq p.action "" ≡ false
      → power_codes p rs ≡ replicate (length rs) status_conflict
  unfolding power_codes
  codes_late [] p h = refl
  codes_late (r ∷ rs) p h =
      let (code, same) = late_power p r h in
      rw (code, same) (ap (◌∷◌ status_conflict) (codes_late rs p h))

  -- For every sequence of one or more requests to POST /reboot and POST /shutdown at a new
  -- Pending, the first is answered 202 and every other 409.
  pub power_codes-new_pending :
      (r : PowerRoute) (rs : List PowerRoute)
      → power_codes new_pending (r ∷ rs) ≡ status_accepted ∷ replicate (length rs) status_conflict
  unfolding power_codes power_post handle_power power_answer request is_action close_done
      new_pending write_json
  power_codes-new_pending reboot_route rs = ap (◌∷◌ status_accepted) (codes_late rs _ refl)
  power_codes-new_pending shutdown_route rs = ap (◌∷◌ status_accepted) (codes_late rs _ refl)
