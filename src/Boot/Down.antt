-- ===== src/Boot/Down.antt =====
-- cmd/root.go: the power request that a boot goes down for.
use Prim.Native.String.{String}
use text.Mathlib.Text.{◌==◌ as str_eq}
use invari_os.Base.{
  false, Bool-cases, inl, inr, Option, none, some, List, [], ◌∷◌, Result, ok, err, ◌≡◌, refl, ap,
  ◌∙◌,
}
use invari_os.Supervise.State
use invari_os.Supervise.Supervisor.{BootstrapReplies}
use invari_os.Power.{
  reboot, shutdown, Pending, new_pending, request, is_action, close_done, Call, restart, power_off,
}
use invari_os.Mgmtapi.{
  Texts, Decoded, too_large, malformed, decoded, handle_bootstrap, bootstrap_answer, handle_power,
  power_answer,
}
use invari_os.Mgmtapi.Once.{PowerRoute, reboot_route, shutdown_route, power_post, late_power}
use invari_os.Boot.{
  Http, post_bootstrap, post_power, Node, Reach, answered, not_taken, given_up, served_call,
  call_bootstrap, handle, handle_all, recover, Action, drain, stop_workload, unmount, kernel, fatal,
}
use invari_os.Boot.Workload.{answer_state}

call_bootstrap_keeps :
    (c : Reach) (b : BootstrapReplies) (mode : String) (n : Node)
    → (call_bootstrap c b mode n).1.pending ≡ n.pending
unfolding call_bootstrap served_call
call_bootstrap_keeps answered b mode n = refl
call_bootstrap_keeps not_taken b mode n = refl
call_bootstrap_keeps given_up b mode n = refl

-- The action of the first power request.
abbrev pub action_of : PowerRoute → String
action_of reboot_route = reboot
action_of shutdown_route = shutdown

abbrev pub command_of : PowerRoute → Call
command_of reboot_route = restart
command_of shutdown_route = power_off

abbrev pub first_route : List Http → Option PowerRoute
first_route [] = none
first_route (post_bootstrap body c b ∷ qs) = first_route qs
first_route (post_power route ∷ qs) = some route

-- The calls to the kernel among what runPower does.
abbrev pub kernel_part : List Action → List Call
kernel_part [] = []
kernel_part (kernel c ∷ as') = c ∷ kernel_part as'
kernel_part (drain _ ∷ as') = kernel_part as'
kernel_part (stop_workload _ ∷ as') = kernel_part as'
kernel_part (unmount _ ∷ as') = kernel_part as'
kernel_part (fatal _ ∷ as') = kernel_part as'

module _ (texts : Texts) where
  answer_pending :
      (c : Reach) (b : BootstrapReplies) (mode : String) (n : Node)
      → (bootstrap_answer texts (call_bootstrap c b mode n)).1.pending ≡ n.pending
  answer_pending c b mode n =
      ap (λ (x : Node). x.pending) (answer_state texts (call_bootstrap c b mode n))
      ∙ call_bootstrap_keeps c b mode n

  pub bootstrap_keeps_pending :
      (n : Node) (body : Decoded) (c : Reach) (b : BootstrapReplies)
      → (handle texts n (post_bootstrap body c b)).pending ≡ n.pending
  unfolding handle handle_bootstrap
  bootstrap_keeps_pending n too_large c b = refl
  bootstrap_keeps_pending n (malformed why) c b = refl
  bootstrap_keeps_pending n (decoded mode) c b = elim (Bool-cases (str_eq mode "")) [
    | inl e ↦ rw (e, handle) refl
    | inr e ↦ rw (e, handle) (answer_pending c b mode n)
  ]

  pub pending_late :
      (qs : List Http) (n : Node)
      → str_eq n.pending.action "" ≡ false
      → (handle_all texts n qs).pending ≡ n.pending
  unfolding handle_all
  pending_late [] n h = refl
  pending_late (post_bootstrap body c b ∷ qs) n h =
      let same = bootstrap_keeps_pending n body c b in
      pending_late qs (handle texts n (post_bootstrap body c b))
        (ap (λ (x : Pending). str_eq x.action "") same ∙ h)
      ∙ same
  pending_late (post_power route ∷ qs) n h =
      let same : (handle texts n (post_power route)).pending ≡ n.pending =
        (late_power texts n.pending route h).1 in
      pending_late qs (handle texts n (post_power route))
        (ap (λ (x : Pending). str_eq x.action "") same ∙ h)
      ∙ same

  pub first_taken :
      (n : Node) (route : PowerRoute)
      → n.pending ≡ new_pending
      → (handle texts n (post_power route)).pending.action ≡ action_of route
  unfolding handle power_post handle_power power_answer request is_action close_done new_pending
  first_taken n reboot_route e = rw e refl
  first_taken n shutdown_route e = rw e refl

  pub named : (route : PowerRoute) → str_eq (action_of route) "" ≡ false
  named reboot_route = refl
  named shutdown_route = refl

  pub pending_first :
      (qs : List Http) (n : Node) (route : PowerRoute)
      → n.pending ≡ new_pending
      → first_route qs ≡ some route
      → (handle_all texts n qs).pending.action ≡ action_of route
  unfolding handle_all
  pending_first [] n route e f = absurd (cc)
  pending_first (post_bootstrap body c b ∷ qs) n route e f =
      pending_first qs (handle texts n (post_bootstrap body c b)) route
        (bootstrap_keeps_pending n body c b ∙ e) f
  pending_first (post_power other ∷ qs) n route e f =
      let taken = first_taken n other e in
      let late =
        pending_late qs (handle texts n (post_power other))
          (ap (λ a. str_eq a "") taken ∙ named other) in
      let same : other ≡ route = cc in
      ap (λ (x : Pending). x.action) late ∙ taken ∙ ap action_of same

  pub recover_keeps :
      (n : Node) (p : Result State.Error (Option String)) (b : BootstrapReplies)
      → (recover n p b).pending ≡ n.pending
  unfolding recover call_bootstrap served_call
  recover_keeps n (err e) b = refl
  recover_keeps n (ok none) b = refl
  recover_keeps n (ok (some mode)) b = refl
