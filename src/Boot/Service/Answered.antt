-- ===== src/Boot/Service/Answered.antt =====
-- cmd/root.go: how a boot of an installed node can end.
use mathlib.Core.Path.{subst}
use text.Mathlib.Text.{◌==◌ as str_eq}
use invari_os.Base.{Bool, true, false, Option, none, some, List, [], ◌∷◌, ◌≡◌, refl, sym, ap, ◌∙◌}
use invari_os.Power.{
  Pending, new_pending, request, is_action, close_done, flush, sync, reboot_failed, do_power,
  hand_over,
}
use invari_os.Supervise.Supervisor.{Supervisor}
use Prim.Native.String.{String}
use invari_os.Mgmtapi.{Texts, ServeError, handle_power, power_answer}
use invari_os.Mgmtapi.Once.{PowerRoute, reboot_route, shutdown_route, power_post}
use invari_os.Mount.{Mounts}
use invari_os.Network.Link
use invari_os.Boot.{
  Node, Http, post_bootstrap, post_power, Action, handle, handle_all, recover, fresh_node, run_boot,
  run_power, handed_over, kernel_calls, fatal_error,
}
use invari_os.Boot.Down.{
  command_of, first_route, kernel_part, bootstrap_keeps_pending, pending_late, first_taken, named,
  recover_keeps, pending_first, action_of,
}
use invari_os.Boot.Service.{
  Outside, End, fatal, down, hung, powered, waiting, heard, ended_alone, selected, booted, run_on,
}

abbrev is_some : Option PowerRoute → Bool
is_some none = false
is_some (some route) = true

module _ (texts : Texts) where
  first_done :
      (n : Node) (route : PowerRoute)
      → n.pending ≡ new_pending
      → (handle texts n (post_power route)).pending.done ≡ true
  unfolding handle power_post handle_power power_answer request is_action close_done new_pending
  first_done n reboot_route e = rw e refl
  first_done n shutdown_route e = rw e refl

  done_all :
      (qs : List Http) (n : Node)
      → n.pending ≡ new_pending
      → (handle_all texts n qs).pending.done ≡ is_some (first_route qs)
  unfolding handle_all new_pending
  done_all [] n e = ap (λ (p : Pending). p.done) e
  done_all (post_bootstrap body c b ∷ qs) n e =
      done_all qs (handle texts n (post_bootstrap body c b))
        (bootstrap_keeps_pending texts n body c b ∙ e)
  done_all (post_power route ∷ qs) n e =
      ap (λ (p : Pending). p.done)
        (pending_late texts qs (handle texts n (post_power route))
          (ap (λ a. str_eq a "") (first_taken texts n route e) ∙ named texts route))
      ∙ first_done n route e

module _ (texts : Texts) (k : Mounts) (n : Link.Node) (o : Outside) where
  abbrev asked : Option PowerRoute
  asked = first_route (heard o.listen o.requests)

  -- What runPower did to the kernel for the first power request.
  abbrev pub Asked : PowerRoute → List Action → Type 0
  Asked route as' = (asked ≡ some route) × (kernel_part as' ≡ flush ∷ sync ∷ command_of route ∷ [])

  -- The node goes down for the action of the first power request; it hangs for the server's own
  -- error, or for the failure of the reboot(2) of that action; it goes on serving only where nobody
  -- asked and the server runs.
  abbrev pub Answered : End → Type 0
  Answered (down as') = (route : PowerRoute) × Asked route as' × (o.reboot_fails ≡ false)
  Answered (hung why as') =
      (route : PowerRoute) × Asked route as'
      × (o.reboot_fails ≡ true)
      × (why ≡ reboot_failed (action_of route))
  Answered (fatal why) = ended_alone o.listen o.failed ≡ some why
  Answered waiting = (asked ≡ none) × (ended_alone o.listen o.failed ≡ none)

  booted_done : (booted texts k n o).pending.done ≡ is_some asked
  unfolding booted run_boot fresh_node
  booted_done =
      done_all texts (heard o.listen o.requests) (recover fresh_node o.persisted o.replies)
        (recover_keeps texts fresh_node o.persisted o.replies)

  -- runPower for the action that was first asked for.
  powered-Answered :
      (route : PowerRoute) (s : k.State) (m : Supervisor) (failed : Bool)
      → asked ≡ some route
      → o.reboot_fails ≡ failed
      → Answered
          (powered (run_power k (action_of route) o.failed o.drained o.taken m o.stop s failed))
  unfolding powered run_power do_power hand_over handed_over kernel_calls fatal_error
  powered-Answered reboot_route s m false a f = (reboot_route, (a, refl), f)
  powered-Answered reboot_route s m true a f = (reboot_route, (a, refl), f, refl)
  powered-Answered shutdown_route s m false a f = (shutdown_route, (a, refl), f)
  powered-Answered shutdown_route s m true a f = (shutdown_route, (a, refl), f, refl)

  booted_action :
      (route : PowerRoute)
      → asked ≡ some route
      → (booted texts k n o).pending.action ≡ action_of route
  unfolding booted run_boot fresh_node
  booted_action route a =
      pending_first texts (heard o.listen o.requests) (recover fresh_node o.persisted o.replies)
        route (recover_keeps texts fresh_node o.persisted o.replies) a

  -- The select, whatever is asked and whatever the server does.
  selected-Answered :
      (asks : Option PowerRoute) (alone : Option ServeError) (first : Bool) (rest : List Action)
      → asked ≡ asks
      → ended_alone o.listen o.failed ≡ alone
      → ((route : PowerRoute) → asked ≡ some route → Answered (powered rest))
      → Answered (selected first (is_some asks) alone rest)
  unfolding selected
  selected-Answered none none first rest a s goes = (a, s)
  selected-Answered none (some why) first rest a s goes = s
  selected-Answered (some route) none first rest a s goes = goes route a
  selected-Answered (some route) (some why) true rest a s goes = s
  selected-Answered (some route) (some why) false rest a s goes = goes route a

  -- Let a boot have mounted its volumes, and let the outside answer anything from there on, the
  -- network that does not come up included. The node calls
  -- console.Flush, sync(2) and reboot(2) only if a power request was heard, and then for the first
  -- such request, in this order and each once: it is down if that reboot(2) does not fail, and hangs
  -- in console.Fatal with this action's error if it does. Else it hangs only if the server could not
  -- listen or failed on its own, with the server's error; and it goes on serving only if no power
  -- request was heard and the server neither failed to listen nor failed.
  pub run_on-Answered : (s : k.State) (x : n.State) → Answered (run_on texts k n o s x).0
  unfolding run_on booted
  run_on-Answered s x =
      let m = (booted texts k n o).supervisor in
      let power : String → List Action =
        λ a. run_power k a o.failed o.drained o.taken m o.stop s o.reboot_fails in
      let rest = power (booted texts k n o).pending.action in
      subst (λ d. Answered (selected o.server_first d (ended_alone o.listen o.failed) rest))
        (sym booted_done)
        (selected-Answered asked (ended_alone o.listen o.failed) o.server_first rest refl refl
          (λ route e.
            subst (λ a. Answered (powered (power a))) (sym (booted_action route e))
              (powered-Answered route s m o.reboot_fails e refl)))
