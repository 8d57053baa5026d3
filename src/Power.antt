-- ===== src/Power.antt =====
-- internal/power/power.go: the one requested power action, and the hand-over to the kernel.
pub mod FirstWins
use Prim.Native.String.{String}
use text.Mathlib.Text.{◌==◌ as str_eq}
use invari_os.Base.{Bool, true, false, ◌||◌, List, [], ◌∷◌, ◌++◌, Result, ok, err, if◌then◌else◌}

-- Action is a string type; these are its two values.
abbrev pub reboot : String
reboot = "reboot"

abbrev pub shutdown : String
shutdown = "shutdown"

pub data Error : Type 0 where
  unknown_power_action : String → Error
  already_requested : String → Error
  close_of_closed_channel : Error
  reboot_failed : String → Error

-- `done` is whether the channel is closed. The zero value of `action` is the empty string.
pub record Pending : Type 0 where
  pub action : String
  pub done : Bool

unfoldable pub new_pending : Pending
new_pending = record { action = ""; done = false }

unfoldable pub is_action : String → Bool
is_action a = str_eq a reboot || str_eq a shutdown

-- close(p.done): closing a closed channel panics.
unfoldable pub close_done : Pending → Result Error (Unit {0}) × Pending
close_done p =
    if p.done then (err close_of_closed_channel, p) else (ok tt, record p { done = true })

-- The mutex makes each call one step.
unfoldable pub request : Pending → String → Result Error (Unit {0}) × Pending
unfolding is_action close_done
request p a =
    if is_action a
    then if str_eq p.action ""
      then close_done (record p { action = a })
      else (err (already_requested p.action), p)
    else (err (unknown_power_action a), p)

-- The calls of any number of goroutines, in the order in which they take the mutex.
pub requests : Pending → List String → List (Result Error (Unit {0})) × Pending
requests p [] = ([], p)
requests p (a ∷ as') =
    let (answer, q) = request p a in let (answers, r) = requests q as' in (answer ∷ answers, r)

-- What Do asks of the console and of the kernel.
pub data Call : Type 0 where
  flush : Call
  sync : Call
  restart : Call
  power_off : Call

-- flush, sync, reboot(2) in this order. reboot(2) returns only to report an error;
-- `failed` is whether it does, and `ok` is the machine going down.
unfoldable pub hand_over : String → Call → Bool → List Call × Result Error (Unit {0})
hand_over a call failed =
    (flush ∷ sync ∷ call ∷ [], if failed then err (reboot_failed a) else ok tt)

unfoldable pub do_power : String → Bool → List Call × Result Error (Unit {0})
unfolding hand_over
do_power a failed =
    if str_eq a reboot
    then hand_over a restart failed
    else if str_eq a shutdown
    then hand_over a power_off failed
    else ([], err (unknown_power_action a))
