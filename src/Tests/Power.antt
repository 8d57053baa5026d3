-- ===== src/Tests/Power.antt =====
-- internal/power: three goroutines ask for an action.
use Prim.Native.String.{String}
use invari_os.Base.{List, [], ◌∷◌, ◌≡◌}
use invari_os.Power.{requests, new_pending}
use invari_os.Power.FirstWins.{first_action, answers, pending_after, requests-first_action}

abbrev history : List String
history = "halt" ∷ "shutdown" ∷ "reboot" ∷ []

requests-first_action_example :
    requests new_pending history ≡ (answers history, pending_after (first_action history))
requests-first_action_example = requests-first_action history
