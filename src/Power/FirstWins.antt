-- ===== src/Power/FirstWins.antt =====
-- internal/power/power.go: sequences of requests to one Pending.
use Prim.Native.String.{String}
use text.Mathlib.TextEquality.{eq_iff}
use invari_os.Base.{
  true, false, List, [], ◌∷◌, Result, ok, err, if◌then◌else◌, ◌≡◌, ◌≢◌, refl, ap, arith, Bool-cases,
  inl, inr,
}
use invari_os.Power.{
  Error, unknown_power_action, already_requested, Pending, new_pending, is_action, request,
  requests,
}

-- The pending action after a history, read off the history: its first valid action, or none.
abbrev pub first_action : List String → String
first_action [] = ""
first_action (a ∷ as') = if is_action a then a else first_action as'

-- The answer to a request after `taken` was recorded.
abbrev pub late_answer : String → String → Result Error (Unit {0})
late_answer taken a =
    if is_action a then err (already_requested taken) else err (unknown_power_action a)

abbrev pub late_answers : String → List String → List (Result Error (Unit {0}))
late_answers taken [] = []
late_answers taken (a ∷ as') = late_answer taken a ∷ late_answers taken as'

-- The answers to a whole history: only its first valid request succeeds.
abbrev pub answers : List String → List (Result Error (Unit {0}))
answers [] = []
answers (a ∷ as') =
    if is_action a then ok tt ∷ late_answers a as' else err (unknown_power_action a) ∷ answers as'

abbrev pub pending_after : String → Pending
pending_after a = record { action = a; done = is_action a }

is_action-empty : is_action "" ≡ false
unfolding is_action
is_action-empty = refl

is_action-ne : (a : String) → is_action a ≡ true → a ≢ ""
is_action-ne a h e = cc (ap is_action e, is_action-empty)

request_late :
    (taken a : String)
    → is_action taken ≡ true
    → request (pending_after taken) a ≡ (late_answer taken a, pending_after taken)
unfolding request
request_late taken a h = ground (arith, is_action-ne taken h, eq_iff taken "")

requests_step :
    (p q t : Pending) (a : String) (as' : List String) (r : Result Error (Unit {0}))
    (rs : List (Result Error (Unit {0})))
    → request p a ≡ (r, q)
    → requests q as' ≡ (rs, t)
    → requests p (a ∷ as') ≡ (r ∷ rs, t)
unfolding requests
requests_step p q t a as' r rs h k = rw (h, requests) (rw (k, requests))

requests_late :
    (taken : String) (as' : List String)
    → is_action taken ≡ true
    → requests (pending_after taken) as' ≡ (late_answers taken as', pending_after taken)
requests_late taken [] h = unfold requests in refl
requests_late taken (a ∷ as') h =
    requests_step _ _ _ a as' _ _ (request_late taken a h) (requests_late taken as' h)

request_first : (a : String) → is_action a ≡ true → request new_pending a ≡ (ok tt, pending_after a)
unfolding request new_pending
request_first a h = ground arith

request_unknown :
    (a : String)
    → is_action a ≡ false
    → request new_pending a ≡ (err (unknown_power_action a), new_pending)
unfolding request new_pending
request_unknown a h = ground arith

-- For every sequence of requests to a new Pending: the first valid action is the one recorded and
-- its request alone succeeds, later valid ones are answered that it was already requested,
-- requests that name no action are answered that it is unknown, and the channel is closed, once,
-- exactly if there was a valid one.
pub requests-first_action :
    (as' : List String) → requests new_pending as' ≡ (answers as', pending_after (first_action as'))
requests-first_action [] = unfold requests new_pending is_action in refl
requests-first_action (a ∷ as') = elim (Bool-cases (is_action a)) [
  | inl h ↦ rw h (requests_step _ _ _ a as' _ _ (request_first a h) (requests_late a as' h))
  | inr h ↦ rw h (requests_step _ _ _ a as' _ _ (request_unknown a h) (requests-first_action as'))
]
