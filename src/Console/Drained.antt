-- ===== src/Console/Drained.antt =====
-- internal/console/console.go: how long Flush waits.
use invari_os.Base.{
  ℕ, zero, suc, ◌+◌, ◌*◌, ◌<◌, ◌≤◌, false, Bool-cases, Option-cases, inl, inr, Option, none, some,
  ltb, ltb→lt, ◌==◌, ◌⊎◌, ◌≡◌, ◌≢◌, refl, ap, ◌∙◌, arith,
}
use invari_os.Console.{
  Console, Poll, Flushed, emptied, uncounted, timed_out, out_of_rounds, polled, flush_from, flush,
  flush_poll, flush_timeout, flush_grace, paused, flush_end,
}

-- When the poll `k` happens, behind the sleeps of those before it.
abbrev pub poll_time : (ℕ → Poll) → ℕ → ℕ → ℕ
poll_time world start zero = start
poll_time world start (suc k) = poll_time world start k + flush_poll + (world k).late

-- The polls before `k` counted something unread.
abbrev pub Unread : (ℕ → Poll) → ℕ → Type 0
Unread world k = (i : ℕ) → i < k → (n : ℕ) × ((world i).unread ≡ some (suc n))

-- When the loop ends, and why: with the first poll that did not count something unread, because it
-- found the pipe empty or could not count it, if that is before the deadline; or at the deadline,
-- late by one poll at most, where none did. `lag` bounds how much too long a sleep takes.
abbrev pub InTime : (ℕ → Poll) → ℕ → ℕ → ℕ → Flushed → Type 0
InTime world start deadline lag (emptied at) =
    (start ≤ at)
    × (at < deadline)
    × ((k : ℕ) × (at ≡ poll_time world start k) × ((world k).unread ≡ some 0) × Unread world k)
InTime world start deadline lag (uncounted at) =
    (start ≤ at)
    × (at < deadline)
    × ((k : ℕ) × (at ≡ poll_time world start k) × ((world k).unread ≡ none) × Unread world k)
InTime world start deadline lag (timed_out at) =
    (deadline ≤ at)
    × (at < deadline + flush_poll + lag)
    × ((k : ℕ) × (at ≡ poll_time world start k) × Unread world k)
InTime world start deadline lag out_of_rounds = ⊥

module _ (world : ℕ → Poll) (lag start deadline : ℕ) (late : (k : ℕ) → (world k).late ≤ lag) where
  poll_next :
      (k now : ℕ)
      → now ≡ poll_time world start k
      → now + flush_poll + (world k).late ≡ poll_time world start (k + 1)
  poll_next k now here =
      let next : suc k ≡ k + 1 = omega arith in
      ap (λ t. t + flush_poll + (world k).late) here ∙ ap (poll_time world start) next

  below_or_same : (i k : ℕ) → i < k + 1 → (i < k) ⊎ (i ≡ k)
  below_or_same i k i<k = elim (Bool-cases (ltb i k)) [
    | inl below ↦ inl (ltb→lt i k below)
    | inr above ↦ inr (ground arith)
  ]

  Unread-suc : (k n : ℕ) → (world k).unread ≡ some (suc n) → Unread world k → Unread world (k + 1)
  Unread-suc k n e before i i<k = elim (below_or_same i k i<k) [
    | inl earlier ↦ before i earlier
    | inr same ↦ (n, ap (λ x. (world x).unread) same ∙ e)
  ]

  polled-InTime :
      (k now : ℕ) (o : Option ℕ) (rest : Flushed)
      → (world k).unread ≡ o
      → now ≡ poll_time world start k
      → Unread world k
      → start ≤ now
      → now < deadline
      → (Unread world (k + 1) → InTime world start deadline lag rest)
      → InTime world start deadline lag (polled o now rest)
  unfolding polled
  polled-InTime k now none rest e here full a b later = (a, b, (k, here, e, full))
  polled-InTime k now (some zero) rest e here full a b later = (a, b, (k, here, e, full))
  polled-InTime k now (some (suc n)) rest e here full a b later =
      let some_left : (suc n == 0) ≡ false = ground arith in
      rw some_left (later (Unread-suc k n e full))

  -- `rounds` behind the one that is looked at reach the deadline.
  flush_from-InTime :
      (rounds k now : ℕ)
      → now ≡ poll_time world start k
      → Unread world k
      → start ≤ now
      → now < deadline + flush_poll + lag
      → deadline ≤ now + flush_poll * rounds
      → InTime world start deadline lag (flush_from (suc rounds) world k deadline now)
  unfolding flush_from
  flush_from-InTime zero k now here full a b enough =
      let over : ltb now deadline ≡ false = ground arith in
      rw over (omega arith, b, (k, here, full))
  flush_from-InTime (suc rounds) k now here full a b enough = elim (Bool-cases (ltb now deadline)) [
    | inl before ↦ rw before (
        polled-InTime k now (world k).unread
          (flush_from (suc rounds) world (k + 1) deadline (now + flush_poll + (world k).late)) refl
          here full a (ltb→lt now deadline before)
          (λ full'.
            flush_from-InTime rounds (k + 1) (now + flush_poll + (world k).late)
              (poll_next k now here) full' (omega arith)
              (omega (arith, ltb→lt now deadline before, late k)) (omega arith)))
    | inr over ↦ rw over (ground arith, ground arith, (k, here, full))
  ]

-- The rounds that Flush's loop can take.
abbrev pub flush_rounds : ℕ
flush_rounds = 201

InTime-paused :
    (world : ℕ → Poll) (start deadline lag : ℕ) (e : Flushed)
    → start ≤ deadline
    → InTime world start deadline lag e
    → (t : ℕ) × (paused e ≡ some t)
      × (start + flush_grace ≤ t)
      × (t < deadline + flush_poll + lag + flush_grace)
unfolding paused
InTime-paused world start deadline lag (emptied at) b h =
    (at + flush_grace, refl, omega arith, omega arith)
InTime-paused world start deadline lag (uncounted at) b h =
    (at + flush_grace, refl, omega arith, omega arith)
InTime-paused world start deadline lag (timed_out at) b h =
    (at + flush_grace, refl, omega arith, omega arith)
InTime-paused world start deadline lag out_of_rounds b h = absurd h

-- Where Setup made a pipe, and no sleep takes longer than it should by more than `lag`: Flush's
-- loop ends, with at most 201 rounds. It ends with the first poll that finds the pipe empty or
-- cannot count it, if there is one before the two seconds are over; otherwise it ends within one
-- poll and `lag` behind them. Flush then returns, at least a tenth of a second behind its start,
-- and within these bounds and its last pause.
pub flush-InTime :
    (c : Console) (world : ℕ → Poll) (lag now : ℕ)
    → ((k : ℕ) → (world k).late ≤ lag)
    → c.pipe_reader ≢ none
    → (e : Flushed) × (t : ℕ) × (flush c flush_rounds world now ≡ some e)
      × InTime world now (now + flush_timeout) lag e
      × (flush_end c flush_rounds world now ≡ some t)
      × (now + flush_grace ≤ t)
      × (t < now + flush_timeout + flush_poll + lag + flush_grace)
unfolding flush_end
flush-InTime c world lag now late piped = elim (Option-cases c.pipe_reader) [
  | inl missing ↦ absurd (piped missing)
  | inr (fd, there) ↦
      let e = flush_from flush_rounds world 0 (now + flush_timeout) now in
      let found : flush c flush_rounds world now ≡ some e =
        unfold flush in rw (there, flush) refl in
      let good =
        flush_from-InTime world lag now (now + flush_timeout) late 200 0 now refl
          (λ i below. absurd (omega (arith, below))) (omega arith) (omega arith) (omega arith) in
      let (t, ends, low, high) =
        InTime-paused world now (now + flush_timeout) lag e (omega arith) good in
      (e, t, found, good, rw (found, flush_end) ends, low, high)
]
