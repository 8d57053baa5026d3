-- ===== src/Console.antt =====
-- internal/console/console.go: Setup, drain, Flush and Fatal.
pub mod Descriptors
pub mod Copies
pub mod Drained
use Prim.Native.String.{String}
use invari_os.Base.{
  ℕ, zero, suc, ◌+◌, Bool, true, false, Option, none, some, List, [], ◌∷◌, ◌++◌, Result, ok, err,
  ltb, ◌==◌, if◌then◌else◌,
}

-- The file descriptors that Setup makes: the old standard output, /dev/tty0, and the pipe's ends.
pub data Fd : Type 0 where
  original : Fd
  tty : Fd
  read_end : Fd
  write_end : Fd

-- What Setup does to the process's descriptors. `copied_stdout` is a dup2 of the pipe onto fd 1.
pub data Action : Type 0 where
  opened : Fd → Action
  closed : Fd → Action
  copied_stdout : Action
  copied_stderr : Action
  draining : Action

-- What the calls answer, `none` for no error: Stat of /dev/tty0, Dup, OpenFile, Pipe and the two
-- Dup2.
pub record Replies : Type 0 where
  pub stat : Option String
  pub dup : Option String
  pub open_tty : Option String
  pub pipe : Option String
  pub dup2_stdout : Option String
  pub dup2_stderr : Option String

-- The package's variables: realConsoles and pipeReader.
pub record Console : Type 0 where
  pub real_consoles : List Fd
  pub pipe_reader : Option Fd

unfoldable pub unset : Console
unset = record { real_consoles = []; pipe_reader = none }

unfoldable pub stderr_copied : Option String → List Action
stderr_copied none = copied_stderr ∷ []
stderr_copied (some why) = []

unfoldable pub published : Replies → Console × List Action
unfolding stderr_copied
published r = (
  record { real_consoles = original ∷ tty ∷ []; pipe_reader = some read_end },
  copied_stdout ∷ (stderr_copied r.dup2_stderr ++ (closed write_end ∷ draining ∷ [])),
)

unfoldable pub with_pipe : Replies → Console × List Action
unfolding published unset
with_pipe r = elim r.dup2_stdout [
  | some why ↦ (unset, closed original ∷ closed tty ∷ closed read_end ∷ closed write_end ∷ [])
  | none ↦ published r
]

-- More actions in front.
abbrev pub behind : List Action → Console × List Action → Console × List Action
behind as' (c, bs) = (c, as' ++ bs)

unfoldable pub with_tty : Replies → Console × List Action
unfolding with_pipe unset
with_tty r = elim r.pipe [
  | some why ↦ (unset, closed original ∷ closed tty ∷ [])
  | none ↦ behind (opened read_end ∷ opened write_end ∷ []) (with_pipe r)
]

unfoldable pub with_original : Replies → Console × List Action
unfolding with_tty unset
with_original r = elim r.open_tty [
  | some why ↦ (unset, closed original ∷ [])
  | none ↦ behind (opened tty ∷ []) (with_tty r)
]

unfoldable pub with_screen : Replies → Console × List Action
unfolding with_original unset
with_screen r = elim r.dup [
  | some why ↦ (unset, [])
  | none ↦ behind (opened original ∷ []) (with_original r)
]

unfoldable pub setup : Replies → Console × List Action
unfolding with_screen unset
setup r = elim r.stat [ some why ↦ (unset, []) | none ↦ with_screen r ]

-- The two consoles as they take writes, which may fail.
pub record Screens : Type 1 where
  pub State : Type 0
  pub write : Fd → List ℕ → State → Option String × State

-- What a read of the pipe brings, and the error that comes with it.
pub record Read : Type 0 where
  pub bytes : List ℕ
  pub error : Option String

module _ (x : Screens) where
  -- One piece to each destination; errors are dropped.
  unfoldable pub write_each : List Fd → List ℕ → x.State → x.State
  write_each [] b s = s
  write_each (dst ∷ dsts) b s = write_each dsts b (x.write dst b s).1

  unfoldable pub passed_on : List Fd → List ℕ → x.State → x.State
  unfolding write_each
  passed_on dsts [] s = s
  passed_on dsts (c ∷ b) s = write_each dsts (c ∷ b) s

  -- The reads that there are, up to the first with an error.
  unfoldable pub drain : List Fd → List Read → x.State → x.State
  unfolding passed_on
  drain dsts [] s = s
  drain dsts (r ∷ rs) s =
      let t = passed_on dsts r.bytes s in elim r.error [ some why ↦ t | none ↦ drain dsts rs t ]

  -- io.MultiWriter: the first error ends the write.
  unfoldable pub multi_write : List Fd → List ℕ → x.State → Option String × x.State
  multi_write [] b s = (none, s)
  multi_write (dst ∷ dsts) b s =
      let rest = multi_write dsts b (x.write dst b s).1 in
      elim (x.write dst b s).0 [ some why ↦ (some why, (x.write dst b s).1) | none ↦ rest ]

  -- The print in front of Fatal's endless sleep. Without a published console it goes to standard
  -- output, which is then the kernel's own console, `original` here.
  unfoldable pub fatal_print : Console → List ℕ → x.State → x.State
  unfolding multi_write
  fatal_print c msg s = elim c.real_consoles [
    | [] ↦ (x.write original msg s).1
    | fd ∷ fds ↦ (multi_write (fd ∷ fds) msg s).1
  ]

-- Milliseconds.
abbrev pub flush_timeout : ℕ
flush_timeout = 2000

abbrev pub flush_grace : ℕ
flush_grace = 100

abbrev pub flush_poll : ℕ
flush_poll = 10

-- One round of Flush's loop: what TIOCINQ answers (none for an error), and by how much the sleep
-- takes longer than it should.
pub record Poll : Type 0 where
  pub unread : Option ℕ
  pub late : ℕ

-- How the loop ends, and when: the pipe was read out, the count could not be had, or the time was
-- up. `out_of_rounds` is no result of the program.
pub data Flushed : Type 0 where
  emptied : ℕ → Flushed
  uncounted : ℕ → Flushed
  timed_out : ℕ → Flushed
  out_of_rounds : Flushed

unfoldable pub polled : Option ℕ → ℕ → Flushed → Flushed
polled none now rest = uncounted now
polled (some n) now rest = if n == 0 then emptied now else rest

unfoldable pub flush_from : ℕ → (ℕ → Poll) → ℕ → ℕ → ℕ → Flushed
unfolding polled
flush_from zero world k deadline now = out_of_rounds
flush_from (suc rounds) world k deadline now =
    let rest = flush_from rounds world (k + 1) deadline (now + flush_poll + (world k).late) in
    if ltb now deadline then polled (world k).unread now rest else timed_out now

-- Flush up to its last pause, from the time `now` on; `none` where Setup made no pipe.
unfoldable pub flush : Console → ℕ → (ℕ → Poll) → ℕ → Option Flushed
unfolding flush_from
flush c rounds world now = elim c.pipe_reader [
  | none ↦ none
  | some r ↦ some (flush_from rounds world 0 (now + flush_timeout) now)
]

-- When Flush returns, behind its last pause; `none` where the rounds ran out.
unfoldable pub paused : Flushed → Option ℕ
paused (emptied now) = some (now + flush_grace)
paused (uncounted now) = some (now + flush_grace)
paused (timed_out now) = some (now + flush_grace)
paused out_of_rounds = none

unfoldable pub flush_end : Console → ℕ → (ℕ → Poll) → ℕ → Option ℕ
unfolding paused flush
flush_end c rounds world now = elim (flush c rounds world now) [
  | none ↦ some (now + flush_grace)
  | some e ↦ paused e
]
