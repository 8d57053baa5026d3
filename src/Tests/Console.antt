-- ===== src/Tests/Console.antt =====
-- internal/console: two consoles of which the serial one is dead.
use Prim.Native.String.{String}
use invari_os.Base.{
  ℕ, zero, suc, ◌+◌, Option, none, some, List, [], ◌∷◌, ◌++◌, ◌≤◌, ◌<◌, ◌≡◌, ◌≢◌, refl, arith,
}
use invari_os.Base.Text.{codes}
use invari_os.Console.{
  Fd, original, tty, read_end, write_end, Replies, Console, Read, Screens, Poll, Flushed, setup,
  drain, fatal_print, flush, flush_timeout, flush_end, flush_grace, flush_poll,
}
use invari_os.Console.Descriptors.{Settled, setup-Settled}
use invari_os.Console.Copies.{
  Log, both, Offered, read_out, if_taken, drain-Offered, fatal_print-offered,
}
use invari_os.Console.Drained.{InTime, flush_rounds, flush-InTime}

abbrev no_pipe : Replies
no_pipe = record {
  stat = none;
  dup = none;
  open_tty = none;
  pipe = some "too many open files";
  dup2_stdout = none;
  dup2_stderr = none;
}

setup-Settled_example : Settled (setup no_pipe)
setup-Settled_example = setup-Settled no_pipe

-- What each destination was offered; the others take nothing.
record Offers : Type 0 where
  serial : List ℕ
  screen : List ℕ
  reader : List ℕ
  writer : List ℕ

abbrev offer : Fd → List ℕ → Offers → Option String × Offers
offer original b s = (some "input/output error", record s { serial = s.serial ++ b })
offer tty b s = (none, record s { screen = s.screen ++ b })
offer read_end b s = (none, record s { reader = s.reader ++ b })
offer write_end b s = (none, record s { writer = s.writer ++ b })

abbrev screens : Screens
screens = record { State = Offers; write = offer }

abbrev seen : Fd → Offers → List ℕ
seen original s = s.serial
seen tty s = s.screen
seen read_end s = s.reader
seen write_end s = s.writer

seen_self : (d : Fd) (b : List ℕ) (s : Offers) → seen d (offer d b s).1 ≡ seen d s ++ b
seen_self original b s = refl
seen_self tty b s = refl
seen_self read_end b s = refl
seen_self write_end b s = refl

seen-other : (d e : Fd) (b : List ℕ) (s : Offers) → d ≢ e → seen e (offer d b s).1 ≡ seen e s
seen-other d e b s differs = ground arith

abbrev log : Log screens
log = record { offered = seen; write-self = seen_self; write-other = seen-other }

abbrev quiet : Offers
quiet = record { serial = []; screen = []; reader = []; writer = [] }

abbrev reads : List Read
reads =
    record { bytes = 104 ∷ 105 ∷ []; error = none }
    ∷ record { bytes = []; error = none }
    ∷ record { bytes = 33 ∷ []; error = some "EOF" }
    ∷ []

drain-Offered_example :
    Offered screens log (read_out reads) quiet (drain screens (both screens log) reads quiet)
drain-Offered_example = drain-Offered screens log reads quiet

abbrev two : Console
two = record { real_consoles = both screens log; pipe_reader = some read_end }

fatal_print-offered_example :
    (seen original (fatal_print screens two (codes "lost") quiet) ≡ [] ++ codes "lost")
    × (seen tty (fatal_print screens two (codes "lost") quiet)
        ≡ [] ++ if_taken (offer original (codes "lost") quiet).0 (codes "lost"))
fatal_print-offered_example = fatal_print-offered screens log two (codes "lost") quiet refl

-- A pipe that empties at the third poll.
abbrev left : ℕ → Option ℕ
left zero = some 4096
left (suc zero) = some 100
left (suc (suc k)) = some 0

abbrev polls : ℕ → Poll
polls k = record { unread = left k; late = 3 }

flush-InTime_example :
    (e : Flushed) × (t : ℕ) × (flush two flush_rounds polls 1000 ≡ some e)
    × InTime polls 1000 (1000 + flush_timeout) 3 e
    × (flush_end two flush_rounds polls 1000 ≡ some t)
    × (1000 + flush_grace ≤ t)
    × (t < 1000 + flush_timeout + flush_poll + 3 + flush_grace)
flush-InTime_example = flush-InTime two polls 3 1000 (λ k. omega arith) (λ e. cc)
