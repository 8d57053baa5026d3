-- ===== src/Console/Descriptors.antt =====
-- internal/console/console.go: the descriptors behind Setup.
use Prim.Native.String.{String}
use invari_os.Base.{Bool, true, false, Option, none, some, List, [], ◌∷◌, ◌≡◌, ◌⊎◌, inl, inr, refl}
use invari_os.Console.{
  Fd, original, tty, read_end, write_end, Action, opened, closed, copied_stdout, copied_stderr,
  draining, Replies, Console, setup, unset,
}

abbrev same_fd : Fd → Fd → Bool
same_fd original original = true
same_fd tty tty = true
same_fd read_end read_end = true
same_fd write_end write_end = true
same_fd _ _ = false

-- The descriptors that are open after some actions, the last opened first.
abbrev without : Fd → List Fd → List Fd
without fd [] = []
without fd (g ∷ gs) = elim (same_fd fd g) [ true ↦ gs | false ↦ g ∷ without fd gs ]

abbrev pub still_open : List Fd → List Action → List Fd
still_open fds [] = fds
still_open fds (opened fd ∷ as') = still_open (fd ∷ fds) as'
still_open fds (closed fd ∷ as') = still_open (without fd fds) as'
still_open fds (copied_stdout ∷ as') = still_open fds as'
still_open fds (copied_stderr ∷ as') = still_open fds as'
still_open fds (draining ∷ as') = still_open fds as'

abbrev pub redirects : List Action → Bool
redirects [] = false
redirects (copied_stdout ∷ as') = true
redirects (copied_stderr ∷ as') = redirects as'
redirects (opened fd ∷ as') = redirects as'
redirects (closed fd ∷ as') = redirects as'
redirects (draining ∷ as') = redirects as'

abbrev pub drains : List Action → Bool
drains [] = false
drains (draining ∷ as') = true
drains (copied_stdout ∷ as') = drains as'
drains (copied_stderr ∷ as') = drains as'
drains (opened fd ∷ as') = drains as'
drains (closed fd ∷ as') = drains as'

-- Either nothing is published, nothing stays open, and standard output is what it was, or both
-- consoles and the pipe's read end are published and are exactly what stays open, standard output
-- goes to the pipe and the pipe is drained.
abbrev pub Settled : Console × List Action → Type 0
Settled (c, as') =
    ((c ≡ unset) × (still_open [] as' ≡ []) × (redirects as' ≡ false) × (drains as' ≡ false))
    ⊎ ((c.real_consoles ≡ original ∷ tty ∷ [])
        × (c.pipe_reader ≡ some read_end)
        × (still_open [] as' ≡ read_end ∷ tty ∷ original ∷ [])
        × (redirects as' ≡ true)
        × (drains as' ≡ true))

abbrev replies :
    Option String
    → Option String
    → Option String
    → Option String
    → Option String
    → Option String
    → Replies
replies a b c d e f = record {
  stat = a;
  dup = b;
  open_tty = c;
  pipe = d;
  dup2_stdout = e;
  dup2_stderr = f;
}

settled : (a b c d e f : Option String) → Settled (setup (replies a b c d e f))
unfolding setup
settled (some why) b c d e f = inl (refl, refl, refl, refl)
settled none (some why) c d e f = inl (refl, refl, refl, refl)
settled none none (some why) d e f = inl (refl, refl, refl, refl)
settled none none none (some why) e f = inl (refl, refl, refl, refl)
settled none none none none (some why) f = inl (refl, refl, refl, refl)
settled none none none none none none = inr (refl, refl, refl, refl, refl)
settled none none none none none (some why) = inr (refl, refl, refl, refl, refl)

-- Whatever fails in Setup, it ends in one of two ways. Either it publishes no console, closes every
-- descriptor that it opened, leaves standard output alone and starts no drain; or it publishes both
-- consoles and the pipe's read end, leaves exactly these open, points standard output at the pipe
-- and starts the drain. So standard output is never a pipe that nobody reads.
pub setup-Settled : (r : Replies) → Settled (setup r)
setup-Settled r = settled r.stat r.dup r.open_tty r.pipe r.dup2_stdout r.dup2_stderr
