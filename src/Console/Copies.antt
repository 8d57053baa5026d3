-- ===== src/Console/Copies.antt =====
-- internal/console/console.go: what drain and Fatal offer to the two consoles.
use Prim.Native.String.{String}
use invari_os.Base.{
  ℕ, Option, none, some, List, [], ◌∷◌, ◌++◌, append-nil, append_assoc, ◌≡◌, ◌≢◌, refl, sym, ap,
  ◌∙◌,
}
use invari_os.Console.{
  Fd, original, tty, Read, Screens, Console, write_each, passed_on, drain, multi_write, fatal_print,
}

-- What a destination was offered so far, accepted or not.
pub record Log (x : Screens) : Type 0 where
  pub offered : Fd → x.State → List ℕ
  pub write-self :
      (d : Fd) (b : List ℕ) (s : x.State) → offered d (x.write d b s).1 ≡ offered d s ++ b
  pub write-other :
      (d e : Fd) (b : List ℕ) (s : x.State) → d ≢ e → offered e (x.write d b s).1 ≡ offered e s

-- Everything that is read up to the first error, which may come with bytes.
abbrev pub read_out : List Read → List ℕ
read_out [] = []
read_out (r ∷ rs) = r.bytes ++ elim r.error [ some why ↦ [] | none ↦ read_out rs ]

-- What a writer behind another one is offered.
abbrev pub if_taken : Option String → List ℕ → List ℕ
if_taken none msg = msg
if_taken (some why) msg = []

module _ (x : Screens) (l : Log x) where
  abbrev pub both : List Fd
  both = original ∷ tty ∷ []

  -- Between `s` and `t` each of the two consoles is offered `b`.
  abbrev pub Offered : List ℕ → x.State → x.State → Type 0
  Offered b s t =
      (l.offered original t ≡ l.offered original s ++ b) × (l.offered tty t ≡ l.offered tty s ++ b)

  Offered-none : (s : x.State) → Offered [] s s
  Offered-none s = (sym (append-nil (l.offered original s)), sym (append-nil (l.offered tty s)))

  Offered-trans :
      (a b : List ℕ) (s t u : x.State) → Offered a s t → Offered b t u → Offered (a ++ b) s u
  Offered-trans a b s t u (p, q) (p', q') = (
    p' ∙ ap (λ o. o ++ b) p ∙ append_assoc (l.offered original s) a b,
    q' ∙ ap (λ o. o ++ b) q ∙ append_assoc (l.offered tty s) a b,
  )

  write_each-Offered : (b : List ℕ) (s : x.State) → Offered b s (write_each x both b s)
  unfolding write_each
  write_each-Offered b s =
      let s1 = (x.write original b s).1 in
      (
        l.write-other tty original b s1 (λ e. cc) ∙ l.write-self original b s,
        l.write-self tty b s1 ∙ ap (λ t. t ++ b) (l.write-other original tty b s (λ e. cc)),
      )

  passed_on-Offered : (b : List ℕ) (s : x.State) → Offered b s (passed_on x both b s)
  unfolding passed_on
  passed_on-Offered [] s = Offered-none s
  passed_on-Offered (c ∷ b) s = write_each-Offered (c ∷ b) s

  -- Whatever the writes answer, each of the two consoles is offered all that is read from the pipe
  -- up to the first error of a read, in order, and nothing else: a dead console neither stops the
  -- reading nor costs the other one a byte.
  pub drain-Offered : (rs : List Read) (s : x.State) → Offered (read_out rs) s (drain x both rs s)
  unfolding drain
  drain-Offered [] s = Offered-none s
  drain-Offered (r ∷ rs) s = split r.error (drain-Offered rs (passed_on x both r.bytes s))
    where
      split :
          (o : Option String)
          → Offered
              (read_out rs)
              (passed_on x both r.bytes s)
              (drain x both rs (passed_on x both r.bytes s))
          → Offered (r.bytes ++ elim o [ some why ↦ [] | none ↦ read_out rs ]) s (elim o [
            | some why ↦ passed_on x both r.bytes s
            | none ↦ drain x both rs (passed_on x both r.bytes s)
          ])
      split (some why) later =
          Offered-trans r.bytes [] s (passed_on x both r.bytes s) (passed_on x both r.bytes s)
            (passed_on-Offered r.bytes s) (Offered-none (passed_on x both r.bytes s))
      split none later =
          Offered-trans r.bytes (read_out rs) s (passed_on x both r.bytes s)
            (drain x both rs (passed_on x both r.bytes s)) (passed_on-Offered r.bytes s) later

  multi_write-one :
      (fd : Fd) (b : List ℕ) (s : x.State) → (multi_write x (fd ∷ []) b s).1 ≡ (x.write fd b s).1
  unfolding multi_write
  multi_write-one fd b s = split (x.write fd b s).0
    where
      split :
          (o : Option String)
          → (let p : Option String × x.State = elim o [
            | some why ↦ (some why, (x.write fd b s).1)
            | none ↦ (none, (x.write fd b s).1)
          ] in
              p.1)
            ≡ (x.write fd b s).1
      split (some why) = refl
      split none = refl

  multi_write-both :
      (msg : List ℕ) (s : x.State)
      → (l.offered original (multi_write x both msg s).1 ≡ l.offered original s ++ msg)
        × (l.offered tty (multi_write x both msg s).1
            ≡ l.offered tty s ++ if_taken (x.write original msg s).0 msg)
  unfolding multi_write
  multi_write-both msg s = split (x.write original msg s).0
    where
      s1 : x.State
      s1 = (x.write original msg s).1

      at_tty : (multi_write x (tty ∷ []) msg s1).1 ≡ (x.write tty msg s1).1
      at_tty = multi_write-one tty msg s1

      split :
          (o : Option String)
          → (let p : Option String × x.State = elim o [
            | some why ↦ (some why, s1)
            | none ↦ multi_write x (tty ∷ []) msg s1
          ] in
              (l.offered original p.1 ≡ l.offered original s ++ msg)
              × (l.offered tty p.1 ≡ l.offered tty s ++ if_taken o msg))
      split (some why) = (
        l.write-self original msg s,
        l.write-other original tty msg s (λ e. cc) ∙ sym (append-nil (l.offered tty s)),
      )
      split none = (
        ap (l.offered original) at_tty
            ∙ l.write-other tty original msg s1 (λ e. cc)
            ∙ l.write-self original msg s,
        ap (l.offered tty) at_tty
            ∙ l.write-self tty msg s1
            ∙ ap (λ t. t ++ msg) (l.write-other original tty msg s (λ e. cc)),
      )

  -- On a node with both consoles, Fatal offers its message to the old console, and to /dev/tty0
  -- exactly if the old one takes it: io.MultiWriter stops at the first error, so a dead serial
  -- line keeps the reason off the other console too.
  pub fatal_print-offered :
      (c : Console) (msg : List ℕ) (s : x.State)
      → c.real_consoles ≡ both
      → (l.offered original (fatal_print x c msg s) ≡ l.offered original s ++ msg)
        × (l.offered tty (fatal_print x c msg s)
            ≡ l.offered tty s ++ if_taken (x.write original msg s).0 msg)
  unfolding fatal_print
  fatal_print-offered c msg s e = rw (e, fatal_print) (multi_write-both msg s)
