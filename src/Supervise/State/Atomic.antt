-- ===== src/Supervise/State/Atomic.antt =====
-- internal/supervise/state.go: the decision on the disk while PersistMode runs and behind it, and
-- what a loss of power, which no fsync(2) comes before, leaves of it.
use Prim.Native.String.{String}
use text.Mathlib.Text.{◌==◌ as str_eq}
use invari_os.Base.{
  ℕ, Bool, true, false, Option, some, List, [], ◌∷◌, Result, ok, err, Result-cases, ◌++◌,
  append-nil, ◌≡◌, refl, sym, ap, ◌∙◌, ◌⊎◌, inl, inr,
}
use invari_os.Supervise.State.{
  File, content, Files, put, bootstrap_state_file, tmp_file, Json, Error, parsing, Op, write_file,
  rename, Reply, done, failed, exec, run_ops, persist_ops, persist_mode, persisted_mode,
}

tmp_is_other : str_eq bootstrap_state_file tmp_file ≡ false
tmp_is_other = refl

-- What of a completed write is in the file behind a stop: all of it where only the program stops,
-- and a beginning where the machine does, since nothing calls fsync(2) and XFS moves the end of a
-- file behind what it wrote out.
abbrev pub Reached : Bool → List ℕ → List ℕ → Type 0
Reached false p b = p ≡ b
Reached true p b = (cut : List ℕ) × (b ≡ p ++ cut)

-- The disks at which a sequence of operations may be cut off: by a loss of power if `power`, and
-- otherwise by an end of the program. A write that is under way leaves anything at its path;
-- rename(2) is atomic, and may be on the disk before what was written.
abbrev pub CutOff : Bool → List Op → Files → Files → Type 0
CutOff power [] fs now = now ≡ fs
CutOff power (write_file path b ∷ ops) fs now =
    (now ≡ fs)
    ⊎ (((left : File) × (now ≡ put path left fs))
        ⊎ ((p : List ℕ) × Reached power p b × CutOff power ops (exec (write_file path p) fs) now))
CutOff power (rename from to ∷ ops) fs now =
    (now ≡ fs) ⊎ CutOff power ops (exec (rename from to) fs) now

Reply-cases : (r : Reply) → (r ≡ done) ⊎ ((why : String) × (left : File) × (r ≡ failed why left))
Reply-cases done = inl refl
Reply-cases (failed why left) = inr (why, left, refl)

module _ (j : Json) where
  -- What the next boot reads: the decision of before, or the new one.
  abbrev pub OldOrNew : String → Files → Files → Type 0
  OldOrNew mode fs now =
      (persisted_mode j now ≡ persisted_mode j fs) ⊎ (persisted_mode j now ≡ ok (some mode))

  -- The same where the program is cut off; where the power is, PersistedMode may also find a file
  -- that it cannot parse.
  abbrev pub Survived : Bool → String → Files → Files → Type 0
  Survived false mode fs now = OldOrNew mode fs now
  Survived true mode fs now =
      OldOrNew mode fs now ⊎ ((why : String) × (persisted_mode j now ≡ err (parsing why)))

  -- A file of which a beginning is on the disk.
  Reached-parse :
      (mode : String) (p cut : List ℕ)
      → j.marshal mode ≡ ok (p ++ cut)
      → (j.unmarshal p ≡ ok mode) ⊎ ((why : String) × (j.unmarshal p ≡ err why))
  Reached-parse mode p [] m = inl (j.unmarshal-marshal mode p (m ∙ ap ok (append-nil p)))
  Reached-parse mode p (x ∷ xs) m = inr (j.unmarshal-cut mode p (x ∷ xs) m (λ e. absurd (cc e)))

  Survived-old :
      (power : Bool) (mode : String) (fs now : Files)
      → persisted_mode j now ≡ persisted_mode j fs
      → Survived power mode fs now
  Survived-old false mode fs now e = inl e
  Survived-old true mode fs now e = inl (inl e)

  Survived-renamed :
      (power : Bool) (mode : String) (p b : List ℕ) (fs now : Files)
      → j.marshal mode ≡ ok b
      → Reached power p b
      → now bootstrap_state_file ≡ content p
      → Survived power mode fs now
  unfolding persisted_mode
  Survived-renamed false mode p b fs now m r e =
      inr (rw e (rw (j.unmarshal-marshal mode p (m ∙ ap ok (sym r)))))
  Survived-renamed true mode p b fs now m (cut, r) e =
      elim (Reached-parse mode p cut (m ∙ ap ok r)) [
        | inl whole ↦ inl (inr (rw e (rw whole)))
        | inr (why, torn) ↦ inr (why, rw e (rw torn))
      ]

  -- Cut PersistMode off anywhere, also in the middle of a write that leaves anything in the temporary
  -- file, for a mode that can be marshaled. If only the program ends there, PersistedMode then returns what it returned before, or the new mode. If the power is
  -- lost, of the temporary file only a beginning need be there, whether it is renamed or not:
  -- PersistedMode then returns one of these two, or the error that it cannot parse the file, and
  -- never another mode.
  pub CutOff-persist_ops :
      (power : Bool) (mode : String) (b : List ℕ) (fs now : Files)
      → j.marshal mode ≡ ok b
      → CutOff power (persist_ops b) fs now
      → Survived power mode fs now
  unfolding persist_ops persisted_mode exec
  CutOff-persist_ops power mode b fs now m (inl e) = Survived-old power mode fs now (rw e)
  CutOff-persist_ops power mode b fs now m (inr (inl (left, e))) =
      Survived-old power mode fs now (rw e)
  CutOff-persist_ops power mode b fs now m (inr (inr (p, r, inl e))) =
      Survived-old power mode fs now (rw e)
  CutOff-persist_ops power mode b fs now m (inr (inr (p, r, inr e))) =
      Survived-renamed power mode p b fs now m r (rw e)

  -- What PersistMode returns tells which decision is on disk.
  abbrev pub decision : Result Error (Unit {0}) → String → Files → Result Error (Option String)
  decision (ok _) mode fs = ok (some mode)
  decision (err _) mode fs = persisted_mode j fs

  run_ops-decision :
      (mode : String) (b : List ℕ) (reply : Op → Reply) (fs : Files)
      → j.marshal mode ≡ ok b
      → let r = run_ops (persist_ops b) reply fs in persisted_mode j r.1 ≡ decision r.0 mode fs
  unfolding persist_ops persisted_mode run_ops exec
  run_ops-decision mode b reply fs m = elim (Reply-cases (reply (write_file tmp_file b))) [
    | inr (why, left, e) ↦ rw e
    | inl e ↦ elim (Reply-cases (reply (rename tmp_file bootstrap_state_file))) [
      | inr (why, left, e') ↦ rw (e, e')
      | inl e' ↦ rw (e, e') (rw (j.unmarshal-marshal mode b m))
    ]
  ]

  -- Whatever the system calls answer: if PersistMode returns no error, PersistedMode then returns
  -- the new mode; if it returns an error, PersistedMode returns what it returned before.
  pub persist_mode-decision :
      (mode : String) (reply : Op → Reply) (fs : Files)
      → let r = persist_mode j mode reply fs in persisted_mode j r.1 ≡ decision r.0 mode fs
  unfolding persist_mode
  persist_mode-decision mode reply fs = elim (Result-cases (j.marshal mode)) [
    | inl (b, e) ↦ rw (e, persist_mode) (run_ops-decision mode b reply fs e)
    | inr (why, e) ↦ rw (e, persist_mode)
  ]
