-- ===== src/Initramfs/Writes.antt =====
-- internal/initramfs/cpio.go: what each write of the archive appends.
use Prim.Native.String.{String}
use mathlib.Core.Path.{subst}
use invari_os.Base.{
  ℕ, ◌+◌, ◌%◌, ◌^◌, ◌<◌, Bool-cases, inl, inr, ltb, ◌==◌, ==_iff, Option, none, some, List, [], ◌∷◌,
  ◌++◌, append_assoc, append-nil, Result, ok, err, >>=-eq-ok, if◌then◌else◌, length, replicate, ◌≡◌,
  refl, sym, ap, ◌∙◌, arith,
}
use invari_os.Initramfs.{
  Sink, Error, size_changed, writing, writing_data, Header, Opened, target, file, fixed_part, pad,
  written, emit, write_padding, write_header, copied, write_payload,
}
use invari_os.Initramfs.Reader.{length-fixed_part}

-- A write that succeeds appends.
pub record SinkLaws (w : Sink) : Type 0 where
  pub content-write :
      (b : List ℕ) (s t : w.State) → w.write b s ≡ (none, t) → w.content t ≡ w.content s ++ b

module _ (w : Sink) (laws : SinkLaws w) where
  abbrev pub Appends : (b : List ℕ) (s t : w.State) → Type 0
  Appends b s t = w.content t ≡ w.content s ++ b

  pub emit-Appends :
      (f : String → Error) (b : List ℕ) (s t : w.State) → emit w f b s ≡ (ok tt, t) → Appends b s t
  unfolding emit
  emit-Appends f b s t h = split (w.write b s) refl h
    where
      split :
          (p : Option String × w.State)
          → w.write b s ≡ p
          → written w f p ≡ (ok tt, t)
          → w.content t ≡ w.content s ++ b
      split (none, u) e k = laws.content-write b s t (e ∙ cc)
      split (some why, u) e k = absurd (cc)

  pub Appends-trans :
      (a b : List ℕ) (s t u : w.State) → Appends a s t → Appends b t u → Appends (a ++ b) s u
  Appends-trans a b s t u h k = k ∙ ap (λ x. x ++ b) h ∙ append_assoc (w.content s) a b

  pub Appends-nil : (s t : w.State) → s ≡ t → Appends [] s t
  Appends-nil s t e = ap w.content (sym e) ∙ sym (append-nil (w.content s))

  pub padding-Appends :
      (n : ℕ) (s t : w.State) → write_padding w n s ≡ (ok tt, t) → Appends (replicate (pad n) 0) s t
  unfolding write_padding
  padding-Appends n s t h = elim (Bool-cases (ltb 0 (pad n))) [
    | inl some_ ↦ emit-Appends writing (replicate (pad n) 0) s t (ground arith)
    | inr none_ ↦
        let empty : pad n ≡ 0 = ground arith in
        subst (λ k. Appends (replicate k 0) s t) (sym empty) (Appends-nil s t (ground arith))
  ]

  pub header-Appends :
      (h : Header) (name : List ℕ) (s t : w.State)
      → 110 + h.name_size < 2 ^ 32
      → write_header w h name s ≡ (ok tt, t)
      → Appends (fixed_part h ++ ((name ++ (0 ∷ [])) ++ replicate (pad (110 + h.name_size)) 0)) s t
  unfolding write_header
  header-Appends h name s t small e =
      let (_, s1, first, e1) = >>=-eq-ok (emit w writing (fixed_part h)) _ s e in
      let (_, s2, second, third) = >>=-eq-ok (emit w writing (name ++ (0 ∷ []))) _ s1 e1 in
      let size : (length (fixed_part h) + h.name_size) % 2 ^ 32 ≡ 110 + h.name_size =
        omega (arith, length-fixed_part h) in
      let last =
        padding-Appends (110 + h.name_size) s2 t
          (subst (λ n. write_padding w n s2 ≡ (ok tt, t)) size third) in
      Appends-trans (fixed_part h) _ s s1 t (emit-Appends writing (fixed_part h) s s1 first) (
        Appends-trans (name ++ (0 ∷ [])) (replicate (pad (110 + h.name_size)) 0) s1 s2 t
          (emit-Appends writing (name ++ (0 ∷ [])) s1 s2 second) last)

  copied-ok :
      (size : ℕ) (f : Opened) (s t : w.State)
      → copied w size f s ≡ (ok tt, t)
      → (s ≡ t) × (length f.bytes % 2 ^ 32 ≡ size)
  unfolding copied
  copied-ok size f s t h = split f.read_error h
    where
      split :
          (o : Option String)
          → ◌≡◌ {A = Result Error (Unit {0}) × w.State}
              (elim o [
                | some why ↦ (err (writing_data why), s)
                | none ↦
                    if length f.bytes % 2 ^ 32 == size
                    then (ok tt, s)
                    else (err (size_changed size (length f.bytes)), s)
              ])
              (ok tt, t)
          → (s ≡ t) × (length f.bytes % 2 ^ 32 ≡ size)
      split (some why) k = absurd (cc (ap (λ x. x.0) k))
      split none k = elim (Bool-cases (length f.bytes % 2 ^ 32 == size)) [
        | inl same ↦ (ground arith, (==_iff (length f.bytes % 2 ^ 32) size).0 same)
        | inr other ↦ absurd (ground arith)
      ]

  pub file-Appends :
      (size : ℕ) (bytes : List ℕ) (o : Option String) (s t : w.State)
      → write_payload w size (file (record { bytes = bytes; read_error = o })) s ≡ (ok tt, t)
      → Appends bytes s t × (length bytes % 2 ^ 32 ≡ size)
  unfolding write_payload
  file-Appends size [] o s t h =
      let (same, count) = copied-ok size (record { bytes = []; read_error = o }) s t h in
      (Appends-nil s t same, count)
  file-Appends size (x ∷ bytes) o s t h =
      let f : Opened = record { bytes = x ∷ bytes; read_error = o } in
      let (_, s1, first, second) =
        >>=-eq-ok (emit w writing_data (x ∷ bytes)) (λ _. copied w size f) s h in
      let (same, count) = copied-ok size f s1 t second in
      (subst (Appends (x ∷ bytes) s) same (emit-Appends writing_data (x ∷ bytes) s s1 first), count)

  pub target-Appends :
      (size : ℕ) (bytes : List ℕ) (s t : w.State)
      → write_payload w size (target bytes) s ≡ (ok tt, t)
      → Appends bytes s t
  unfolding write_payload
  target-Appends size [] s t h = Appends-nil s t (ground arith)
  target-Appends size (x ∷ bytes) s t h = emit-Appends writing_data (x ∷ bytes) s t h
