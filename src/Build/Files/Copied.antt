-- ===== src/Build/Files/Copied.antt =====
-- cmd/build.go: the files behind a copyFile that reports no error.
use Prim.Native.String.{String}
use invari_os.Base.{
  ℕ, Option, none, some, List, [], ◌++◌, Result, ok, err, >>=-eq-ok, ok_injective, ◌≡◌, ◌≢◌, refl,
  sym, ap, ◌∙◌,
}
use invari_os.Base.Text.{Text, under, dir_of}
use invari_os.Build.Machine.{Host, Error, checked, lifted}
use invari_os.Build.Files.{copy_error, closed, copied, copy_file, dir_mode}

-- The regular files that there are, by path, with their content. No two paths that are in use name
-- one file.
pub record FileLaws (h : Host) : Type 0 where
  pub file : h.State → Text → Option (List ℕ)
  pub open_file-file :
      (s : h.State) (p : Text) (b : List ℕ) → h.open_file s p ≡ ok (b, none) → file s p ≡ some b
  pub mkdir_all-file :
      (d q : Text) (mode : ℕ) (s : h.State) → file (h.mkdir_all d mode s).1 q ≡ file s q
  pub create-self :
      (p : Text) (mode : ℕ) (s t : h.State) → h.create p mode s ≡ (none, t) → file t p ≡ some []
  pub create-other :
      (p q : Text) (mode : ℕ) (s t : h.State)
      → h.create p mode s ≡ (none, t)
      → q ≢ p
      → file t q ≡ file s q
  pub write-self :
      (p : Text) (b c : List ℕ) (s t : h.State)
      → h.write p b s ≡ (none, t)
      → file s p ≡ some c
      → file t p ≡ some (c ++ b)
  pub write-other :
      (p q : Text) (b : List ℕ) (s t : h.State)
      → h.write p b s ≡ (none, t)
      → q ≢ p
      → file t q ≡ file s q
  pub close-file : (p q : Text) (s : h.State) → file (h.close p s).1 q ≡ file s q
  pub write_file-self :
      (p : Text) (b : List ℕ) (mode : ℕ) (s t : h.State)
      → h.write_file p b mode s ≡ (none, t)
      → file t p ≡ some b
  pub write_file-other :
      (p q : Text) (b : List ℕ) (mode : ℕ) (s t : h.State)
      → h.write_file p b mode s ≡ (none, t)
      → q ≢ p
      → file t q ≡ file s q
  pub remove_all-under :
      (d q : Text) (s t : h.State) → h.remove_all d s ≡ (none, t) → file t (under d q) ≡ none
  pub remove_all-outside :
      (d q : Text) (s t : h.State)
      → h.remove_all d s ≡ (none, t)
      → q ≢ d
      → ((r : Text) → q ≢ under d r)
      → file t q ≡ file s q

module _ (h : Host) (laws : FileLaws h) where
  open laws use {file}

  pub checked-ok :
      (p : Option String × h.State) (t : h.State) → checked h p ≡ (ok tt, t) → p ≡ (none, t)
  checked-ok (none, u) t e = cc
  checked-ok (some why, u) t e = absurd (cc (ap (λ p. p.0) e))

  closed-ok : (q : Option String × h.State) (t : h.State) → closed h none q ≡ (ok tt, t) → t ≡ q.1
  unfolding closed
  closed-ok (none, w) t e = sym (ap (λ p. p.1) e)
  closed-ok (some why, w) t e = absurd (cc (ap (λ p. p.0) e))

  copied-ok :
      (dst : Text) (stop : Option String) (p : Option String × h.State) (t : h.State)
      → copied h dst stop p ≡ (ok tt, t)
      → (u : h.State) × (stop ≡ none) × (p ≡ (none, u)) × (t ≡ (h.close dst u).1)
  unfolding copied copy_error closed
  copied-ok dst stop (some why, u) t e = absurd (cc (ap (λ p. p.0) e))
  copied-ok dst (some why) (none, u) t e = absurd (cc (ap (λ p. p.0) e))
  copied-ok dst none (none, u) t e = (u, refl, refl, closed-ok (h.close dst u) t e)

  lifted-ok : {A : Type 0} (r : Result String A) {b : A} → lifted h r ≡ ok b → r ≡ ok b
  lifted-ok (ok c) e = ap ok (ok_injective Error e)
  lifted-ok (err why) e = absurd (cc)

  -- The destination holds what the source held, and no other file is changed.
  pub record Copied (src dst : Text) (s t : h.State) : Type 0 where
    pub content : List ℕ
    pub source : file s src ≡ some content
    pub destination : file t dst ≡ some content
    pub others : (q : Text) → q ≢ dst → file t q ≡ file s q

  pub copy_file-Copied :
      (src dst : Text) (mode : ℕ) (s t : h.State)
      → copy_file h src dst mode s ≡ (ok tt, t)
      → Copied src dst s t
  unfolding copy_file
  copy_file-Copied src dst mode s t e =
      let ((b, stop), s1, opened, k1) = >>=-eq-ok (λ u. (lifted h (h.open_file u src), u)) _ s e in
      let (_, s2, made, k2) =
        >>=-eq-ok (λ u. checked h (h.mkdir_all (dir_of dst) dir_mode u)) _ s1 k1 in
      let (_, s3, created, k3) = >>=-eq-ok (λ u. checked h (h.create dst mode u)) _ s2 k2 in
      let (s4, whole, wrote, ends) = copied-ok dst stop (h.write dst b s3) t k3 in
      let read : h.open_file s src ≡ ok (b, none) =
        lifted-ok (h.open_file s src) (ap (λ p. p.0) opened) ∙ ap (λ o. ok (b, o)) whole in
      let made_ok = checked-ok (h.mkdir_all (dir_of dst) dir_mode s1) s2 made in
      let created_ok = checked-ok (h.create dst mode s2) s3 created in
      record {
        content = b;
        source = laws.open_file-file s src b read;
        destination =
            ap (λ u. file u dst) ends
            ∙ laws.close-file dst dst s4
            ∙ laws.write-self dst b [] s3 s4 wrote (laws.create-self dst mode s2 s3 created_ok);
        others = λ q differs.
            ap (λ u. file u q) ends
            ∙ laws.close-file dst q s4
            ∙ laws.write-other dst q b s3 s4 wrote differs
            ∙ laws.create-other dst q mode s2 s3 created_ok differs
            ∙ ap (λ p. file p.1 q) (sym made_ok)
            ∙ laws.mkdir_all-file (dir_of dst) q dir_mode s1
            ∙ ap (λ p. file p.1 q) (sym opened);
      }
