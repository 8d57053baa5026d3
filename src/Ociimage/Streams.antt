-- ===== src/Ociimage/Streams.antt =====
-- internal/ociimage/ociimage.go: the race of Extract's two goroutines.
use Prim.Native.String.{String}
use invari_os.Base.{
  Option, none, some, Result, ok, err, >>=-eq-ok, ◌≡◌, ◌↔◌, refl, sym, ap, ◌∙◌, arith,
}
use invari_os.Base.Text.{Text}
use invari_os.Ociimage.{
  Registry, Race, Error, joined, stream_to, extract, pull_image, pull_and_extract, checked, wrapped,
  creating_dir, pulling,
}

module _ {S : Type 0} (r : Registry S) (ref arch dir : Text) where
  -- The image was pulled, the directory was made, Export wrote the whole image, and Untar unpacked
  -- all of it, in `t`.
  pub record Unpacked (s t : S) : Type 0 where
    pub image : r.Image
    pub s1 : S
    pub s2 : S
    pub pulled : r.pull ref arch s ≡ (ok image, s1)
    pub made : r.mkdir_all dir s1 ≡ (none, s2)
    pub exported : (r.stream image).1 ≡ none
    pub untarred : r.untar (r.stream image).0 none dir s2 ≡ (none, t)

  joined-ok :
      (race : Race) (exported untarred : Option String) (u t : S)
      → joined r race exported (untarred, u) ≡ (ok tt, t)
      → (exported ≡ none) × (untarred ≡ none) × (u ≡ t)
  unfolding joined
  joined-ok race none none u t h = (refl, refl, cc)
  joined-ok race none (some why) u t h = absurd (ground arith)
  joined-ok race (some why) none u t h = absurd (cc (ap (λ x. x.0) h))
  joined-ok race (some why) (some w) u t h = absurd (ground arith)

  pair_up : (p : Option String × S) {t : S} → p.0 ≡ none → p.1 ≡ t → p ≡ (none, t)
  pair_up (o, u) h k = cc

  checked-ok :
      (f : String → Error) (p : Option String × S) (t : S)
      → checked r f p ≡ (ok tt, t)
      → p ≡ (none, t)
  checked-ok f (none, u) t h = cc
  checked-ok f (some why, u) t h = absurd (cc)

  wrapped-ok :
      {A : Type 0} (f : String → Error) (p : Result String A × S) (a : A) (t : S)
      → wrapped r f p ≡ (ok a, t)
      → p ≡ (ok a, t)
  wrapped-ok f (ok b, u) a t h = cc
  wrapped-ok f (err why, u) a t h = absurd (cc)

  unpacked :
      (race : Race) (s t : S) → pull_and_extract r race ref arch dir s ≡ (ok tt, t) → Unpacked s t
  unfolding pull_and_extract pull_image extract
  unpacked race s t h =
      let (image, s1, first, h1) =
        >>=-eq-ok (pull_image r ref arch) (λ i. extract r race i dir) s h in
      let (_, s2, second, h2) =
        >>=-eq-ok (λ u. checked r (creating_dir dir) (r.mkdir_all dir u)) _ s1 h1 in
      let untarring = r.untar (r.stream image).0 (r.stream image).1 dir s2 in
      let (exported, untarred, at) =
        joined-ok race (r.stream image).1 untarring.0 untarring.1 t h2 in
      record {
        image = image;
        s1 = s1;
        s2 = s2;
        pulled = wrapped-ok (pulling ref) (r.pull ref arch s) image s1 first;
        made = checked-ok (creating_dir dir) (r.mkdir_all dir s1) s2 second;
        exported = exported;
        untarred =
            ap (λ o. r.untar (r.stream image).0 o dir s2) (sym exported)
            ∙ pair_up untarring untarred at;
      }

  extracted :
      (race : Race) (s t : S) → Unpacked s t → pull_and_extract r race ref arch dir s ≡ (ok tt, t)
  unfolding pull_and_extract pull_image extract stream_to joined
  extracted race s t u = rw u.pulled (rw u.made (rw u.exported (rw u.untarred refl)))

  -- However the two goroutines race, PullAndExtract reports no error exactly if the image was
  -- pulled, the directory was made, Export wrote the whole image and Untar unpacked all of it.
  pub pull_and_extract_iff :
      (race : Race) (s t : S) → (pull_and_extract r race ref arch dir s ≡ (ok tt, t)) ↔ Unpacked s t
  pull_and_extract_iff race s t = (unpacked race s t, extracted race s t)
