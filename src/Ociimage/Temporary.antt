-- ===== src/Ociimage/Temporary.antt =====
-- internal/ociimage/ociimage.go: the temporary archive of Push.
use Prim.Native.String.{String}
use invari_os.Base.{
  Bool, Option, none, some, List, ◌∷◌, Result, ok, err, bind, ◌⊎◌, inl, inr, ◌≡◌, refl, ◌∙◌,
}
use invari_os.Base.Text.{Text}
use invari_os.Ociimage.{
  Registry, Error, image_of, cleaned, image_from_dir, removed, push, creating_archive, wrapped,
  checked, archiving, building_layer, appending_layer, reading_config, setting_config, pushing,
}

module _ {S : Type 0} (r : Registry S) where
  -- The temporary files that there are, the last first.
  pub record TempLaws : Type 0 where
    pub temps : S → List Text
    pub create_temp-ok :
        (s t : S) (file : Text) → r.create_temp s ≡ (ok file, t) → temps t ≡ file ∷ temps s
    pub create_temp-err :
        (s t : S) (why : String) → r.create_temp s ≡ (err why, t) → temps t ≡ temps s
    pub remove_temp-done :
        (s t : S) (file : Text) (fs : List Text)
        → r.remove_temp file s ≡ (none, t)
        → temps s ≡ file ∷ fs
        → temps t ≡ fs
    pub remove_temp-failed :
        (s t : S) (file : Text) (why : String)
        → r.remove_temp file s ≡ (some why, t)
        → temps t ≡ temps s
    pub tar_gz-temps : (dir file : Text) (s : S) → temps (r.tar_gz dir file s).1 ≡ temps s
    pub push_image-temps :
        (image : r.Image) (ref : Text) (insecure : Bool) (s : S)
        → temps (r.push_image image ref insecure s).1 ≡ temps s

  module _ (laws : TempLaws) where
    -- The files that there were, or one more, of which os.Remove failed.
    abbrev pub Left : List Text → S → Type 0
    Left fs t =
        (laws.temps t ≡ fs)
        ⊎ ((file : Text) × (why : String) × (u : S) × (r.remove_temp file u ≡ (some why, t))
            × (laws.temps t ≡ file ∷ fs))

    Left-remove_temp :
        (fs : List Text) (file : Text) (s : S) (p : Option String × S)
        → r.remove_temp file s ≡ p
        → laws.temps s ≡ file ∷ fs
        → Left fs p.1
    Left-remove_temp fs file s (none, t) e h = inl (laws.remove_temp-done s t file fs e h)
    Left-remove_temp fs file s (some why, t) e h =
        inr (file, why, s, e, laws.remove_temp-failed s t file why e ∙ h)

    -- A further step that keeps the temporary files.
    bind-temps :
        {A B : Type 0} (fs : List Text) (p : Result Error A × S) (f : A → S → Result Error B × S)
        → laws.temps p.1 ≡ fs
        → ((a : A) (u : S) → laws.temps u ≡ fs → laws.temps (f a u).1 ≡ fs)
        → laws.temps (bind p f).1 ≡ fs
    bind-temps fs (ok a, u) f h keep = keep a u h
    bind-temps fs (err e, u) f h keep = h

    wrapped-temps :
        {A : Type 0} (fs : List Text) (f : String → Error) (p : Result String A × S)
        → laws.temps p.1 ≡ fs
        → laws.temps (wrapped r f p).1 ≡ fs
    wrapped-temps fs f (ok a, u) h = h
    wrapped-temps fs f (err why, u) h = h

    checked-temps :
        (fs : List Text) (f : String → Error) (p : Option String × S)
        → laws.temps p.1 ≡ fs
        → laws.temps (checked r f p).1 ≡ fs
    checked-temps fs f (none, u) h = h
    checked-temps fs f (some why, u) h = h

    image_of-temps :
        (fs : List Text) (dir : Text) (arch : Text) (file : Text) (s : S)
        → laws.temps s ≡ fs
        → laws.temps (image_of r dir arch file s).1 ≡ fs
    unfolding image_of
    image_of-temps fs dir arch file s h =
        bind-temps fs (checked r (archiving dir) (r.tar_gz dir file s)) _
          (checked-temps fs (archiving dir) (r.tar_gz dir file s)
            (laws.tar_gz-temps dir file s ∙ h))
          λ _ s1 h1.
            bind-temps fs (wrapped r building_layer (r.layer_from_file file s1, s1)) _
              (wrapped-temps fs building_layer (r.layer_from_file file s1, s1) h1)
              λ layer s2 h2.
                bind-temps fs (wrapped r appending_layer (r.append_layer layer, s2)) _
                  (wrapped-temps fs appending_layer (r.append_layer layer, s2) h2)
                  λ image s3 h3.
                    bind-temps fs (checked r reading_config (r.config_error image, s3)) _
                      (checked-temps fs reading_config (r.config_error image, s3) h3)
                      λ _ s4 h4. wrapped-temps fs setting_config (r.set_platform image arch, s4) h4

    module _ (ref arch : Text) (dir : Text) (insecure : Bool) (fs : List Text) where
      abbrev pushing_it : r.Image × Text → S → Result Error (Unit {0}) × S
      pushing_it built s =
          removed r built.1 (checked r (pushing ref) (r.push_image built.0 ref insecure s))

      removed-temps :
          (file : Text) (p : Result Error (Unit {0}) × S)
          → laws.temps p.1 ≡ file ∷ fs
          → Left fs (removed r file p).1
      unfolding removed
      removed-temps file (answer, u) h = Left-remove_temp fs file u (r.remove_temp file u) refl h

      cleaned-temps :
          (file : Text) (p : Result Error r.Image × S)
          → laws.temps p.1 ≡ file ∷ fs
          → Left fs (bind (cleaned r file p) pushing_it).1
      unfolding cleaned
      cleaned-temps file (err e, u) h = Left-remove_temp fs file u (r.remove_temp file u) refl h
      cleaned-temps file (ok image, u) h =
          removed-temps file (checked r (pushing ref) (r.push_image image ref insecure u)) (
            checked-temps (file ∷ fs) (pushing ref) (r.push_image image ref insecure u)
              (laws.push_image-temps image ref insecure u ∙ h))

      created-temps :
          (p : Result String Text × S)
          → ((file : Text) (t : S) → p ≡ (ok file, t) → laws.temps t ≡ file ∷ fs)
          → ((why : String) (t : S) → p ≡ (err why, t) → laws.temps t ≡ fs)
          → Left fs
              (bind
                (bind
                  (wrapped r creating_archive p)
                  (λ file s. cleaned r file (image_of r dir arch file s)))
                pushing_it).1
      created-temps (err why, t) made failed = inl (failed why t refl)
      created-temps (ok file, t) made failed =
          cleaned-temps file (image_of r dir arch file t)
            (image_of-temps (file ∷ fs) dir arch file t (made file t refl))

    -- Whether Push succeeds or fails, at any of its steps: it leaves the temporary files that there
    -- were, its archive being removed, or exactly one more, and then the last thing that it did was
    -- an os.Remove of that file, which failed. The other operations keep to TempLaws.
    pub push-temps :
        (ref arch : Text) (dir : Text) (insecure : Bool) (s : S)
        → Left (laws.temps s) (push r ref arch dir insecure s).1
    unfolding push image_from_dir
    push-temps ref arch dir insecure s =
        created-temps ref arch dir insecure (laws.temps s) (r.create_temp s)
          (λ file t e. laws.create_temp-ok s t file e) (λ why t e. laws.create_temp-err s t why e)
