-- ===== src/Tests/Ociimage.antt =====
-- internal/ociimage: a registry in memory.
use Prim.Native.String.{String}
use invari_os.Base.{
  true, false, Option, none, some, List, [], ◌∷◌, Result, ok, err, ok_injective, ◌≡◌, ◌↔◌, refl,
  sym, ap, ◌∙◌,
}
use invari_os.Base.Text.{Text, codes}
use invari_os.Ociimage.{Registry, Race, push, pull_and_extract}
use invari_os.Ociimage.Streams.{Unpacked, pull_and_extract_iff}
use invari_os.Ociimage.Temporary.{TempLaws, Left, push-temps}

abbrev Temps : Type 0
Temps = List Text

abbrev rest : Temps → Temps
rest [] = []
rest (f ∷ fs) = fs

-- A push fails.
abbrev registry : Registry Temps
registry = record {
  Image = Text;
  Layer = Text;
  pull = λ ref arch s. (ok ref, s);
  mkdir_all = λ dir s. (none, s);
  stream = λ image. (image, none);
  untar = λ b stop dir s. (stop, s);
  create_temp = λ s. (ok (codes "push.tar.gz"), codes "push.tar.gz" ∷ s);
  tar_gz = λ dir file s. (none, s);
  layer_from_file = λ file s. ok file;
  append_layer = λ layer. ok layer;
  config_error = λ image. none;
  set_platform = λ image arch. ok image;
  push_image = λ image ref insecure s. (some "unauthorized", s);
  remove_temp = λ file s. (none, rest s);
}

created :
    {s t : Temps} {file : Text}
    → ◌≡◌ {A = Result String Text × Temps}
        (ok (codes "push.tar.gz"), codes "push.tar.gz" ∷ s)
        (ok file, t)
    → codes "push.tar.gz" ≡ file
created e = ok_injective String (ap (λ p. p.0) e)

never_fails :
    (s t : Temps) (why : String)
    → ◌≡◌ {A = Result String Text × Temps}
        (ok (codes "push.tar.gz"), codes "push.tar.gz" ∷ s)
        (err why, t)
    → t ≡ s
never_fails s t why e = absurd (cc (ap (λ p. p.0) e))

never_stays :
    (s t : Temps) (file : Text) (why : String)
    → ◌≡◌ {A = Option String × Temps} (none, rest s) (some why, t)
    → t ≡ s
never_stays s t file why e = absurd (cc (ap (λ p. p.0) e))

abbrev temp_laws : TempLaws registry
temp_laws = record {
  temps = λ s. s;
  create_temp-ok = λ s t file e. sym (ap (λ p. p.1) e) ∙ ap (λ f. f ∷ s) (created e);
  create_temp-err = never_fails;
  remove_temp-done = λ s t file fs r e. sym (ap (λ p. p.1) r) ∙ ap rest e;
  remove_temp-failed = never_stays;
  tar_gz-temps = λ dir file s. refl;
  push_image-temps = λ image ref insecure s. refl;
}

push-temps_example :
    Left registry temp_laws []
      (push registry (codes "esp:v1") (codes "amd64") (codes "/stage") false []).1
push-temps_example =
    push-temps registry temp_laws (codes "esp:v1") (codes "amd64") (codes "/stage") false []

abbrev race : Race
race = record { export_first = false; interrupted = true }

pull_and_extract_iff_example :
    (pull_and_extract registry race (codes "esp:v1") (codes "amd64") (codes "/x") [] ≡ (ok tt, []))
    ↔ Unpacked registry (codes "esp:v1") (codes "amd64") (codes "/x") [] []
pull_and_extract_iff_example =
    pull_and_extract_iff registry (codes "esp:v1") (codes "amd64") (codes "/x") race [] []
