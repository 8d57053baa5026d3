-- ===== src/Ociimage.antt =====
-- internal/ociimage/ociimage.go: Pull, Extract, Push and imageFromDir, over crane, archiver and the
-- temporary files.
pub mod Streams
pub mod Temporary
use Prim.Native.String.{String}
use invari_os.Base.{
  ℕ, Bool, true, false, Option, none, some, List, [], ◌∷◌, Result, ok, err, M, ◌>>=◌, ◌>>◌, bind,
  if◌then◌else◌,
}
use invari_os.Base.Text.{Text}

pub data Error : Type 0 where
  pulling : Text → String → Error
  creating_dir : Text → String → Error
  exporting : String → Error
  extracting : String → Error
  creating_archive : String → Error
  archiving : Text → String → Error
  building_layer : String → Error
  appending_layer : String → Error
  reading_config : String → Error
  setting_config : String → Error
  pushing : Text → String → Error

-- go-containerregistry, archiver and os, over an unknown state. `stream` is what crane.Export
-- writes of an image, and the error that it ends with; `untar` gets what comes through the pipe and
-- the error that the pipe's writer ends it with. A temporary file is named by what CreateTemp
-- returns.
pub record Registry (S : Type 0) : Type 1 where
  pub Image : Type 0
  pub Layer : Type 0
  pub pull : Text → Text → S → Result String Image × S
  pub mkdir_all : Text → S → Option String × S
  pub stream : Image → List ℕ × Option String
  pub untar : List ℕ → Option String → Text → S → Option String × S
  pub create_temp : S → Result String Text × S
  pub tar_gz : Text → Text → S → Option String × S
  pub layer_from_file : Text → S → Result String Layer
  pub append_layer : Layer → Result String Image
  pub config_error : Image → Option String
  pub set_platform : Image → Text → Result String Image
  pub push_image : Image → Text → Bool → S → Option String × S
  pub remove_temp : Text → S → Option String × S

-- What the two goroutines of Extract race for: which error errgroup records first, and, where
-- Untar fails, whether Export still has something to write then.
pub record Race : Type 0 where
  pub export_first : Bool
  pub interrupted : Bool

-- Untar's error ends the pipe for Export, whose next write then fails with it.
unfoldable pub export_error : Race → Option String → Option String → Option Error
export_error race (some why) untarred = some (exporting why)
export_error race none none = none
export_error race none (some why) = if race.interrupted then some (exporting why) else none

unfoldable pub untar_error : Option String → Option Error
untar_error none = none
untar_error (some why) = some (extracting why)

-- errgroup's Wait: the error that was recorded first.
unfoldable pub wait : Race → Option Error → Option Error → Result Error (Unit {0})
wait race none none = ok tt
wait race (some e) none = err e
wait race none (some u) = err u
wait race (some e) (some u) = if race.export_first then err e else err u

module _ {S : Type 0} (r : Registry S) where
  abbrev pub Task : Type 0 → Type 0
  Task A = M S Error A

  -- A call's error, as the caller wraps it.
  abbrev pub wrapped : {A : Type 0} → (String → Error) → Result String A × S → Result Error A × S
  wrapped f (ok a, s) = (ok a, s)
  wrapped f (err why, s) = (err (f why), s)

  abbrev pub checked : (String → Error) → Option String × S → Result Error (Unit {0}) × S
  checked f (none, s) = (ok tt, s)
  checked f (some why, s) = (err (f why), s)

  unfoldable pub pull_image : Text → Text → Task r.Image
  pull_image ref arch s = wrapped (pulling ref) (r.pull ref arch s)

  unfoldable pub joined : Race → Option String → Option String × S → Result Error (Unit {0}) × S
  unfolding export_error untar_error wait
  joined race exported (untarred, s) =
      (wait race (export_error race exported untarred) (untar_error untarred), s)

  -- Export's own error ends the pipe for Untar.
  unfoldable pub stream_to : Race → Text → List ℕ × Option String → Task (Unit {0})
  unfolding joined
  stream_to race dir (b, exported) s = joined race exported (r.untar b exported dir s)

  unfoldable pub extract : Race → r.Image → Text → Task (Unit {0})
  unfolding stream_to
  extract race image dir = do
    λ s. checked (creating_dir dir) (r.mkdir_all dir s)
    stream_to race dir (r.stream image)

  unfoldable pub pull_and_extract : Race → Text → Text → Text → Task (Unit {0})
  unfolding pull_image extract
  pull_and_extract race ref arch dir = do image ← pull_image ref arch; extract race image dir

  -- imageFromDir behind the creation of its temporary archive `file`, as far as it can fail.
  unfoldable pub image_of : Text → Text → Text → Task r.Image
  image_of dir arch file = do
    λ s. checked (archiving dir) (r.tar_gz dir file s)
    layer ← λ s. wrapped building_layer (r.layer_from_file file s, s)
    image ← λ s. wrapped appending_layer (r.append_layer layer, s)
    λ s. checked reading_config (r.config_error image, s)
    λ s. wrapped setting_config (r.set_platform image arch, s)

  -- cleanup, on every error behind the creation. os.Remove's own error is dropped.
  unfoldable pub cleaned : Text → Result Error r.Image × S → Result Error (r.Image × Text) × S
  cleaned file (ok image, s) = (ok (image, file), s)
  cleaned file (err e, s) = (err e, (r.remove_temp file s).1)

  -- The image, and the file that the caller's cleanup removes.
  unfoldable pub image_from_dir : Text → Text → Task (r.Image × Text)
  unfolding image_of cleaned
  image_from_dir dir arch = do
    file ← λ s. wrapped creating_archive (r.create_temp s)
    λ s. cleaned file (image_of dir arch file s)

  -- The deferred cleanup behind the push, whose error is dropped too.
  unfoldable pub removed : Text → Result Error (Unit {0}) × S → Result Error (Unit {0}) × S
  removed file (answer, s) = (answer, (r.remove_temp file s).1)

  unfoldable pub push : Text → Text → Text → Bool → Task (Unit {0})
  unfolding image_from_dir removed
  push ref arch dir insecure = do
    built ← image_from_dir dir arch
    λ s. removed built.1 (checked (pushing ref) (r.push_image built.0 ref insecure s))
