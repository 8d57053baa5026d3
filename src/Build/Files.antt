-- ===== src/Build/Files.antt =====
-- cmd/build.go: copyFile, copyTree and createSizedFile.
pub mod Copied
pub mod Tree
use Prim.Native.String.{String}
use invari_os.Base.{ℕ, Option, none, some, List, [], ◌∷◌, Result, ok, err, bind, ◌>>=◌, ◌>>◌}
use invari_os.Base.Text.{Text, under, dir_of}
use invari_os.Build.Machine.{
  Host, Visit, walk_failed, here, visited, Kind, symlink, directory, regular, Error, plain, Build,
  checked, lifted,
}

-- 0755, 0644 and the 0666 of os.Create.
abbrev pub dir_mode : ℕ
dir_mode = 493

abbrev pub file_mode : ℕ
file_mode = 420

abbrev create_mode : ℕ
create_mode = 438

module _ (h : Host) where
  -- The error that io.Copy leaves: that of a write, else that of a read.
  unfoldable pub copy_error : Option String → Option String → Option String
  copy_error (some why) stop = some why
  copy_error none stop = stop

  -- The deferred Close: its error counts where there is no other.
  unfoldable pub closed :
      Option String → Option String × h.State → Result Error (Unit {0}) × h.State
  closed (some why) (_, s) = (err (plain why), s)
  closed none (none, s) = (ok tt, s)
  closed none (some why, s) = (err (plain why), s)

  unfoldable pub copied :
      Text → Option String → Option String × h.State → Result Error (Unit {0}) × h.State
  unfolding copy_error closed
  copied dst stop (wrote, s) = closed (copy_error wrote stop) (h.close dst s)

  -- What io.Copy reads was there when the source was opened, so the destination is another file.
  unfoldable pub copy_file : Text → Text → ℕ → Build h (Unit {0})
  unfolding copied
  copy_file src dst mode = do
    opened ← λ s. (lifted h (h.open_file s src), s)
    λ s. checked h (h.mkdir_all (dir_of dst) dir_mode s)
    λ s. checked h (h.create dst mode s)
    λ s. copied dst opened.1 (h.write dst opened.0 s)

  unfoldable pub copy_kind : Text → Text → Kind → Build h (Unit {0})
  unfolding copy_file
  copy_kind path target (symlink (err why)) s = (err (plain why), s)
  copy_kind path target (symlink (ok to)) s = checked h (h.link to target s)
  copy_kind path target (directory mode) s = checked h (h.mkdir_all target mode s)
  copy_kind path target (regular mode) s = copy_file path target mode s

  unfoldable pub copy_info : Text → Text → Result String Kind → Build h (Unit {0})
  unfolding copy_kind
  copy_info path target (err why) s = (err (plain why), s)
  copy_info path target (ok kind) s = copy_kind path target kind s

  unfoldable pub copy_visit : Text → Text → Visit → Build h (Unit {0})
  unfolding copy_info
  copy_visit src dst (walk_failed why) s = (err (plain why), s)
  copy_visit src dst (here info) s = copy_info src dst info s
  copy_visit src dst (visited rel info) s = copy_info (under src rel) (under dst rel) info s

  -- The walk ends at the first error.
  unfoldable pub copy_visits : Text → Text → List Visit → Build h (Unit {0})
  unfolding copy_visit
  copy_visits src dst [] s = (ok tt, s)
  copy_visits src dst (v ∷ vs) s = bind (copy_visit src dst v s) (λ _. copy_visits src dst vs)

  unfoldable pub copy_tree : Text → Text → Build h (Unit {0})
  unfolding copy_visits
  copy_tree src dst s = copy_visits src dst (h.walk s src) s

  -- An error of Truncate closes the file, whose own error is dropped.
  unfoldable pub sized : Text → Option String × h.State → Result Error (Unit {0}) × h.State
  sized path (some why, s) = (err (plain why), (h.close path s).1)
  sized path (none, s) = checked h (h.close path s)

  unfoldable pub create_sized_file : Text → ℕ → Build h (Unit {0})
  unfolding sized
  create_sized_file path size = do
    λ s. checked h (h.create path create_mode s)
    λ s. sized path (h.truncate path size s)
