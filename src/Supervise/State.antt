-- ===== src/Supervise/State.antt =====
-- internal/supervise/state.go: the bootstrap decision on the STATE partition.
pub mod Atomic
use Prim.Native.String.{String, ◌++◌ as join}
use text.Mathlib.Text.{◌==◌ as str_eq}
use invari_os.Base.{
  ℕ, Bool, Option, none, some, List, [], ◌∷◌, Result, ◌++◌, ok, err, if◌then◌else◌, ◌≡◌, ◌≢◌,
}

-- What os.ReadFile finds at a path.
pub data File : Type 0 where
  not_exist : File
  unreadable : String → File
  content : List ℕ → File

abbrev pub Files : Type 0
Files = String → File

unfoldable pub put : String → File → Files → Files
put path f fs p = if str_eq p path then f else fs p

-- paths.StateDir and the file name.
abbrev pub state_dir : String
state_dir = "/state"

abbrev pub bootstrap_state_file : String
bootstrap_state_file = "/state/bootstrap.json"

abbrev pub tmp_file : String
tmp_file = join bootstrap_state_file ".tmp"

-- encoding/json on persistedState, whose one field is the mode. What is cut off from the text of an
-- object is no JSON.
pub record Json : Type 0 where
  pub marshal : String → Result String (List ℕ)
  pub unmarshal : List ℕ → Result String String
  pub unmarshal-marshal : (mode : String) (b : List ℕ) → marshal mode ≡ ok b → unmarshal b ≡ ok mode
  pub unmarshal-cut :
      (mode : String) (b cut : List ℕ)
      → marshal mode ≡ ok (b ++ cut)
      → cut ≢ []
      → (why : String) × (unmarshal b ≡ err why)

pub data Error : Type 0 where
  marshaling : String → Error
  writing : String → Error
  renaming : String → Error
  reading : String → Error
  parsing : String → Error

-- The changes that PersistMode makes on the disk.
pub data Op : Type 0 where
  write_file : String → List ℕ → Op
  rename : String → String → Op

-- What the system call answers: done, or an error with what a write left at its path.
pub data Reply : Type 0 where
  done : Reply
  failed : String → File → Reply

unfoldable pub exec : Op → Files → Files
unfolding put
exec (write_file path b) fs = put path (content b) fs
exec (rename from to) fs = put from not_exist (put to (fs from) fs)

failing : Op → String → File → Files → Result Error (Unit {0}) × Files
failing (write_file path b) why left fs = (err (writing why), put path left fs)
failing (rename from to) why left fs = (err (renaming why), fs)

run_op : Op → Reply → Files → Result Error (Unit {0}) × Files
unfolding exec failing
run_op op done fs = (ok tt, exec op fs)
run_op op (failed why left) fs = failing op why left fs

continue :
    (Files → Result Error (Unit {0}) × Files)
    → Result Error (Unit {0}) × Files
    → Result Error (Unit {0}) × Files
continue rest (ok _, now) = rest now
continue rest (err e, now) = (err e, now)

-- The operations in turn, up to the first that fails.
unfoldable pub run_ops : List Op → (Op → Reply) → Files → Result Error (Unit {0}) × Files
unfolding run_op continue
run_ops [] reply fs = (ok tt, fs)
run_ops (op ∷ ops) reply fs = continue (run_ops ops reply) (run_op op (reply op) fs)

unfoldable pub persist_ops : List ℕ → List Op
persist_ops b = write_file tmp_file b ∷ rename tmp_file bootstrap_state_file ∷ []

module _ (j : Json) where
  unfoldable pub persist_mode : String → (Op → Reply) → Files → Result Error (Unit {0}) × Files
  unfolding persist_ops run_ops
  persist_mode mode reply fs = elim (j.marshal mode) [
    | err why ↦ (err (marshaling why), fs)
    | ok b ↦ run_ops (persist_ops b) reply fs
  ]

  parse : Result String String → Result Error (Option String)
  parse (err why) = err (parsing why)
  parse (ok mode) = ok (some mode)

  -- PersistedMode; `ok none` is its ("", false, nil).
  mode_in : File → Result Error (Option String)
  unfolding parse
  mode_in not_exist = ok none
  mode_in (unreadable why) = err (reading why)
  mode_in (content b) = parse (j.unmarshal b)

  pub persisted_mode : Files → Result Error (Option String)
  unfolding mode_in
  persisted_mode fs = mode_in (fs bootstrap_state_file)
