-- ===== src/Supervise/Mode.antt =====
-- internal/supervise/bootstrap.go and bao.go: the workload that a mode stands for.
use Prim.Native.String.{String}
use text.Mathlib.Text.{◌==◌ as str_eq}
use invari_os.Base.{ℕ, Option, some, List, [], ◌∷◌, Result, ok, err, if◌then◌else◌}

abbrev pub mode_single_dev : String
mode_single_dev = "single-dev"

abbrev pub bao_path : String
bao_path = "/usr/bin/bao"

-- *exec.Cmd; `process` is cmd.Process, which Start sets.
pub record Cmd : Type 0 where
  pub process : Option ℕ

pub data Error : Type 0 where
  is_stopping : Error
  already_bootstrapped : Error
  persisting_state : String → Error
  mode_not_implemented : String → Error
  starting_bao : String → Error
  signaling_workload : String → Error
  waiting_for_workload : String → Error
  killing_workload : String → Error
  waiting_for_killed_workload : String → Error
  killed_after_grace_period : Error
  context_done : Error

abbrev pub bao_args : List String
bao_args =
    "server" ∷ "-dev" ∷ "-dev-listen-address=0.0.0.0:8200" ∷ "-dev-root-token-id=root"
    ∷ "-dev-no-store-token" ∷ []

-- cmd.Start: a process, or the reason why there is none.
abbrev pub Start : Type 0
Start = String → List String → Result String ℕ

unfoldable pub start_open_bao : Start → Result Error Cmd
start_open_bao start = elim (start bao_path bao_args) [
  | err why ↦ err (starting_bao why)
  | ok pid ↦ ok (record { process = some pid })
]

-- Bootstrap.
unfoldable pub bootstrap_workload : Start → String → Result Error Cmd
unfolding start_open_bao
bootstrap_workload start mode =
    if str_eq mode mode_single_dev then start_open_bao start else err (mode_not_implemented mode)
