-- ===== src/Tests/Supervise.antt =====
-- internal/supervise: a codec for one mode, a disk, and a life of the supervisor.
use Prim.Native.String.{String}
use text.Mathlib.Text.{◌==◌ as str_eq}
use text.Mathlib.TextEquality.{eq_iff}
use invari_os.Base.{
  arith, ℕ, Bool-cases, inl, inr, true, none, some, List, [], ◌∷◌, Result, ok, err, if◌then◌else◌,
  ◌≡◌, refl, sym, ap, ok_injective, ◌++◌, ◌≢◌, ◌∙◌, drop,
}
use invari_os.Supervise.Mode.{mode_single_dev, mode_not_implemented}
use invari_os.Supervise.State.{
  not_exist, Files, exec, bootstrap_state_file, tmp_file, Json, Op, write_file, rename, Reply, done,
  failed, persist_ops, persist_mode, persisted_mode,
}
use invari_os.Supervise.State.Atomic.{Survived, CutOff-persist_ops, decision, persist_mode-decision}
use invari_os.Supervise.Supervisor.{
  new_supervisor, Request, bootstrap_request, stop_request, run, trace, exited, delivered,
}
use invari_os.Supervise.Supervisor.Lifecycle.{idle, Legal, trace-Legal}
use invari_os.Supervise.Supervisor.Chosen.{starts, chosen, is_any, trace-chosen}

abbrev pub encode : String → Result String (List ℕ)
encode mode = if str_eq mode mode_single_dev then ok (123 ∷ 125 ∷ []) else err "unknown"

abbrev pub decode : List ℕ → Result String String
decode (x ∷ y ∷ []) = ok mode_single_dev
decode _ = err "unexpected end of JSON input"

pub encoded :
    (mode : String) (b : List ℕ)
    → encode mode ≡ ok b
    → (mode ≡ mode_single_dev) × (b ≡ 123 ∷ 125 ∷ [])
encoded mode b h = elim (Bool-cases (str_eq mode mode_single_dev)) [
  | inl same ↦ (
    (eq_iff mode mode_single_dev).0 same,
    sym (
        ok_injective String
          (sym (ap (λ x. if x then ok (123 ∷ 125 ∷ []) else err "unknown") same) ∙ h)),
  )
  | inr other ↦ absurd (ground arith)
]

pub encode-decode : (mode : String) (b : List ℕ) → encode mode ≡ ok b → decode b ≡ ok mode
encode-decode mode b h = let (single, two) = encoded mode b h in ap decode two ∙ ap ok (sym single)

pub decode-cut :
    (b cut : List ℕ) → b ++ cut ≡ 123 ∷ 125 ∷ [] → cut ≢ [] → (why : String) × (decode b ≡ err why)
decode-cut [] cut h more = (_, refl)
decode-cut (x ∷ []) cut h more = (_, refl)
decode-cut (x ∷ y ∷ []) cut h more = absurd (more (ap (drop 2) h))
decode-cut (x ∷ y ∷ z ∷ b) cut h more = (_, refl)

abbrev pub codec : Json
codec = record {
  marshal = encode;
  unmarshal = decode;
  unmarshal-marshal = encode-decode;
  unmarshal-cut = λ mode b cut h more. decode-cut b cut (encoded mode (b ++ cut) h).1 more;
}

abbrev pub empty_disk : Files
empty_disk path = not_exist

-- The power fails behind the rename, with one byte of the file on the disk.
abbrev torn : Files
torn =
    exec (rename tmp_file bootstrap_state_file) (exec (write_file tmp_file (123 ∷ [])) empty_disk)

CutOff-persist_ops_example : Survived codec true mode_single_dev empty_disk torn
unfolding persist_ops exec
CutOff-persist_ops_example =
    CutOff-persist_ops codec true mode_single_dev (123 ∷ 125 ∷ []) empty_disk torn refl
      (inr (inr (123 ∷ [], (125 ∷ [], refl), inr refl)))

abbrev no_rename : Op → Reply
no_rename (write_file path b) = done
no_rename (rename from to) = failed "read-only file system" not_exist

persist_mode-decision_example :
    persisted_mode codec (persist_mode codec mode_single_dev no_rename empty_disk).1
    ≡ decision codec
        (persist_mode codec mode_single_dev no_rename empty_disk).0
        mode_single_dev
        empty_disk
persist_mode-decision_example = persist_mode-decision codec mode_single_dev no_rename empty_disk

abbrev life : List Request
life =
    bootstrap_request "ha" (record { persist = none; start = err (mode_not_implemented "ha") })
    ∷ bootstrap_request mode_single_dev
        (record { persist = none; start = ok (record { process = some 7 }) })
    ∷ bootstrap_request mode_single_dev
        (record { persist = none; start = ok (record { process = some 8 }) })
    ∷ stop_request (record { sigterm = none; in_grace = none; kill = delivered; wait = exited })
    ∷ stop_request (record { sigterm = none; in_grace = none; kill = delivered; wait = exited })
    ∷ []

trace-Legal_example : Legal idle (trace new_supervisor life)
trace-Legal_example = trace-Legal life

-- Two requests that fail, one that starts its workload, one that comes too late, and a stop.
abbrev retries : List Request
retries =
    bootstrap_request "single-dev"
      (record { persist = some "no space"; start = ok (record { process = some 7 }) })
    ∷ bootstrap_request "raft"
        (record { persist = none; start = err (mode_not_implemented "raft") })
    ∷ bootstrap_request "single-dev"
        (record { persist = none; start = ok (record { process = some 8 }) })
    ∷ bootstrap_request "single-dev"
        (record { persist = none; start = ok (record { process = some 9 }) })
    ∷ stop_request (record { sigterm = none; in_grace = none; kill = delivered; wait = exited })
    ∷ []

trace-chosen_example :
    (starts (trace new_supervisor retries) ≡ chosen retries)
    × ((run new_supervisor retries).bootstrapped ≡ is_any (chosen retries))
trace-chosen_example = trace-chosen retries
