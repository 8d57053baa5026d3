-- ===== src/Mgmtapi.antt =====
-- internal/mgmtapi/mgmtapi.go: the management API's routes, handlers and server.
pub mod Once
use Prim.Native.String.{String, ◌++◌ as join}
use text.Mathlib.Text.{◌==◌ as str_eq}
use invari_os.Base.{
  ℕ, Bool, true, false, not, ◌&&◌, ◌||◌, Option, none, some, List, [], ◌∷◌, Result, ok, err,
  if◌then◌else◌,
}
use invari_os.Supervise.Mode.{
  Cmd, is_stopping, already_bootstrapped, persisting_state, mode_not_implemented, starting_bao,
  signaling_workload, waiting_for_workload, killing_workload, waiting_for_killed_workload,
  killed_after_grace_period, context_done,
}
use invari_os.Supervise.Mode
use invari_os.Power.{
  reboot, shutdown, unknown_power_action, already_requested, close_of_closed_channel, reboot_failed,
}
use invari_os.Power

abbrev pub status_ok : ℕ
status_ok = 200

abbrev pub status_accepted : ℕ
status_accepted = 202

abbrev pub status_bad_request : ℕ
status_bad_request = 400

abbrev pub status_not_found : ℕ
status_not_found = 404

abbrev pub status_method_not_allowed : ℕ
status_method_not_allowed = 405

abbrev pub status_conflict : ℕ
status_conflict = 409

abbrev pub status_request_entity_too_large : ℕ
status_request_entity_too_large = 413

abbrev pub status_internal_server_error : ℕ
status_internal_server_error = 500

abbrev pub status_service_unavailable : ℕ
status_service_unavailable = 503

-- The JSON objects that the handlers write: {"status": …} and {"error": …}.
pub data Body : Type 0 where
  status_body : String → Body
  error_body : String → Body

pub record Response : Type 0 where
  pub code : ℕ
  pub body : Body

unfoldable pub write_json : ℕ → Body → Response
write_json code body = record { code = code; body = body }

unfoldable pub write_error : ℕ → String → Response
unfolding write_json
write_error code message = write_json code (error_body message)

-- What decoding the request's body through MaxBytesReader brings: the limit was hit, another
-- failure, or the field `mode` (empty where it is missing).
pub data Decoded : Type 0 where
  too_large : Decoded
  malformed : String → Decoded
  decoded : String → Decoded

-- err.Error(), where the handlers pass the text on.
pub record Texts : Type 0 where
  pub of_bootstrap : Mode.Error → String
  pub of_power : Power.Error → String

module _ (texts : Texts) where
  -- The answer to an error of bootstrapFn.
  bootstrap_failed : Mode.Error → Response
  unfolding write_error
  bootstrap_failed (mode_not_implemented m) =
      write_error status_bad_request (texts.of_bootstrap (mode_not_implemented m))
  bootstrap_failed already_bootstrapped =
      write_error status_conflict (texts.of_bootstrap already_bootstrapped)
  bootstrap_failed is_stopping =
      write_error status_service_unavailable (texts.of_bootstrap is_stopping)
  bootstrap_failed e =
      write_error status_internal_server_error (join "starting workload: " (texts.of_bootstrap e))

  unfoldable pub bootstrap_answer : {S : Type 0} → Result Mode.Error Cmd × S → Response × S
  unfolding bootstrap_failed write_json
  bootstrap_answer (ok cmd, s) = (write_json status_ok (status_body "bootstrapped"), s)
  bootstrap_answer (err e, s) = (bootstrap_failed e, s)

  unfoldable pub handle_bootstrap :
      {S : Type 0} → (String → S → Result Mode.Error Cmd × S) → Decoded → S → Response × S
  unfolding bootstrap_answer write_error
  handle_bootstrap bootstrap_fn too_large s =
      (write_error status_request_entity_too_large "request body exceeds 4096 bytes", s)
  handle_bootstrap bootstrap_fn (malformed why) s =
      (write_error status_bad_request (join "decoding request body: " why), s)
  handle_bootstrap bootstrap_fn (decoded mode) s =
      if str_eq mode ""
      then (write_error status_bad_request "\"mode\" is required", s)
      else bootstrap_answer (bootstrap_fn mode s)

  power_failed : String → Power.Error → Response
  unfolding write_error
  power_failed action (already_requested a) =
      write_error status_conflict (texts.of_power (already_requested a))
  power_failed action e =
      write_error status_internal_server_error
        (join "requesting " (join action (join ": " (texts.of_power e))))

  unfoldable pub power_answer :
      {S : Type 0} → String → String → Result Power.Error (Unit {0}) × S → Response × S
  unfolding power_failed write_json
  power_answer action status (ok _, s) = (write_json status_accepted (status_body status), s)
  power_answer action status (err e, s) = (power_failed action e, s)

  unfoldable pub handle_power :
      {S : Type 0}
      → (String → S → Result Power.Error (Unit {0}) × S)
      → String
      → String
      → S
      → Response × S
  unfolding power_answer
  handle_power power_fn action status s = power_answer action status (power_fn action s)

-- The three patterns of mux, as http.ServeMux matches them: another method on one of their paths is
-- 405, another path is 404.
pub data Route : Type 0 where
  to_bootstrap : Route
  to_reboot : Route
  to_shutdown : Route
  wrong_method : Route
  no_route : Route

posted : String → Route → Route
posted method route = if str_eq method "POST" then route else wrong_method

pub mux : String → String → Route
unfolding posted
mux method path =
    if str_eq path "/bootstrap"
    then posted method to_bootstrap
    else if str_eq path "/reboot"
    then posted method to_reboot
    else if str_eq path "/shutdown"
    then posted method to_shutdown
    else no_route

-- What serve does to the HTTP server. `joined` is the receive that waits for Serve to return.
pub data ServerCall : Type 0 where
  shut_down : ServerCall
  close : ServerCall
  joined : ServerCall

pub data ServeError : Type 0 where
  listening : String → ServeError
  serving : String → ServeError
  draining : String → ServeError

-- `failed` is Serve's own error, if it returns before the context is done; `drained` is
-- Shutdown's error, if any.
unfoldable pub serve :
    Option String → Option String → List ServerCall × Result ServeError (Unit {0})
serve (some why) drained = (joined ∷ [], err (serving why))
serve none none = (shut_down ∷ joined ∷ [], ok tt)
serve none (some why) = (shut_down ∷ close ∷ joined ∷ [], err (draining why))

-- ListenAndServe, with net.Listen's error.
unfoldable pub listen_and_serve :
    Option String → Option String → Option String → List ServerCall × Result ServeError (Unit {0})
unfolding serve
listen_and_serve none failed drained = serve failed drained
listen_and_serve (some why) failed drained = ([], err (listening why))
