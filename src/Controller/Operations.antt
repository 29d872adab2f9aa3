-- ===== src/Controller/Operations.antt =====
-- The public methods of `AccessController` of bridgewire/controller.py, as actions on a door.
pub mod Soundness
pub mod Closed
pub mod Line
pub mod Release
pub mod Relay
pub mod Total
pub mod Live
pub mod Reports
use frontdoor.Prelude.{
  ℕ, ◌+◌, String, Bool, true, false, ◌&&◌, Option, none, some, List, [], ◌∷◌, Exception,
  runtime_error, Result, ok, err, Exec, pure, raise, gets, try_else, ◌>>=◌, ◌>>◌, leb, text_in,
  if◌then◌else◌,
}
use frontdoor.Audit.{
  EventType, Severity, Value, service_started, service_shutdown, credential_authorized,
  credential_denied, credential_unknown, malformed_record, relay_asserted, relay_restored,
  relay_control_error, info, warning, critical, error, reader_reasons,
}
use frontdoor.Reader.Record.{Text, ParsedRecord, RecordResult, accepted, malformed}
use frontdoor.Controller.State.{
  AuthorizationOutcome, authorized, denied, unknown, ControllerState, initializing, ready, released,
  faulted, shutting_down, stopped, PhysicalReleaseStatus, not_requested, asserted, already_released,
  actuation_failed, AccessResult, Ports, AccessController, Door,
}
use frontdoor.Controller.Effects.{
  on_world, read_world, update, reason_of, audit, command, attempt_safe_state, record_suspicious,
}

abbrev pub result : Option AuthorizationOutcome → PhysicalReleaseStatus → AccessResult
result outcome release = record { authorization = outcome; physical_release = release }

-- `record.reason if record.reason in {…} else "malformed_record"`
unfoldable pub safe_reason : String → String
safe_reason reason = if text_in reason reader_reasons then reason else "malformed_record"

module _ {W : Type 0} (ports : Ports W) where
  unfoldable pub enter : ControllerState → Exec (Door W) Unit
  unfolding update
  enter state = update λ c. record c { state = state }

  -- An `except` clause of `start`: it raises the exception again.
  pub start_failed : String → Exception → Exec (Door W) Unit
  unfolding enter
  start_failed reason e = do
    enter faulted
    audit ports relay_control_error critical (reason_of reason)
    raise e

  pub start_secured : Exec (Door W) Unit
  unfolding enter
  start_secured = do enter ready; audit ports service_started info []

  pub start_new : Exec (Door W) Unit
  unfolding on_world
  start_new d =
      try_else (on_world (ports.setup "BCM" d.controller.gpio_channel))
        (start_failed "setup_failed")
        (λ _. try_else (command ports false) (start_failed "low_failed") (λ _. start_secured)) d

  pub start_from : ControllerState → Exec (Door W) Unit
  start_from ready = pure tt
  start_from released = pure tt
  start_from initializing = start_new
  start_from faulted = raise runtime_error
  start_from shutting_down = raise runtime_error
  start_from stopped = raise runtime_error

  unfoldable pub start : Exec (Door W) Unit
  start d = start_from d.controller.state d

  -- The `except` clause round `command(True)`.
  pub actuation_error : AuthorizationOutcome → Exception → Exec (Door W) AccessResult
  unfolding enter
  actuation_error outcome e = do
    audit ports relay_control_error critical (reason_of "high_failed")
    attempt_safe_state ports
    enter faulted
    pure (result (some outcome) actuation_failed)

  -- After `command(True)`.
  pub begin_release : AuthorizationOutcome → Exec (Door W) AccessResult
  unfolding read_world update
  begin_release outcome = do
    now ← read_world ports.monotonic
    update (λ c. record c { release_deadline = some (now + c.release_seconds); state = released })
    c ← gets (λ d. d.controller)
    audit ports relay_asserted info (("duration_seconds", Value.number c.release_seconds) ∷ [])
    pure (result (some outcome) asserted)

  -- The end of `_process_parsed`, for an authorized credential, by the state.
  pub release_from : ControllerState → AuthorizationOutcome → Exec (Door W) AccessResult
  release_from released outcome = pure (result (some outcome) already_released)
  release_from _ outcome =
      try_else (command ports true) (actuation_error outcome) (λ _. begin_release outcome)

  pub refuse : EventType → AuthorizationOutcome → Exec (Door W) AccessResult
  refuse event_type outcome = do
    audit ports event_type warning []
    record_suspicious ports
    pure (result (some outcome) not_requested)

  pub by_outcome : AuthorizationOutcome → Exec (Door W) AccessResult
  by_outcome denied = refuse credential_denied denied
  by_outcome unknown = refuse credential_unknown unknown
  by_outcome authorized = do
    audit ports credential_authorized info []
    state ← gets (λ d. d.controller.state)
    release_from state authorized

  -- `_process_parsed`
  pub process_parsed : ParsedRecord → Exec (Door W) AccessResult
  unfolding on_world read_world update
  process_parsed p = do
    outcome ← on_world (ports.classify p.credential)
    now ← read_world ports.now
    update (λ c. record c { last_credential_processed_at = some now })
    by_outcome outcome

  pub process_malformed : String → Exec (Door W) AccessResult
  process_malformed reason = do
    audit ports malformed_record warning (reason_of (safe_reason reason))
    record_suspicious ports
    pure (result none not_requested)

  pub dispatch : RecordResult → Exec (Door W) AccessResult
  dispatch (malformed reason) = process_malformed reason
  dispatch (accepted p) = process_parsed p

  pub process_from : ControllerState → RecordResult → Exec (Door W) AccessResult
  process_from ready r = dispatch r
  process_from released r = dispatch r
  process_from _ r = raise runtime_error

  unfoldable pub process : RecordResult → Exec (Door W) AccessResult
  process r d = process_from d.controller.state r d

  -- The `except` clause of `tick`: it does not raise again.
  pub restore_failed : Exception → Exec (Door W) Unit
  unfolding enter
  restore_failed e = do
    enter faulted
    audit ports relay_control_error critical (reason_of "low_failed")

  pub restored : Exec (Door W) Unit
  unfolding update
  restored = do
    update (λ c. record c { release_deadline = none; state = ready })
    audit ports relay_restored info []

  pub tick_at : ControllerState → Option ℕ → Exec (Door W) Unit
  unfolding read_world
  tick_at released (some deadline) = do
    now ← read_world ports.monotonic
    if leb deadline now
        then try_else (command ports false) restore_failed (λ _. restored)
        else pure tt
  tick_at _ _ = pure tt

  unfoldable pub tick : Exec (Door W) Unit
  tick d = tick_at d.controller.state d.controller.release_deadline d

  unfoldable pub recoverable_failure : Exec (Door W) Unit
  unfolding update
  recoverable_failure = do
    attempt_safe_state ports
    update (λ c. record c { release_deadline = none; state = faulted })
    audit ports relay_control_error error []

  -- The `try` round `cleanup()`: `cleanup_ok`.
  pub attempt_cleanup : Exec (Door W) Bool
  unfolding on_world
  attempt_cleanup =
      try_else (on_world ports.cleanup)
        (λ e. audit ports relay_control_error critical (reason_of "cleanup_failed") >> pure false)
        (λ _. pure true)

  pub finish_shutdown : Bool → Exec (Door W) Unit
  unfolding enter
  finish_shutdown true = do enter stopped; audit ports service_shutdown info []
  finish_shutdown false = enter faulted

  -- `shutdown` after the attempt to secure the relay.
  pub secure_and_finish : Bool → Exec (Door W) Unit
  unfolding update
  secure_and_finish safe = do
    update (λ c. record c { release_deadline = none })
    cleanup_ok ← attempt_cleanup
    finish_shutdown (safe && cleanup_ok)

  pub shutdown_running : Exec (Door W) Unit
  unfolding enter
  shutdown_running = do enter shutting_down; safe ← attempt_safe_state ports; secure_and_finish safe

  pub shutdown_from : ControllerState → Exec (Door W) Unit
  shutdown_from stopped = pure tt
  shutdown_from _ = shutdown_running

  unfoldable pub shutdown : Exec (Door W) Unit
  shutdown d = shutdown_from d.controller.state d

-- A call of a public method.
pub data Call : Type 0 where
  start_call tick_call failure_call shutdown_call : Call
  process_call : RecordResult → Call

-- The door after a call, whether it returned or raised.
unfoldable pub after_call : {W : Type 0} → Ports W → Call → Door W → Door W
after_call ports start_call d = (start ports d).1
after_call ports tick_call d = (tick ports d).1
after_call ports failure_call d = (recoverable_failure ports d).1
after_call ports shutdown_call d = (shutdown ports d).1
after_call ports (process_call r) d = (process ports r d).1

-- The door after several calls.
unfoldable pub after_calls : {W : Type 0} → Ports W → List Call → Door W → Door W
after_calls ports [] d = d
after_calls ports (call ∷ calls) d = after_calls ports calls (after_call ports call d)
