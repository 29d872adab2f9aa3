-- ===== src/Controller/Operations/Line.antt =====
-- The line of the relay under the methods of bridgewire/controller.py: its level against what the
-- controller keeps.
pub mod Effects
pub mod Processing
pub mod Stopping
pub mod Followed
use frontdoor.Prelude.{
  ℕ, String, ◌≡◌, ◌⊎◌, Bool, true, false, Option, none, some, List, [], ◌∷◌, Exception, ok, err,
  Exec, pure, try_else, ◌>>=◌, arith, refl, ap, ◌≢◌, ◌>>◌, ◌+◌, leb, Bool-cases, ◌&&◌, raise, inl,
  inr, Result-cases,
}
use frontdoor.Audit.{
  AuditEvent, EventType, Severity, Correlation, relay_control_error, escalation_critical,
  notification_delivery_failed, critical, error, warning, relay_asserted, info,
  credential_authorized, malformed_record, service_started, service_shutdown, relay_restored, Value,
}
use frontdoor.Reader.Record.{Text, RecordResult, ParsedRecord, accepted, malformed}
use frontdoor.Escalation.{EscalationLevel, EscalationTracker}
use frontdoor.Controller.State.{
  ControllerState, AuthorizationOutcome, authorized, denied, unknown, initializing, ready, released,
  faulted, shutting_down, stopped, Ports, not_requested, actuation_failed, asserted,
  AccessController, Door, new_controller,
}
use frontdoor.Controller.Effects.{
  on_world, read_world, update, reason_of, audit, new_event, command, attempt_safe_state, escalate,
  announce, record_suspicious,
}
use frontdoor.Controller.Effects.Frames.{
  audit-controller, record_suspicious-SameRelease, command-controller,
  attempt_safe_state-controller,
}
use frontdoor.Controller.Operations.Soundness.{calls-IsSound}
use frontdoor.Controller.Operations.{
  enter, result, safe_reason, start, start_from, start_new, start_failed, start_secured, process,
  process_from, dispatch, process_parsed, process_malformed, by_outcome, refuse, release_from,
  begin_release, actuation_error, tick, tick_at, restored, restore_failed, recoverable_failure,
  shutdown, shutdown_from, shutdown_running, secure_and_finish, attempt_cleanup, finish_shutdown,
  Call, start_call, tick_call, failure_call, shutdown_call, process_call, after_call, after_calls,
}

-- A relay whose line has a level that the world shows: a command that returns sets it, one that raises
-- leaves it, a setup and a cleanup raise it in no case, and the other ports leave it alone.
pub record HasLine {W : Type 0} (ports : Ports W) (level : W → Bool) : Type 0 where
  pub sets :
      (high : Bool) (w : W)
      → (ports.command high w).0 ≡ ok tt
      → level (ports.command high w).1 ≡ high
  pub leaves :
      (high : Bool) (w : W) (e : Exception)
      → (ports.command high w).0 ≡ err e
      → level (ports.command high w).1 ≡ level w
  pub sets_up :
      (numbering : String) (channel : ℕ) (w : W)
      → level w ≡ false
      → level (ports.setup numbering channel w).1 ≡ false
  pub cleans_up : (w : W) → level w ≡ false → level (ports.cleanup w).1 ≡ false
  pub ticks : (w : W) → level (ports.monotonic w).1 ≡ level w
  pub dates : (w : W) → level (ports.now w).1 ≡ level w
  pub names : (w : W) → level (ports.new_id w).1 ≡ level w
  pub classifies : (c : Text) (w : W) → level (ports.classify c w).1 ≡ level w
  pub appends : (e : AuditEvent) (w : W) → level (ports.append e w).1 ≡ level w
  pub enqueues : (e : AuditEvent) (w : W) → level (ports.enqueue e w).1 ≡ level w

-- After an accepted LOW the line is low, and it is high while the door is released.
pub record Follows {W : Type 0} (level : W → Bool) (d : Door W) : Type 0 where
  pub lowered : d.controller.last_relay_command_high ≡ some false → level d.world ≡ false
  pub raised :
      d.controller.state ≡ released
      → d.controller.last_relay_command_high ≡ some true
      → level d.world ≡ true

-- An action that keeps `Follows`, whether it returns or raises.
abbrev pub KeepsFollows : {W : Type 0} (level : W → Bool) {A : Type 0} → Exec (Door W) A → Type 0
KeepsFollows level m = (d : Door _) → Follows level d → Follows level (m d).1
