-- ===== src/Controller/Effects.antt =====
-- The steps that the methods of the access controller share: `_new_event`, `_audit`,
-- `_attempt_safe_state` and `_record_suspicious` of bridgewire/controller.py.
pub mod Frames
use frontdoor.Prelude.{
  ℕ, String, Bool, true, false, Option, none, some, List, [], ◌∷◌, Exception, Result, ok, err, Exec,
  pure, raise, gets, lift, try_else, ◌>>=◌, ◌>>◌,
}
use frontdoor.Audit.{
  AuditEvent, EventType, Severity, Correlation, Value, relay_control_error, escalation_warning,
  escalation_critical, notification_delivery_failed, warning, critical, error, checked_event,
}
use frontdoor.Escalation
use frontdoor.Escalation.{EscalationLevel, record_event}
use frontdoor.Controller.State.{Ports, AccessController, Door, state_value}

module _ {W : Type 0} where
  -- An operation of a port.
  unfoldable pub on_world : {A : Type 0} → (W → Result A × W) → Exec (Door W) A
  on_world f d = let (result, w) = f d.world in (result, record d { world = w })

  -- A reading of a clock, which does not raise.
  unfoldable pub read_world : {A : Type 0} → (W → A × W) → Exec (Door W) A
  read_world f d = let (a, w) = f d.world in (ok a, record d { world = w })

  unfoldable pub update : (AccessController → AccessController) → Exec (Door W) Unit
  update f d = (ok tt, record d { controller = f d.controller })

-- `{"reason": reason}`
abbrev pub reason_of : String → Correlation
reason_of reason = ("reason", Value.text reason) ∷ []

module _ {W : Type 0} (ports : Ports W) where
  -- `_new_event`; the constructor of the event may raise.
  unfoldable pub new_event : EventType → Severity → Correlation → Exec (Door W) AuditEvent
  unfolding read_world
  new_event event_type severity correlation = do
    timestamp ← read_world ports.now
    id ← read_world ports.new_id
    c ← gets (λ d. d.controller)
    lift (
        checked_event (record {
          event_type = event_type;
          severity = severity;
          timestamp = timestamp;
          correlation = correlation;
          reader_state = none;
          controller_state = some (state_value c.state);
          delivery_status = none;
          event_id = id;
        }))

  -- `_audit`
  unfoldable pub audit : EventType → Severity → Correlation → Exec (Door W) Unit
  unfolding on_world
  audit event_type severity correlation = do
    event ← new_event event_type severity correlation
    on_world (ports.append event)

  -- `self._relay.command(high)` and the note of it.
  unfoldable pub command : Bool → Exec (Door W) Unit
  unfolding on_world update
  command high = do
    on_world (ports.command high)
    update (λ c. record c { last_relay_command_high = some high })

  -- `_attempt_safe_state`
  unfoldable pub attempt_safe_state : Exec (Door W) Bool
  unfolding command
  attempt_safe_state =
      try_else (command false)
        (λ e. audit relay_control_error critical (reason_of "low_failed") >> pure false)
        (λ _. pure true)

  -- `self._escalation.record(self._clock.monotonic())`
  unfoldable pub escalate : Exec (Door W) EscalationLevel
  unfolding read_world update
  escalate = do
    timestamp ← read_world ports.monotonic
    c ← gets (λ d. d.controller)
    let step = record_event c.escalation timestamp
    update (λ c. record c { escalation = step.1 })
    pure step.0

  -- The branches of `_record_suspicious`.
  unfoldable pub announce : EscalationLevel → Exec (Door W) Unit
  unfolding on_world
  announce EscalationLevel.quiet = pure tt
  announce EscalationLevel.warning = audit escalation_warning warning []
  announce EscalationLevel.critical = do
    event ← new_event escalation_critical critical []
    on_world (ports.append event)
    try_else (on_world (ports.enqueue event))
        (λ e. audit notification_delivery_failed error (reason_of "queue_unavailable"))
        (λ _. pure tt)

  -- `_record_suspicious`
  unfoldable pub record_suspicious : Exec (Door W) Unit
  record_suspicious = do level ← escalate; announce level
