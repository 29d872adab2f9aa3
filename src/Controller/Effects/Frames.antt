-- ===== src/Controller/Effects/Frames.antt =====
-- What the private steps of bridgewire/controller.py leave alone.
use frontdoor.Prelude.{◌≡◌, refl, ◌⊎◌, ◌≢◌, Bool, true, false, Exception, some, ok, err, arith}
use frontdoor.Audit.{EventType, Severity, Correlation}
use frontdoor.Escalation.{EscalationLevel}
use frontdoor.Controller.State.{Ports, AccessController, Door}
use frontdoor.Controller.Effects.{
  new_event, audit, command, attempt_safe_state, escalate, announce, record_suspicious,
}

-- The controller but for its escalation tracker.
pub record SameRelease (c c' : AccessController) : Type 0 where
  pub release_seconds : c'.release_seconds ≡ c.release_seconds
  pub gpio_channel : c'.gpio_channel ≡ c.gpio_channel
  pub state : c'.state ≡ c.state
  pub release_deadline : c'.release_deadline ≡ c.release_deadline
  pub last_relay_command_high : c'.last_relay_command_high ≡ c.last_relay_command_high
  pub last_credential_processed_at :
      c'.last_credential_processed_at ≡ c.last_credential_processed_at

module _ {W : Type 0} (ports : Ports W) where
  pub new_event-controller :
      (t : EventType) (s : Severity) (c : Correlation) (d : Door W)
      → (new_event ports t s c d).1.controller ≡ d.controller
  unfolding new_event
  new_event-controller t s c d = ground arith

  pub audit-controller :
      (t : EventType) (s : Severity) (c : Correlation) (d : Door W)
      → (audit ports t s c d).1.controller ≡ d.controller
  unfolding audit new_event
  audit-controller t s c d = ground arith

  escalate-SameRelease : (d : Door W) → SameRelease d.controller (escalate ports d).1.controller
  unfolding escalate
  escalate-SameRelease d = ground arith

  announce-controller :
      (level : EscalationLevel) (d : Door W) → (announce ports level d).1.controller ≡ d.controller
  unfolding announce
  announce-controller EscalationLevel.quiet d = refl
  announce-controller EscalationLevel.warning d = audit-controller _ _ _ d
  announce-controller EscalationLevel.critical d =
      grind (arith, new_event-controller, audit-controller)

  pub record_suspicious-SameRelease :
      (d : Door W) → SameRelease d.controller (record_suspicious ports d).1.controller
  unfolding record_suspicious
  record_suspicious-SameRelease d = grind (arith, escalate-SameRelease d, announce-controller)

  -- A command that returns is noted; one that raises leaves the controller as it was.
  pub command-controller :
      (high : Bool) (d : Door W)
      → let (outcome, d') = command ports high d in
        ((outcome ≡ ok tt)
          → d'.controller ≡ record d.controller { last_relay_command_high = some high })
        × ((e : Exception) → outcome ≡ err e → d'.controller ≡ d.controller)
  unfolding command
  command-controller high d = ground arith

  -- A safe state that is reached is noted; one that is not leaves the controller as it was.
  pub attempt_safe_state-controller :
      (d : Door W)
      → let (outcome, d') = attempt_safe_state ports d in
        ((outcome ≡ ok true)
          × (d'.controller ≡ record d.controller { last_relay_command_high = some false }))
        ⊎ ((outcome ≢ ok true) × (d'.controller ≡ d.controller))
  unfolding attempt_safe_state
  attempt_safe_state-controller d = grind (arith, audit-controller)
