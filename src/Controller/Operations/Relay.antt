-- ===== src/Controller/Operations/Relay.antt =====
-- Which calls of the relay the methods of bridgewire/controller.py make, and when.
use frontdoor.Prelude.{◌≡◌, ◌≢◌, refl, ◌⊎◌, Bool, true, false, List, [], ◌∷◌, Exception, ok, arith}
use frontdoor.Audit.{EventType, Severity, Correlation}
use frontdoor.Reader.Record.{Text, RecordResult, accepted, malformed}
use frontdoor.Escalation.{EscalationLevel}
use frontdoor.Controller.State.{
  ControllerState, AuthorizationOutcome, authorized, denied, unknown, released, stopped, Ports,
  Door,
}
use frontdoor.Controller.Effects.{
  audit, new_event, command, attempt_safe_state, escalate, announce, record_suspicious,
}
use frontdoor.Controller.Operations.{
  start, start_from, start_new, start_failed, start_secured, process, process_from, dispatch,
  process_parsed, process_malformed, by_outcome, refuse, release_from, begin_release,
  actuation_error, tick, tick_at, restored, restore_failed, recoverable_failure, shutdown,
  shutdown_from, shutdown_running, secure_and_finish, attempt_cleanup, finish_shutdown, Call,
  start_call, tick_call, failure_call, shutdown_call, process_call, after_call, after_calls,
}
use frontdoor.Controller.Tracing.{
  PortCall, set_up, commanded, cleaned_up, classified, Traced, traced,
}

module _ {W : Type 0} (ports : Ports W) where
  pub audit-log :
      (t : EventType) (s : Severity) (c : Correlation) (d : Door (Traced W))
      → (audit (traced ports) t s c d).1.world.1 ≡ d.world.1
  unfolding audit new_event
  audit-log t s c d = ground arith

  new_event-log :
      (t : EventType) (s : Severity) (c : Correlation) (d : Door (Traced W))
      → (new_event (traced ports) t s c d).1.world.1 ≡ d.world.1
  unfolding new_event
  new_event-log t s c d = ground arith

  announce-log :
      (level : EscalationLevel) (d : Door (Traced W))
      → (announce (traced ports) level d).1.world.1 ≡ d.world.1
  unfolding announce
  announce-log EscalationLevel.quiet d = refl
  announce-log EscalationLevel.warning d = audit-log _ _ _ d
  announce-log EscalationLevel.critical d = grind (arith, new_event-log, audit-log)

  escalate-log : (d : Door (Traced W)) → (escalate (traced ports) d).1.world.1 ≡ d.world.1
  unfolding escalate
  escalate-log d = ground arith

  pub record_suspicious-log :
      (d : Door (Traced W)) → (record_suspicious (traced ports) d).1.world.1 ≡ d.world.1
  unfolding record_suspicious
  record_suspicious-log d = grind (arith, escalate-log d, announce-log)

  command-log :
      (high : Bool) (d : Door (Traced W))
      → (command (traced ports) high d).1.world.1 ≡ commanded high ∷ d.world.1
  unfolding command
  command-log high d = ground arith

  attempt_safe_state-log :
      (d : Door (Traced W))
      → (attempt_safe_state (traced ports) d).1.world.1 ≡ commanded false ∷ d.world.1
  unfolding attempt_safe_state
  attempt_safe_state-log d = grind (arith, audit-log, command-log)

  -- The call at the head of a log is a classification that came out authorized.
  pub refuse-log :
      (t : EventType) (o : AuthorizationOutcome) (d : Door (Traced W))
      → (refuse (traced ports) t o d).1.world.1 ≡ d.world.1
  unfolding refuse
  refuse-log t o d = grind (arith, audit-log, record_suspicious-log)

  begin_release-log :
      (o : AuthorizationOutcome) (d : Door (Traced W))
      → (begin_release (traced ports) o d).1.world.1 ≡ d.world.1
  unfolding begin_release
  begin_release-log o d = grind (arith, audit-log)

  actuation_error-log :
      (o : AuthorizationOutcome) (e : Exception) (d : Door (Traced W))
      → ((actuation_error (traced ports) o e d).1.world.1 ≡ d.world.1)
        ⊎ ((actuation_error (traced ports) o e d).1.world.1 ≡ commanded false ∷ d.world.1)
  unfolding actuation_error
  actuation_error-log o e d = grind (arith, audit-log, attempt_safe_state-log)

  release_from-log :
      (s : ControllerState) (o : AuthorizationOutcome) (d : Door (Traced W))
      → let log = (release_from (traced ports) s o d).1.world.1 in
        (log ≡ d.world.1)
        ⊎ (log ≡ commanded true ∷ d.world.1)
        ⊎ (log ≡ commanded false ∷ commanded true ∷ d.world.1)
  unfolding release_from
  release_from-log released o d = ground arith
  release_from-log _ o d = grind (arith, command-log, begin_release-log, actuation_error-log)

-- The last call before this one classified a credential as authorized.
abbrev pub AfterAuthorized : List PortCall → Type 0
AfterAuthorized (classified credential (ok authorized) ∷ log) = Unit
AfterAuthorized _ = ⊥

-- Each HIGH of a log comes straight after such a classification.
abbrev pub IsGuarded : List PortCall → Type 0
IsGuarded [] = Unit
IsGuarded (commanded true ∷ log) = AfterAuthorized log × IsGuarded log
IsGuarded (commanded false ∷ log) = IsGuarded log
IsGuarded (set_up ∷ log) = IsGuarded log
IsGuarded (cleaned_up ∷ log) = IsGuarded log
IsGuarded (classified credential outcome ∷ log) = IsGuarded log

module _ {W : Type 0} (ports : Ports W) where
  by_outcome-IsGuarded :
      (o : AuthorizationOutcome) (c : Text) (log : List PortCall) (d : Door (Traced W))
      → d.world.1 ≡ classified c (ok o) ∷ log
      → IsGuarded log
      → IsGuarded (by_outcome (traced ports) o d).1.world.1
  unfolding by_outcome
  by_outcome-IsGuarded denied c log d h g = rw (refuse-log ports _ denied d, h) g
  by_outcome-IsGuarded unknown c log d h g = rw (refuse-log ports _ unknown d, h) g
  by_outcome-IsGuarded authorized c log d h g =
      grind (arith, audit-log ports, release_from-log ports)

  process-IsGuarded :
      (r : RecordResult) (d : Door (Traced W))
      → IsGuarded d.world.1
      → IsGuarded (process (traced ports) r d).1.world.1
  unfolding process process_from dispatch process_parsed process_malformed
  process-IsGuarded (accepted p) d g = grind (arith, by_outcome-IsGuarded)
  process-IsGuarded (malformed reason) d g =
      grind (arith, audit-log ports, record_suspicious-log ports)

  start-IsGuarded :
      (d : Door (Traced W)) → IsGuarded d.world.1 → IsGuarded (start (traced ports) d).1.world.1
  unfolding start start_from start_new start_failed start_secured
  start-IsGuarded d g = grind (arith, audit-log ports, command-log ports)

  tick-IsGuarded :
      (d : Door (Traced W)) → IsGuarded d.world.1 → IsGuarded (tick (traced ports) d).1.world.1
  unfolding tick tick_at restored restore_failed
  tick-IsGuarded d g = grind (arith, audit-log ports, command-log ports)

  recoverable_failure-IsGuarded :
      (d : Door (Traced W))
      → IsGuarded d.world.1
      → IsGuarded (recoverable_failure (traced ports) d).1.world.1
  unfolding recoverable_failure
  recoverable_failure-IsGuarded d g = grind (arith, audit-log ports, attempt_safe_state-log ports)

  attempt_cleanup-log :
      (d : Door (Traced W)) → (attempt_cleanup (traced ports) d).1.world.1 ≡ cleaned_up ∷ d.world.1
  unfolding attempt_cleanup
  attempt_cleanup-log d = grind (arith, audit-log ports)

  finish_shutdown-log :
      (secured : Bool) (d : Door (Traced W))
      → (finish_shutdown (traced ports) secured d).1.world.1 ≡ d.world.1
  unfolding finish_shutdown
  finish_shutdown-log true d = grind (arith, audit-log ports)
  finish_shutdown-log false d = ground arith

  secure_and_finish-log :
      (safe : Bool) (d : Door (Traced W))
      → (secure_and_finish (traced ports) safe d).1.world.1 ≡ cleaned_up ∷ d.world.1
  unfolding secure_and_finish
  secure_and_finish-log safe d = grind (arith, attempt_cleanup-log, finish_shutdown-log)

  -- A shutdown of a controller that is not stopped commands LOW first, before any other call of the
  -- relay, and then cleans up; it leaves the cleanup out only where it raises.
  pub shutdown-log :
      (d : Door (Traced W))
      → d.controller.state ≢ stopped
      → let (outcome, d') = shutdown (traced ports) d in
        (d'.world.1 ≡ cleaned_up ∷ commanded false ∷ d.world.1)
        ⊎ ((d'.world.1 ≡ commanded false ∷ d.world.1) × (outcome ≢ ok tt))
  unfolding shutdown shutdown_from shutdown_running
  shutdown-log d running = grind (arith, attempt_safe_state-log ports, secure_and_finish-log)

  shutdown-IsGuarded :
      (d : Door (Traced W)) → IsGuarded d.world.1 → IsGuarded (shutdown (traced ports) d).1.world.1
  unfolding shutdown shutdown_from shutdown_running
  shutdown-IsGuarded d g = grind (arith, attempt_safe_state-log ports, secure_and_finish-log)

  after_call-IsGuarded :
      (call : Call) (d : Door (Traced W))
      → IsGuarded d.world.1
      → IsGuarded (after_call (traced ports) call d).world.1
  unfolding after_call
  after_call-IsGuarded start_call d g = start-IsGuarded d g
  after_call-IsGuarded tick_call d g = tick-IsGuarded d g
  after_call-IsGuarded failure_call d g = recoverable_failure-IsGuarded d g
  after_call-IsGuarded shutdown_call d g = shutdown-IsGuarded d g
  after_call-IsGuarded (process_call r) d g = process-IsGuarded r d g

  -- Whatever calls are made and whatever the ports answer, every HIGH that the controller asks of the
  -- relay comes straight after a credential was classified as authorized.
  pub after_calls-IsGuarded :
      (calls : List Call) (d : Door (Traced W))
      → IsGuarded d.world.1
      → IsGuarded (after_calls (traced ports) calls d).world.1
  unfolding after_calls
  after_calls-IsGuarded [] d g = g
  after_calls-IsGuarded (call ∷ calls) d g =
      after_calls-IsGuarded calls (after_call (traced ports) call d) (after_call-IsGuarded call d g)
