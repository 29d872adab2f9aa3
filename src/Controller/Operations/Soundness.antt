-- ===== src/Controller/Operations/Soundness.antt =====
-- The fields of the controller of bridgewire/controller.py through its methods.
use frontdoor.Prelude.{
  ℕ, ◌≡◌, ◌⊎◌, Bool, true, false, none, some, Exception, ok, arith, is_none, String, List, [], ◌∷◌,
}
use frontdoor.Audit.{EventType}
use frontdoor.Escalation.{EscalationTracker}
use frontdoor.Reader.Record.{RecordResult, ParsedRecord, accepted, malformed}
use frontdoor.Controller.State.{
  AuthorizationOutcome, authorized, denied, unknown, initializing, ready, released, shutting_down,
  stopped, Ports, AccessController, Door, new_controller,
}
use frontdoor.Controller.Effects.Frames.{
  audit-controller, record_suspicious-SameRelease, command-controller,
  attempt_safe_state-controller,
}
use frontdoor.Controller.Operations.{
  process_from, start_from, shutdown_from, start, process, tick, recoverable_failure, shutdown,
  start_new, actuation_error, begin_release, release_from, refuse, by_outcome, process_parsed,
  process_malformed, dispatch, restore_failed, restored, tick_at, attempt_cleanup, finish_shutdown,
  shutdown_running, start_failed, start_secured, secure_and_finish, Call, start_call, tick_call,
  failure_call, shutdown_call, process_call, after_call, after_calls,
}

-- The state, the deadline and the last command that the relay took agree.
pub record IsSound (c : AccessController) : Type 0 where
  pub released_deadline : c.state ≡ released → is_none c.release_deadline ≡ false
  pub released_high : c.state ≡ released → c.last_relay_command_high ≡ some true
  pub secured_deadline :
      (c.state ≡ initializing) ⊎ (c.state ≡ ready) ⊎ (c.state ≡ stopped) → c.release_deadline ≡ none
  pub secured_low : (c.state ≡ ready) ⊎ (c.state ≡ stopped) → c.last_relay_command_high ≡ some false

module _ {W : Type 0} (ports : Ports W) where
  refuse-IsSound :
      (t : EventType) (o : AuthorizationOutcome) (d : Door W)
      → IsSound d.controller
      → IsSound (refuse ports t o d).1.controller
  unfolding refuse
  refuse-IsSound t o d h = grind (arith, audit-controller, record_suspicious-SameRelease)

  begin_release-IsSound :
      (o : AuthorizationOutcome) (d : Door W)
      → d.controller.last_relay_command_high ≡ some true
      → IsSound (begin_release ports o d).1.controller
  unfolding begin_release
  begin_release-IsSound o d h = grind (arith, audit-controller)

  actuation_error-IsSound :
      (o : AuthorizationOutcome) (e : Exception) (d : Door W)
      → d.controller.state ≡ ready
      → IsSound d.controller
      → IsSound (actuation_error ports o e d).1.controller
  unfolding actuation_error
  actuation_error-IsSound o e d s h = grind (arith, audit-controller, attempt_safe_state-controller)

  release_from-IsSound :
      (o : AuthorizationOutcome) (d : Door W)
      → (d.controller.state ≡ ready) ⊎ (d.controller.state ≡ released)
      → IsSound d.controller
      → IsSound (release_from ports d.controller.state o d).1.controller
  unfolding release_from
  release_from-IsSound o d s h =
      grind (arith, begin_release-IsSound, actuation_error-IsSound, command-controller)

  by_outcome-IsSound :
      (o : AuthorizationOutcome) (d : Door W)
      → (d.controller.state ≡ ready) ⊎ (d.controller.state ≡ released)
      → IsSound d.controller
      → IsSound (by_outcome ports o d).1.controller
  unfolding by_outcome
  by_outcome-IsSound denied d s h = refuse-IsSound _ denied d h
  by_outcome-IsSound unknown d s h = refuse-IsSound _ unknown d h
  by_outcome-IsSound authorized d s h =
      grind (arith, audit-controller, release_from-IsSound authorized)

  process_parsed-IsSound :
      (p : ParsedRecord) (d : Door W)
      → (d.controller.state ≡ ready) ⊎ (d.controller.state ≡ released)
      → IsSound d.controller
      → IsSound (process_parsed ports p d).1.controller
  unfolding process_parsed
  process_parsed-IsSound p d s h = grind (arith, by_outcome-IsSound)

  process_malformed-IsSound :
      (reason : String) (d : Door W)
      → IsSound d.controller
      → IsSound (process_malformed ports reason d).1.controller
  unfolding process_malformed
  process_malformed-IsSound reason d h =
      grind (arith, audit-controller, record_suspicious-SameRelease)

  pub process-IsSound :
      (r : RecordResult) (d : Door W)
      → IsSound d.controller
      → IsSound (process ports r d).1.controller
  unfolding process process_from dispatch
  process-IsSound (accepted p) d h = grind (arith, process_parsed-IsSound p d)
  process-IsSound (malformed reason) d h = ground (arith, process_malformed-IsSound reason d h)

  pub start-IsSound : (d : Door W) → IsSound d.controller → IsSound (start ports d).1.controller
  unfolding start start_from start_new start_failed start_secured
  start-IsSound d h = grind (arith, audit-controller, command-controller)

  pub tick-IsSound : (d : Door W) → IsSound d.controller → IsSound (tick ports d).1.controller
  unfolding tick tick_at restore_failed restored
  tick-IsSound d h = grind (arith, audit-controller, command-controller)

  pub recoverable_failure-IsSound :
      (d : Door W) → IsSound d.controller → IsSound (recoverable_failure ports d).1.controller
  unfolding recoverable_failure
  recoverable_failure-IsSound d h = grind (arith, audit-controller, attempt_safe_state-controller)

  pub attempt_cleanup-controller :
      (d : Door W) → (attempt_cleanup ports d).1.controller ≡ d.controller
  unfolding attempt_cleanup
  attempt_cleanup-controller d = grind (arith, audit-controller)

  finish_shutdown-IsSound :
      (secured : Bool) (d : Door W)
      → (secured ≡ true → d.controller.last_relay_command_high ≡ some false)
      → d.controller.release_deadline ≡ none
      → IsSound (finish_shutdown ports secured d).1.controller
  unfolding finish_shutdown
  finish_shutdown-IsSound true d low deadline = grind (arith, audit-controller)
  finish_shutdown-IsSound false d low deadline = ground arith

  -- The end of a shutdown, once the relay has been commanded.
  after_safe_state-IsSound :
      (safe : Bool) (d : Door W)
      → d.controller.state ≡ shutting_down
      → (safe ≡ true → d.controller.last_relay_command_high ≡ some false)
      → IsSound (secure_and_finish ports safe d).1.controller
  unfolding secure_and_finish
  after_safe_state-IsSound true d s low =
      grind (arith, attempt_cleanup-controller, finish_shutdown-IsSound)
  after_safe_state-IsSound false d s low =
      grind (arith, attempt_cleanup-controller, finish_shutdown-IsSound)

  pub shutdown-IsSound :
      (d : Door W) → IsSound d.controller → IsSound (shutdown ports d).1.controller
  unfolding shutdown shutdown_from shutdown_running
  shutdown-IsSound d h = grind (arith, attempt_safe_state-controller, after_safe_state-IsSound)

  after_call-IsSound :
      (call : Call) (d : Door W)
      → IsSound d.controller
      → IsSound (after_call ports call d).controller
  unfolding after_call
  after_call-IsSound start_call d h = start-IsSound d h
  after_call-IsSound tick_call d h = tick-IsSound d h
  after_call-IsSound failure_call d h = recoverable_failure-IsSound d h
  after_call-IsSound shutdown_call d h = shutdown-IsSound d h
  after_call-IsSound (process_call r) d h = process-IsSound r d h

  after_calls-IsSound :
      (calls : List Call) (d : Door W)
      → IsSound d.controller
      → IsSound (after_calls ports calls d).controller
  unfolding after_calls
  after_calls-IsSound [] d h = h
  after_calls-IsSound (call ∷ calls) d h =
      after_calls-IsSound calls (after_call ports call d) (after_call-IsSound call d h)

pub new_controller-IsSound :
    (escalation : EscalationTracker) (release_seconds gpio_channel : ℕ) {c : AccessController}
    → new_controller escalation release_seconds gpio_channel ≡ ok c
    → IsSound c
unfolding new_controller
new_controller-IsSound escalation release_seconds gpio_channel made = ground arith

-- After any calls on a new controller, returning or raising, over ports that do as they like: a
-- released door has a deadline and its last accepted command was HIGH, and a door that is ready or
-- stopped has no deadline and its last accepted command was LOW.
pub calls-IsSound :
    {W : Type 0} (ports : Ports W) (calls : List Call) (w : W) (escalation : EscalationTracker)
    (release_seconds gpio_channel : ℕ) {c : AccessController}
    → new_controller escalation release_seconds gpio_channel ≡ ok c
    → IsSound (after_calls ports calls (record { controller = c; world = w })).controller
calls-IsSound ports calls w escalation release_seconds gpio_channel {c} made =
    after_calls-IsSound ports calls (record { controller = c; world = w })
      (new_controller-IsSound escalation release_seconds gpio_channel made)
