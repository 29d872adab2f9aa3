-- ===== src/Controller/Operations/Reports.antt =====
-- What the result of `process` of bridgewire/controller.py says of the controller.
use frontdoor.Prelude.{◌≡◌, Bool, true, false, Option, some, Exception, Result, ok, ◌⊎◌, arith}
use frontdoor.Reader.Record.{RecordResult, accepted, malformed}
use frontdoor.Controller.State.{
  AuthorizationOutcome, authorized, denied, unknown, ControllerState, ready, released, faulted,
  PhysicalReleaseStatus, not_requested, asserted, already_released, actuation_failed, AccessResult,
  Ports, Door,
}
use frontdoor.Audit.{EventType, credential_denied, credential_unknown}
use frontdoor.Controller.Effects.{on_world, read_world, update}
use frontdoor.Controller.Effects.Frames.{audit-controller, record_suspicious-SameRelease}
use frontdoor.Controller.Operations.{
  result, enter, process, process_from, dispatch, process_parsed, process_malformed, by_outcome,
  refuse, release_from, begin_release, actuation_error,
}

-- The results that `process` may report, by the states before and after, the authorization and the
-- release.
abbrev pub is_coherent :
    ControllerState → Option AuthorizationOutcome → PhysicalReleaseStatus → ControllerState → Bool
is_coherent ready (some authorized) asserted released = true
is_coherent ready (some authorized) actuation_failed faulted = true
is_coherent released (some authorized) already_released released = true
is_coherent before (some authorized) _ after = false
is_coherent ready _ not_requested ready = true
is_coherent released _ not_requested released = true
is_coherent before _ _ after = false

module _ {W : Type 0} (ports : Ports W) where
  -- What an action that returns says is coherent with the states of the controller.
  abbrev pub IsReport : ControllerState → Result AccessResult × Door W → Type 0
  IsReport before (outcome, after) =
      (a : AccessResult)
      → outcome ≡ ok a
      → is_coherent before a.authorization a.physical_release after.controller.state ≡ true

  refuse-report :
      (t : EventType) (o : AuthorizationOutcome) (d : Door W) (a : AccessResult)
      → (refuse ports t o d).0 ≡ ok a
      → (a ≡ result (some o) not_requested)
        × ((refuse ports t o d).1.controller.state ≡ d.controller.state)
  unfolding refuse
  refuse-report t o d a done =
      (grind arith, grind (arith, audit-controller, record_suspicious-SameRelease))

  begin_release-report :
      (o : AuthorizationOutcome) (d : Door W) (a : AccessResult)
      → (begin_release ports o d).0 ≡ ok a
      → (a ≡ result (some o) asserted) × ((begin_release ports o d).1.controller.state ≡ released)
  unfolding begin_release read_world update
  begin_release-report o d a done = (grind arith, grind (arith, audit-controller))

  actuation_error-report :
      (o : AuthorizationOutcome) (e : Exception) (d : Door W) (a : AccessResult)
      → (actuation_error ports o e d).0 ≡ ok a
      → (a ≡ result (some o) actuation_failed)
        × ((actuation_error ports o e d).1.controller.state ≡ faulted)
  unfolding actuation_error enter update
  actuation_error-report o e d a done = (grind arith, grind arith)

  by_outcome-IsReport :
      (o : AuthorizationOutcome) (d : Door W)
      → (d.controller.state ≡ ready) ⊎ (d.controller.state ≡ released)
      → IsReport d.controller.state (by_outcome ports o d)
  unfolding by_outcome release_from
  by_outcome-IsReport denied d live a done =
      grind (arith, refuse-report credential_denied denied d a)
  by_outcome-IsReport unknown d live a done =
      grind (arith, refuse-report credential_unknown unknown d a)
  by_outcome-IsReport authorized d live a done =
      grind (arith, audit-controller, begin_release-report, actuation_error-report)

  pub process-IsReport :
      (r : RecordResult) (d : Door W) → IsReport d.controller.state (process ports r d)
  unfolding process process_from dispatch process_parsed process_malformed on_world read_world
      update
  process-IsReport (malformed reason) d a done =
      grind (arith, audit-controller, record_suspicious-SameRelease)
  process-IsReport (accepted p) d a done = grind (arith, by_outcome-IsReport)
