-- ===== src/Controller/Operations/Total.antt =====
-- Where `process` of bridgewire/controller.py returns and where it raises.
use frontdoor.Prelude.{
  runtime_error, some, is_ok, ◌≡◌, ◌≢◌, refl, inl, inr, true, [], Exception, ok, err, arith, String,
  text_in, text_in-All, Bool-cases,
}
use frontdoor.Clock.{is_aware}
use frontdoor.Audit.{
  AuditEvent, EventType, Severity, Correlation, get, reason_passes, escalation_critical,
  relay_control_error, relay_asserted, credential_authorized, malformed_record, info, warning,
  notification_delivery_failed, critical, error, allowed_reasons, reader_reasons,
}
use frontdoor.Audit.Validation.{keys_allowed, passes_all}
use frontdoor.Reader.Record.{Text, RecordResult, ParsedRecord, accepted, malformed}
use frontdoor.Escalation.{EscalationLevel}
use frontdoor.Controller.State.{
  ControllerState, AuthorizationOutcome, authorized, denied, unknown, ready, released, Ports, Door,
  asserted, actuation_failed, not_requested,
}
use frontdoor.Controller.Effects.{
  update, read_world, on_world, audit, new_event, attempt_safe_state, escalate, announce,
  record_suspicious, reason_of,
}
use frontdoor.Controller.Operations.{
  result, enter, process, process_from, dispatch, process_parsed, process_malformed, by_outcome,
  refuse, release_from, begin_release, actuation_error, safe_reason,
}

-- Ports whose clock is aware, whose sink stores every event and whose source classifies every
-- credential. Nothing is said of the relay and of the notification queue.
pub record IsAttentive {W : Type 0} (ports : Ports W) : Type 0 where
  pub aware : (w : W) → is_aware (ports.now w).0 ≡ true
  pub stores : (e : AuditEvent) (w : W) → (ports.append e w).0 ≡ ok tt
  pub classifies : (c : Text) (w : W) → (o : AuthorizationOutcome) × ((ports.classify c w).0 ≡ ok o)

-- A correlation that the constructor of an event accepts.
abbrev pub IsFit : Correlation → Type 0
IsFit c = (keys_allowed c ≡ true) × (reason_passes (get "reason" c) ≡ true)

safe_reason-allowed : (reason : String) → text_in (safe_reason reason) allowed_reasons ≡ true
unfolding safe_reason
safe_reason-allowed reason = elim (Bool-cases (text_in reason reader_reasons)) [
  | inl known ↦ rw known (
      text_in-All (λ r. text_in r allowed_reasons ≡ true) reason reader_reasons
        (refl, (refl, (refl, (refl, (refl, (refl, (refl, (refl, tt)))))))) known)
  | inr other ↦ rw other
]

module _ {W : Type 0} (ports : Ports W) (quiet : IsAttentive ports) where
  new_event_total :
      (t : EventType) (s : Severity) (c : Correlation) (d : Door W)
      → IsFit c
      → (e : AuditEvent) × ((new_event ports t s c d).0 ≡ ok e)
  unfolding new_event
  new_event_total t s c d fit = (_, (passes_all _).1 (quiet.aware d.world, fit.0, fit.1))

  pub audit_total :
      (t : EventType) (s : Severity) (c : Correlation) (d : Door W)
      → IsFit c
      → (audit ports t s c d).0 ≡ ok tt
  unfolding audit
  audit_total t s c d fit =
      let (e, made) = new_event_total t s c d fit in
      ground (arith, made, quiet.stores e (new_event ports t s c d).1.world)

  announce_total : (level : EscalationLevel) (d : Door W) → (announce ports level d).0 ≡ ok tt
  unfolding announce
  announce_total EscalationLevel.quiet d = refl
  announce_total EscalationLevel.warning d = audit_total _ _ [] d (refl, refl)
  announce_total EscalationLevel.critical d =
      let (e, made) = new_event_total escalation_critical critical [] d (refl, refl) in
      grind (
        arith,
        made,
        quiet.stores,
        audit_total notification_delivery_failed error (reason_of "queue_unavailable"),
      )

  record_suspicious_total : (d : Door W) → (record_suspicious ports d).0 ≡ ok tt
  unfolding record_suspicious escalate
  record_suspicious_total d = grind (arith, announce_total)

  attempt_safe_state_total : (d : Door W) → is_ok (attempt_safe_state ports d).0 ≡ true
  unfolding attempt_safe_state
  attempt_safe_state_total d =
      grind (arith, audit_total relay_control_error critical (reason_of "low_failed"))

  refuse_total :
      (t : EventType) (o : AuthorizationOutcome) (d : Door W)
      → (refuse ports t o d).0 ≡ ok (result (some o) not_requested)
  unfolding refuse
  refuse_total t o d = grind (arith, audit_total t warning [], record_suspicious_total)

  actuation_error_total :
      (o : AuthorizationOutcome) (e : Exception) (d : Door W)
      → (actuation_error ports o e d).0 ≡ ok (result (some o) actuation_failed)
  unfolding actuation_error enter update
  actuation_error_total o e d = grind (
    arith,
    audit_total relay_control_error critical (reason_of "high_failed"),
    attempt_safe_state_total,
  )

  begin_release_total :
      (o : AuthorizationOutcome) (d : Door W)
      → (begin_release ports o d).0 ≡ ok (result (some o) asserted)
  unfolding begin_release read_world update
  begin_release_total o d = grind (arith, audit_total relay_asserted info)

  release_from_total :
      (s : ControllerState) (o : AuthorizationOutcome) (d : Door W)
      → is_ok (release_from ports s o d).0 ≡ true
  unfolding release_from
  release_from_total s o d = grind (arith, actuation_error_total, begin_release_total)

  by_outcome_total : (o : AuthorizationOutcome) (d : Door W) → is_ok (by_outcome ports o d).0 ≡ true
  unfolding by_outcome
  by_outcome_total authorized d =
      grind (arith, audit_total credential_authorized info [], release_from_total)
  by_outcome_total denied d = grind (arith, refuse_total)
  by_outcome_total unknown d = grind (arith, refuse_total)

  process_parsed_total : (p : ParsedRecord) (d : Door W) → is_ok (process_parsed ports p d).0 ≡ true
  unfolding process_parsed on_world read_world update
  process_parsed_total p d =
      let (o, found) = quiet.classifies p.credential d.world in
      grind (arith, found, by_outcome_total)

  process_malformed_total :
      (reason : String) (d : Door W) → is_ok (process_malformed ports reason d).0 ≡ true
  unfolding process_malformed
  process_malformed_total reason d =
      let first =
        audit_total malformed_record warning (reason_of (safe_reason reason)) d
          (refl, safe_reason-allowed reason) in
      grind (arith, first, record_suspicious_total)

  -- Where the clock is aware, the sink stores every event and the source classifies every
  -- credential, `process` returns a result for every record while the controller is ready or
  -- released, whatever the relay and the notification queue do; in every other state it raises
  -- `RuntimeError` and changes nothing.
  pub process-returns :
      (r : RecordResult) (d : Door W)
      → (d.controller.state ≡ ready → is_ok (process ports r d).0 ≡ true)
        × (d.controller.state ≡ released → is_ok (process ports r d).0 ≡ true)
        × (d.controller.state ≢ ready
            → d.controller.state ≢ released
            → process ports r d ≡ (err runtime_error, d))
  unfolding process process_from dispatch
  process-returns (malformed reason) d = grind (arith, process_malformed_total)
  process-returns (accepted p) d = grind (arith, process_parsed_total)
