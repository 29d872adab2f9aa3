-- ===== src/Controller/Operations/Line/Processing.antt =====
-- `process` of bridgewire/controller.py and the level of the relay's line.
use frontdoor.Prelude.{
  String, ◌≡◌, Bool, true, none, some, [], ◌∷◌, Exception, pure, ◌>>=◌, arith, ◌>>◌, ◌+◌, inl, inr,
  Result-cases,
}
use frontdoor.Audit.{
  EventType, Correlation, relay_control_error, critical, warning, relay_asserted, info,
  credential_authorized, malformed_record, Value,
}
use frontdoor.Reader.Record.{RecordResult, ParsedRecord, accepted, malformed}
use frontdoor.Controller.State.{
  ControllerState, AuthorizationOutcome, authorized, denied, unknown, ready, released, faulted,
  Ports, not_requested, actuation_failed, asserted, Door,
}
use frontdoor.Controller.Effects.{
  on_world, reason_of, audit, command, attempt_safe_state, record_suspicious,
}
use frontdoor.Controller.Effects.Frames.{command-controller}
use frontdoor.Controller.Operations.{
  enter, result, safe_reason, process, process_from, dispatch, process_parsed, process_malformed,
  by_outcome, refuse, release_from, begin_release, actuation_error,
}
use frontdoor.Controller.Operations.Line.{HasLine, Follows, KeepsFollows}
use frontdoor.Controller.Operations.Line.Effects.{
  command-line, bind-KeepsFollows, audit-Follows, record_suspicious-Follows,
  attempt_safe_state-Follows, command-Follows, enter-Follows,
}

module _ {W : Type 0} (ports : Ports W) (level : W → Bool) (line : HasLine ports level) where
  refuse-Follows :
      (t : EventType) (o : AuthorizationOutcome) → KeepsFollows level (refuse ports t o)
  unfolding refuse
  refuse-Follows t o =
      (bind-KeepsFollows ports level line) (audit ports t warning [])
        (λ _. record_suspicious ports >> pure (result (some o) not_requested))
        ((audit-Follows ports level line) t warning [])
        (λ _.
          (bind-KeepsFollows ports level line) (record_suspicious ports)
            (λ _. pure (result (some o) not_requested)) (record_suspicious-Follows ports level line)
            (λ _ d h. h))

  actuation_error-Follows :
      (o : AuthorizationOutcome) (e : Exception) → KeepsFollows level (actuation_error ports o e)
  unfolding actuation_error
  actuation_error-Follows o e =
      (bind-KeepsFollows ports level line)
        (audit ports relay_control_error critical (reason_of "high_failed"))
        (λ _. attempt_safe_state ports >>= λ _.
          enter ports faulted >> pure (result (some o) actuation_failed))
        ((audit-Follows ports level line) _ _ _)
        (λ _.
          (bind-KeepsFollows ports level line) (attempt_safe_state ports)
            (λ _. enter ports faulted >> pure (result (some o) actuation_failed))
            (attempt_safe_state-Follows ports level line)
            (λ _.
              (bind-KeepsFollows ports level line) (enter ports faulted)
                (λ _. pure (result (some o) actuation_failed))
                ((enter-Follows ports level line) faulted (λ same. absurd (cc))) (λ _ d h. h)))

  begin_release-Follows :
      (o : AuthorizationOutcome) (d : Door W)
      → level d.world ≡ true
      → d.controller.last_relay_command_high ≡ some true
      → Follows level (begin_release ports o d).1
  unfolding begin_release
  begin_release-Follows o d high last =
      let duration : Correlation =
        ("duration_seconds", Value.number d.controller.release_seconds) ∷ [] in
      (bind-KeepsFollows ports level line) (audit ports relay_asserted info duration)
        (λ _. pure (result (some o) asserted)) ((audit-Follows ports level line) _ _ _) (λ _ d h. h)
        (record {
          controller = record d.controller {
            state = released;
            release_deadline = some ((ports.monotonic d.world).0 + d.controller.release_seconds);
          };
          world = (ports.monotonic d.world).1;
        })
        (ground (arith, line.ticks d.world, high, last))

  release_from-Follows :
      (s : ControllerState) (o : AuthorizationOutcome) → KeepsFollows level (release_from ports s o)
  unfolding release_from
  release_from-Follows released o d h = h
  release_from-Follows _ o d h =
      let (noted, unchanged) = command-controller ports true d in
      let (sets, leaves) = (command-line ports level line) true d in
      let kept = (command-Follows ports level line) true d h in
      let d' = (command ports true d).1 in
      elim (Result-cases (command ports true d).0) [
        | inl (a, done) ↦
            ground
              (arith, done, begin_release-Follows o d' (sets done) (ground (arith, noted done)))
        | inr (e, failed) ↦ ground (arith, failed, actuation_error-Follows o e d' kept)
      ]

  by_outcome-Follows : (o : AuthorizationOutcome) → KeepsFollows level (by_outcome ports o)
  unfolding by_outcome
  by_outcome-Follows denied = refuse-Follows _ denied
  by_outcome-Follows unknown = refuse-Follows _ unknown
  by_outcome-Follows authorized =
      (bind-KeepsFollows ports level line) (audit ports credential_authorized info [])
        (λ _ d. release_from ports d.controller.state authorized d)
        ((audit-Follows ports level line) _ _ _)
        (λ _ d h. release_from-Follows d.controller.state authorized d h)

  process_parsed-Follows : (p : ParsedRecord) → KeepsFollows level (process_parsed ports p)
  unfolding process_parsed on_world
  process_parsed-Follows p d h =
      let (outcome, w) = ports.classify p.credential d.world in
      let (now, w') = ports.now w in
      let found = line.classifies p.credential d.world in
      let dated = line.dates w in
      let rest = λ (o : AuthorizationOutcome).
        by_outcome-Follows o
          (record {
            controller = record d.controller { last_credential_processed_at = some now };
            world = w';
          })
          (ground (arith, h, found, dated)) in
      elim (Result-cases outcome) [
        | inl (o, made) ↦ ground (arith, made, rest o)
        | inr (e, failed) ↦ ground (arith, failed, found, h)
      ]

  process_malformed-Follows :
      (reason : String) → KeepsFollows level (process_malformed ports reason)
  unfolding process_malformed
  process_malformed-Follows reason =
      (bind-KeepsFollows ports level line)
        (audit ports malformed_record warning (reason_of (safe_reason reason)))
        (λ _. record_suspicious ports >> pure (result none not_requested))
        ((audit-Follows ports level line) _ _ _)
        (λ _.
          (bind-KeepsFollows ports level line) (record_suspicious ports)
            (λ _. pure (result none not_requested)) (record_suspicious-Follows ports level line)
            (λ _ d h. h))

  dispatch-Follows : (r : RecordResult) → KeepsFollows level (dispatch ports r)
  unfolding dispatch
  dispatch-Follows (malformed reason) = process_malformed-Follows reason
  dispatch-Follows (accepted p) = process_parsed-Follows p

  process_from-Follows :
      (s : ControllerState) (r : RecordResult) → KeepsFollows level (process_from ports s r)
  unfolding process_from
  process_from-Follows ready r d h = dispatch-Follows r d h
  process_from-Follows released r d h = dispatch-Follows r d h
  process_from-Follows _ r d h = h

  pub process-Follows : (r : RecordResult) → KeepsFollows level (process ports r)
  unfolding process
  process-Follows r d h = process_from-Follows d.controller.state r d h
