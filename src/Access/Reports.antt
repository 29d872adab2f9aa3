-- ===== src/Access/Reports.antt =====
-- What the result of bridgewire/application/access_service.py says of the controller.
use frontdoor.Prelude.{
  ◌≡◌, refl, ◌⊎◌, ◌↔◌, Option, some, Bool, true, ok, is_ok, Result-cases, inl, inr, arith,
}
use frontdoor.Reader.Record.{RecordResult}
use frontdoor.Controller.State.{
  AuthorizationOutcome, authorized, PhysicalReleaseStatus, asserted, actuation_failed,
  ControllerState, ready, released, AccessResult, Ports, Door,
}
use frontdoor.Controller.Operations.{process}
use frontdoor.Controller.Operations.Reports.{is_coherent, process-IsReport}
use frontdoor.Controller.Operations.Total.{IsAttentive, process-returns}
use frontdoor.Access.{
  AccessServiceResult, CredentialSource, map_result, submit_record, is_malformed_record,
  is_authorized, is_requested, is_asserted,
}

-- A result reports the states of the controller before and after coherently, and its flags agree with
-- its release and its authorization.
pub record IsFaithful (before after : ControllerState) (is_malformed : Bool)
    (a : AccessServiceResult) : Type 0 where
  pub coherent : is_coherent before a.authorization a.physical_release a.controller_state ≡ true
  pub current : a.controller_state ≡ after
  pub kind : a.malformed ≡ is_malformed
  pub allowed : (a.authorized ≡ true) ↔ (a.authorization ≡ some authorized)
  pub requested :
      (a.relay_actuation_requested ≡ true)
      ↔ ((a.physical_release ≡ asserted) ⊎ (a.physical_release ≡ actuation_failed))
  pub succeeded : (a.relay_actuation_succeeded ≡ true) ↔ (a.physical_release ≡ asserted)
  pub moved :
      a.relay_actuation_succeeded ≡ true → (a.authorized ≡ true) × (a.controller_state ≡ released)

allowed_exact : (o : Option AuthorizationOutcome) → (is_authorized o ≡ true) ↔ (o ≡ some authorized)
allowed_exact o = ground arith

requested_exact :
    (p : PhysicalReleaseStatus)
    → (is_requested p ≡ true) ↔ ((p ≡ asserted) ⊎ (p ≡ actuation_failed))
requested_exact p = ground arith

asserted_exact : (p : PhysicalReleaseStatus) → (is_asserted p ≡ true) ↔ (p ≡ asserted)
asserted_exact p = ground arith

module _ {W : Type 0} (ports : Ports W) (quiet : IsAttentive ports) where
  submitted :
      (r : RecordResult) (source : CredentialSource) (d : Door W)
      → is_ok (process ports r d).0 ≡ true
      → (a : AccessServiceResult) × ((submit_record ports r source d).0 ≡ ok a)
        × IsFaithful d.controller.state
            (submit_record ports r source d).1.controller.state
            (is_malformed_record r)
            a
  unfolding submit_record map_result
  submitted r source d returns = elim (Result-cases (process ports r d).0) [
    | inl (a, done) ↦
        let reported = λ (b : AccessResult).
          map_result (process ports r d).1.controller.state b source (is_malformed_record r) in
        let report = process-IsReport ports r d a done in
        (
          reported a,
          grind arith,
          record {
            coherent = grind arith;
            current = grind arith;
            kind = refl;
            allowed = allowed_exact a.authorization;
            requested = requested_exact a.physical_release;
            succeeded = asserted_exact a.physical_release;
            moved = grind arith;
          },
        )
    | inr (e, failed) ↦ absurd (grind arith)
  ]

  -- Where the clock is aware, the sink stores every event and the source classifies every credential,
  -- a record that is submitted to a ready or released controller gets a result, whatever the relay
  -- does. Its states, its authorization and its release fit together. It says authorized exactly where
  -- the outcome is that, that an actuation was requested exactly where the relay was asserted or the
  -- actuation failed, and that it succeeded exactly where the relay was asserted; there the credential
  -- was authorized and the door is released.
  pub submit_record-IsFaithful :
      (r : RecordResult) (source : CredentialSource) (d : Door W)
      → (d.controller.state ≡ ready) ⊎ (d.controller.state ≡ released)
      → (a : AccessServiceResult) × ((submit_record ports r source d).0 ≡ ok a)
        × IsFaithful d.controller.state
            (submit_record ports r source d).1.controller.state
            (is_malformed_record r)
            a
  submit_record-IsFaithful r source d (inl live) =
      submitted r source d ((process-returns ports quiet r d).0 live)
  submit_record-IsFaithful r source d (inr live) =
      submitted r source d ((process-returns ports quiet r d).1 live)
