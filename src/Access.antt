-- ===== src/Access.antt =====
-- bridgewire/application/access_service.py: the use cases above the access controller.
pub mod Reports
use frontdoor.Prelude.{
  ℕ, String, Bool, true, false, Option, none, some, Result, ok, err, Exec, pure, gets, ◌>>=◌,
}
use frontdoor.Reader.Record.{
  Text, ParsedRecord, Parsed, parsed, refused, RecordResult, accepted, malformed,
  parse_credential_identifier,
}
use frontdoor.Controller.State.{
  AuthorizationOutcome, authorized, denied, unknown, ControllerState, PhysicalReleaseStatus,
  not_requested, asserted, already_released, actuation_failed, AccessResult, Ports, Door,
}
use frontdoor.Controller.Operations.{process, start, tick, recoverable_failure, shutdown}

pub data CredentialSource : Type 0 where
  physical_reader simulator test api_injected_reader_event : CredentialSource

pub record AccessServiceResult : Type 0 where
  pub authorized : Bool
  pub authorization : Option AuthorizationOutcome
  pub malformed : Bool
  pub controller_state : ControllerState
  pub physical_release : PhysicalReleaseStatus
  pub relay_actuation_requested : Bool
  pub relay_actuation_succeeded : Bool
  pub source : CredentialSource

abbrev pub is_authorized : Option AuthorizationOutcome → Bool
is_authorized (some authorized) = true
is_authorized _ = false

-- `physical_release in {ASSERTED, ACTUATION_FAILED}`
abbrev pub is_requested : PhysicalReleaseStatus → Bool
is_requested asserted = true
is_requested actuation_failed = true
is_requested _ = false

abbrev pub is_asserted : PhysicalReleaseStatus → Bool
is_asserted asserted = true
is_asserted _ = false

-- `isinstance(record, MalformedRecord)`
abbrev pub is_malformed_record : RecordResult → Bool
is_malformed_record (accepted _) = false
is_malformed_record (malformed _) = true

-- `_map`; the state is read after the record was processed.
unfoldable pub map_result :
    ControllerState → AccessResult → CredentialSource → Bool → AccessServiceResult
map_result state r source is_malformed = record {
  authorized = is_authorized r.authorization;
  authorization = r.authorization;
  malformed = is_malformed;
  controller_state = state;
  physical_release = r.physical_release;
  relay_actuation_requested = is_requested r.physical_release;
  relay_actuation_succeeded = is_asserted r.physical_release;
  source = source;
}

-- The record that `submit_credential` submits.
abbrev pub record_of : Parsed → RecordResult
record_of (parsed p) = accepted p
record_of (refused reason) = malformed reason

module _ {W : Type 0} (ports : Ports W) where
  unfoldable pub submit_record : RecordResult → CredentialSource → Exec (Door W) AccessServiceResult
  submit_record r source = do
    result ← process ports r
    state ← gets (λ d. d.controller.state)
    pure (map_result state result source (is_malformed_record r))

  unfoldable pub submit_parsed_record :
      ParsedRecord → CredentialSource → Exec (Door W) AccessServiceResult
  submit_parsed_record p = submit_record (accepted p)

  unfoldable pub submit_credential : Text → CredentialSource → Exec (Door W) AccessServiceResult
  submit_credential credential = submit_record (record_of (parse_credential_identifier credential))

  abbrev pub start_service : Exec (Door W) Unit
  start_service = start ports

  abbrev pub tick_service : Exec (Door W) Unit
  tick_service = tick ports

  abbrev pub fail_service : Exec (Door W) Unit
  fail_service = recoverable_failure ports

  abbrev pub shutdown_service : Exec (Door W) Unit
  shutdown_service = shutdown ports
