-- ===== src/Status/Health.antt =====
-- `health` of bridgewire/application/query_service.py.
pub mod Published
use frontdoor.Prelude.{
  ℕ, String, Bool, true, false, not, ◌&&◌, Option, none, some, Exception,
  snapshot_unavailable_error, Result, ok, err, Exec, pure, raise, try_else, leb, if◌then◌else◌,
}
use frontdoor.Controller.State.{ControllerState}
use frontdoor.Reader.Supervisor.State.{ReaderHealthState}
use frontdoor.Status.{Sources, StatusService, StatusSnapshot, status_snapshot}

pub record HealthSnapshot : Type 0 where
  pub status : String
  pub controller_state : Option ControllerState
  pub reader_health : Option ReaderHealthState
  pub operational_snapshot_stale : Bool

-- `in {ControllerState.READY, ControllerState.RELEASED}`
abbrev pub is_serving : ControllerState → Bool
is_serving ControllerState.ready = true
is_serving ControllerState.released = true
is_serving _ = false

-- `is ReaderHealthState.READY`
abbrev pub is_reader_ready : ReaderHealthState → Bool
is_reader_ready ReaderHealthState.ready = true
is_reader_ready _ = false

unfoldable pub health_of : ℕ → StatusSnapshot → HealthSnapshot
health_of stale_after snapshot =
    let stale = leb stale_after snapshot.snapshot_age_seconds in
    let healthy =
      not stale
      && (is_serving snapshot.controller_state
          && (is_reader_ready snapshot.reader_health && snapshot.authorization_loaded)) in
    record {
      status = if healthy then "healthy" else "degraded";
      controller_state = some snapshot.controller_state;
      reader_health = some snapshot.reader_health;
      operational_snapshot_stale = stale;
    }

abbrev pub unavailable : HealthSnapshot
unavailable = record {
  status = "unavailable";
  controller_state = none;
  reader_health = none;
  operational_snapshot_stale = true;
}

abbrev pub health_error : {W : Type 0} → Exception → Exec W HealthSnapshot
health_error snapshot_unavailable_error = pure unavailable
health_error e = raise e

-- `ReadOnlyQueryService.health`
unfoldable pub health : {W : Type 0} → Sources W → ℕ → StatusService → Exec W HealthSnapshot
unfolding health_of
health sources stale_after service =
    try_else (status_snapshot sources service) health_error
      λ snapshot. pure (health_of stale_after snapshot)
