-- ===== src/Tests/Statuses.antt =====
-- The health of a door whose snapshot was published two ticks ago.
use frontdoor.Prelude.{refl, true, false, none, some, ok}
use frontdoor.Clock.{Timestamp, utc}
use frontdoor.Authorization.{AuthorizationSnapshot}
use frontdoor.Controller.State.{ControllerState, ControllerSnapshot}
use frontdoor.Reader.Supervisor.State.{ReaderHealthState, ReaderSnapshot}
use frontdoor.Status.{OperationalSnapshotStore, Sources, StatusService, publish}
use frontdoor.Status.Health.Published.{Answers}

abbrev pub door : ControllerSnapshot
door = record {
  state = ControllerState.ready;
  release_active = false;
  release_deadline_monotonic = none;
  release_remaining_seconds = none;
  configured_release_seconds = 3000;
  last_relay_command = none;
  last_credential_processed_at = none;
}

abbrev pub reader : ReaderSnapshot
reader = record {
  connected = true;
  health_state = ReaderHealthState.ready;
  last_record_age_seconds = some 1;
}

abbrev pub empty_store : OperationalSnapshotStore
empty_store = record { snapshot = none }

abbrev pub published_at : Timestamp
published_at = record { instant = 5; zone = utc }

abbrev loaded : AuthorizationSnapshot
loaded = record {
  loaded = true;
  record_count = 2;
  source_revision = none;
  source_modified_at = none;
}

abbrev pub sources : Sources (Unit {0})
sources = record {
  operational = λ w. (publish door reader published_at empty_store).1.snapshot;
  authorization = λ w. loaded;
  now = λ w. (record { instant = 7; zone = utc }, w);
  latest_event_time = λ w. (ok none, w);
  pending_count = λ w. (ok 3, w);
}

abbrev pub service : StatusService
service = record { started_at = record { instant = 0; zone = utc }; software_version = "0.1.0" }

pub answers : Answers sources tt (publish door reader published_at empty_store).1
answers = record {
  operational = refl;
  aware = refl;
  latest = none;
  audited = refl;
  pending = 3;
  counted = refl;
}
