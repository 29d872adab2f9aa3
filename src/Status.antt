-- ===== src/Status.antt =====
-- bridgewire/application/status_service.py: the snapshot that the runtime publishes, and the status
-- that is assembled from it. Ages are clock ticks; the difference of two times stops at 0, as the
-- source's `max(0.0, …)` does, and so does a time before tick 0.
pub mod Health
use frontdoor.Prelude.{
  ℕ, ◌+◌, ◌-◌, String, Bool, true, false, not, Option, none, some, Exception, value_error,
  type_error, snapshot_unavailable_error, Result, ok, err, Exec, pure, raise, gets, lift, ◌>>=◌,
  if◌then◌else◌,
}
use frontdoor.Clock.{Timestamp, is_aware, as_utc}
use frontdoor.Authorization.{AuthorizationSnapshot}
use frontdoor.Controller.State.{ControllerState, RelayCommand, ControllerSnapshot}
use frontdoor.Reader.Supervisor.State.{ReaderHealthState, ReaderSnapshot}

pub record OperationalSnapshot : Type 0 where
  pub controller : ControllerSnapshot
  pub reader : ReaderSnapshot
  pub published_at : Timestamp
  pub last_reader_record_at : Option Timestamp

-- `OperationalSnapshotStore`, whose lock makes each operation one step.
pub record OperationalSnapshotStore : Type 0 where
  pub snapshot : Option OperationalSnapshot

-- `timestamp - timedelta(seconds=…)` and `timestamp + timedelta(seconds=…)`
abbrev pub earlier : Timestamp → ℕ → Timestamp
earlier t seconds = record t { instant = t.instant - seconds }

abbrev pub later : Timestamp → ℕ → Timestamp
later t seconds = record t { instant = t.instant + seconds }

abbrev pub map_option {ℓ κ} : {A : Type ℓ} {B : Type κ} → (A → B) → Option A → Option B
map_option f none = none
map_option f (some a) = some (f a)

-- `OperationalSnapshotStore.publish`
unfoldable pub publish :
    ControllerSnapshot → ReaderSnapshot → Timestamp → Exec OperationalSnapshotStore Unit
publish controller reader published_at store =
    if not (is_aware published_at)
    then (err value_error, store)
    else (let normalized = as_utc published_at in
        (
          ok tt,
          record {
            snapshot = some (record {
              controller = controller;
              reader = reader;
              published_at = normalized;
              last_reader_record_at =
                  map_option (earlier normalized) reader.last_record_age_seconds;
            });
          },
        ))

-- The protocols that the service reads from, as operations on a world `W`.
pub record Sources (W : Type 0) : Type 0 where
  pub operational : W → Option OperationalSnapshot
  pub authorization : W → AuthorizationSnapshot
  pub now : W → Timestamp × W
  pub latest_event_time : W → Result (Option Timestamp) × W
  pub pending_count : W → Result ℕ × W

pub record StatusSnapshot : Type 0 where
  pub controller_state : ControllerState
  pub reader_connected : Bool
  pub reader_health : ReaderHealthState
  pub snapshot_published_at : Timestamp
  pub snapshot_age_seconds : ℕ
  pub last_credential_processed_at : Option Timestamp
  pub last_reader_record_age_seconds : Option ℕ
  pub release_active : Bool
  pub release_deadline_at : Option Timestamp
  pub release_remaining_seconds : Option ℕ
  pub configured_release_seconds : ℕ
  pub last_relay_command : Option RelayCommand
  pub authorization_loaded : Bool
  pub authorization_record_count : ℕ
  pub authorization_source_revision : Option (ℕ × ℕ)
  pub authorization_source_modified_at : Option Timestamp
  pub last_audit_event_at : Option Timestamp
  pub pending_notification_count : ℕ
  pub application_started_at : Timestamp
  pub software_version : String

pub record StatusService : Type 0 where
  pub started_at : Timestamp
  pub software_version : String

-- `StatusService.__init__`
unfoldable pub new_status_service : String → Timestamp → Result StatusService
new_status_service version started_at =
    if not (is_aware started_at)
    then err value_error
    else ok (record { started_at = started_at; software_version = version })

-- `max(0.0, (now - past).total_seconds())`: only two aware or two naive times have a difference.
abbrev pub seconds_since : Timestamp → Timestamp → Result ℕ
seconds_since now past =
    if is_aware now
    then (if is_aware past then ok (now.instant - past.instant) else err type_error)
    else (if is_aware past then err type_error else ok (now.instant - past.instant))

abbrev pub optional_seconds_since : Timestamp → Option Timestamp → Result (Option ℕ)
optional_seconds_since now none = ok none
optional_seconds_since now (some past) = elim (seconds_since now past) [
  | ok age ↦ ok (some age)
  | err e ↦ err e
]

module _ {W : Type 0} (sources : Sources W) where
  abbrev read_now : Exec W Timestamp
  read_now w = let (now, w') = sources.now w in (ok now, w')

  -- The end of `StatusService.snapshot`, once there is a snapshot.
  pub assemble : StatusService → OperationalSnapshot → Exec W StatusSnapshot
  assemble service operational = do
    authorization ← gets sources.authorization
    now ← read_now
    snapshot_age ← lift (seconds_since now operational.published_at)
    record_age ← lift (optional_seconds_since now operational.last_reader_record_at)
    latest ← sources.latest_event_time
    pending ← sources.pending_count
    let controller = operational.controller
    let reader = operational.reader
    pure (record {
      controller_state = controller.state;
      reader_connected = reader.connected;
      reader_health = reader.health_state;
      snapshot_published_at = operational.published_at;
      snapshot_age_seconds = snapshot_age;
      last_credential_processed_at = controller.last_credential_processed_at;
      last_reader_record_age_seconds = record_age;
      release_active = controller.release_active;
      release_deadline_at = map_option (later now) controller.release_remaining_seconds;
      release_remaining_seconds = controller.release_remaining_seconds;
      configured_release_seconds = controller.configured_release_seconds;
      last_relay_command = controller.last_relay_command;
      authorization_loaded = authorization.loaded;
      authorization_record_count = authorization.record_count;
      authorization_source_revision = authorization.source_revision;
      authorization_source_modified_at = authorization.source_modified_at;
      last_audit_event_at = latest;
      pending_notification_count = pending;
      application_started_at = service.started_at;
      software_version = service.software_version;
    })

  -- `StatusService.snapshot`
  unfoldable pub status_snapshot : StatusService → Exec W StatusSnapshot
  unfolding assemble
  status_snapshot service w = elim (sources.operational w) [
    | none ↦ (err snapshot_unavailable_error, w)
    | some operational ↦ assemble service operational w
  ]
