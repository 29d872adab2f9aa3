-- ===== src/Status/Health/Published.antt =====
-- What `health` says of a snapshot that was published.
use frontdoor.Prelude.{
  ℕ, ◌-◌, ◌<◌, String, Bool, true, Option, none, some, ok, ◌≡◌, ◌↔◌, ◌⊎◌, ◌≢◌, eq_iff, arith, is_ok,
  Result-cases, inl, inr,
}
use frontdoor.Clock.{Timestamp, is_aware, as_utc}
use frontdoor.Controller.State.{ControllerState, ControllerSnapshot}
use frontdoor.Reader.Supervisor.State.{ReaderHealthState, ReaderSnapshot}
use frontdoor.Status.{
  map_option, earlier, OperationalSnapshotStore, Sources, StatusService, StatusSnapshot,
  OperationalSnapshot, publish, status_snapshot, assemble,
}
use frontdoor.Status.Health.{HealthSnapshot, health, health_of}

-- The operational source is the store that a publication left, the clock is aware, and the audit and
-- the notification queue answer.
pub record Answers {W : Type 0} (sources : Sources W) (w : W) (store : OperationalSnapshotStore)
    : Type 0 where
  pub operational : sources.operational w ≡ store.snapshot
  pub aware : is_aware (sources.now w).0 ≡ true
  pub latest : Option Timestamp
  pub audited : (sources.latest_event_time (sources.now w).1).0 ≡ ok latest
  pub pending : ℕ
  pub counted :
      (sources.pending_count (sources.latest_event_time (sources.now w).1).1).0 ≡ ok pending

-- The fields that `health` reads, of the status assembled from a snapshot.
record Reads {W : Type 0} (sources : Sources W) (w : W) (operational : OperationalSnapshot)
    (s : StatusSnapshot) : Type 0 where
  age : s.snapshot_age_seconds ≡ (sources.now w).0.instant - operational.published_at.instant
  state : s.controller_state ≡ operational.controller.state
  reader : s.reader_health ≡ operational.reader.health_state
  loaded : s.authorization_loaded ≡ (sources.authorization w).loaded

abbrev is_dated : Option Timestamp → Bool
is_dated none = true
is_dated (some at) = is_aware at

-- Every time of a published snapshot is aware.
abbrev IsDated : OperationalSnapshot → Type 0
IsDated operational =
    (is_aware operational.published_at ≡ true) × (is_dated operational.last_reader_record_at ≡ true)

assemble-Reads :
    {W : Type 0} (sources : Sources W) (service : StatusService) (w : W)
    (operational : OperationalSnapshot)
    → IsDated operational
    → is_aware (sources.now w).0 ≡ true
    → is_ok (sources.latest_event_time (sources.now w).1).0 ≡ true
    → is_ok (sources.pending_count (sources.latest_event_time (sources.now w).1).1).0 ≡ true
    → (s : StatusSnapshot) × ((assemble sources service operational w).0 ≡ ok s)
      × Reads sources w operational s
unfolding assemble
assemble-Reads sources service w operational dated aware audited counted =
    elim (Result-cases (assemble sources service operational w).0) [
      | inl (s, made) ↦ (
        s,
        made,
        record {
          age = ground arith;
          state = ground arith;
          reader = ground arith;
          loaded = ground arith;
        },
      )
      | inr (e, failed) ↦ absurd (ground arith)
    ]

degraded_differs : ◌≢◌ {A = String} "degraded" "healthy"
degraded_differs same = absurd (ground (arith, (eq_iff "degraded" "healthy").1 same))

health_of-healthy :
    (stale_after : ℕ) (s : StatusSnapshot)
    → ((health_of stale_after s).status ≡ "healthy") ↔ (
        (s.snapshot_age_seconds < stale_after)
        × ((s.controller_state ≡ ControllerState.ready)
            ⊎ (s.controller_state ≡ ControllerState.released))
        × (s.reader_health ≡ ReaderHealthState.ready)
        × (s.authorization_loaded ≡ true))
unfolding health_of
health_of-healthy stale_after s = ground (arith, degraded_differs)

-- With an aware clock, and an audit log and a notification queue that answer, `health` answers for a snapshot that was
-- published at an aware time, and it says `healthy` exactly if the snapshot is younger than the
-- freshness threshold, the controller is ready or released, the reader is ready and the
-- authorization is loaded.
pub health-published :
    {W : Type 0} (sources : Sources W) (service : StatusService) (stale_after : ℕ) (w : W)
    (store : OperationalSnapshotStore) (controller : ControllerSnapshot) (reader : ReaderSnapshot)
    (at : Timestamp)
    → is_aware at ≡ true
    → Answers sources w (publish controller reader at store).1
    → (h : HealthSnapshot) × ((health sources stale_after service w).0 ≡ ok h)
      × ((h.status ≡ "healthy") ↔ (
          ((sources.now w).0.instant - at.instant < stale_after)
          × ((controller.state ≡ ControllerState.ready)
              ⊎ (controller.state ≡ ControllerState.released))
          × (reader.health_state ≡ ReaderHealthState.ready)
          × ((sources.authorization w).loaded ≡ true)))
unfolding publish health status_snapshot
health-published sources service stale_after w store controller reader at aware answers =
    let operational : OperationalSnapshot = record {
      controller = controller;
      reader = reader;
      published_at = as_utc at;
      last_reader_record_at = map_option (earlier (as_utc at)) reader.last_record_age_seconds;
    } in
    let found : sources.operational w ≡ some operational = ground (arith, answers) in
    let (s, made, reads) =
      assemble-Reads sources service w operational (ground arith) answers.aware
        (ground (arith, answers)) (ground (arith, answers)) in
    (health_of stale_after s, ground arith, ground (arith, health_of-healthy stale_after s))
