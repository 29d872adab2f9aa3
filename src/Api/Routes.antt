-- ===== src/Api/Routes.antt =====
-- What the routes of bridgewire/adapters/http/api.py answer.
use frontdoor.Prelude.{
  ℕ, ◌≤◌, ◌<◌, ◌-◌, ◌+◌, true, false, Option, none, some, List, Result, ok, err, Exec, ◌≡◌, ◌↔◌,
  ◌⊎◌, arith, refl, eq_iff, ltb, leb, Result-cases, Bool-cases, inl, inr, min,
}
use frontdoor.Clock.{Timestamp, is_aware}
use frontdoor.Audit.{AuditEvent, EventType, Severity}
use frontdoor.Controller.State.{ControllerState, ControllerSnapshot}
use frontdoor.Reader.Supervisor.State.{ReaderHealthState, ReaderSnapshot}
use frontdoor.Status.{OperationalSnapshotStore, Sources, StatusService, publish}
use frontdoor.Status.Health.Published.{Answers, health-published}
use frontdoor.Queries.{Codec, EventQuery, list_events, list_between, page_of, decode_optional}
use frontdoor.Api.{
  Response, handled, respond, health_route, EventParameters, events_route, resolved_route,
  page_body,
}

-- With an aware clock, and an audit log and a notification queue that answer, `GET /health` answers 200 for a snapshot that was
-- published at an aware time exactly if the snapshot is younger than the freshness threshold, the
-- controller is ready or released, the reader is ready and the authorization is loaded; and it
-- answers 503 otherwise.
pub health_route-published :
    {W : Type 0} (sources : Sources W) (service : StatusService) (stale_after : ℕ) (w : W)
    (store : OperationalSnapshotStore) (controller : ControllerSnapshot) (reader : ReaderSnapshot)
    (at : Timestamp)
    → is_aware at ≡ true
    → Answers sources w (publish controller reader at store).1
    → let code = (health_route sources stale_after service w).0.status_code in
      ((code ≡ 200) ⊎ (code ≡ 503))
      × ((code ≡ 200) ↔ (
          ((sources.now w).0.instant - at.instant < stale_after)
          × ((controller.state ≡ ControllerState.ready)
              ⊎ (controller.state ≡ ControllerState.released))
          × (reader.health_state ≡ ReaderHealthState.ready)
          × ((sources.authorization w).loaded ≡ true)))
unfolding health_route respond
health_route-published sources service stale_after w store controller reader at aware answers =
    let (h, made, exact) =
      health-published sources service stale_after w store controller reader at aware answers in
    (
      ground (arith, made, eq_iff h.status "healthy"),
      ground (arith, made, exact, eq_iff h.status "healthy"),
    )

-- A request without a cursor and without times, and the query that it makes.
abbrev pub plain : Option ℕ → Option EventType → Option Severity → EventParameters
plain limit event_type severity = record {
  limit = limit;
  cursor = none;
  before = none;
  after = none;
  event_type = event_type;
  severity = severity;
}

abbrev pub plain_query : ℕ → Option EventType → Option Severity → EventQuery
plain_query limit event_type severity = record {
  limit = limit + 1;
  cursor = none;
  before = none;
  after = none;
  event_type = event_type;
  severity = severity;
}

-- The limit that is meant: the given one, else the smaller one of 50 and the maximum.
abbrev pub IsLimit : ℕ → Option ℕ → ℕ → Type 0
IsLimit maximum (some given) limit = given ≡ limit
IsLimit maximum none limit = (limit ≤ 50) × (limit ≤ maximum) × ((limit ≡ 50) ⊎ (limit ≡ maximum))

module _ {Json W : Type 0} (codec : Codec Json)
    (reader : EventQuery → Exec W (List AuditEvent)) where
  -- How a result of the reader is answered.
  abbrev pub Answered : ℕ → Result (List AuditEvent) → Response → Type 0
  Answered limit (ok events) response =
      (response.status_code ≡ 200) × (response.body ≡ page_body (page_of codec reader limit events))
  Answered limit (err e) response = response ≡ handled e

  module _ (maximum : ℕ) (t : Option EventType) (s : Option Severity) (w : W) where
    resolved_route-Answered :
        (given : Option ℕ) (limit : ℕ)
        → 1 ≤ limit
        → limit ≤ maximum
        → let (response, w') = resolved_route codec reader maximum (plain given t s) limit w in
          Answered limit (reader (plain_query limit t s) w).0 response
          × (w' ≡ (reader (plain_query limit t s) w).1)
    unfolding resolved_route respond list_events list_between decode_optional
    resolved_route-Answered given limit low high =
        let above : ltb maximum limit ≡ false = ground arith in
        let no_zero : leb limit 0 ≡ false = ground arith in
        elim (Result-cases (reader (plain_query limit t s) w).0) [
          | inl (events, read) ↦ ground (arith, above, no_zero, read)
          | inr (e, raised) ↦ ground (arith, above, no_zero, raised)
        ]

    events_route_refused :
        (limit : ℕ)
        → (limit ≡ 0) ⊎ (maximum < limit)
        → let (response, w') = events_route codec reader maximum (plain (some limit) t s) w in
          (response.status_code ≡ 422) × (w' ≡ w)
    unfolding events_route resolved_route
    events_route_refused limit wrong = elim (Bool-cases (leb limit 0)) [
      | inl zero ↦ rw zero (refl, refl)
      | inr positive ↦
          let above : ltb maximum limit ≡ true = ground arith in rw (positive, above) (refl, refl)
    ]

    -- A request for events without a cursor and without times gets the answer 422, and the reader is
    -- not asked, if its limit is 0 or above the maximum; else the reader is asked for one event more
    -- than the limit, and a page of what it returns comes with 200, or its exception goes to the
    -- handlers. The limit is the given one; where none is given it is 50, or the maximum where that is
    -- less.
    pub events_route-Answered :
        (given : Option ℕ) (limit : ℕ)
        → 1 ≤ maximum
        → IsLimit maximum given limit
        → let (response, w') = events_route codec reader maximum (plain given t s) w in
          ((limit ≡ 0) ⊎ (maximum < limit) → (response.status_code ≡ 422) × (w' ≡ w))
          × (1 ≤ limit
              → limit ≤ maximum
              → Answered limit (reader (plain_query limit t s) w).0 response
                × (w' ≡ (reader (plain_query limit t s) w).1))
    unfolding events_route
    events_route-Answered none limit positive (up_to_50, up_to_maximum, either) = (
      λ wrong. absurd (omega (arith, positive, up_to_maximum, either, wrong)),
      λ low high.
          let least : min 50 maximum ≡ limit = omega (arith, up_to_50, up_to_maximum, either) in
          rw least (resolved_route-Answered none limit low high),
    )
    events_route-Answered (some given) limit positive same =
        let refused = events_route_refused limit in
        rw same (
          refused,
          λ low high.
              let no_zero : leb limit 0 ≡ false = ground arith in
              rw no_zero (resolved_route-Answered (some limit) limit low high),
        )
