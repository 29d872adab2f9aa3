-- ===== src/Api.antt =====
-- The routes of bridgewire/adapters/http/api.py over the query service. FastAPI and pydantic are not
-- modelled: a route takes parameters that were converted, and a body holds the value that the
-- response model is made of.
pub mod Routes
use frontdoor.Prelude.{
  ℕ, String, Bool, true, false, Option, none, some, List, min, Exception,
  snapshot_unavailable_error, query_unavailable_error, invalid_query_error, Result, ok, err, Exec,
  leb, ltb, str_eq, if◌then◌else◌,
}
use frontdoor.Clock.{Timestamp}
use frontdoor.Audit.{AuditEvent, EventType, Severity}
use frontdoor.Reader.Record.{Text}
use frontdoor.Controller.State.{ControllerState}
use frontdoor.Reader.Supervisor.State.{ReaderHealthState}
use frontdoor.Status.{Sources, StatusService, StatusSnapshot, status_snapshot}
use frontdoor.Status.Health.{HealthSnapshot, health}
use frontdoor.Queries.{Codec, EventQuery, EventRequest, EventPage, list_events}

-- The details of an invalid query are the message of its exception, and those of a limit that is too
-- large name the maximum.
pub data Body : Type 0 where
  detail : String → Body
  message_of : Exception → Body
  limit_detail : ℕ → Body
  health_body : HealthSnapshot → Body
  status_body : StatusSnapshot → Body
  page_body : EventPage → Body
  event_body : AuditEvent → Body

pub record Response : Type 0 where
  pub status_code : ℕ
  pub body : Body

-- The three exception handlers. FastAPI answers every other exception with the code 500.
unfoldable pub handled : Exception → Response
handled query_unavailable_error = record {
  status_code = 503;
  body = detail "query service unavailable";
}
handled snapshot_unavailable_error = record {
  status_code = 503;
  body = detail "operational status unavailable";
}
handled invalid_query_error = record { status_code = 422; body = message_of invalid_query_error }
handled e = record { status_code = 500; body = detail "Internal Server Error" }

-- The response to what a route returned or raised.
unfoldable pub respond : {A W : Type 0} → (A → Response) → Result A × W → Response × W
unfolding handled
respond answer (ok a, w) = (answer a, w)
respond answer (err e, w) = (handled e, w)

-- `HealthSnapshot.healthy`
abbrev pub is_healthy : HealthSnapshot → Bool
is_healthy h = str_eq h.status "healthy"

abbrev pub health_response : HealthSnapshot → Response
health_response h = record { status_code = if is_healthy h then 200 else 503; body = health_body h }

-- `GET /health`
unfoldable pub health_route : {W : Type 0} → Sources W → ℕ → StatusService → W → Response × W
unfolding respond
health_route sources stale_after service w =
    respond health_response (health sources stale_after service w)

-- `GET /status`
unfoldable pub status_route : {W : Type 0} → Sources W → StatusService → W → Response × W
unfolding respond
status_route sources service w =
    respond (λ s. record { status_code = 200; body = status_body s })
      (status_snapshot sources service w)

-- The query parameters of `/events`.
pub record EventParameters : Type 0 where
  pub limit : Option ℕ
  pub cursor : Option Text
  pub before : Option Timestamp
  pub after : Option Timestamp
  pub event_type : Option EventType
  pub severity : Option Severity

abbrev pub resolved_limit : ℕ → Option ℕ → ℕ
resolved_limit maximum none = min 50 maximum
resolved_limit maximum (some limit) = limit

-- `Query(ge=1)`, which FastAPI checks.
abbrev pub is_below_one : Option ℕ → Bool
is_below_one none = false
is_below_one (some limit) = leb limit 0

module _ {Json W : Type 0} (codec : Codec Json) (reader : EventQuery → Exec W (List AuditEvent))
    (maximum : ℕ) where
  unfoldable pub resolved_route : EventParameters → ℕ → W → Response × W
  unfolding respond
  resolved_route p limit w =
      if ltb maximum limit
      then (record { status_code = 422; body = limit_detail maximum }, w)
      else respond (λ page. record { status_code = 200; body = page_body page })
          (list_events codec reader maximum
            (record {
              limit = limit;
              cursor = p.cursor;
              before = p.before;
              after = p.after;
              event_type = p.event_type;
              severity = p.severity;
            })
            w)

  -- `GET /events`
  unfoldable pub events_route : EventParameters → W → Response × W
  unfolding resolved_route
  events_route p w =
      if is_below_one p.limit
      then (record { status_code = 422; body = detail "validation error" }, w)
      else resolved_route p (resolved_limit maximum p.limit) w

abbrev pub found_response : Option AuditEvent → Response
found_response none = record { status_code = 404; body = detail "event not found" }
found_response (some event) = record { status_code = 200; body = event_body event }

-- `GET /events/{event_id}`, for the text of a UUID.
unfoldable pub event_route :
    {W : Type 0} → (String → Exec W (Option AuditEvent)) → String → W → Response × W
unfolding respond
event_route get_event event_id w = respond found_response (get_event event_id w)
