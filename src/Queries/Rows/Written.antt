-- ===== src/Queries/Rows/Written.antt =====
-- An event that the sink wrote, read back.
use frontdoor.Prelude.{ok, ◌≡◌}
use frontdoor.Prelude.Results.{◌>>=◌}
use frontdoor.Audit.{AuditEvent, checked_event}
use frontdoor.Audit.Values.{type_of-type_value, severity_of-severity_value}
use frontdoor.Queries.Rows.{Formats, row_of, event_of}

-- JSON and the ISO format read what they wrote for the correlation and the time of an event.
pub record IsFaithful (formats : Formats) (e : AuditEvent) : Type 0 where
  pub json : formats.loads (formats.dumps e.correlation) ≡ ok e.correlation
  pub iso : formats.fromisoformat (formats.isoformat e.timestamp) ≡ ok e.timestamp

-- The reader gives back every event that the constructor accepts, from the row that the sink
-- inserted for it, if JSON and the ISO format read what they wrote of it.
pub event_of-row_of :
    (formats : Formats) (e : AuditEvent)
    → IsFaithful formats e
    → checked_event e ≡ ok e
    → event_of formats (row_of formats e) ≡ ok e
unfolding event_of row_of ◌>>=◌
event_of-row_of formats e faithful accepted =
    rw
      (
        faithful.iso,
        type_of-type_value e.event_type,
        severity_of-severity_value e.severity,
        faithful.json,
      )
      accepted
