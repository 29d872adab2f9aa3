-- ===== src/Queries/Rows.antt =====
-- bridgewire/adapters/persistence/sqlite_audit_reader.py, and the rows that `SQLiteAuditSink` of
-- bridgewire/audit.py inserts. SQLite is a parameter: the result of one SELECT over one connection.
pub mod Written
use Prim.Native.String.{◌++◌ as then_text}
use frontdoor.Prelude.{
  ℕ, String, Bool, true, false, Option, none, some, List, [], ◌∷◌, ◌++◌, Exception, value_error,
  type_error, query_unavailable_error, sqlite_error, Result, ok, err, Exec, pure, raise, lift,
  ◌>>=◌, try_else,
}
use frontdoor.Prelude.Results.{◌>>=◌ as and_then}
use frontdoor.Clock.{Timestamp}
use frontdoor.Audit.{AuditEvent, Correlation, checked_event}
use frontdoor.Audit.Values.{type_value, severity_value, type_of, severity_of}
use frontdoor.Queries.{Codec, EventQuery}

-- A row of `audit_events`, whose columns are texts, and the last three may be NULL.
pub record Row : Type 0 where
  pub event_id : String
  pub timestamp : String
  pub event_type : String
  pub severity : String
  pub correlation : String
  pub reader_state : Option String
  pub controller_state : Option String
  pub delivery_status : Option String

pub data Parameter : Type 0 where
  text : String → Parameter
  number : ℕ → Parameter

-- What the sink and the reader use of `json` and `datetime`.
pub record Formats : Type 0 where
  pub dumps : Correlation → String
  pub loads : String → Result Correlation
  pub isoformat : Timestamp → String
  pub fromisoformat : String → Result Timestamp

-- The values that `SQLiteAuditSink.append` inserts.
unfoldable pub row_of : Formats → AuditEvent → Row
row_of formats e = record {
  event_id = e.event_id;
  timestamp = formats.isoformat e.timestamp;
  event_type = type_value e.event_type;
  severity = severity_value e.severity;
  correlation = formats.dumps e.correlation;
  reader_state = e.reader_state;
  controller_state = e.controller_state;
  delivery_status = e.delivery_status;
}

-- `SQLiteAuditReader._event`
unfoldable pub event_of : Formats → Row → Result AuditEvent
unfolding and_then
event_of formats row = and_then (formats.fromisoformat row.timestamp) λ timestamp.
    and_then (type_of row.event_type) λ event_type. and_then (severity_of row.severity) λ severity.
      and_then (formats.loads row.correlation) λ correlation. checked_event (record {
        event_type = event_type;
        severity = severity;
        timestamp = timestamp;
        correlation = correlation;
        reader_state = row.reader_state;
        controller_state = row.controller_state;
        delivery_status = row.delivery_status;
        event_id = row.event_id;
      })

-- `tuple(self._event(row) for row in rows)`
abbrev pub events_of : Formats → List Row → Result (List AuditEvent)
events_of formats [] = ok []
events_of formats (row ∷ rows) =
    let rest = events_of formats rows in
    elim (event_of formats row) [
      | err e ↦ err e
      | ok event ↦ elim rest [ err e ↦ err e | ok events ↦ ok (event ∷ events) ]
    ]

-- One clause, with its parameters, if the value is given.
abbrev pub clause : {A : Type 0} → String → (A → String) → Option A → List (String × List Parameter)
clause sql show none = []
clause sql show (some a) = (sql, text (show a) ∷ []) ∷ []

-- The clauses and their parameters, in the order of the source.
unfoldable pub clauses : Formats → EventQuery → List (String × List Parameter)
clauses formats q =
    clause "timestamp < ?" formats.isoformat q.before
    ++ (clause "timestamp > ?" formats.isoformat q.after
        ++ (clause "event_type = ?" type_value q.event_type
            ++ (clause "severity = ?" severity_value q.severity ++ elim q.cursor [
              | none ↦ []
              | some cursor ↦
                  let at = formats.isoformat cursor.timestamp in
                  (
                    "(timestamp < ? OR (timestamp = ? AND event_id < ?))",
                    text at ∷ text at ∷ text cursor.event_id ∷ [],
                  )
                  ∷ []
            ])))

-- `' AND '.join(clauses)`
abbrev pub joined : String → List (String × List Parameter) → String
joined first [] = first
joined first ((sql, _) ∷ rest) = then_text first (then_text " AND " (joined sql rest))

abbrev pub where_text : List (String × List Parameter) → String
where_text [] = ""
where_text ((sql, _) ∷ rest) = then_text " WHERE " (joined sql rest)

abbrev pub parameters_of : List (String × List Parameter) → List Parameter
parameters_of [] = []
parameters_of ((_, parameters) ∷ rest) = parameters ++ parameters_of rest

abbrev columns : String
columns =
    "SELECT event_id, timestamp, event_type, severity, correlation, reader_state, controller_state, delivery_status "

unfoldable pub select_text : List (String × List Parameter) → String
select_text cs = then_text columns (
    then_text "FROM audit_events"
      (then_text (where_text cs) " ORDER BY timestamp DESC, event_id DESC LIMIT ?"))

-- `except sqlite3.Error`
abbrev pub unavailable : {W A : Type 0} → Exception → Exec W A
unavailable sqlite_error = raise query_unavailable_error
unavailable e = raise e

-- `except (ValueError, TypeError, json.JSONDecodeError)`
abbrev pub as_unavailable : {A : Type 0} → Result A → Result A
as_unavailable (ok a) = ok a
as_unavailable (err value_error) = err query_unavailable_error
as_unavailable (err type_error) = err query_unavailable_error
as_unavailable (err e) = err e

module _ {W : Type 0} (formats : Formats)
    (execute : String → List Parameter → Exec W (List Row)) where
  -- `SQLiteAuditReader.list_events`
  unfoldable pub read_events : EventQuery → Exec W (List AuditEvent)
  read_events q =
      let cs = clauses formats q in
      try_else (execute (select_text cs) (parameters_of cs ++ (number q.limit ∷ []))) unavailable
        λ rows. lift (as_unavailable (events_of formats rows))

  -- `fetchone()`
  abbrev first_event : List Row → Result (Option AuditEvent)
  first_event [] = ok none
  first_event (row ∷ _) = elim (event_of formats row) [ ok e ↦ ok (some e) | err e ↦ err e ]

  -- `SQLiteAuditReader.get_event`
  unfoldable pub get_event : String → Exec W (Option AuditEvent)
  get_event event_id =
      try_else
        (execute (then_text columns "FROM audit_events WHERE event_id = ?") (text event_id ∷ []))
        unavailable λ rows. lift (as_unavailable (first_event rows))

-- `SQLiteAuditReader.latest_event_time`, for a statement that gives one column.
unfoldable pub latest_event_time :
    {W : Type 0}
    → Formats
    → (String → List Parameter → Exec W (List String))
    → Exec W (Option Timestamp)
latest_event_time formats execute =
    try_else (execute "SELECT timestamp FROM audit_events ORDER BY timestamp DESC LIMIT 1" [])
      unavailable
      λ rows. elim rows [
        | [] ↦ pure none
        | timestamp ∷ _ ↦ do t ← lift (formats.fromisoformat timestamp); pure (some t)
      ]
