-- ===== src/Queries/Pages.antt =====
-- A client that asks bridgewire/application/query_service.py for page after page, over
-- bridgewire/adapters/persistence/sqlite_audit_reader.py and a table of audit events.
pub mod Kept
pub mod Select
pub mod Complete
use frontdoor.Prelude.{
  ℕ, zero, suc, String, Bool, true, false, ◌&&◌, ◌||◌, Option, none, some, List, [], ◌∷◌, ◌++◌, map,
  take, keep, all, All, str_eq, ok, Exec, pure, ◌>>=◌, ◌≡◌, is_empty,
}
use frontdoor.Reader.Record.{Text}
use frontdoor.Clock.{Timestamp, utc}
use frontdoor.Audit.{AuditEvent, EventType, Severity, checked_event}
use frontdoor.Audit.Values.{type_value, severity_value}
use frontdoor.Queries.{Codec, EventQuery, EventRequest, EventPage, list_events, cursor_at}
use frontdoor.Queries.Cursor.{IsLossless}
use frontdoor.Queries.Rows.Written.{IsFaithful}
use frontdoor.Queries.Rows.{
  Row, Parameter, Formats, row_of, select_text, parameters_of, read_events,
}

-- A condition of a WHERE clause.
pub data Condition : Type 0 where
  earlier later typed graded : String → Condition
  older : String → String → Condition

abbrev pub sql : Condition → String × List Parameter
sql (earlier t) = ("timestamp < ?", Parameter.text t ∷ [])
sql (later t) = ("timestamp > ?", Parameter.text t ∷ [])
sql (typed t) = ("event_type = ?", Parameter.text t ∷ [])
sql (graded t) = ("severity = ?", Parameter.text t ∷ [])
sql (older t id) = (
  "(timestamp < ? OR (timestamp = ? AND event_id < ?))",
  Parameter.text t ∷ Parameter.text t ∷ Parameter.text id ∷ [],
)

-- The order of texts in SQLite is a parameter.
abbrev pub holds : (String → String → Bool) → Row → Condition → Bool
holds lt row (earlier t) = lt row.timestamp t
holds lt row (later t) = lt t row.timestamp
holds lt row (typed t) = str_eq row.event_type t
holds lt row (graded t) = str_eq row.severity t
holds lt row (older t id) = lt row.timestamp t || (str_eq row.timestamp t && lt row.event_id id)

-- What a SELECT over the table gives: the rows that meet every condition, in the order of the table,
-- as many as the limit at most; and it changes nothing.
abbrev pub Selects :
    {W : Type 0}
    → (String → String → Bool)
    → (String → List Parameter → Exec W (List Row))
    → List Row
    → W
    → List Condition
    → ℕ
    → Type 0
Selects lt execute table w cs limit =
    execute (select_text (map sql cs)) (parameters_of (map sql cs) ++ (Parameter.number limit ∷ []))
      w
    ≡ (ok (take limit (keep (λ row. all (holds lt row) cs) table)), w)

-- The second event comes after the first in the order of the pages.
abbrev pub follows : (String → String → Bool) → Formats → AuditEvent → AuditEvent → Bool
follows lt formats e d =
    holds lt (row_of formats d) (older (formats.isoformat e.timestamp) e.event_id)

-- `ORDER BY timestamp DESC, event_id DESC`
abbrev pub IsNewestFirst : (AuditEvent → AuditEvent → Bool) → List AuditEvent → Type 0
IsNewestFirst after [] = Unit
IsNewestFirst after (e ∷ es) =
    (after e e ≡ false)
    × All (λ d. (after e d ≡ true) × (after d e ≡ false)) es
    × IsNewestFirst after es

-- An event that the constructor accepts, with a time in UTC and an id, that JSON, base64 and the ISO
-- format read as they wrote it.
pub record IsStored {Json : Type 0} (codec : Codec Json) (formats : Formats) (e : AuditEvent)
    : Type 0 where
  pub accepted : checked_event e ≡ ok e
  pub in_utc : e.timestamp.zone ≡ utc
  pub named : is_empty e.event_id ≡ false
  pub faithful : IsFaithful formats e
  pub lossless : IsLossless codec (cursor_at e)

-- What a client filters by; `before` cannot go together with a cursor.
pub record Filter : Type 0 where
  pub after : Option Timestamp
  pub event_type : Option EventType
  pub severity : Option Severity

abbrev pub request : ℕ → Filter → Option Text → EventRequest
request limit filter cursor = record {
  limit = limit;
  cursor = cursor;
  before = none;
  after = filter.after;
  event_type = filter.event_type;
  severity = filter.severity;
}

abbrev pub if_given : {A : Type 0} → (A → Condition) → Option A → List Condition
if_given c none = []
if_given c (some a) = c a ∷ []

abbrev pub filter_conditions : Formats → Filter → List Condition
filter_conditions formats filter =
    if_given (λ t. later (formats.isoformat t)) filter.after
    ++ (if_given (λ t. typed (type_value t)) filter.event_type
        ++ if_given (λ s. graded (severity_value s)) filter.severity)

-- Whether an event is one that the filter, its times in UTC, asks for.
unfoldable pub is_wanted : (String → String → Bool) → Formats → Filter → AuditEvent → Bool
is_wanted lt formats filter e = all (holds lt (row_of formats e)) (filter_conditions formats filter)

module _ {Json W : Type 0} (codec : Codec Json) (formats : Formats)
    (execute : String → List Parameter → Exec W (List Row)) (maximum limit : ℕ)
    (filter : Filter) where
  unfoldable pub ask : Option Text → Exec W EventPage
  ask cursor = list_events codec (read_events formats execute) maximum (request limit filter cursor)

  -- At most as many pages as the first argument, one after the other.
  unfoldable pub ask_all : ℕ → Option Text → Exec W (List AuditEvent)
  ask_all zero cursor = pure []
  ask_all (suc pages) cursor = do
    page ← ask cursor
    elim page.next_cursor [
      | none ↦ pure page.items
      | some next ↦ do rest ← ask_all pages (some next); pure (page.items ++ rest)
    ]
