-- ===== src/Queries.antt =====
-- bridgewire/application/query_service.py: pages of audit events and their cursors. JSON, base64 and
-- the ISO format of times are parameters, and so is the reader of the events.
pub mod Cursor
pub mod Rows
pub mod Pages
use frontdoor.Prelude.{
  is_empty, zero, ℕ, suc, ◌+◌, ◌-◌, ◌%◌, String, Bool, true, false, not, ◌&&◌, ◌||◌, Option, none,
  some, is_none, List, [], ◌∷◌, ◌++◌, take, length, Exception, value_error, type_error,
  invalid_query_error, Result, ok, err, Exec, pure, raise, lift, ◌>>=◌, ◌>>◌, leb, ltb, ◌==◌,
  if◌then◌else◌,
}
use frontdoor.Prelude.Results.{◌>>=◌ as and_then}
use frontdoor.Reader.Record.{Text}
use frontdoor.Clock.{Timestamp, is_aware, as_utc}
use frontdoor.Audit.{AuditEvent, EventType, Severity}

pub record EventCursor : Type 0 where
  pub timestamp : Timestamp
  pub event_id : String

-- What the cursors use of `json`, `base64` and `datetime`. `dumps` writes an array of two texts,
-- `items` is the list that a JSON value is, if it is one, and `str` the text of a JSON value.
pub record Codec (Json : Type 0) : Type 0 where
  pub dumps : String → String → Text
  pub loads : Text → Result Json
  pub items : Json → Option (List Json)
  pub str : Json → String
  pub b64encode : Text → Text
  pub b64decode : Text → Result Text
  pub isoformat : Timestamp → String
  pub fromisoformat : String → Result Timestamp

-- `rstrip("=")`
abbrev pub strip_padding : Text → Text
strip_padding [] = []
strip_padding (c ∷ s) =
    let rest = strip_padding s in
    elim rest [ [] ↦ if c == b'=' then [] else c ∷ [] | x ∷ xs ↦ c ∷ x ∷ xs ]

abbrev pub repeat : ℕ → ℕ → Text
repeat zero c = []
repeat (suc n) c = c ∷ repeat n c

-- `"=" * (-len(value) % 4)`
unfoldable pub padding : Text → Text
padding value = repeat ((4 - length value % 4) % 4) b'='

-- `except (ValueError, TypeError, json.JSONDecodeError)`
abbrev pub as_query_error : {A : Type 0} → Result A → Result A
as_query_error (ok a) = ok a
as_query_error (err value_error) = err invalid_query_error
as_query_error (err type_error) = err invalid_query_error
as_query_error (err e) = err e

module _ {Json : Type 0} (codec : Codec Json) where
  -- `EventCursor.encode`
  unfoldable pub encode : EventCursor → Text
  encode cursor =
      strip_padding
        (codec.b64encode (codec.dumps (codec.isoformat (as_utc cursor.timestamp)) cursor.event_id))

  pub checked_cursor : Timestamp → String → Result EventCursor
  checked_cursor timestamp event_id =
      if not (is_aware timestamp) || is_empty event_id
      then err value_error
      else ok (record { timestamp = as_utc timestamp; event_id = event_id })

  pub cursor_of : Option (List Json) → Result EventCursor
  unfolding and_then checked_cursor
  cursor_of (some (a ∷ b ∷ [])) =
      and_then (codec.fromisoformat (codec.str a))
        λ timestamp. checked_cursor timestamp (codec.str b)
  cursor_of _ = err value_error

  -- `EventCursor.decode`
  unfoldable pub decode : Text → Result EventCursor
  unfolding and_then cursor_of
  decode value = as_query_error (
      and_then (codec.b64decode (value ++ padding value))
        λ payload. and_then (codec.loads payload) λ raw. cursor_of (codec.items raw))

-- The two limits of a `ReadOnlyQueryService`.
pub record QueryLimits : Type 0 where
  pub maximum_event_page_size : ℕ
  pub stale_after : ℕ

-- `ReadOnlyQueryService.__init__`
unfoldable pub new_query_limits : ℕ → ℕ → Result QueryLimits
new_query_limits maximum stale_after =
    if leb maximum 0
    then err value_error
    else if leb stale_after 0
    then err value_error
    else ok (record { maximum_event_page_size = maximum; stale_after = stale_after })

-- The keyword arguments of `AuditEventReader.list_events`.
pub record EventQuery : Type 0 where
  pub limit : ℕ
  pub cursor : Option EventCursor
  pub before : Option Timestamp
  pub after : Option Timestamp
  pub event_type : Option EventType
  pub severity : Option Severity

-- Those of `ReadOnlyQueryService.list_events`, with the cursor as a text.
pub record EventRequest : Type 0 where
  pub limit : ℕ
  pub cursor : Option Text
  pub before : Option Timestamp
  pub after : Option Timestamp
  pub event_type : Option EventType
  pub severity : Option Severity

pub record EventPage : Type 0 where
  pub items : List AuditEvent
  pub next_cursor : Option Text

-- `_normalize_time`
abbrev pub normalize_time : Option Timestamp → Result (Option Timestamp)
normalize_time none = ok none
normalize_time (some t) = if is_aware t then ok (some (as_utc t)) else err invalid_query_error

-- `before is not None and after is not None and after >= before`
abbrev pub is_backwards : Option Timestamp → Option Timestamp → Bool
is_backwards (some before) (some after) = leb before.instant after.instant
is_backwards _ _ = false

-- `items[-1]`, if there are items.
abbrev pub last_of : {A : Type 0} → List A → Option A
last_of [] = none
last_of (a ∷ []) = some a
last_of (a ∷ b ∷ rest) = last_of (b ∷ rest)

-- `EventCursor(items[-1].timestamp, items[-1].event_id)`
abbrev pub cursor_at : AuditEvent → EventCursor
cursor_at e = record { timestamp = e.timestamp; event_id = e.event_id }

module _ {Json W : Type 0} (codec : Codec Json)
    (reader : EventQuery → Exec W (List AuditEvent)) where
  unfoldable pub page_of : ℕ → List AuditEvent → EventPage
  unfolding encode
  page_of limit events =
      let items = take limit events in
      record {
        items = items;
        next_cursor =
            if ltb limit (length events)
            then (elim (last_of items) [ none ↦ none | some e ↦ some (encode codec (cursor_at e)) ])
            else none;
      }

  unfoldable pub decode_optional : Option Text → Result (Option EventCursor)
  unfolding and_then
  decode_optional none = ok none
  decode_optional (some value) = and_then (decode codec value) λ cursor. ok (some cursor)

  -- The end of `list_events`, after the checks of the limit and of the cursor.
  unfoldable pub list_between :
      EventRequest → Option Timestamp → Option Timestamp → Exec W EventPage
  unfolding decode_optional
  list_between request before after =
      if is_backwards before after then raise invalid_query_error else (do
        cursor ← lift (decode_optional request.cursor)
        events ← reader (record {
          limit = request.limit + 1;
          cursor = cursor;
          before = before;
          after = after;
          event_type = request.event_type;
          severity = request.severity;
        })
        pure (page_of request.limit events))

  -- `ReadOnlyQueryService.list_events`; the first argument is `maximum_event_page_size`.
  unfoldable pub list_events : ℕ → EventRequest → Exec W EventPage
  unfolding list_between
  list_events maximum request =
      if leb request.limit 0 || ltb maximum request.limit
      then raise invalid_query_error
      else if not (is_none request.cursor) && not (is_none request.before)
      then raise invalid_query_error
      else (do
        before ← lift (normalize_time request.before)
        after ← lift (normalize_time request.after)
        list_between request before after)
