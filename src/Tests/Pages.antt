-- ===== src/Tests/Pages.antt =====
-- A table of three events that a client reads one warning after the other, and the status of a door
-- whose snapshot was published.
use Prim.Native.Nat.{Ordering}
use Prim.Native.String.{compare}
use frontdoor.Prelude.{
  ℕ, ◌≡◌, refl, List, [], ◌∷◌, ◌++◌, take, keep, all, true, false, String, Bool, Option, none, some,
  Result, ok, err, value_error, sqlite_error, str_eq, is_empty, Exec, if◌then◌else◌, ◌==◌, arith,
  map,
}
use frontdoor.Reader.Record.{Text}
use frontdoor.Clock.{Timestamp, utc}
use frontdoor.Audit.{AuditEvent, Severity, credential_denied, checked_event, keys_pass}
use frontdoor.Queries.{Codec, EventCursor, cursor_at, encode, decode}
use frontdoor.Queries.Cursor.{IsPadded, IsLossless, decode-encode}
use frontdoor.Queries.Rows.{Row, Parameter, Formats, row_of, select_text}
use frontdoor.Queries.Pages.{Filter, IsStored, graded, older, holds, ask_all, is_wanted, Selects}
use frontdoor.Queries.Pages.Select.{conditions}
use frontdoor.Queries.Pages.Complete.{Supposes, query, ask_all_complete}

abbrev time : ℕ → Timestamp
time n = record { instant = n; zone = utc }

abbrev event : ℕ → String → Severity → AuditEvent
event n id severity = record {
  event_type = credential_denied;
  severity = severity;
  timestamp = time n;
  correlation = [];
  reader_state = none;
  controller_state = some "ready";
  delivery_status = none;
  event_id = id;
}

abbrev pub first_event : AuditEvent
first_event = event 1 "a" Severity.warning

abbrev pub second_event : AuditEvent
second_event = event 2 "b" Severity.info

abbrev pub third_event : AuditEvent
third_event = event 3 "c" Severity.warning

abbrev pub three_events : List AuditEvent
three_events = third_event ∷ second_event ∷ first_event ∷ []

abbrev iso : Timestamp → String
iso t =
    if t.instant == 1
    then "2026-01-01T00:00:01+00:00"
    else if t.instant == 2
    then "2026-01-01T00:00:02+00:00"
    else "2026-01-01T00:00:03+00:00"

abbrev from_iso : String → Result Timestamp
from_iso s =
    if str_eq s "2026-01-01T00:00:01+00:00"
    then ok (time 1)
    else if str_eq s "2026-01-01T00:00:02+00:00"
    then ok (time 2)
    else if str_eq s "2026-01-01T00:00:03+00:00"
    then ok (time 3)
    else err value_error

abbrev pub demo_formats : Formats
demo_formats = record {
  dumps = λ c. "{}";
  loads = λ s. ok [];
  isoformat = iso;
  fromisoformat = from_iso;
}

pub data DemoJson : Type 0 where
  word : String → DemoJson
  pair : String → String → DemoJson

abbrev demo_items : DemoJson → Option (List DemoJson)
demo_items (word s) = none
demo_items (pair a b) = some (word a ∷ word b ∷ [])

abbrev demo_str : DemoJson → String
demo_str (word s) = s
demo_str (pair a b) = "[…]"

-- The byte of an id stands for the whole array.
abbrev demo_loads : Text → Result DemoJson
demo_loads (c ∷ []) =
    if c == b'a'
    then ok (pair "2026-01-01T00:00:01+00:00" "a")
    else if c == b'b'
    then ok (pair "2026-01-01T00:00:02+00:00" "b")
    else ok (pair "2026-01-01T00:00:03+00:00" "c")
demo_loads _ = err value_error

abbrev pub demo_codec : Codec DemoJson
demo_codec = record {
  dumps = λ at id. (if str_eq id "a" then b'a' else if str_eq id "b" then b'b' else b'c') ∷ [];
  loads = demo_loads;
  items = demo_items;
  str = demo_str;
  b64encode = λ bytes. bytes ++ (b'=' ∷ b'=' ∷ b'=' ∷ []);
  b64decode = λ value. ok (take 1 value);
  isoformat = iso;
  fromisoformat = from_iso;
}

abbrev before : String → String → Bool
before a b = elim (compare a b) [ Ordering.lt ↦ true | _ ↦ false ]

abbrev rows : List Row
unfolding row_of
rows = map (row_of demo_formats) three_events

abbrev by_severity : List Parameter → Unit {0} → Result (List Row) × Unit {0}
by_severity (Parameter.text s ∷ Parameter.number n ∷ []) w =
    (ok (take n (keep (λ row. all (holds before row) (graded s ∷ [])) rows)), w)
by_severity _ w = (err sqlite_error, w)

abbrev by_cursor : List Parameter → Unit {0} → Result (List Row) × Unit {0}
by_cursor
      (Parameter.text s
        ∷ Parameter.text t
        ∷ Parameter.text _
        ∷ Parameter.text id
        ∷ Parameter.number n
        ∷ [])
      w =
    (ok (take n (keep (λ row. all (holds before row) (graded s ∷ older t id ∷ [])) rows)), w)
by_cursor _ w = (err sqlite_error, w)

-- An engine that knows the two statements that the reader makes for a severity.
abbrev demo_execute : String → List Parameter → Exec (Unit {0}) (List Row)
demo_execute sql parameters w =
    if str_eq sql
      "SELECT event_id, timestamp, event_type, severity, correlation, reader_state, controller_state, delivery_status FROM audit_events WHERE severity = ? ORDER BY timestamp DESC, event_id DESC LIMIT ?"
    then by_severity parameters w
    else if str_eq sql
        "SELECT event_id, timestamp, event_type, severity, correlation, reader_state, controller_state, delivery_status FROM audit_events WHERE severity = ? AND (timestamp < ? OR (timestamp = ? AND event_id < ?)) ORDER BY timestamp DESC, event_id DESC LIMIT ?"
    then by_cursor parameters w
    else (err sqlite_error, w)

abbrev warnings : Filter
warnings = record { after = none; event_type = none; severity = some Severity.warning }

padded : (c : ℕ) → (c == b'=') ≡ false → IsPadded (c ∷ b'=' ∷ b'=' ∷ b'=' ∷ [])
padded c plain = record {
  body = c ∷ [];
  fill = 3;
  parts = refl;
  plain = (plain, tt);
  short = omega arith;
  whole = refl;
}

first-IsLossless : IsLossless demo_codec (cursor_at first_event)
first-IsLossless = record {
  array = (
    pair "2026-01-01T00:00:01+00:00" "a",
    word "2026-01-01T00:00:01+00:00",
    word "a",
    refl,
    refl,
    refl,
    refl,
  );
  padded = padded b'a' refl;
  base64 = refl;
  iso = refl;
}

second-IsLossless : IsLossless demo_codec (cursor_at second_event)
second-IsLossless = record {
  array = (
    pair "2026-01-01T00:00:02+00:00" "b",
    word "2026-01-01T00:00:02+00:00",
    word "b",
    refl,
    refl,
    refl,
    refl,
  );
  padded = padded b'b' refl;
  base64 = refl;
  iso = refl;
}

third-IsLossless : IsLossless demo_codec (cursor_at third_event)
third-IsLossless = record {
  array = (
    pair "2026-01-01T00:00:03+00:00" "c",
    word "2026-01-01T00:00:03+00:00",
    word "c",
    refl,
    refl,
    refl,
    refl,
  );
  padded = padded b'c' refl;
  base64 = refl;
  iso = refl;
}

pub event_accepted :
    (n : ℕ) (id : String) (severity : Severity)
    → checked_event (event n id severity) ≡ ok (event n id severity)
unfolding checked_event keys_pass
event_accepted n id severity = refl

stored :
    (n : ℕ) (id : String) (severity : Severity)
    → is_empty id ≡ false
    → from_iso (iso (time n)) ≡ ok (time n)
    → IsLossless demo_codec (cursor_at (event n id severity))
    → IsStored demo_codec demo_formats (event n id severity)
stored n id severity named again lossless = record {
  accepted = event_accepted n id severity;
  in_utc = refl;
  named = named;
  faithful = record { json = refl; iso = again };
  lossless = lossless;
}

Selects-warnings :
    (n : ℕ) (cursor : Option EventCursor)
    → Selects before demo_execute rows tt (conditions demo_formats (query n warnings cursor)) n
unfolding row_of select_text
Selects-warnings n none = refl
Selects-warnings n (some c) = refl

three_events-IsStored :
    Supposes demo_codec demo_formats demo_execute before three_events tt 5 0 warnings none
unfolding row_of select_text
three_events-IsStored = record {
  stored = (
    stored _ _ _ refl refl third-IsLossless,
    (stored _ _ _ refl refl second-IsLossless, (stored _ _ _ refl refl first-IsLossless, tt)),
  );
  sorted = (refl, ((refl, refl), ((refl, refl), tt)), (refl, ((refl, refl), tt), (refl, tt, tt)));
  selects = Selects-warnings;
  small = omega arith;
  normal = refl;
}

decode-encode_example :
    decode demo_codec (encode demo_codec (cursor_at second_event)) ≡ ok (cursor_at second_event)
decode-encode_example = decode-encode demo_codec (cursor_at second_event) second-IsLossless refl

ask_all_complete_example :
    ask_all demo_codec demo_formats demo_execute 5 1 warnings 4 none tt
    ≡ (ok (third_event ∷ first_event ∷ []), tt)
unfolding is_wanted row_of
ask_all_complete_example =
    ask_all_complete demo_codec demo_formats demo_execute before three_events tt 5 0 4 warnings none
      three_events-IsStored (omega arith)
