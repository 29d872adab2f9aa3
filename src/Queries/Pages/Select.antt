-- ===== src/Queries/Pages/Select.antt =====
-- What the SQLite reader gives for a query, over the rows of stored events.
use frontdoor.Prelude.{
  String, Bool, List, [], ◌∷◌, ◌++◌, map, take, keep, all, All, Exec, ok, ◌≡◌, refl, ap, ◌∙◌, arith,
}
use frontdoor.Audit.{AuditEvent}
use frontdoor.Audit.Values.{type_value, severity_value}
use frontdoor.Queries.{Codec, EventQuery, EventCursor}
use frontdoor.Queries.Rows.{Row, Parameter, Formats, row_of, events_of, clauses, read_events}
use frontdoor.Queries.Rows.Written.{event_of-row_of}
use frontdoor.Queries.Pages.{
  Condition, earlier, later, typed, graded, older, sql, holds, Selects, IsStored, if_given,
}
use frontdoor.Queries.Pages.Kept.{keep-map, take-map, All-keep_of, All-take}

abbrev pub cursor_condition : Formats → EventCursor → Condition
cursor_condition formats c = older (formats.isoformat c.timestamp) c.event_id

-- The conditions that the reader's clauses write.
abbrev pub conditions : Formats → EventQuery → List Condition
conditions formats q =
    if_given (λ t. earlier (formats.isoformat t)) q.before
    ++ (if_given (λ t. later (formats.isoformat t)) q.after
        ++ (if_given (λ t. typed (type_value t)) q.event_type
            ++ (if_given (λ s. graded (severity_value s)) q.severity
                ++ if_given (cursor_condition formats) q.cursor)))

clauses-conditions :
    (formats : Formats) (q : EventQuery) → clauses formats q ≡ map sql (conditions formats q)
unfolding clauses
clauses-conditions formats q = ground arith

events_of-map :
    {Json : Type 0} (codec : Codec Json) (formats : Formats) (es : List AuditEvent)
    → All (IsStored codec formats) es
    → events_of formats (map (row_of formats) es) ≡ ok es
events_of-map codec formats [] h = refl
events_of-map codec formats (e ∷ es) h =
    ground (
      arith,
      event_of-row_of formats e h.0.faithful h.0.accepted,
      events_of-map codec formats es h.1,
    )

-- The reader gives the stored events that meet the conditions, newest first, as many as the limit.
pub read_events-stored :
    {Json W : Type 0} (codec : Codec Json) (formats : Formats)
    (execute : String → List Parameter → Exec W (List Row)) (lt : String → String → Bool)
    (es : List AuditEvent) (w : W) (q : EventQuery)
    → All (IsStored codec formats) es
    → Selects lt execute (map (row_of formats) es) w (conditions formats q) q.limit
    → read_events formats execute q w ≡ (
      ok (take q.limit (keep (λ e. all (holds lt (row_of formats e)) (conditions formats q)) es)),
      w,
    )
unfolding read_events
read_events-stored codec formats execute lt es w q stored selects =
    let p : AuditEvent → Bool = λ e. all (holds lt (row_of formats e)) (conditions formats q) in
    let rows : take q.limit
          (keep (λ row. all (holds lt row) (conditions formats q)) (map (row_of formats) es))
        ≡ map (row_of formats) (take q.limit (keep p es)) =
      ap (take q.limit) (keep-map _ (row_of formats) es)
      ∙ take-map q.limit (row_of formats) (keep p es) in
    let found = events_of-map codec formats (take q.limit (keep p es)) (
      All-take (IsStored codec formats) q.limit _
        (All-keep_of (IsStored codec formats) p es stored)) in
    rw (clauses-conditions formats q) (ground (arith, selects, rows, found))
