-- ===== src/Queries/Pages/Complete.antt =====
-- The pages of a table of stored events, put together.
use frontdoor.Prelude.{
  ℕ, zero, suc, ◌+◌, ◌<◌, ◌≤◌, String, Bool, true, ◌&&◌, Option, none, some, List, [], ◌∷◌, ◌++◌,
  map, take, keep, all, All, length, length-append, append_assoc, Exec, ok, ◌≡◌, refl, sym, ap, ◌∙◌,
  arith, Bool-cases, inl, inr, subst, lt→ltb, ltb,
}
use frontdoor.Prelude.Results.{◌>>=◌}
use frontdoor.Reader.Record.{Text}
use frontdoor.Clock.{Timestamp, utc, as_utc}
use frontdoor.Audit.{AuditEvent}
use frontdoor.Queries.{
  Codec, EventQuery, EventCursor, cursor_at, encode, decode_optional, list_events, list_between,
  page_of, normalize_time,
}
use frontdoor.Queries.Cursor.{decode-encode}
use frontdoor.Queries.Rows.{Row, Parameter, Formats, row_of, read_events}
use frontdoor.Queries.Pages.{
  holds, Selects, follows, IsNewestFirst, IsStored, Filter, request, is_wanted, if_given, ask,
  ask_all,
}
use frontdoor.Queries.Pages.Kept.{
  keep-keep, keep-cong, keep-IsNewestFirst, keep-follows, All-keep_of, All-middle, take-take,
  length-take, keep-true, length-keep_short, take-long, last_of-append, Cut, cut,
}
use frontdoor.Queries.Pages.Select.{read_events-stored, conditions, cursor_condition}

-- The query that the service passes on for a cursor.
abbrev pub query : ℕ → Filter → Option EventCursor → EventQuery
query limit filter cursor = record {
  limit = limit;
  cursor = cursor;
  before = none;
  after = filter.after;
  event_type = filter.event_type;
  severity = filter.severity;
}

as_utc-utc : (t : Timestamp) → t.zone ≡ utc → as_utc t ≡ t
as_utc-utc t same = ground arith

module _ {Json W : Type 0} (codec : Codec Json)
    (reader : EventQuery → Exec W (List AuditEvent)) where
  list_events-page :
      (maximum limit : ℕ) (filter : Filter) (after : Option Timestamp) (text : Option Text)
      (cursor : Option EventCursor) (found : List AuditEvent) (w : W)
      → 0 < limit
      → limit ≤ maximum
      → normalize_time filter.after ≡ ok after
      → decode_optional codec reader text ≡ ok cursor
      → reader (query (limit + 1) (record filter { after = after }) cursor) w ≡ (ok found, w)
      → list_events codec reader maximum (request limit filter text) w
        ≡ (ok (page_of codec reader limit found), w)
  unfolding list_events list_between
  list_events-page maximum limit filter after text cursor found w positive small normal decoded
        reads =
      ground (arith, positive, small, normal, decoded, reads)

  -- The last page.
  page_of-last :
      (limit : ℕ) (es : List AuditEvent)
      → length es ≤ limit
      → page_of codec reader limit (take (limit + 1) es) ≡ record { items = es; next_cursor = none }
  unfolding page_of
  page_of-last limit es short =
      rw (take-long (limit + 1) es (omega arith)) (ground (arith, take-long limit es short))

  -- A page with more to come.
  page_of-more :
      (k : ℕ) (es : List AuditEvent) (c : Cut k es)
      → k + 1 < length es
      → page_of codec reader (suc k) (take (suc k + 1) es) ≡ record {
        items = c.before ++ (c.item ∷ []);
        next_cursor =
            some
              (encode codec (record { timestamp = c.item.timestamp; event_id = c.item.event_id }));
      }
  unfolding page_of
  page_of-more k es c long =
      let items : take (suc k) (take (suc k + 1) es) ≡ c.before ++ (c.item ∷ []) =
        take-take (suc k) (suc k + 1) es (omega arith) ∙ c.page in
      let more : ltb (suc k) (length (take (suc k + 1) es)) ≡ true =
        lt→ltb _ _ (omega (arith, length-take (suc k + 1) es (omega arith))) in
      rw (items, more, last_of-append c.before c.item) refl

module _ {Json W : Type 0} (codec : Codec Json) (formats : Formats)
    (execute : String → List Parameter → Exec W (List Row)) (lt : String → String → Bool)
    (es : List AuditEvent) (w : W) (maximum k : ℕ) (filter : Filter)
    (after : Option Timestamp) where
  -- The filter with its time in UTC.
  abbrev pub chosen : Filter
  chosen = record filter { after = after }

  -- What the claim below supposes of the table, the formats and the request.
  pub record Supposes : Type 0 where
    pub stored : All (IsStored codec formats) es
    pub sorted : IsNewestFirst (follows lt formats) es
    pub selects :
        (n : ℕ) (cursor : Option EventCursor)
        → Selects lt execute
            (map (row_of formats) es)
            w
            (conditions formats (query n chosen cursor))
            n
    pub small : suc k ≤ maximum
    pub normal : normalize_time filter.after ≡ ok after

  wanted : List AuditEvent
  wanted = keep (is_wanted lt formats (record filter { after = after })) es

  -- A text of a cursor leads to a list of events.
  record Leads (text : Option Text) (rest : List AuditEvent) : Type 0 where
    cursor : Option EventCursor
    decoded : decode_optional codec (read_events formats execute) text ≡ ok cursor
    reads :
        (n : ℕ)
        → read_events formats execute (query n (record filter { after = after }) cursor) w
          ≡ (ok (take n rest), w)

  abbrev is_after : Option EventCursor → AuditEvent → Bool
  is_after cursor e = all (holds lt (row_of formats e)) (if_given (cursor_condition formats) cursor)

  conditions-query :
      (n : ℕ) (cursor : Option EventCursor) (e : AuditEvent)
      → all (holds lt (row_of formats e)) (conditions formats (query n chosen cursor))
        ≡ (is_wanted lt formats chosen e && is_after cursor e)
  unfolding is_wanted
  conditions-query n cursor e = ground arith

  read_wanted :
      (s : Supposes) (n : ℕ) (cursor : Option EventCursor)
      → read_events formats execute (query n chosen cursor) w
        ≡ (ok (take n (keep (is_after cursor) wanted)), w)
  unfolding wanted
  read_wanted s n cursor =
      read_events-stored codec formats execute lt es w (query n chosen cursor) s.stored
        (s.selects n cursor)
      ∙ ap (λ xs. (ok (take n xs), w))
          (keep-cong _ _ es (conditions-query n cursor) ∙ keep-keep _ (is_after cursor) es)

  Leads-none : Supposes → Leads none wanted
  unfolding decode_optional
  Leads-none s = record {
    cursor = none;
    decoded = refl;
    reads = λ n. read_wanted s n none ∙ ap (λ xs. (ok (take n xs), w)) (keep-true wanted);
  }

  Leads-next :
      (s : Supposes) (pre : List AuditEvent) (x : AuditEvent) (post : List AuditEvent)
      → wanted ≡ pre ++ (x ∷ post)
      → Leads (some (encode codec (cursor_at x))) post
  unfolding decode_optional wanted ◌>>=◌
  Leads-next s pre x post parts =
      let c : EventCursor = cursor_at x in
      let stored : IsStored codec formats x = All-middle (IsStored codec formats) pre x post (
        subst (All (IsStored codec formats)) parts
          (All-keep_of (IsStored codec formats) _ es s.stored)) in
      let after_x : keep (follows lt formats x) wanted ≡ post =
        ap (keep (follows lt formats x)) parts
        ∙ keep-follows (follows lt formats) pre x post (
            subst (IsNewestFirst (follows lt formats)) parts
              (keep-IsNewestFirst (follows lt formats) _ es s.sorted)) in
      record {
        cursor = some (record c { timestamp = as_utc c.timestamp });
        decoded = rw (decode-encode codec c stored.lossless stored.named) refl;
        reads = λ n.
            read_wanted s n _
            ∙ ap (λ xs. (ok (take n xs), w))
                (keep-cong _ _ wanted (λ a. ground (arith, as_utc-utc x.timestamp stored.in_utc))
                  ∙ after_x);
      }

  ask_all-last :
      (pages : ℕ) (text : Option Text) (items : List AuditEvent)
      → ask codec formats execute maximum (suc k) filter text w
        ≡ (ok (record { items = items; next_cursor = none }), w)
      → ask_all codec formats execute maximum (suc k) filter (suc pages) text w ≡ (ok items, w)
  unfolding ask_all
  ask_all-last pages text items asked = ground (arith, asked)

  ask_all-next :
      (pages : ℕ) (text : Option Text) (next : Text) (items rest : List AuditEvent)
      → ask codec formats execute maximum (suc k) filter text w
        ≡ (ok (record { items = items; next_cursor = some next }), w)
      → ask_all codec formats execute maximum (suc k) filter pages (some next) w ≡ (ok rest, w)
      → ask_all codec formats execute maximum (suc k) filter (suc pages) text w
        ≡ (ok (items ++ rest), w)
  unfolding ask_all
  ask_all-next pages text next items rest asked again = ground (arith, asked, again)

  ask_all-rest :
      (s : Supposes) (pages : ℕ) (text : Option Text) (pre rest : List AuditEvent)
      → wanted ≡ pre ++ rest
      → Leads text rest
      → length rest < pages
      → ask_all codec formats execute maximum (suc k) filter pages text w ≡ (ok rest, w)
  unfolding ask
  ask_all-rest s zero text pre rest parts leads enough = absurd (omega arith)
  ask_all-rest s (suc pages) text pre rest parts leads enough =
      let reader = read_events formats execute in
      let asked =
        list_events-page codec reader maximum (suc k) filter after text leads.cursor
          (take (suc k + 1) rest) w (omega arith) s.small s.normal leads.decoded
          (leads.reads (suc k + 1)) in
      elim (Bool-cases (ltb (suc k) (length rest))) [
        | inr last ↦ ask_all-last pages text rest (
            asked
            ∙ ap (λ p. (ok p, w)) (page_of-last codec reader (suc k) rest (ground (arith, last))))
        | inl more ↦
            let c = cut k rest (ground (arith, more)) in
            let whole : wanted ≡ (pre ++ c.before) ++ (c.item ∷ c.rest) =
              parts ∙ ap (◌++◌ pre) c.whole ∙ sym (append_assoc pre c.before (c.item ∷ c.rest)) in
            let size : length rest ≡ length c.before + suc (length c.rest) =
              ap length c.whole ∙ length-append c.before (c.item ∷ c.rest) in
            let again =
              ask_all-rest s pages _ ((pre ++ c.before) ++ (c.item ∷ [])) c.rest
                (whole ∙ sym (append_assoc (pre ++ c.before) (c.item ∷ []) c.rest))
                (Leads-next s (pre ++ c.before) c.item c.rest whole) (omega arith) in
            ask_all-next pages text _ (c.before ++ (c.item ∷ [])) c.rest
              (asked
                ∙ ap (λ p. (ok p, w)) (page_of-more codec reader k rest c (ground (arith, more))))
              again
            ∙ ap (λ xs. (ok xs, w)) (append_assoc c.before (c.item ∷ []) c.rest ∙ sym c.whole)
      ]

-- Over a table that is ordered newest first and a SELECT, a base64, a JSON and an ISO format that do
-- what is documented, a client that asks for page after page, each time with the cursor of the page
-- before, gets every stored event that its filter asks for exactly once, newest first, and comes to
-- a last page, whatever page size from 1 to the maximum it asks for.
pub ask_all_complete :
    {Json W : Type 0} (codec : Codec Json) (formats : Formats)
    (execute : String → List Parameter → Exec W (List Row)) (lt : String → String → Bool)
    (es : List AuditEvent) (w : W) (maximum k pages : ℕ) (filter : Filter)
    (after : Option Timestamp)
    → Supposes codec formats execute lt es w maximum k filter after
    → length es < pages
    → ask_all codec formats execute maximum (suc k) filter pages none w
      ≡ (ok (keep (is_wanted lt formats (record filter { after = after })) es), w)
unfolding wanted
ask_all_complete codec formats execute lt es w maximum k pages filter after s enough =
    ask_all-rest codec formats execute lt es w maximum k filter after s pages none [] _ refl
      (Leads-none codec formats execute lt es w maximum k filter after s)
      (omega (arith, length-keep_short (is_wanted lt formats (record filter { after = after })) es))
