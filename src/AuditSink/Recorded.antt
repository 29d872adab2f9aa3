-- ===== src/AuditSink/Recorded.antt =====
-- What the reader of bridgewire/adapters/persistence/sqlite_audit_reader.py finds of the events that
-- `SQLiteAuditSink` of bridgewire/audit.py was given.
use frontdoor.Prelude.{
  true, false, map, List, [], ◌∷◌, ◌++◌, Exception, Result, ok, err, ◌≡◌, refl, sym, ◌∙◌, ap, arith,
  All, append_assoc, append-nil, Result-cases, inl, inr,
}
use frontdoor.Audit.{AuditEvent, checked_event}
use frontdoor.Queries.Rows.{Row, Formats, row_of, event_of, events_of}
use frontdoor.Queries.Rows.Written.{IsFaithful, event_of-row_of}
use frontdoor.AuditSink.{Connection, append, append_all, and_if}

-- The transactions of sqlite3: what is committed, and what the open transaction has inserted.
pub record Transacts {W : Type 0} (connection : Connection W) (committed pending : W → List Row)
    : Type 0 where
  pub inserts :
      (row : Row) (w : W)
      → let (done, w') = connection.insert row w in
        (committed w' ≡ committed w) × (done ≡ ok tt → pending w' ≡ pending w ++ row ∷ [])
  pub commits :
      (w : W)
      → let (done, w') = connection.leave true w in
        (pending w' ≡ [])
        × (done ≡ ok tt → committed w' ≡ committed w ++ pending w)
        × ((e : Exception) → done ≡ err e → committed w' ≡ committed w)
  pub rolls_back :
      (w : W)
      → let w' = (connection.leave false w).1 in (pending w' ≡ []) × (committed w' ≡ committed w)

-- An event that the constructor accepts, and whose correlation and time are read as they are written.
abbrev pub IsWritable : Formats → AuditEvent → Type 0
IsWritable formats e = IsFaithful formats e × (checked_event e ≡ ok e)

-- The row of an event whose `append` ended in that way, when it returned.
abbrev pub row_if : Formats → AuditEvent → Result (Unit {0}) → List Row
row_if formats event (ok _) = row_of formats event ∷ []
row_if formats event (err e) = []

append_if :
    (formats : Formats) (event : AuditEvent) (done : Result (Unit {0})) (recorded : List AuditEvent)
    (rows : List Row)
    → (rows ++ row_if formats event done) ++ map (row_of formats) recorded
      ≡ rows ++ map (row_of formats) (and_if done event recorded)
append_if formats event (ok _) recorded rows = append_assoc rows (row_of formats event ∷ []) _
append_if formats event (err e) recorded rows =
    ap (λ t. t ++ map (row_of formats) recorded) (append-nil rows)

-- The reader finds the events of the rows that are there, then those that are appended.
events_of-append :
    (formats : Formats) (rows : List Row) (events : List AuditEvent) {before : List AuditEvent}
    → events_of formats rows ≡ ok before
    → All (IsWritable formats) events
    → events_of formats (rows ++ map (row_of formats) events) ≡ ok (before ++ events)
events_of-append formats [] [] read writable = ground (arith, read)
events_of-append formats [] (event ∷ events) {before} read ((faithful, checked), writable) =
    ground (
      arith,
      read,
      event_of-row_of formats event faithful checked,
      events_of-append formats [] events refl writable,
    )
events_of-append formats (row ∷ rows) events {before} read writable =
    elim (Result-cases (event_of formats row)) [
      | inr (e, broken) ↦ ground (arith, read, broken)
      | inl (first, reads) ↦ elim (Result-cases (events_of formats rows)) [
        | inr (e, broken) ↦ ground (arith, read, reads, broken)
        | inl (others, given) ↦
            ground (arith, read, reads, given, events_of-append formats rows events given writable)
      ]
    ]

and_if-All :
    (P : AuditEvent → Type 0) (done : Result (Unit {0})) {event : AuditEvent}
    (events : List AuditEvent)
    → P event
    → All P events
    → All P (and_if done event events)
and_if-All P (ok _) events holds held = (holds, held)
and_if-All P (err e) events holds held = held

module _ {W : Type 0} (connection : Connection W) (formats : Formats)
    (committed pending : W → List Row) (transacts : Transacts connection committed pending) where
  append-committed :
      (event : AuditEvent) (w : W)
      → pending w ≡ []
      → let (done, w') = append connection formats event w in
        (pending w' ≡ []) × (committed w' ≡ committed w ++ row_if formats event done)
  unfolding append
  append-committed event w clean =
      let w' = (connection.insert (row_of formats event) w).1 in
      elim (Result-cases (connection.insert (row_of formats event) w).0) [
        | inl (_, made) ↦ elim (Result-cases (connection.leave true w').0) [
          | inl (_, left) ↦ ground (
            arith,
            made,
            left,
            clean,
            transacts.inserts (row_of formats event) w,
            transacts.commits w',
          )
          | inr (e, left) ↦ ground (
            arith,
            made,
            left,
            clean,
            transacts.inserts (row_of formats event) w,
            (transacts.commits w').0,
            (transacts.commits w').2 e left,
            append-nil (committed w),
          )
        ]
        | inr (e, failed) ↦ elim (Result-cases (connection.leave false w').0) [
          | inl (_, left) ↦ ground (
            arith,
            failed,
            left,
            (transacts.inserts (row_of formats event) w).0,
            transacts.rolls_back w',
            append-nil (committed w),
          )
          | inr (e', left) ↦ ground (
            arith,
            failed,
            left,
            (transacts.inserts (row_of formats event) w).0,
            transacts.rolls_back w',
            append-nil (committed w),
          )
        ]
      ]

  append_all-committed :
      (events : List AuditEvent) (w : W)
      → pending w ≡ []
      → let (recorded, w') = append_all connection formats events w in
        (pending w' ≡ []) × (committed w' ≡ committed w ++ map (row_of formats) recorded)
  unfolding append_all
  append_all-committed [] w clean = (clean, sym (append-nil (committed w)))
  append_all-committed (event ∷ events) w clean =
      let (cleared, added) = append-committed event w clean in
      let w' = (append connection formats event w).1 in
      let (rest_cleared, rest) = append_all-committed events w' cleared in
      (
        rest_cleared,
        rest
            ∙ ap (λ t. t ++ map (row_of formats) (append_all connection formats events w').0) added
            ∙ append_if formats event (append connection formats event w).0
                (append_all connection formats events w').0 (committed w),
      )

  append_all-All :
      (P : AuditEvent → Type 0) (events : List AuditEvent) (w : W)
      → All P events
      → All P (append_all connection formats events w).0
  unfolding append_all
  append_all-All P [] w held = held
  append_all-All P (event ∷ events) w (holds, held) =
      let w' = (append connection formats event w).1 in
      and_if-All P (append connection formats event w).0 (append_all connection formats events w').0
        holds (append_all-All P events w' held)

  -- Over transactions that keep to sqlite3's, from a state without an open one whose rows are read as
  -- `before`: after appends of events that the constructor accepts and the formats read back, some of
  -- which may raise, no transaction is open, and the reader finds `before`, then the events whose
  -- append returned, and no other, in their order.
  pub append_all-found :
      (events : List AuditEvent) (w : W) {before : List AuditEvent}
      → pending w ≡ []
      → events_of formats (committed w) ≡ ok before
      → All (IsWritable formats) events
      → let (recorded, w') = append_all connection formats events w in
        (pending w' ≡ []) × (events_of formats (committed w') ≡ ok (before ++ recorded))
  append_all-found events w {before} clean read writable =
      let (cleared, added) = append_all-committed events w clean in
      (
        cleared,
        ap (events_of formats) added
            ∙ events_of-append formats (committed w) (append_all connection formats events w).0 read
                (append_all-All (IsWritable formats) events w writable),
      )
