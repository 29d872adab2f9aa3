-- ===== src/AuditSink.antt =====
-- `SQLiteAuditSink` of bridgewire/audit.py. The connection of sqlite3 is a parameter.
pub mod Recorded
use frontdoor.Prelude.{
  String, Bool, List, [], ◌∷◌, Exception, Result, ok, err, is_ok, Exec, pure, lift, ◌>>=◌, ◌>>◌,
  Option, none, some, assertion_error, ℕ,
}
use frontdoor.Audit.{AuditEvent}
use frontdoor.Queries.Rows.{Row, Formats, row_of}

-- What the sink asks of the file system and of its connection. `leave` is the end of a `with` block on
-- the connection, which is told whether the block returned; `count_rows` is the row of the statement
-- `SELECT COUNT(*)`.
pub record Connection (W : Type 0) : Type 0 where
  pub make_directory : W → Result (Unit {0}) × W
  pub connect : W → Result (Unit {0}) × W
  pub execute : String → W → Result (Unit {0}) × W
  pub insert : Row → W → Result (Unit {0}) × W
  pub leave : Bool → W → Result (Unit {0}) × W
  pub commit : W → Result (Unit {0}) × W
  pub count_rows : W → Result (Option ℕ) × W
  pub close : W → Result (Unit {0}) × W

-- The event of an `append` that returned, before others.
abbrev pub and_if : Result (Unit {0}) → AuditEvent → List AuditEvent → List AuditEvent
and_if (ok _) event events = event ∷ events
and_if (err e) event events = events

module _ {W : Type 0} (connection : Connection W) (formats : Formats) where
  -- `__init__`; `create` is its last statement.
  unfoldable pub open_sink : String → W → Result (Unit {0}) × W
  open_sink create = do
    connection.make_directory
    connection.connect
    connection.execute "PRAGMA journal_mode=WAL"
    connection.execute "PRAGMA synchronous=FULL"
    connection.execute create
    connection.commit

  -- What the `with` block ends in: an exception of its end replaces the one before.
  abbrev pub after_block : Result (Unit {0}) → Result (Unit {0}) × W → Result (Unit {0}) × W
  after_block done (ok _, w) = (done, w)
  after_block done (err e, w) = (err e, w)

  -- `append`
  unfoldable pub append : AuditEvent → W → Result (Unit {0}) × W
  append event w =
      let (done, w') = connection.insert (row_of formats event) w in
      after_block done (connection.leave (is_ok done) w')

  -- `count`; the assertion is that the statement gives a row.
  abbrev pub counted : Option ℕ → Result ℕ
  counted none = err assertion_error
  counted (some n) = ok n

  unfoldable pub count : W → Result ℕ × W
  count = do row ← connection.count_rows; lift (counted row)

  -- `close`
  unfoldable pub close_sink : W → Result (Unit {0}) × W
  close_sink = connection.close

  -- Several appends, and the events of those that returned.
  unfoldable pub append_all : List AuditEvent → W → List AuditEvent × W
  append_all [] w = ([], w)
  append_all (event ∷ events) w =
      let (done, w') = append event w in
      let (recorded, w'') = append_all events w' in (and_if done event recorded, w'')
