-- ===== src/Reader/Supervisor/Read/Keeps.antt =====
-- What reading and closing leave as they are in the world, if the callables of the supervisor do.
use frontdoor.Prelude.{Option, none, some, [], ◌∷◌, Exception, arith}
use frontdoor.Reader.Record.{Text}
use frontdoor.Reader.Supervisor.State.{ReaderEventType, Host, Reading}
use frontdoor.Reader.Supervisor.Effects.{on_world, update}
use frontdoor.Reader.Supervisor.Keeps.{HostKeeps, emit_plain_keeps}
use frontdoor.Reader.Supervisor.Read.{
  disconnect, lose_session, read_failed, note_record, received, read_once, feed_bytes,
  read_records_once, close,
}

module _ {W Session : Type 0} (P : W → Type 0) (host : Host W Session)
    (keeps : HostKeeps P host) where
  disconnect_keeps : (r : Reading W Session) → P r.world → P (disconnect host r).1.world
  unfolding disconnect
  disconnect_keeps r h = grind (arith, keeps.closes)

  lose_session_keeps :
      (t : ReaderEventType) (r : Reading W Session) → P r.world → P (lose_session host t r).1.world
  unfolding lose_session
  lose_session_keeps t r h = grind (arith, emit_plain_keeps P host keeps, disconnect_keeps)

  read_failed_keeps :
      (e : Exception) (r : Reading W Session) → P r.world → P (read_failed host e r).1.world
  unfolding read_failed
  read_failed_keeps e r h = grind (arith, lose_session_keeps)

  note_record_keeps : (r : Reading W Session) → P r.world → P (note_record host r).1.world
  unfolding note_record
  note_record_keeps r h = grind (arith, emit_plain_keeps P host keeps, keeps.clocks)

  received_keeps : (t : Text) (r : Reading W Session) → P r.world → P (received host t r).1.world
  unfolding received
  received_keeps [] r h = h
  received_keeps (byte ∷ bytes) r h = grind (arith, note_record_keeps r h)

  read_once_keeps : (r : Reading W Session) → P r.world → P (read_once host r).1.world
  unfolding read_once on_world
  read_once_keeps r h = grind (arith, keeps.reads, read_failed_keeps, received_keeps)

  feed_bytes_keeps :
      (d : Option Text) (r : Reading W Session) → P r.world → P (feed_bytes host d r).1.world
  unfolding feed_bytes
  feed_bytes_keeps none r h = h
  feed_bytes_keeps (some []) r h = h
  feed_bytes_keeps (some (byte ∷ bytes)) r h = grind (arith, emit_plain_keeps P host keeps)

  pub read_records_once_keeps :
      (r : Reading W Session) → P r.world → P (read_records_once host r).1.world
  unfolding read_records_once
  read_records_once_keeps r h = grind (arith, read_once_keeps, feed_bytes_keeps)

  pub close_keeps : (r : Reading W Session) → P r.world → P (close host r).1.world
  unfolding close update
  close_keeps r h = grind (arith, disconnect_keeps)
