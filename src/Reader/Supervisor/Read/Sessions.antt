-- ===== src/Reader/Supervisor/Read/Sessions.antt =====
-- What reading and closing do to the session and the health of a supervisor.
use frontdoor.Prelude.{
  ◌≡◌, ◌≢◌, refl, true, false, [], ◌∷◌, Option, none, some, Exception, ok, err, arith, is_none,
}
use frontdoor.Reader.Record.{Text}
use frontdoor.Reader.Supervisor.State.{
  ReaderEvent, ready, degraded, ReaderSupervisor, Host, Reading, is_os_error,
}
use frontdoor.Reader.Supervisor.Read.{
  read_once, feed_bytes, read_records_once, os_disconnected, close,
}

-- The health is ready exactly while there is a session.
pub record IsConsistent {Session : Type 0} (s : ReaderSupervisor Session) : Type 0 where
  pub opened : is_none s.session ≡ false → s.health_state ≡ ready
  pub closed : is_none s.session ≡ true → s.health_state ≢ ready

feed_bytes-reader :
    {W Session : Type 0} (host : Host W Session) (r : Reading W Session) (bytes : Option Text)
    → (feed_bytes host bytes r).1.reader ≡ r.reader
unfolding feed_bytes
feed_bytes-reader host r none = refl
feed_bytes-reader host r (some []) = refl
feed_bytes-reader host r (some (byte ∷ bytes)) = ground arith

module _ {W Session : Type 0} (host : Host W Session) (r : Reading W Session) where
  read_once-IsConsistent : IsConsistent r.reader → IsConsistent (read_once host r).1.reader
  unfolding read_once
  read_once-IsConsistent h = ground arith

  read_records_once-IsConsistent :
      IsConsistent r.reader → IsConsistent (read_records_once host r).1.reader
  unfolding read_records_once
  read_records_once-IsConsistent h =
      grind (arith, read_once-IsConsistent h, feed_bytes-reader host (read_once host r).1)

  os_disconnected-IsConsistent :
      IsConsistent r.reader → IsConsistent (os_disconnected host r).1.reader
  unfolding os_disconnected
  os_disconnected-IsConsistent h = ground arith

  close-IsConsistent : IsConsistent r.reader → IsConsistent (close host r).1.reader
  unfolding close
  close-IsConsistent h = ground arith

  -- Reading, a disconnection that the system reports, and closing keep the session and the health in
  -- step, also where an operation of the host raises.
  methods-IsConsistent :
      IsConsistent r.reader
      → IsConsistent (read_records_once host r).1.reader
        × IsConsistent (os_disconnected host r).1.reader
        × IsConsistent (close host r).1.reader
  methods-IsConsistent h =
      (read_records_once-IsConsistent h, os_disconnected-IsConsistent h, close-IsConsistent h)

-- The callbacks and the end of a session do not raise.
pub record IsQuiet {W Session : Type 0} (host : Host W Session) : Type 0 where
  pub emits : (s : ReaderSupervisor Session) (e : ReaderEvent) (w : W) → (host.emit s e w).0 ≡ ok tt
  pub closes : (s : Session) (w : W) → (host.close s w).0 ≡ ok tt

-- A read that raises an `OSError` of either kind gives no records, and leaves no session, a degraded
-- health and the stream's buffer as it was.
read_records_once_loses :
    {W Session : Type 0} (host : Host W Session) (r : Reading W Session) {session : Session}
    {e : Exception}
    → IsQuiet host
    → r.reader.session ≡ some session
    → (host.read session r.world).0 ≡ err e
    → is_os_error e ≡ true
    → let (results, r') = read_records_once host r in
      (results ≡ ok [])
      × (is_none r'.reader.session ≡ true)
      × (r'.reader.health_state ≡ degraded)
      × (r'.stream ≡ r.stream)
unfolding read_records_once read_once feed_bytes
read_records_once_loses host r quiet opened fails os = grind (arith, quiet.emits, quiet.closes)
