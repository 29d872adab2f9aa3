-- ===== src/Reader/Supervisor/Read.antt =====
-- The methods of `ReaderSupervisor` of bridgewire/reader.py that read from a session and end it.
pub mod Keeps
pub mod Sessions
use frontdoor.Prelude.{
  ℕ, zero, suc, ◌+◌, ◌-◌, String, Bool, true, false, not, ◌&&◌, ◌||◌, Option, none, some, List, [],
  ◌∷◌, Exception, os_error, reader_disconnected_error, assertion_error, Result, ok, err, Exec, pure,
  raise, gets, modify, lift, try_else, ◌>>=◌, ◌>>◌, any, is_none, leb, if◌then◌else◌,
}
use frontdoor.Reader.Record.{Text, RecordResult, accepted, malformed}
use frontdoor.Reader.Stream.{ReaderRecordStream, feed}
use frontdoor.Reader.Discovery.{
  SerialDevice, DiscoveryResult, DiscoveryStatus, found, not_found, ambiguous, discover_reader,
}
use frontdoor.Reader.Backoff.{delay}
use frontdoor.Reader.Supervisor.State.{
  ReaderEventType, reader_connecting, reader_connected, reader_not_found, reader_identity_ambiguous,
  reader_open_failed, reader_read_failed, reader_disconnected, reconnect_scheduled,
  reconnect_repeatedly_failed, reader_recovered, reader_record_received, reader_record_malformed,
  ReaderEvent, ReaderHealthState, connecting, ready, degraded, stopped, ReaderSupervisor,
  ReaderSnapshot, Host, Reading, Attempt, connected, interrupted, retry, is_os_error,
}
use frontdoor.Reader.Supervisor.Effects.{on_world, update, emit, wait, emit_attempt, emit_plain}

abbrev is_malformed : RecordResult → Bool
is_malformed (malformed _) = true
is_malformed (accepted _) = false

module _ {W Session : Type 0} (host : Host W Session) where
  -- `_disconnect`
  unfoldable pub disconnect : Exec (Reading W Session) Unit
  disconnect r = elim r.reader.session [
    | none ↦ (ok tt, r)
    | some session ↦
        let (closed, w) = host.close session r.world in
        elim closed [
          | err e ↦ (err e, record r { world = w })
          | ok _ ↦ (
            ok tt,
            record r {
              reader = record r.reader { session = none; health_state = degraded };
              world = w;
            },
          )
        ]
  ]

  -- The handlers of `read_once`.
  lose_session : ReaderEventType → Exec (Reading W Session) (Option Text)
  unfolding emit_plain disconnect
  lose_session event_type = do emit_plain host event_type; disconnect; pure none

  read_failed : Exception → Exec (Reading W Session) (Option Text)
  unfolding lose_session
  read_failed reader_disconnected_error = lose_session reader_disconnected
  read_failed os_error = lose_session reader_read_failed
  read_failed e = raise e

  note_record : Exec (Reading W Session) Unit
  unfolding emit_plain
  note_record r = elim host.monotonic [
    | none ↦ emit_plain host reader_record_received r
    | some monotonic ↦
        let (now, w) = monotonic r.world in
        emit_plain host reader_record_received
          (record r { reader = record r.reader { last_record_at = some now }; world = w })
  ]

  received : Text → Exec (Reading W Session) (Option Text)
  unfolding note_record
  received [] = pure (some [])
  received (byte ∷ bytes) = do note_record; pure (some (byte ∷ bytes))

  unfoldable pub read_once : Exec (Reading W Session) (Option Text)
  unfolding read_failed received on_world
  read_once r = elim r.reader.session [
    | none ↦ (ok none, r)
    | some session ↦ try_else (on_world (host.read session)) read_failed received r
  ]

  pub feed_bytes : Option Text → Exec (Reading W Session) (List RecordResult)
  unfolding emit_plain
  feed_bytes none r = (ok [], r)
  feed_bytes (some []) r = (ok [], r)
  feed_bytes (some (byte ∷ bytes)) r =
      let (results, stream) = feed r.stream (byte ∷ bytes) in
      let r' = record r { stream = stream } in
      if any is_malformed results
      then (emit_plain host reader_record_malformed >> pure results) r'
      else (ok results, r')

  unfoldable pub read_records_once : Exec (Reading W Session) (List RecordResult)
  read_records_once = do data' ← read_once; feed_bytes data'

  unfoldable pub os_disconnected : Exec (Reading W Session) Unit
  unfolding emit_plain disconnect
  os_disconnected r = elim r.reader.session [
    | none ↦ (ok tt, r)
    | some _ ↦ (emit_plain host reader_disconnected >> disconnect) r
  ]

  -- `ReaderSupervisor.close`
  unfoldable pub close : Exec (Reading W Session) Unit
  unfolding disconnect update
  close = do disconnect; update (λ s. record s { health_state = stopped })

  -- `snapshot`, with `connected` and `last_record_age`
  unfoldable pub snapshot : Reading W Session → ReaderSnapshot × Reading W Session
  snapshot r =
      let s = r.reader in
      let without : ReaderSnapshot = record {
        connected = not (is_none s.session);
        health_state = s.health_state;
        last_record_age_seconds = none;
      } in
      elim s.last_record_at [
        | none ↦ (without, r)
        | some at ↦ elim host.monotonic [
          | none ↦ (without, r)
          | some monotonic ↦
              let (now, w) = monotonic r.world in
              (record without { last_record_age_seconds = some (now - at) }, record r { world = w })
        ]
      ]
