-- ===== src/Reader/Supervisor/Connect.antt =====
-- `ReaderSupervisor.connect_until_ready` of bridgewire/reader.py.
pub mod Keeps
pub mod Health
pub mod Overflow
use frontdoor.Prelude.{
  ℕ, zero, suc, ◌+◌, ◌-◌, String, Bool, true, false, not, ◌&&◌, ◌||◌, Option, none, some, List, [],
  ◌∷◌, Exception, os_error, reader_disconnected_error, assertion_error, Result, ok, err, Exec, pure,
  raise, gets, modify, lift, try_else, ◌>>=◌, ◌>>◌, any, is_none, leb, if◌then◌else◌,
}
use frontdoor.Reader.Record.{Text, RecordResult, accepted, malformed}
use frontdoor.Reader.Stream.{ReaderRecordStream, feed}
use frontdoor.Reader.Discovery.{
  SerialDevice, DiscoveryResult, DiscoveryStatus, found, not_found, ambiguous, discover_reader,
}
use frontdoor.Reader.Backoff.{delay}
use frontdoor.Reader.Supervisor.State.{
  ReaderEventType, reader_connecting, reader_connected, reader_not_found, reader_identity_ambiguous,
  reader_open_failed, reader_read_failed, reader_disconnected, reconnect_scheduled,
  reconnect_repeatedly_failed, reader_recovered, reader_record_received, reader_record_malformed,
  ReaderEvent, ReaderHealthState, connecting, ready, degraded, stopped, ReaderSupervisor,
  ReaderSnapshot, Host, Reading, Attempt, connected, interrupted, retry, is_os_error,
}
use frontdoor.Reader.Supervisor.Effects.{on_world, update, emit, wait, emit_attempt, emit_plain}

module _ {W Session : Type 0} (host : Host W Session) where
  -- The `try` round `open_reader`: the failure, if it is an `OSError`.
  open_session : String → Exec (Reading W Session) (Option ReaderEventType)
  open_session path r =
      let (opened, w) = host.open_reader path r.world in
      elim opened [
        | err e ↦
            (if is_os_error e then ok (some reader_open_failed) else err e, record r { world = w })
        | ok session ↦
            if host.usable session
            then (
              ok none,
              record r { reader = record r.reader { session = some session }; world = w },
            )
            else (ok (some reader_open_failed), record r { world = w })
      ]

  -- The failure of an attempt, if it fails, by what the discovery gave.
  pub failure_of :
      DiscoveryStatus → Option SerialDevice → Exec (Reading W Session) (Option ReaderEventType)
  unfolding open_session
  failure_of not_found device = pure (some reader_not_found)
  failure_of ambiguous device = pure (some reader_identity_ambiguous)
  failure_of found none = raise assertion_error
  failure_of found (some device) = open_session device.path

  -- The `else` of that `try`.
  pub finish_connection : ℕ → Exec (Reading W Session) Attempt
  unfolding emit_attempt update
  finish_connection unrelated = do
    had_connection ← gets (λ r. r.reader.had_connection)
    emit_attempt host (if had_connection then reader_recovered else reader_connected) unrelated
    update λ s. record s {
      had_connection = true;
      repeated_failure_emitted = false;
      health_state = ready;
      attempt = 0;
    }
    pure connected

  -- `RECONNECT_REPEATEDLY_FAILED`, once for an outage.
  emit_repeatedly_failed : Exec (Reading W Session) Unit
  unfolding emit_attempt update
  emit_repeatedly_failed r =
      if leb r.reader.repeated_failure_threshold r.reader.attempt
        && not r.reader.repeated_failure_emitted
      then (emit_attempt host reconnect_repeatedly_failed 0
            >> update (λ s. record s { repeated_failure_emitted = true }))
          r
      else (ok tt, r)

  emit_scheduled : ℕ → Exec (Reading W Session) Unit
  unfolding emit
  emit_scheduled seconds r =
      emit host
        (record {
          event_type = reconnect_scheduled;
          attempt = r.reader.attempt;
          backoff_seconds = some seconds;
          unrelated_count = 0;
        })
        r

  -- `self._backoff.delay(self._attempt, self._random_unit())`
  next_delay : Exec (Reading W Session) ℕ
  unfolding on_world
  next_delay = do
    unit ← on_world host.random_unit
    s ← gets (λ r. r.reader)
    lift (delay s.backoff s.attempt unit)

  pub finish_failure : ReaderEventType → ℕ → Exec (Reading W Session) Attempt
  unfolding emit_attempt update emit_repeatedly_failed emit_scheduled next_delay wait
  finish_failure failure unrelated = do
    update (λ s. record s { health_state = degraded })
    emit_attempt host failure unrelated
    emit_repeatedly_failed
    seconds ← next_delay
    emit_scheduled seconds
    waited ← wait host seconds
    pure (if waited then retry else interrupted)

  pub finish_attempt : ℕ → Option ReaderEventType → Exec (Reading W Session) Attempt
  finish_attempt unrelated none = finish_connection unrelated
  finish_attempt unrelated (some failure) = finish_failure failure unrelated

  -- One round of the loop of `connect_until_ready`.
  pub attempt_once : Exec (Reading W Session) Attempt
  unfolding update emit_attempt on_world
  attempt_once = do
    update (λ s. record s { attempt = s.attempt + 1; health_state = connecting })
    emit_attempt host reader_connecting 0
    devices ← on_world host.enumerate_devices
    s ← gets (λ r. r.reader)
    let discovery = discover_reader devices s.identity
    failure ← failure_of discovery.status discovery.device
    finish_attempt discovery.unrelated_count failure

  -- `connect_until_ready`, by the attempts that are left.
  unfoldable pub connect_until_ready : ℕ → Exec (Reading W Session) Bool
  connect_until_ready zero = pure false
  connect_until_ready (suc attempts) = do
    outcome ← attempt_once
    elim outcome [
      | connected ↦ pure true
      | interrupted ↦ pure false
      | retry ↦ connect_until_ready attempts
    ]
