-- ===== src/Reader/Supervisor/Connect/Keeps.antt =====
-- What `connect_until_ready` leaves as it is in the world, if the callables of the supervisor do.
use frontdoor.Prelude.{ℕ, suc, zero, String, Option, none, some, arith}
use frontdoor.Reader.Discovery.{DiscoveryStatus, SerialDevice, found, not_found, ambiguous}
use frontdoor.Reader.Supervisor.State.{ReaderEventType, Host, Reading}
use frontdoor.Reader.Supervisor.Effects.{on_world, update}
use frontdoor.Reader.Supervisor.Keeps.{HostKeeps, emit_keeps, emit_attempt_keeps, wait_keeps}
use frontdoor.Reader.Supervisor.Connect.{
  open_session, failure_of, finish_connection, emit_repeatedly_failed, emit_scheduled, next_delay,
  finish_failure, finish_attempt, attempt_once, connect_until_ready,
}

module _ {W Session : Type 0} (P : W → Type 0) (host : Host W Session)
    (keeps : HostKeeps P host) where
  finish_connection_keeps :
      (n : ℕ) (r : Reading W Session) → P r.world → P (finish_connection host n r).1.world
  unfolding finish_connection update
  finish_connection_keeps n r h = grind (arith, emit_attempt_keeps P host keeps)

  open_session_keeps :
      (path : String) (r : Reading W Session) → P r.world → P (open_session host path r).1.world
  unfolding open_session
  open_session_keeps path r h = grind (arith, keeps.opens)

  failure_of_keeps :
      (s : DiscoveryStatus) (d : Option SerialDevice) (r : Reading W Session)
      → P r.world
      → P (failure_of host s d r).1.world
  unfolding failure_of
  failure_of_keeps not_found d r h = h
  failure_of_keeps ambiguous d r h = h
  failure_of_keeps found none r h = h
  failure_of_keeps found (some d) r h = open_session_keeps d.path r h

  emit_repeatedly_failed_keeps :
      (r : Reading W Session) → P r.world → P (emit_repeatedly_failed host r).1.world
  unfolding emit_repeatedly_failed update
  emit_repeatedly_failed_keeps r h = grind (arith, emit_attempt_keeps P host keeps)

  next_delay_keeps : (r : Reading W Session) → P r.world → P (next_delay host r).1.world
  unfolding next_delay on_world
  next_delay_keeps r h = grind (arith, keeps.draws)

  emit_scheduled_keeps :
      (n : ℕ) (r : Reading W Session) → P r.world → P (emit_scheduled host n r).1.world
  unfolding emit_scheduled
  emit_scheduled_keeps n r h = emit_keeps P host keeps _ r h

  finish_failure_keeps :
      (t : ReaderEventType) (n : ℕ) (r : Reading W Session)
      → P r.world
      → P (finish_failure host t n r).1.world
  unfolding finish_failure update
  finish_failure_keeps t n r h = grind (
    arith,
    emit_attempt_keeps P host keeps,
    emit_repeatedly_failed_keeps,
    next_delay_keeps,
    emit_scheduled_keeps,
    wait_keeps P host keeps,
  )

  finish_attempt_keeps :
      (n : ℕ) (f : Option ReaderEventType) (r : Reading W Session)
      → P r.world
      → P (finish_attempt host n f r).1.world
  unfolding finish_attempt
  finish_attempt_keeps n none r h = finish_connection_keeps n r h
  finish_attempt_keeps n (some f) r h = finish_failure_keeps f n r h

  attempt_once_keeps : (r : Reading W Session) → P r.world → P (attempt_once host r).1.world
  unfolding attempt_once update on_world
  attempt_once_keeps r h = grind (
    arith,
    emit_attempt_keeps P host keeps,
    keeps.enumerates,
    failure_of_keeps,
    finish_attempt_keeps,
  )

  pub connect_until_ready_keeps :
      (n : ℕ) (r : Reading W Session) → P r.world → P (connect_until_ready host n r).1.world
  unfolding connect_until_ready
  connect_until_ready_keeps zero r h = h
  connect_until_ready_keeps (suc n) r h =
      grind (arith, attempt_once_keeps r h, connect_until_ready_keeps n)
