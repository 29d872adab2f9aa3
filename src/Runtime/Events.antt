-- ===== src/Runtime/Events.antt =====
-- `record_reader_event` of bridgewire/application/runtime.py, and the host of the supervisor, whose callbacks wait and
-- record with the runtime as bridgewire/hardware_service.py wires them.
use frontdoor.Prelude.{
  ℕ, Bool, none, some, [], ◌∷◌, Exec, gets, lift, ◌>>=◌, ◌>>◌, ◌==◌, if◌then◌else◌,
}
use frontdoor.Audit.{Correlation, Value, checked_event}
use frontdoor.Audit.Values.{type_of}
use frontdoor.Controller.State.{state_value}
use frontdoor.Reader.Stream.{ReaderRecordStream}
use frontdoor.Reader.Supervisor.State.{ReaderEvent, ReaderSupervisor, Host}
use frontdoor.Runtime.{
  event_value, health_value, is_degrading, event_severity, Devices, Hub, on_base, read_base,
}
use frontdoor.Runtime.Waiting.{quiet_host, cooperative_wait}

module _ {W Session : Type 0} (devices : Devices W Session) where
  -- `{"attempt": event.attempt} if event.attempt else {}`
  abbrev pub attempt_correlation : ℕ → Correlation
  attempt_correlation attempt = if attempt == 0 then [] else ("attempt", Value.number attempt) ∷ []

  -- The end of `record_reader_event`.
  unfoldable pub append_reader_event : ReaderSupervisor Session → ReaderEvent → Exec (Hub W) Unit
  append_reader_event s event = do
    event_type ← lift (type_of (event_value event.event_type))
    now ← read_base devices.ports.now
    controller_state ← gets (λ h. h.controller.state)
    id ← read_base devices.ports.new_id
    made ← lift (
        checked_event (record {
          event_type = event_type;
          severity = event_severity event.event_type;
          timestamp = now;
          correlation = attempt_correlation event.attempt;
          reader_state = some (health_value s.health_state);
          controller_state = some (state_value controller_state);
          delivery_status = none;
          event_id = id;
        }))
    on_base (devices.ports.append made)

  unfoldable pub record_reader_event : ReaderSupervisor Session → ReaderEvent → Exec (Hub W) Unit
  unfolding append_reader_event
  record_reader_event s event =
      if is_degrading event.event_type
      then (do
        on_base (devices.report "degraded" (("reason", event_value event.event_type) ∷ []))
        append_reader_event s event)
      else append_reader_event s event

  -- `wait` of the supervisor: it sees the supervisor, and changes the hub only.
  abbrev pub wait_callback : ReaderSupervisor Session → ReaderRecordStream → ℕ → Exec (Hub W) Bool
  unfolding cooperative_wait
  wait_callback s stream seconds h =
      let (result, r) =
        cooperative_wait devices seconds (record { reader = s; stream = stream; world = h }) in
      (result, r.world)

  -- The host that the hardware service wires up.
  unfoldable pub host : ReaderRecordStream → Host (Hub W) Session
  unfolding cooperative_wait record_reader_event
  host stream = record (quiet_host devices) {
    wait = λ s. wait_callback s stream;
    emit = record_reader_event;
  }
