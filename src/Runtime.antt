-- ===== src/Runtime.antt =====
-- bridgewire/application/runtime.py: the access service and the reader supervisor in one loop. The
-- clock, the health reporter, the stop event and the devices are operations on a world `W`.
pub mod Waiting
pub mod Events
pub mod Loop
pub mod Shutdown
pub mod Waiter
pub mod Cleanup
pub mod Calls
pub mod Rounds
pub mod Sound
pub mod Tended
use frontdoor.Prelude.{
  ℕ, zero, suc, ◌+◌, ◌-◌, ◌*◌, min, String, Bool, true, false, not, Option, none, some, List, [],
  ◌∷◌, ◌++◌, Exception, assertion_error, exception_group, Result, ok, err, Exec, pure, raise, gets,
  lift, ◌>>=◌, ◌>>◌, leb, ltb, ◌==◌, is_none, text_in, if◌then◌else◌,
}
use frontdoor.Clock.{Timestamp}
use frontdoor.Audit.{AuditEvent, Severity, Correlation, Value, checked_event}
use frontdoor.Audit.Values.{type_of}
use frontdoor.Controller.State.{
  ControllerState, state_value, Ports, AccessController, Door, snapshot,
}
use frontdoor.Controller.Operations.{start, tick, recoverable_failure, shutdown}
use frontdoor.Access.{submit_record, physical_reader}
use frontdoor.Reader.Record.{Text, RecordResult}
use frontdoor.Reader.Stream.{ReaderRecordStream, new_stream}
use frontdoor.Reader.Discovery.{SerialDevice}
use frontdoor.Reader.Supervisor.State.{
  ReaderEventType, ReaderEvent, ReaderHealthState, ReaderSupervisor, Host, Reading,
}
use frontdoor.Reader.Supervisor.Effects.{on_world}
use frontdoor.Reader.Supervisor.Connect.{connect_until_ready}
use frontdoor.Reader.Supervisor.Read.{read_records_once, close, snapshot as reader_snapshot}
use frontdoor.Status.{OperationalSnapshotStore, publish}

-- The values of the two `StrEnum`s of bridgewire/reader.py.
abbrev pub event_value : ReaderEventType → String
event_value ReaderEventType.reader_connecting = "reader_connecting"
event_value ReaderEventType.reader_connected = "reader_connected"
event_value ReaderEventType.reader_not_found = "reader_not_found"
event_value ReaderEventType.reader_identity_ambiguous = "reader_identity_ambiguous"
event_value ReaderEventType.reader_open_failed = "reader_open_failed"
event_value ReaderEventType.reader_read_failed = "reader_read_failed"
event_value ReaderEventType.reader_disconnected = "reader_disconnected"
event_value ReaderEventType.reconnect_scheduled = "reconnect_scheduled"
event_value ReaderEventType.reconnect_repeatedly_failed = "reconnect_repeatedly_failed"
event_value ReaderEventType.reader_recovered = "reader_recovered"
event_value ReaderEventType.reader_record_received = "reader_record_received"
event_value ReaderEventType.reader_record_malformed = "reader_record_malformed"

abbrev pub health_value : ReaderHealthState → String
health_value ReaderHealthState.connecting = "connecting"
health_value ReaderHealthState.ready = "ready"
health_value ReaderHealthState.degraded = "degraded"
health_value ReaderHealthState.stopped = "stopped"

-- The event types that `record_reader_event` reports.
abbrev pub is_degrading : ReaderEventType → Bool
is_degrading ReaderEventType.reader_not_found = true
is_degrading ReaderEventType.reader_identity_ambiguous = true
is_degrading ReaderEventType.reader_open_failed = true
is_degrading ReaderEventType.reader_read_failed = true
is_degrading ReaderEventType.reader_disconnected = true
is_degrading ReaderEventType.reconnect_repeatedly_failed = true
is_degrading _ = false

abbrev pub event_severity : ReaderEventType → Severity
event_severity event_type =
    if text_in (event_value event_type)
      ("reader_connected" ∷ "reader_recovered" ∷ "reader_record_received" ∷ [])
    then Severity.info
    else Severity.warning

-- What the constructor of the runtime is given, but for the supervisor. `report` takes the status and
-- the details, `is_set`, `wait_for` and `set_stop` are those of the stop event.
pub record Devices (W Session : Type 0) : Type 0 where
  pub ports : Ports W
  pub report : String → List (String × String) → W → Result (Unit {0}) × W
  pub is_set : W → Bool × W
  pub wait_for : ℕ → W → Bool × W
  pub set_stop : W → W
  pub interval : ℕ
  pub enumerate_devices : W → Result (List SerialDevice) × W
  pub open_reader : String → W → Result Session × W
  pub usable : Session → Bool
  pub read : Session → W → Result Text × W
  pub close : Session → W → Result (Unit {0}) × W
  pub random_unit : W → Result ℕ × W

-- The controller, the published snapshot, if there is a store for it, and the world.
pub record Hub (W : Type 0) : Type 0 where
  pub controller : AccessController
  pub store : Option OperationalSnapshotStore
  pub world : W

pub record Runtime (W Session : Type 0) : Type 0 where
  pub reading : Reading (Hub W) Session
  pub shutdown_complete : Bool

-- `BridgewireRuntime.__init__`, for a stop event and a waiter on it.
abbrev pub new_runtime :
    {W Session : Type 0} → ReaderSupervisor Session → ℕ → Hub W → Runtime W Session
new_runtime reader maximum_record_bytes hub = record {
  reading = record { reader = reader; stream = new_stream (maximum_record_bytes * 4); world = hub };
  shutdown_complete = false;
}

module _ {W : Type 0} where
  -- An operation of the world, of the clock, and of the access service, on the hub.
  abbrev pub on_base : {A : Type 0} → (W → Result A × W) → Exec (Hub W) A
  on_base f h = let (result, w) = f h.world in (result, record h { world = w })

  abbrev pub read_base : {A : Type 0} → (W → A × W) → Exec (Hub W) A
  read_base f h = let (a, w) = f h.world in (ok a, record h { world = w })

  abbrev pub on_door : {A : Type 0} → Exec (Door W) A → Exec (Hub W) A
  on_door m h =
      let (result, d) = m (record { controller = h.controller; world = h.world }) in
      (result, record h { controller = d.controller; world = d.world })

-- `try: m finally: last`
abbrev pub finally : {S A : Type 0} → Exec S A → Exec S (Unit {0}) → Exec S A
finally m last s =
    let (result, s') = m s in
    let (ended, s'') = last s' in elim ended [ ok _ ↦ (result, s'') | err e ↦ (err e, s'') ]
