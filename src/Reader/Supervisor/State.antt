-- ===== src/Reader/Supervisor/State.antt =====
-- The events, the state and the surroundings of a supervisor.
use frontdoor.Prelude.{
  ℕ, String, Bool, true, false, Exception, os_error, reader_disconnected_error, Option, none, List,
  Result, ok, err, value_error, leb, if◌then◌else◌,
}
use frontdoor.Reader.Record.{Text}
use frontdoor.Reader.Stream.{ReaderRecordStream}
use frontdoor.Reader.Discovery.{ReaderIdentity, SerialDevice}
use frontdoor.Reader.Backoff.{BackoffPolicy}

pub data ReaderEventType : Type 0 where
  reader_connecting reader_connected reader_not_found reader_identity_ambiguous : ReaderEventType
  reader_open_failed reader_read_failed reader_disconnected reconnect_scheduled : ReaderEventType
  reconnect_repeatedly_failed reader_recovered reader_record_received : ReaderEventType
  reader_record_malformed : ReaderEventType

pub data ReaderHealthState : Type 0 where
  connecting ready degraded stopped : ReaderHealthState

pub record ReaderEvent : Type 0 where
  pub event_type : ReaderEventType
  pub attempt : ℕ
  pub backoff_seconds : Option ℕ
  pub unrelated_count : ℕ

pub record ReaderSupervisor (Session : Type 0) : Type 0 where
  pub identity : ReaderIdentity
  pub backoff : BackoffPolicy
  pub repeated_failure_threshold : ℕ
  pub session : Option Session
  pub attempt : ℕ
  pub had_connection : Bool
  pub repeated_failure_emitted : Bool
  pub last_record_at : Option ℕ
  pub health_state : ReaderHealthState

-- `ReaderSupervisor.__init__`
unfoldable pub new_supervisor :
    {Session : Type 0} → ReaderIdentity → BackoffPolicy → ℕ → Result (ReaderSupervisor Session)
new_supervisor identity backoff threshold =
    if leb threshold 0
    then err value_error
    else ok (record {
      identity = identity;
      backoff = backoff;
      repeated_failure_threshold = threshold;
      session = none;
      attempt = 0;
      had_connection = false;
      repeated_failure_emitted = false;
      last_record_at = none;
      health_state = degraded;
    })

-- The callables that the constructor takes, and the sessions that `open_reader` returns. `usable` says
-- that a session has both of its methods.
pub record Host (W Session : Type 0) : Type 0 where
  pub enumerate_devices : W → Result (List SerialDevice) × W
  pub open_reader : String → W → Result Session × W
  pub usable : Session → Bool
  pub read : Session → W → Result Text × W
  pub close : Session → W → Result (Unit {0}) × W
  pub wait : ReaderSupervisor Session → ℕ → W → Result Bool × W
  pub emit : ReaderSupervisor Session → ReaderEvent → W → Result (Unit {0}) × W
  pub random_unit : W → Result ℕ × W
  pub monotonic : Option (W → ℕ × W)

-- A supervisor with the stream that its records go to, and the world around both.
pub record Reading (W Session : Type 0) : Type 0 where
  pub reader : ReaderSupervisor Session
  pub stream : ReaderRecordStream
  pub world : W

-- How one round of `connect_until_ready` ends.
pub data Attempt : Type 0 where
  connected interrupted retry : Attempt

-- `except OSError`
abbrev pub is_os_error : Exception → Bool
is_os_error os_error = true
is_os_error reader_disconnected_error = true
is_os_error _ = false

-- The age is in clock ticks; a clock that does not go back never makes it negative.
pub record ReaderSnapshot : Type 0 where
  pub connected : Bool
  pub health_state : ReaderHealthState
  pub last_record_age_seconds : Option ℕ
