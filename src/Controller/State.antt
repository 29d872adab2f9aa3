-- ===== src/Controller/State.antt =====
-- The state of the access controller of bridgewire/controller.py, the protocols of
-- bridgewire/interfaces.py that it calls, and its snapshots.
use frontdoor.Prelude.{
  ℕ, ◌-◌, String, Bool, true, false, Option, none, some, Result, ok, err, value_error, leb,
  if◌then◌else◌,
}
use frontdoor.Clock.{Timestamp}
use frontdoor.Audit.{AuditEvent}
use frontdoor.Escalation.{EscalationTracker}
use frontdoor.Reader.Record.{Text}

-- `AuthorizationOutcome` of bridgewire/authorization.py
pub data AuthorizationOutcome : Type 0 where
  authorized denied unknown : AuthorizationOutcome

pub data ControllerState : Type 0 where
  initializing ready released faulted shutting_down stopped : ControllerState

-- The values of the `StrEnum`.
abbrev pub state_value : ControllerState → String
state_value initializing = "initializing"
state_value ready = "ready"
state_value released = "released"
state_value faulted = "faulted"
state_value shutting_down = "shutting_down"
state_value stopped = "stopped"

pub data PhysicalReleaseStatus : Type 0 where
  not_requested asserted already_released actuation_failed : PhysicalReleaseStatus

pub data RelayCommand : Type 0 where
  released secured : RelayCommand

pub record AccessResult : Type 0 where
  pub authorization : Option AuthorizationOutcome
  pub physical_release : PhysicalReleaseStatus

-- The clock, the relay, the authorization source, the audit sink and the notification queue, as
-- operations on a world `W`. `new_id` is `uuid4`.
pub record Ports (W : Type 0) : Type 0 where
  pub monotonic : W → ℕ × W
  pub now : W → Timestamp × W
  pub new_id : W → String × W
  pub setup : String → ℕ → W → Result (Unit {0}) × W
  pub command : Bool → W → Result (Unit {0}) × W
  pub cleanup : W → Result (Unit {0}) × W
  pub classify : Text → W → Result AuthorizationOutcome × W
  pub append : AuditEvent → W → Result (Unit {0}) × W
  pub enqueue : AuditEvent → W → Result (Unit {0}) × W

-- Times are whole clock ticks.
pub record AccessController : Type 0 where
  pub escalation : EscalationTracker
  pub release_seconds : ℕ
  pub gpio_channel : ℕ
  pub state : ControllerState
  pub release_deadline : Option ℕ
  pub last_relay_command_high : Option Bool
  pub last_credential_processed_at : Option Timestamp

-- `AccessController.__init__`
unfoldable pub new_controller : EscalationTracker → ℕ → ℕ → Result AccessController
new_controller escalation release_seconds gpio_channel =
    if leb release_seconds 0
    then err value_error
    else ok (record {
      escalation = escalation;
      release_seconds = release_seconds;
      gpio_channel = gpio_channel;
      state = initializing;
      release_deadline = none;
      last_relay_command_high = none;
      last_credential_processed_at = none;
    })

-- A controller and the world that its ports act on.
pub record Door (W : Type 0) : Type 0 where
  pub controller : AccessController
  pub world : W

pub record ControllerSnapshot : Type 0 where
  pub state : ControllerState
  pub release_active : Bool
  pub release_deadline_monotonic : Option ℕ
  pub release_remaining_seconds : Option ℕ
  pub configured_release_seconds : ℕ
  pub last_relay_command : Option RelayCommand
  pub last_credential_processed_at : Option Timestamp

abbrev pub is_released : ControllerState → Bool
is_released released = true
is_released _ = false

abbrev pub relay_command_of : Option Bool → Option RelayCommand
relay_command_of none = none
relay_command_of (some true) = some released
relay_command_of (some false) = some secured

-- `AccessController.snapshot`; `max(0.0, deadline - now)` is the subtraction that stops at 0.
unfoldable pub snapshot : {W : Type 0} → Ports W → Door W → ControllerSnapshot × Door W
snapshot ports d =
    let c = d.controller in
    let without : ControllerSnapshot = record {
      state = c.state;
      release_active = is_released c.state;
      release_deadline_monotonic = c.release_deadline;
      release_remaining_seconds = none;
      configured_release_seconds = c.release_seconds;
      last_relay_command = relay_command_of c.last_relay_command_high;
      last_credential_processed_at = c.last_credential_processed_at;
    } in
    elim c.release_deadline [
      | none ↦ (without, d)
      | some deadline ↦
          let (now, w) = ports.monotonic d.world in
          (
            record without { release_remaining_seconds = some (deadline - now) },
            record d { world = w },
          )
    ]
