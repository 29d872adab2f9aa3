-- ===== src/Service.antt =====
-- bridgewire/hardware_service.py: what the service keeps beside its runtime. The runtime acts on a
-- world `ServiceState W`, since its callbacks change what the service keeps.
pub mod Startup
pub mod Finish
pub mod Steps
pub mod Retained
pub mod Secured
pub mod Outcome
pub mod Sound
use frontdoor.Prelude.{
  ℕ, String, Bool, true, false, not, ◌&&◌, ◌||◌, List, [], ◌∷◌, ◌++◌, Exception, exception_group,
  Result, ok, err, Option, none, some, Exec, str_eq, any, ◌==◌, if◌then◌else◌,
}
use frontdoor.Server.{
  ApiServerState, new, starting, running, start_failed, start_timed_out, failed, stopping, stopped,
  stop_timed_out,
}
use frontdoor.Configuration.{Table}
use frontdoor.Controller.State.{Ports}
use frontdoor.Runtime.{Devices}

-- An exception that a call raised anew, or one that the API server keeps, with its `id`.
pub data Failure : Type 0 where
  raised : Exception → Failure
  kept : ℕ → Exception → Failure

abbrev pub exception_of : Failure → Exception
exception_of (raised e) = e
exception_of (kept object e) = e

-- What the service calls and does not define. `report_with_api` is `health.report` with the details
-- and the two entries of `api`; `create_server` is `create_app` and the factory; `start_server` and
-- `stop_server` return nothing or raise; `snapshot` gives the server's state and its failures.
pub record Environment (W Session : Type 0) : Type 0 where
  pub devices : Devices W Session
  pub read_configuration : W → Result String × W
  pub loads : String → Result Table
  pub open_audit : W → Result (Unit {0}) × W
  pub load_authorization : W → Result (Unit {0}) × W
  pub open_relay : W → Result (Unit {0}) × W
  pub install_signals : W → Result (Unit {0}) × W
  pub report_with_api : String → List (String × String) → Bool → String → W → Result (Unit {0}) × W
  pub software_version : String
  pub create_server : W → Result (Unit {0}) × W
  pub start_server : W → Option Failure × W
  pub stop_server : W → Option Failure × W
  pub snapshot : W → (ApiServerState × List (ℕ × Exception)) × W
  pub print_ready : W → Result (Unit {0}) × W
  pub close_audit : W → Result (Unit {0}) × W

-- The variables that the nested functions share. An exception that a report raises is a new object,
-- so `observed`, the set `observed_api_failures`, lists those of the server only.
pub record ServiceState (W : Type 0) : Type 0 where
  pub api_server : Bool
  pub api_state : ApiServerState
  pub failures : List Failure
  pub observed : List ℕ
  pub world : W

abbrev pub new_service_state : {W : Type 0} → Bool → W → ServiceState W
new_service_state enabled w = record {
  api_server = false;
  api_state = if enabled then new else stopped;
  failures = [];
  observed = [];
  world = w;
}

-- The values of the `StrEnum`.
abbrev pub server_value : ApiServerState → String
server_value new = "new"
server_value starting = "starting"
server_value running = "running"
server_value start_failed = "start_failed"
server_value start_timed_out = "start_timed_out"
server_value failed = "failed"
server_value stopping = "stopping"
server_value stopped = "stopped"
server_value stop_timed_out = "stop_timed_out"

abbrev pub is_stopping : ApiServerState → Bool
is_stopping stopping = true
is_stopping stopped = true
is_stopping _ = false

abbrev pub is_running : ApiServerState → Bool
is_running running = true
is_running _ = false

abbrev pub is_failure : ApiServerState → Bool
is_failure start_failed = true
is_failure start_timed_out = true
is_failure failed = true
is_failure stop_timed_out = true
is_failure _ = false

abbrev pub status_for : ApiServerState → Bool → String
status_for state failure =
    if failure
    then "degraded"
    else if is_running state
    then "ready"
    else if is_stopping state
    then "stopped"
    else "degraded"

abbrev pub access_control_for : ApiServerState → String
access_control_for state = if is_stopping state then "stopped" else "operational"

-- An operation of the world, on what the service keeps.
abbrev pub through : {W A : Type 0} → (W → A × W) → ServiceState W → A × ServiceState W
through f s = let (a, w) = f s.world in (a, record s { world = w })

abbrev pub append_failure : {W : Type 0} → Failure → ServiceState W → ServiceState W
append_failure failure s = record s { failures = s.failures ++ (failure ∷ []) }

-- `try: action() except BaseException as exc: failures.append(exc)`
abbrev pub noted : {W : Type 0} → Result (Unit {0}) × ServiceState W → ServiceState W
noted (ok _, s) = s
noted (err e, s) = append_failure (raised e) s

abbrev pub is_empty_list : List (ℕ × Exception) → Bool
is_empty_list [] = true
is_empty_list (_ ∷ _) = false

module _ {W Session : Type 0} (env : Environment W Session) (enabled : Bool) where
  unfoldable pub report_api_state : ApiServerState → Bool → ServiceState W → ServiceState W
  report_api_state state failure s = noted (
      through
        (env.report_with_api (status_for state failure)
          (("access_control", access_control_for state) ∷ []) enabled (server_value state))
        (record s { api_state = state }))

  unfoldable pub retain_api_failure : Failure → ApiServerState → ServiceState W → ServiceState W
  unfolding report_api_state
  retain_api_failure (raised e) state s = report_api_state state true (append_failure (raised e) s)
  retain_api_failure (kept object e) state s =
      if any (λ known. known == object) s.observed
      then s
      else report_api_state state true
          (record (append_failure (kept object e) s) { observed = object ∷ s.observed })

  unfoldable pub retain_all :
      List (ℕ × Exception) → ApiServerState → ServiceState W → ServiceState W
  unfolding retain_api_failure
  retain_all [] state s = s
  retain_all ((object, e) ∷ rest) state s =
      retain_all rest state (retain_api_failure (kept object e) state s)

  -- The report of `observe_api`, if the state changed and no failure is to be retained for it.
  abbrev pub report_change : ApiServerState → List (ℕ × Exception) → ServiceState W → ServiceState W
  report_change state failures s =
      if not (str_eq (server_value state) (server_value s.api_state))
        && (not (is_failure state) || is_empty_list failures)
      then report_api_state state (is_failure state) s
      else s

  -- `observe_api` with a snapshot.
  unfoldable pub observe_snapshot :
      ApiServerState → List (ℕ × Exception) → ServiceState W → ServiceState W
  unfolding retain_all report_api_state
  observe_snapshot state failures s = retain_all failures state (report_change state failures s)

  unfoldable pub observe_api : ServiceState W → ServiceState W
  unfolding observe_snapshot
  observe_api s =
      if s.api_server
      then (let ((state, failures), s') = through env.snapshot s in
          observe_snapshot state failures s')
      else s

  -- `except … as exc: retain_api_failure(exc, api_server.snapshot().state)`
  unfoldable pub retain_with_snapshot : Failure → ServiceState W → ServiceState W
  unfolding retain_api_failure
  retain_with_snapshot failure s =
      let ((state, failures), s') = through env.snapshot s in retain_api_failure failure state s'

  abbrev pub after_stop : Option Failure → ServiceState W → ServiceState W
  unfolding retain_with_snapshot
  after_stop none s = s
  after_stop (some failure) s = retain_with_snapshot failure s

  -- The stop of the API server in the `finally` clause.
  unfoldable pub stop_api : ServiceState W → ServiceState W
  unfolding retain_with_snapshot observe_api
  stop_api s =
      if s.api_server
      then (let (ended, s') = through env.stop_server s in observe_api (after_stop ended s'))
      else s
