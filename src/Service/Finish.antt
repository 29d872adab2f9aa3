-- ===== src/Service/Finish.antt =====
-- The `except` and `finally` clauses of `run_hardware_service` of bridgewire/hardware_service.py, and
-- the whole function.
use frontdoor.Prelude.{
  ℕ, Bool, true, false, not, List, [], ◌∷◌, Option, none, some, ok, err, Exception, value_error,
  exception_group, Result, Exec, str_eq, if◌then◌else◌,
}
use frontdoor.Clock.{Timestamp}
use frontdoor.Configuration.Whole.{WholeConfiguration, whole}
use frontdoor.Configuration.{SystemConfiguration}
use frontdoor.Configuration.Load.{load_configuration}
use frontdoor.Controller.State.{AccessController}
use frontdoor.Reader.Supervisor.State.{Reading, ReaderSupervisor}
use frontdoor.Reader.Supervisor.Effects.{on_world}
use frontdoor.Runtime.{Hub, Runtime}
use frontdoor.Runtime.Loop.{report_fault, handle_failure}
use frontdoor.Runtime.Shutdown.{shutdown_runtime}
use frontdoor.Service.{
  Environment, ServiceState, new_service_state, Failure, raised, exception_of, through, noted,
  append_failure, stop_api,
}
use frontdoor.Service.Startup.{lifted, on_service, Parts, construct, constructed, serve}

-- The last statements: one failure is raised as it is, several as a group.
abbrev pub outcome_of : List Failure → Result (Unit {0})
outcome_of [] = ok tt
outcome_of (failure ∷ []) = err (exception_of failure)
outcome_of (_ ∷ _ ∷ _) = err exception_group

-- How the service ended, whether the relay was constructed, the runtime as its shutdown left it, and
-- what the service kept.
pub record Ended (W Session : Type 0) : Type 0 where
  pub result : Result (Unit {0})
  pub relay : Bool
  pub runtime : Option (Runtime (ServiceState W) Session)
  pub state : ServiceState W

abbrev pub with_failure :
    {W Session : Type 0}
    → Exception
    → Reading (Hub (ServiceState W)) Session
    → Reading (Hub (ServiceState W)) Session
with_failure e r = (on_service (λ s. (ok tt, append_failure (raised e) s)) r).1

-- `try: action() except BaseException as cleanup_exc: failures.append(cleanup_exc)`
abbrev pub attempted :
    {W Session : Type 0}
    → Exec (Reading (Hub (ServiceState W)) Session) Unit
    → Reading (Hub (ServiceState W)) Session
    → Reading (Hub (ServiceState W)) Session
attempted action r =
    let (result, r') = action r in elim result [ ok _ ↦ r' | err e ↦ with_failure e r' ]

module _ {W Session : Type 0} (env : Environment W Session) where
  -- The `except` clause, with a runtime.
  unfoldable pub handle_exception :
      Exception → Reading (Hub (ServiceState W)) Session → Reading (Hub (ServiceState W)) Session
  handle_exception e r =
      attempted (handle_failure (lifted env.devices))
        (attempted (on_world (report_fault (lifted env.devices))) (with_failure e r))

  unfoldable pub cleanup_relay : Bool → ServiceState W → ServiceState W
  cleanup_relay relay s = if relay then noted (through env.devices.ports.cleanup s) else s

  unfoldable pub close_audit : Bool → ServiceState W → ServiceState W
  close_audit audit s = if audit then noted (through env.close_audit s) else s

module _ {W Session : Type 0} (env : Environment W Session) (enabled : Bool) where
  -- The `finally` clause after the runtime.
  unfoldable pub release_rest : Bool → Bool → ServiceState W → ServiceState W
  unfolding cleanup_relay close_audit stop_api
  release_rest audit relay s =
      close_audit env audit (stop_api env enabled (cleanup_relay env relay s))

  -- The `finally` clause with a runtime: the relay and the audit sink were constructed before it.
  unfoldable pub finish : Runtime (ServiceState W) Session → Ended W Session
  unfolding release_rest
  finish rt =
      let (result, rt') = shutdown_runtime (lifted env.devices) rt in
      let s = release_rest true true (noted (result, rt'.reading.world.world)) in
      record { result = outcome_of s.failures; relay = true; runtime = some rt'; state = s }

  -- The `except` and the `finally` clause where the construction raised.
  unfoldable pub abandon : Exception → Parts W → Ended W Session
  unfolding release_rest
  abandon e p =
      let s = release_rest p.audit p.relay (append_failure (raised e) p.state) in
      record { result = outcome_of s.failures; relay = p.relay; runtime = none; state = s }

  -- What follows the `try` block.
  unfoldable pub conclude : Result (Unit {0}) → Runtime (ServiceState W) Session → Ended W Session
  unfolding handle_exception finish
  conclude (ok _) rt = finish rt
  conclude (err e) rt = finish (record rt { reading = handle_exception env e rt.reading })

module _ {W Session : Type 0} (env : Environment W Session) (config : WholeConfiguration)
    (install_signals : Bool) (rounds : ℕ) (started_at : Timestamp) where
  -- What follows the loop; `none` is an end of the rounds.
  unfoldable pub after_serving :
      Result (Option (Unit {0})) → Runtime (ServiceState W) Session → Option (Ended W Session)
  unfolding conclude
  after_serving (err e) rt = some (conclude env config.enabled (err e) rt)
  after_serving (ok none) rt = none
  after_serving (ok (some _)) rt = some (conclude env config.enabled (ok tt) rt)

  -- What follows the constructions.
  unfoldable pub after_construction :
      Result (AccessController × ReaderSupervisor Session) → Parts W → Option (Ended W Session)
  unfolding after_serving serve abandon
  after_construction (err e) p = some (abandon env config.enabled e p)
  after_construction (ok (controller, reader)) p =
      let rt = constructed env config controller reader p.state in
      let (served, r) = serve env config rounds started_at install_signals rt.reading in
      after_serving served (record rt { reading = r })

-- The service after its configuration was read.
unfoldable pub run_configured :
    {W Session : Type 0}
    → Environment W Session
    → WholeConfiguration
    → Bool
    → ℕ
    → W
    → Option (Ended W Session)
unfolding construct after_construction
run_configured env config install_signals rounds w =
    let (started_at, w') = env.devices.ports.now w in
    let (made, p) =
      construct env config
        (record { audit = false; relay = false; state = new_service_state config.enabled w' }) in
    after_construction env config install_signals rounds started_at made p

-- A configuration with a number that is nan, infinite or below zero, which no other model computes with,
-- has no outcome.
unfoldable pub run_whole :
    {W Session : Type 0}
    → Environment W Session
    → Bool
    → ℕ
    → Option WholeConfiguration
    → W
    → Option (Ended W Session)
unfolding run_configured
run_whole env install_signals rounds none w = none
run_whole env install_signals rounds (some config) w =
    run_configured env config install_signals rounds w

-- From the configuration on.
unfoldable pub run_checked :
    {W Session : Type 0}
    → Environment W Session
    → Bool
    → ℕ
    → Result SystemConfiguration
    → W
    → Result (Option (Ended W Session))
unfolding run_whole
run_checked env install_signals rounds (err e) w = err e
run_checked env install_signals rounds (ok config) w =
    if not (str_eq config.relay.backend "raspberry_pi")
    then err value_error
    else ok (run_whole env install_signals rounds (whole config) w)

-- `run_hardware_service`; what raises before the `try` block goes out as it is.
unfoldable pub run_hardware_service :
    {W Session : Type 0} → Environment W Session → Bool → ℕ → W → Result (Option (Ended W Session))
unfolding run_checked
run_hardware_service env install_signals rounds w =
    let (read, w') = env.read_configuration w in
    run_checked env install_signals rounds (load_configuration env.loads read) w'
