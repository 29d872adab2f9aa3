-- ===== src/Service/Startup.antt =====
-- The `try` block of `run_hardware_service` of bridgewire/hardware_service.py.
use frontdoor.Prelude.{
  ℕ, Bool, true, false, String, List, [], ◌∷◌, Option, none, some, ok, err, Exec, pure, modify,
  lift, ◌>>=◌, ◌>>◌, if◌then◌else◌,
}
use frontdoor.Clock.{Timestamp}
use frontdoor.Escalation.{new_tracker}
use frontdoor.Server.{starting, start_failed}
use frontdoor.Configuration.Whole.{WholeConfiguration}
use frontdoor.Status.{new_status_service}
use frontdoor.Queries.{new_query_limits}
use frontdoor.Controller.State.{Ports, AccessController, new_controller}
use frontdoor.Reader.Supervisor.State.{ReaderSupervisor, Reading, new_supervisor}
use frontdoor.Runtime.{Devices, Hub, Runtime, new_runtime}
use frontdoor.Runtime.Loop.{start_runtime, run}
use frontdoor.Service.{
  Environment, ServiceState, raised, through, report_api_state, retain_api_failure,
  retain_with_snapshot, observe_api,
}

abbrev pub lifted_ports : {W : Type 0} → Ports W → Ports (ServiceState W)
lifted_ports ports = record {
  monotonic = through ports.monotonic;
  now = through ports.now;
  new_id = through ports.new_id;
  setup = λ numbering channel. through (ports.setup numbering channel);
  command = λ level. through (ports.command level);
  cleanup = through ports.cleanup;
  classify = λ credential. through (ports.classify credential);
  append = λ event. through (ports.append event);
  enqueue = λ event. through (ports.enqueue event);
}

-- The devices, on a world that has what the service keeps.
abbrev pub lifted : {W Session : Type 0} → Devices W Session → Devices (ServiceState W) Session
lifted devices = record {
  ports = lifted_ports devices.ports;
  report = λ status details. through (devices.report status details);
  is_set = through devices.is_set;
  wait_for = λ seconds. through (devices.wait_for seconds);
  set_stop = λ s. record s { world = devices.set_stop s.world };
  interval = devices.interval;
  enumerate_devices = through devices.enumerate_devices;
  open_reader = λ path. through (devices.open_reader path);
  usable = devices.usable;
  read = λ session. through (devices.read session);
  close = λ session. through (devices.close session);
  random_unit = through devices.random_unit;
}

-- An action on what the service keeps, where the runtime runs.
abbrev pub on_service :
    {W Session A : Type 0}
    → Exec (ServiceState W) A
    → Exec (Reading (Hub (ServiceState W)) Session) A
on_service m r =
    let (a, s) = m r.world.world in (a, record r { world = record r.world { world = s } })

-- Which of the objects that the `finally` clause looks at were constructed.
pub record Parts (W : Type 0) : Type 0 where
  pub audit : Bool
  pub relay : Bool
  pub state : ServiceState W

abbrev pub on_parts : {W A : Type 0} → Exec (ServiceState W) A → Exec (Parts W) A
on_parts m p = let (a, s) = m p.state in (a, record p { state = s })

module _ {W Session : Type 0} (env : Environment W Session) (config : WholeConfiguration) where
  -- From the audit sink to the runtime.
  unfoldable pub construct : Exec (Parts W) (AccessController × ReaderSupervisor Session)
  construct = do
    on_parts (through env.open_audit)
    modify (λ p. record p { audit = true })
    on_parts (through env.load_authorization)
    on_parts (through env.open_relay)
    modify (λ p. record p { relay = true })
    controller ←
        lift (new_controller (new_tracker config.escalation) config.release_seconds config.channel)
    reader ← lift (new_supervisor config.reader_identity config.backoff 3)
    pure (controller, reader)

  abbrev pub constructed :
      AccessController
      → ReaderSupervisor Session
      → ServiceState W
      → Runtime (ServiceState W) Session
  constructed controller reader s =
      new_runtime reader config.maximum_record_bytes
        (record { controller = controller; store = some (record { snapshot = none }); world = s })

  -- The construction of the API server.
  unfoldable pub create_api : Timestamp → Exec (ServiceState W) Unit
  create_api started_at = do
    status ← lift (new_status_service env.software_version started_at)
    limits ← lift (new_query_limits config.max_event_page_size config.stale_after)
    through env.create_server
    modify (λ s. record s { api_server = true })

  -- From the report of `STARTING` on.
  unfoldable pub start_created : ServiceState W → ServiceState W
  unfolding report_api_state retain_with_snapshot observe_api
  start_created s =
      let (ended, s') =
        through env.start_server (report_api_state env config.enabled starting false s) in
      elim ended [
        | none ↦ observe_api env config.enabled s'
        | some failure ↦ retain_with_snapshot env config.enabled failure s'
      ]

  -- The `try` round the API server, which lets no exception out.
  unfoldable pub start_api : Timestamp → ServiceState W → ServiceState W
  unfolding create_api start_created retain_api_failure
  start_api started_at s =
      let (made, s') = create_api started_at s in
      elim made [
        | ok _ ↦ start_created s'
        | err e ↦ retain_api_failure env config.enabled (raised e) start_failed s'
      ]

  abbrev pub report_disabled : String → List (String × String) → Exec (ServiceState W) Unit
  report_disabled status details = through (env.report_with_api status details false "disabled")

  unfoldable pub announce : Timestamp → Exec (ServiceState W) Unit
  unfolding start_api
  announce started_at =
      if config.enabled
      then modify (start_api started_at)
      else report_disabled "degraded" (("reason", "reader_connecting") ∷ [])

  -- `ready`
  unfoldable pub on_ready : Exec (ServiceState W) Unit
  unfolding report_api_state
  on_ready = do
    through env.print_ready
    if config.enabled
        then modify (λ s. report_api_state env config.enabled s.api_state false s)
        else report_disabled "ready" (("reader", "connected") ∷ [])

  -- `observe_api if config.enabled else None`
  unfoldable pub on_iteration : Exec (ServiceState W) Unit
  unfolding observe_api
  on_iteration = if config.enabled then modify (observe_api env config.enabled) else pure tt

  -- The rest of the block, for as many rounds of the loop as the first argument at most.
  unfoldable pub serve :
      ℕ → Timestamp → Bool → Exec (Reading (Hub (ServiceState W)) Session) (Option Unit)
  unfolding announce on_ready on_iteration
  serve rounds started_at install_signals = do
    if install_signals then on_service (through env.install_signals) else pure tt
    start_runtime (lifted env.devices)
    on_service (announce started_at)
    run (lifted env.devices) rounds (on_service on_ready) (on_service on_iteration)
