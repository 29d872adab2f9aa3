-- ===== src/Service/Sound.antt =====
-- The controller and the relay when the service of bridgewire/hardware_service.py ends.
use frontdoor.Prelude.{
  ℕ, ◌≡◌, inl, inr, Bool, true, false, Option, none, some, ok, err, Exception, Result, Exec, pure,
  ◌>>◌, if◌then◌else◌, arith, refl, sym, subst, Result-cases, value_error, str_eq, not,
}
use frontdoor.Clock.{Timestamp}
use frontdoor.Escalation.{new_tracker}
use frontdoor.Configuration.Whole.{WholeConfiguration, whole}
use frontdoor.Configuration.{SystemConfiguration}
use frontdoor.Configuration.Load.{load_configuration}
use frontdoor.Controller.State.{AccessController, new_controller}
use frontdoor.Controller.Operations.Soundness.{IsSound, new_controller-IsSound, shutdown-IsSound}
use frontdoor.Controller.Operations.Closed.{IsClosed, shutdown-IsClosed}
use frontdoor.Reader.Supervisor.State.{Reading, ReaderSupervisor}
use frontdoor.Reader.Supervisor.Effects.{on_world}
use frontdoor.Runtime.{Hub, Runtime}
use frontdoor.Runtime.Loop.{start_runtime, run, handle_failure, report_fault}
use frontdoor.Runtime.Calls.{bind_keeps, start_runtime_keeps, handle_failure_keeps}
use frontdoor.Runtime.Rounds.{run_keeps, either_keeps}
use frontdoor.Runtime.Sound.{Kept-IsSound}
use frontdoor.Runtime.Cleanup.{door_of, shutdown_runtime-controller}
use frontdoor.Service.{Environment, ServiceState, new_service_state, through}
use frontdoor.Service.Steps.{if_keeps}
use frontdoor.Service.Startup.{
  lifted, lifted_ports, on_service, Parts, construct, constructed, announce, on_ready, on_iteration,
  serve,
}
use frontdoor.Service.Finish.{
  after_serving, after_construction, Ended, with_failure, attempted, handle_exception, finish,
  conclude, abandon, run_configured, run_checked, run_whole, run_hardware_service,
}
use frontdoor.Service.Secured.{WhenEnded, Secures, abandon_secures, conclude_secures}

abbrev Round : Type 0 → Type 0 → Type 0
Round W Session = Reading (Hub (ServiceState W)) Session

abbrev Holds : {W Session : Type 0} → Round W Session → Type 0
Holds r = IsSound r.world.controller

-- The runtime, if there is one, has a sound and closed controller.
abbrev pub LeftClosed : {W Session : Type 0} → Option (Runtime (ServiceState W) Session) → Type 0
LeftClosed none = Unit
LeftClosed (some rt) = IsSound rt.reading.world.controller × IsClosed rt.reading.world.controller

module _ {W Session : Type 0} (env : Environment W Session) where
  with_failure-IsSound : (e : Exception) (r : Round W Session) → Holds r → Holds (with_failure e r)
  with_failure-IsSound e r h = h

  attempted-IsSound :
      (action : Exec (Round W Session) Unit) (r : Round W Session)
      → Holds (action r).1
      → Holds (attempted action r)
  attempted-IsSound action r h = elim (Result-cases (action r).0) [
    | inl (a, made) ↦ ground (arith, made, h)
    | inr (e, failed) ↦ ground (arith, failed, h)
  ]

  handle_exception-IsSound :
      (e : Exception) (r : Round W Session) → Holds r → Holds (handle_exception env e r)
  unfolding handle_exception on_world report_fault
  handle_exception-IsSound e r h =
      let fault = on_world (report_fault (lifted env.devices)) in
      let r1 = with_failure e r in
      attempted-IsSound (handle_failure (lifted env.devices)) (attempted fault r1) (
        handle_failure_keeps (lifted env.devices) IsSound
          (Kept-IsSound (lifted_ports env.devices.ports)) (attempted fault r1)
          (attempted-IsSound fault r1 h))

  serve-IsSound :
      (config : WholeConfiguration) (rounds : ℕ) (started_at : Timestamp) (install : Bool)
      (r : Round W Session)
      → Holds r
      → Holds (serve env config rounds started_at install r).1
  unfolding serve
  serve-IsSound config rounds started_at install r h =
      let devices = lifted env.devices in
      let signals = on_service {Session = Session} (through env.install_signals) in
      let first = if install then signals else pure tt in
      let api = on_service {Session = Session} (announce env config started_at) in
      let loop =
        run devices rounds (on_service (on_ready env config))
          (on_service (on_iteration env config)) in
      let kept = Kept-IsSound devices.ports in
      bind_keeps Holds first (λ _. start_runtime devices >> (api >> loop)) r
        (either_keeps Holds install signals (pure tt) r h h)
        (λ _ r1 h1.
          bind_keeps Holds (start_runtime devices) (λ _. api >> loop) r1
            (start_runtime_keeps devices IsSound kept r1 h1)
            (λ _ r2 h2.
              bind_keeps Holds api (λ _. loop) r2 h2
                (λ _ r3 h3.
                  run_keeps devices IsSound kept (on_service (on_ready env config))
                    (on_service (on_iteration env config)) (λ s k. k) (λ s k. k) rounds r3 h3)))

  finish-LeftClosed :
      (enabled : Bool) (rt : Runtime (ServiceState W) Session)
      → rt.shutdown_complete ≡ false
      → Holds rt.reading
      → LeftClosed (finish env enabled rt).runtime
  unfolding finish
  finish-LeftClosed enabled rt fresh h =
      let devices = lifted env.devices in
      let same = sym (shutdown_runtime-controller devices rt fresh).0 in
      (
        subst IsSound same (shutdown-IsSound devices.ports (door_of rt.reading) h),
        subst IsClosed same (shutdown-IsClosed devices.ports (door_of rt.reading)),
      )

  conclude-LeftClosed :
      (enabled : Bool) (outcome : Result Unit) (rt : Runtime (ServiceState W) Session)
      → rt.shutdown_complete ≡ false
      → Holds rt.reading
      → LeftClosed (conclude env enabled outcome rt).runtime
  unfolding conclude
  conclude-LeftClosed enabled (ok _) rt fresh h = finish-LeftClosed enabled rt fresh h
  conclude-LeftClosed enabled (err e) rt fresh h =
      finish-LeftClosed enabled (record rt { reading = handle_exception env e rt.reading }) fresh
        (handle_exception-IsSound e rt.reading h)

  construct-made :
      (config : WholeConfiguration) (p : Parts W) {c : AccessController}
      {s : ReaderSupervisor Session}
      → (construct env config p).0 ≡ ok (c, s)
      → new_controller (new_tracker config.escalation) config.release_seconds config.channel ≡ ok c
  unfolding construct
  construct-made config p made = ground arith

-- Where the relay was constructed its cleanup was not undone, and the controller is closed.
abbrev pub IsSecured : {W Session : Type 0} → (W → Type 0) → Ended W Session → Type 0
IsSecured P ended = (ended.relay ≡ true → P ended.state.world) × LeftClosed ended.runtime

abbrev IfEnded : {W Session : Type 0} → (W → Type 0) → Option (Ended W Session) → Type 0
IfEnded P none = Unit
IfEnded P (some ended) = IsSecured P ended

module _ {W Session : Type 0} (P : W → Type 0) (env : Environment W Session)
    (secures : Secures P env) where
  conclude-IsSecured :
      (enabled : Bool) (outcome : Result Unit) (rt : Runtime (ServiceState W) Session)
      → rt.shutdown_complete ≡ false
      → Holds rt.reading
      → IsSecured P (conclude env enabled outcome rt)
  conclude-IsSecured enabled outcome rt fresh h = (
    λ _. conclude_secures P env enabled secures outcome rt,
    conclude-LeftClosed env enabled outcome rt fresh h,
  )

  module _ (config : WholeConfiguration) (install_signals : Bool) (rounds : ℕ)
      (started_at : Timestamp) where
    after_serving-IfEnded :
        (served : Result (Option Unit)) (rt : Runtime (ServiceState W) Session)
        → rt.shutdown_complete ≡ false
        → Holds rt.reading
        → IfEnded P (after_serving env config install_signals rounds started_at served rt)
    unfolding after_serving
    after_serving-IfEnded (err e) rt fresh h = conclude-IsSecured config.enabled (err e) rt fresh h
    after_serving-IfEnded (ok none) rt fresh h = tt
    after_serving-IfEnded (ok (some _)) rt fresh h =
        conclude-IsSecured config.enabled (ok tt) rt fresh h

    after_construction-IfEnded :
        (made : Result (AccessController × ReaderSupervisor Session)) (p : Parts W)
        → ((c : AccessController) (s : ReaderSupervisor Session) → made ≡ ok (c, s) → IsSound c)
        → IfEnded P (after_construction env config install_signals rounds started_at made p)
    unfolding after_construction abandon
    after_construction-IfEnded (err e) p sound =
        (abandon_secures P env config.enabled secures e p, tt)
    after_construction-IfEnded (ok (c, s)) p sound =
        let rt = constructed env config c s p.state in
        let (served, r) = serve env config rounds started_at install_signals rt.reading in
        after_serving-IfEnded served (record rt { reading = r }) refl
          (serve-IsSound env config rounds started_at install_signals rt.reading (sound c s refl))

  run_configured-IfEnded :
      (config : WholeConfiguration) (install_signals : Bool) (rounds : ℕ) (w : W)
      → IfEnded P (run_configured env config install_signals rounds w)
  unfolding run_configured
  run_configured-IfEnded config install_signals rounds w =
      let (started_at, w') = env.devices.ports.now w in
      let before : Parts W = record {
        audit = false;
        relay = false;
        state = new_service_state config.enabled w';
      } in
      let (made, p) = construct env config before in
      after_construction-IfEnded config install_signals rounds started_at made p (λ c s same.
        new_controller-IsSound (new_tracker config.escalation) config.release_seconds config.channel
          (construct-made env config before same))

  run_whole-IfEnded :
      (install_signals : Bool) (rounds : ℕ) (config : Option WholeConfiguration) (w : W)
      → IfEnded P (run_whole env install_signals rounds config w)
  unfolding run_whole
  run_whole-IfEnded install_signals rounds none w = tt
  run_whole-IfEnded install_signals rounds (some config) w =
      run_configured-IfEnded config install_signals rounds w

  WhenEnded-ok :
      (ended : Option (Ended W Session)) → IfEnded P ended → WhenEnded (IsSecured P) (ok ended)
  WhenEnded-ok none h = tt
  WhenEnded-ok (some ended) h = h

  run_checked-IsSecured :
      (install_signals : Bool) (rounds : ℕ) (config : Result SystemConfiguration) (w : W)
      → WhenEnded (IsSecured P) (run_checked env install_signals rounds config w)
  unfolding run_checked
  run_checked-IsSecured install_signals rounds (err e) w = tt
  run_checked-IsSecured install_signals rounds (ok config) w =
      if_keeps (WhenEnded (IsSecured P)) (not (str_eq config.relay.backend "raspberry_pi"))
        {x = err value_error} tt
        (WhenEnded-ok (run_whole env install_signals rounds (whole config) w)
          (run_whole-IfEnded install_signals rounds (whole config) w))

-- In whatever way the service ends, a failed start and every exception of the devices, the API server
-- and the cleanups included: if the relay was constructed, what its cleanup brings about is there in
-- the end, where nothing that the service calls after it undoes that; and if the runtime was, the
-- controller is stopped, faulted or shutting down, and a stopped one has no deadline and its last
-- accepted command was LOW.
pub run_hardware_service-IsSecured :
    {W Session : Type 0} (P : W → Type 0) (env : Environment W Session) (install_signals : Bool)
    (rounds : ℕ) (w : W)
    → Secures P env
    → WhenEnded (IsSecured P) (run_hardware_service env install_signals rounds w)
unfolding run_hardware_service
run_hardware_service-IsSecured P env install_signals rounds w secures =
    let (read, w') = env.read_configuration w in
    run_checked-IsSecured P env secures install_signals rounds (load_configuration env.loads read)
      w'
