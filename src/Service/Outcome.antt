-- ===== src/Service/Outcome.antt =====
-- What it means that the service of bridgewire/hardware_service.py returns 0.
use frontdoor.Prelude.{
  ℕ, ◌≡◌, ◌∙◌, Bool, true, false, List, [], ◌∷◌, ◌++◌, Option, none, some, ok, err, Exception,
  Result, not, str_eq, value_error, arith, refl, sym, append_assoc, append-nil_parts, append-nil,
}
use frontdoor.Clock.{Timestamp}
use frontdoor.Server.{ApiServerState}
use frontdoor.Configuration.Whole.{WholeConfiguration, whole}
use frontdoor.Configuration.{SystemConfiguration}
use frontdoor.Configuration.Load.{load_configuration}
use frontdoor.Controller.State.{AccessController}
use frontdoor.Reader.Supervisor.State.{ReaderHealthState, ReaderSupervisor}
use frontdoor.Runtime.{Runtime}
use frontdoor.Runtime.Shutdown.{shutdown_runtime}
use frontdoor.Runtime.Cleanup.{shutdown_runtime-controller}
use frontdoor.Service.{
  Environment, ServiceState, Failure, raised, kept, append_failure, through, noted,
  report_api_state, retain_api_failure, stop_api, new_service_state,
}
use frontdoor.Service.Steps.{if_keeps, StepsKeep, stop_api_keeps}
use frontdoor.Service.Startup.{lifted, Parts, construct, constructed, serve}
use frontdoor.Service.Finish.{
  outcome_of, Ended, cleanup_relay, close_audit, release_rest, finish, abandon, handle_exception,
  conclude, after_serving, after_construction, run_configured, run_checked, run_whole,
  run_hardware_service,
}
use frontdoor.Service.Secured.{WhenEnded}

-- The failures of the first state are the first ones of the second.
abbrev Extends : {W : Type 0} → ServiceState W → ServiceState W → Type 0
Extends s t = (rest : List Failure) × (t.failures ≡ s.failures ++ rest)

Extends-trans : {W : Type 0} (s t u : ServiceState W) → Extends s t → Extends t u → Extends s u
Extends-trans s t u (xs, p) (ys, q) =
    (xs ++ ys, ground (arith, p, q, append_assoc s.failures xs ys))

Extends-same : {W : Type 0} (s t : ServiceState W) → t.failures ≡ s.failures → Extends s t
Extends-same s t same = ([], same ∙ sym (append-nil s.failures))

module _ {W Session : Type 0} (env : Environment W Session) (enabled : Bool) where
  noted-Extends : (result : Result Unit) (s : ServiceState W) → Extends s (noted (result, s))
  noted-Extends (ok _) s = Extends-same s s refl
  noted-Extends (err e) s = (raised e ∷ [], refl)

  report-Extends :
      (state : ApiServerState) (failure : Bool) (s : ServiceState W)
      → Extends s (report_api_state env enabled state failure s)
  unfolding report_api_state
  report-Extends state failure s = let (rest, same) = noted-Extends _ _ in (rest, same)

  retain-Extends :
      (failure : Failure) (state : ApiServerState) (s : ServiceState W)
      → Extends s (retain_api_failure env enabled failure state s)
  unfolding retain_api_failure
  retain-Extends (raised e) state s =
      let s1 = append_failure (raised e) s in
      Extends-trans s s1 (report_api_state env enabled state true s1) (raised e ∷ [], refl)
        (report-Extends state true s1)
  retain-Extends (kept object e) state s =
      let s1 = record (append_failure (kept object e) s) { observed = object ∷ s.observed } in
      if_keeps (Extends s) _ (Extends-same s s refl) (
        Extends-trans s s1 (report_api_state env enabled state true s1) (kept object e ∷ [], refl)
          (report-Extends state true s1))

  failure_keeper : (s : ServiceState W) → StepsKeep (Extends s) env enabled
  failure_keeper s = record {
    reports = λ state failure t h.
        Extends-trans s t (report_api_state env enabled state failure t) h
          (report-Extends state failure t);
    retains = λ failure state t h.
        Extends-trans s t (retain_api_failure env enabled failure state t) h
          (retain-Extends failure state t);
    shows = λ t h. h;
    stops = λ t h. h;
  }

  release_rest-Extends :
      (audit relay : Bool) (s : ServiceState W) → Extends s (release_rest env enabled audit relay s)
  unfolding release_rest cleanup_relay close_audit
  release_rest-Extends audit relay s =
      let (cleaned, s1) = through env.devices.ports.cleanup s in
      let s2 = cleanup_relay env relay s in
      let s3 = stop_api env enabled s2 in
      let (closed, s4) = through env.close_audit s3 in
      let s5 = close_audit env audit s3 in
      Extends-trans s s2 s5
        (if_keeps (Extends s) relay (noted-Extends cleaned s1) (Extends-same s s refl))
        (Extends-trans s2 s3 s5
          (stop_api_keeps (Extends s2) env enabled (failure_keeper s2) s2 (Extends-same s2 s2 refl))
          (if_keeps (Extends s3) audit (noted-Extends closed s4) (Extends-same s3 s3 refl)))

  -- Where nothing has failed in the end, nothing failed before.
  release_rest-nil :
      (audit relay : Bool) (s : ServiceState W)
      → (release_rest env enabled audit relay s).failures ≡ []
      → s.failures ≡ []
  release_rest-nil audit relay s none_failed =
      let (rest, same) = release_rest-Extends audit relay s in
      (append-nil_parts s.failures rest (sym same ∙ none_failed)).0

outcome_of-ok : (failures : List Failure) → outcome_of failures ≡ ok tt → failures ≡ []
outcome_of-ok [] done = refl
outcome_of-ok (failure ∷ []) done = absurd (cc)
outcome_of-ok (failure ∷ second ∷ rest) done = absurd (cc)

noted-nil :
    {W : Type 0} (result : Result Unit) (s : ServiceState W)
    → (noted (result, s)).failures ≡ []
    → (result ≡ ok tt) × (s.failures ≡ [])
noted-nil (ok _) s h = (refl, h)
noted-nil (err e) s h = absurd (cc (append-nil_parts s.failures (raised e ∷ []) h).1)

-- The runtime was constructed, and its shutdown is complete.
abbrev pub IsComplete : {W Session : Type 0} → Option (Runtime (ServiceState W) Session) → Type 0
IsComplete none = ⊥
IsComplete (some rt) =
    (rt.shutdown_complete ≡ true)
    × (rt.reading.reader.session ≡ none)
    × (rt.reading.reader.health_state ≡ ReaderHealthState.stopped)

-- No exception came out of the cleanups, and the runtime is shut down.
abbrev pub IsClean : {W Session : Type 0} → Ended W Session → Type 0
IsClean ended = ended.result ≡ ok tt → (ended.state.failures ≡ []) × IsComplete ended.runtime

abbrev CleanIf : {W Session : Type 0} → Option (Ended W Session) → Type 0
CleanIf none = Unit
CleanIf (some ended) = IsClean ended

module _ {W Session : Type 0} (env : Environment W Session) where
  finish-IsClean :
      (enabled : Bool) (rt : Runtime (ServiceState W) Session)
      → rt.shutdown_complete ≡ false
      → IsClean (finish env enabled rt)
  unfolding finish
  finish-IsClean enabled rt fresh done =
      let (result, rt') = shutdown_runtime (lifted env.devices) rt in
      let s = noted (result, rt'.reading.world.world) in
      let empty = outcome_of-ok (release_rest env enabled true true s).failures done in
      let returned =
        (noted-nil result rt'.reading.world.world
          (release_rest-nil env enabled true true s empty)).0 in
      let (secured, completes, leaves) =
        shutdown_runtime-controller (lifted env.devices) rt fresh in
      let complete = completes returned in
      (empty, (complete, (leaves complete).0, (leaves complete).1))

  conclude-IsClean :
      (enabled : Bool) (outcome : Result Unit) (rt : Runtime (ServiceState W) Session)
      → rt.shutdown_complete ≡ false
      → IsClean (conclude env enabled outcome rt)
  unfolding conclude
  conclude-IsClean enabled (ok _) rt fresh = finish-IsClean enabled rt fresh
  conclude-IsClean enabled (err e) rt fresh =
      finish-IsClean enabled (record rt { reading = handle_exception env e rt.reading }) fresh

  abandon-IsClean :
      (enabled : Bool) (e : Exception) (p : Parts W) → IsClean (abandon env enabled e p)
  unfolding abandon
  abandon-IsClean enabled e p done =
      let s = append_failure (raised e) p.state in
      let empty = outcome_of-ok (release_rest env enabled p.audit p.relay s).failures done in
      let before = release_rest-nil env enabled p.audit p.relay s empty in
      absurd (cc (append-nil_parts p.state.failures (raised e ∷ []) before).1)

  module _ (config : WholeConfiguration) (install_signals : Bool) (rounds : ℕ)
      (started_at : Timestamp) where
    after_serving-CleanIf :
        (served : Result (Option (Unit {0}))) (rt : Runtime (ServiceState W) Session)
        → rt.shutdown_complete ≡ false
        → CleanIf (after_serving env config install_signals rounds started_at served rt)
    unfolding after_serving
    after_serving-CleanIf (err e) rt fresh = conclude-IsClean config.enabled (err e) rt fresh
    after_serving-CleanIf (ok none) rt fresh = tt
    after_serving-CleanIf (ok (some _)) rt fresh = conclude-IsClean config.enabled (ok tt) rt fresh

    after_construction-CleanIf :
        (made : Result (AccessController × ReaderSupervisor Session)) (p : Parts W)
        → CleanIf (after_construction env config install_signals rounds started_at made p)
    unfolding after_construction
    after_construction-CleanIf (err e) p = abandon-IsClean config.enabled e p
    after_construction-CleanIf (ok (c, s)) p =
        let rt = constructed env config c s p.state in
        let (served, r) = serve env config rounds started_at install_signals rt.reading in
        after_serving-CleanIf served (record rt { reading = r }) refl

  WhenEnded-IsClean :
      (ended : Option (Ended W Session)) → CleanIf ended → WhenEnded IsClean (ok ended)
  WhenEnded-IsClean none h = tt
  WhenEnded-IsClean (some ended) h = h

  run_configured-CleanIf :
      (config : WholeConfiguration) (install_signals : Bool) (rounds : ℕ) (w : W)
      → CleanIf (run_configured env config install_signals rounds w)
  unfolding run_configured
  run_configured-CleanIf config install_signals rounds w =
      let (started_at, w') = env.devices.ports.now w in
      let before : Parts W = record {
        audit = false;
        relay = false;
        state = new_service_state config.enabled w';
      } in
      let (made, p) = construct env config before in
      after_construction-CleanIf config install_signals rounds started_at made p

  run_whole-CleanIf :
      (install_signals : Bool) (rounds : ℕ) (config : Option WholeConfiguration) (w : W)
      → CleanIf (run_whole env install_signals rounds config w)
  unfolding run_whole
  run_whole-CleanIf install_signals rounds none w = tt
  run_whole-CleanIf install_signals rounds (some config) w =
      run_configured-CleanIf config install_signals rounds w

  run_checked-IsClean :
      (install_signals : Bool) (rounds : ℕ) (config : Result SystemConfiguration) (w : W)
      → WhenEnded IsClean (run_checked env install_signals rounds config w)
  unfolding run_checked
  run_checked-IsClean install_signals rounds (err e) w = tt
  run_checked-IsClean install_signals rounds (ok config) w =
      if_keeps (WhenEnded IsClean) (not (str_eq config.relay.backend "raspberry_pi"))
        {x = err value_error} tt
        (WhenEnded-IsClean (run_whole env install_signals rounds (whole config) w)
          (run_whole-CleanIf install_signals rounds (whole config) w))

-- A service that returns 0 has retained no failure, and its runtime was constructed and its shutdown
-- is complete: no session is open and the reader is stopped.
pub run_hardware_service-IsClean :
    {W Session : Type 0} (env : Environment W Session) (install_signals : Bool) (rounds : ℕ) (w : W)
    → WhenEnded IsClean (run_hardware_service env install_signals rounds w)
unfolding run_hardware_service
run_hardware_service-IsClean env install_signals rounds w =
    let (read, w') = env.read_configuration w in
    run_checked-IsClean env install_signals rounds (load_configuration env.loads read) w'
