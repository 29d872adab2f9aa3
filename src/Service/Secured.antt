-- ===== src/Service/Secured.antt =====
-- The order of the cleanups of bridgewire/hardware_service.py: what the cleanup of the relay brings
-- about is there in the end.
use frontdoor.Prelude.{
  ◌≡◌, Bool, true, String, List, ◌∷◌, Option, none, some, ok, err, Exception, Result, sym, subst,
}
use frontdoor.Server.{ApiServerState}
use frontdoor.Runtime.{Runtime}
use frontdoor.Service.{
  Environment, ServiceState, Failure, raised, kept, append_failure, through, noted,
  report_api_state, retain_api_failure, stop_api,
}
use frontdoor.Service.Steps.{if_keeps, StepsKeep, stop_api_keeps}
use frontdoor.Service.Startup.{Parts}
use frontdoor.Service.Finish.{
  Ended, cleanup_relay, close_audit, release_rest, finish, abandon, conclude,
}

-- What holds when the service ends after its configuration was accepted.
abbrev pub WhenEnded :
    {W Session : Type 0} → (Ended W Session → Type 0) → Result (Option (Ended W Session)) → Type 0
WhenEnded P (err e) = Unit
WhenEnded P (ok none) = Unit
WhenEnded P (ok (some ended)) = P ended

-- The cleanup of the relay brings about `P`, and nothing that the service calls after it undoes `P`.
pub record Secures {W Session : Type 0} (P : W → Type 0) (env : Environment W Session)
    : Type 0 where
  pub cleans : (w : W) → P (env.devices.ports.cleanup w).1
  pub reports :
      (status : String) (details : List (String × String)) (enabled : Bool) (state : String) (w : W)
      → P w
      → P (env.report_with_api status details enabled state w).1
  pub shows : (w : W) → P w → P (env.snapshot w).1
  pub stops : (w : W) → P w → P (env.stop_server w).1
  pub closes : (w : W) → P w → P (env.close_audit w).1

module _ {W Session : Type 0} (P : W → Type 0) (env : Environment W Session) (enabled : Bool)
    (secures : Secures P env) where
  abbrev Holds : ServiceState W → Type 0
  Holds s = P s.world

  noted_keeps :
      (result : Result Unit) (s : ServiceState W) → P s.world → P (noted (result, s)).world
  noted_keeps (ok _) s h = h
  noted_keeps (err e) s h = h

  report_keeps :
      (state : ApiServerState) (failure : Bool) (s : ServiceState W)
      → P s.world
      → P (report_api_state env enabled state failure s).world
  unfolding report_api_state
  report_keeps state failure s h = noted_keeps _ _ (secures.reports _ _ _ _ s.world h)

  retain_keeps :
      (failure : Failure) (state : ApiServerState) (s : ServiceState W)
      → P s.world
      → P (retain_api_failure env enabled failure state s).world
  unfolding retain_api_failure
  retain_keeps (raised e) state s h = report_keeps state true (append_failure (raised e) s) h
  retain_keeps (kept object e) state s h =
      let later = record (append_failure (kept object e) s) { observed = object ∷ s.observed } in
      if_keeps Holds _ h (report_keeps state true later h)

  world_keeper : StepsKeep Holds env enabled
  world_keeper = record {
    reports = report_keeps;
    retains = retain_keeps;
    shows = λ s h. secures.shows s.world h;
    stops = λ s h. secures.stops s.world h;
  }

  release_rest_secures :
      (audit : Bool) (s : ServiceState W) → P (release_rest env enabled audit true s).world
  unfolding release_rest cleanup_relay close_audit
  release_rest_secures audit s =
      let (ended, s1) = through env.devices.ports.cleanup s in
      let s2 = noted (ended, s1) in
      let cleaned = noted_keeps ended s1 (secures.cleans s.world) in
      let s3 = stop_api env enabled s2 in
      let stopped = stop_api_keeps Holds env enabled world_keeper s2 cleaned in
      let (closed, s4) = through env.close_audit s3 in
      if_keeps Holds audit {y = s3} (noted_keeps closed s4 (secures.closes s3.world stopped))
        stopped

  pub abandon_secures :
      (e : Exception) (p : Parts W)
      → (abandon env enabled e p).relay ≡ true
      → P (abandon env enabled e p).state.world
  unfolding abandon
  abandon_secures e p made =
      subst
        (λ made.
          P (release_rest env enabled p.audit made (append_failure (raised e) p.state)).world)
        (sym made) (release_rest_secures p.audit (append_failure (raised e) p.state))

  pub conclude_secures :
      (outcome : Result Unit) (rt : Runtime (ServiceState W) Session)
      → P (conclude env enabled outcome rt).state.world
  unfolding conclude finish
  conclude_secures (ok _) rt = release_rest_secures true _
  conclude_secures (err e) rt = release_rest_secures true _
