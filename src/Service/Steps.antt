-- ===== src/Service/Steps.antt =====
-- A property of what the service of bridgewire/hardware_service.py keeps, through the functions that
-- observe and stop the API server.
use frontdoor.Prelude.{
  Bool, true, false, List, [], ◌∷◌, ℕ, Option, none, some, Exception, if◌then◌else◌,
}
use frontdoor.Server.{ApiServerState}
use frontdoor.Service.{
  Environment, ServiceState, Failure, kept, through, report_api_state, retain_api_failure,
  retain_all, report_change, observe_snapshot, observe_api, retain_with_snapshot, after_stop,
  stop_api,
}

-- What holds of both branches holds of the conditional.
pub if_keeps :
    {A : Type 0} (P : A → Type 0) (test : Bool) {x y : A} → P x → P y → P (if test then x else y)
if_keeps P true h k = h
if_keeps P false h k = k

pub record StepsKeep {W Session : Type 0} (Q : ServiceState W → Type 0)
    (env : Environment W Session) (enabled : Bool) : Type 0 where
  pub reports :
      (state : ApiServerState) (failure : Bool) (s : ServiceState W)
      → Q s
      → Q (report_api_state env enabled state failure s)
  pub retains :
      (failure : Failure) (state : ApiServerState) (s : ServiceState W)
      → Q s
      → Q (retain_api_failure env enabled failure state s)
  pub shows : (s : ServiceState W) → Q s → Q (through env.snapshot s).1
  pub stops : (s : ServiceState W) → Q s → Q (through env.stop_server s).1

module _ {W Session : Type 0} (Q : ServiceState W → Type 0) (env : Environment W Session)
    (enabled : Bool) (keep : StepsKeep Q env enabled) where
  retain_all_keeps :
      (failures : List (ℕ × Exception)) (state : ApiServerState) (s : ServiceState W)
      → Q s
      → Q (retain_all env enabled failures state s)
  unfolding retain_all
  retain_all_keeps [] state s h = h
  retain_all_keeps ((object, e) ∷ rest) state s h =
      retain_all_keeps rest state (retain_api_failure env enabled (kept object e) state s)
        (keep.retains (kept object e) state s h)

  pub observe_api_keeps : (s : ServiceState W) → Q s → Q (observe_api env enabled s)
  unfolding observe_api observe_snapshot
  observe_api_keeps s h =
      let ((state, failures), s1) = through env.snapshot s in
      let shown = keep.shows s h in
      if_keeps Q s.api_server {y = s}
        (retain_all_keeps failures state (report_change env enabled state failures s1)
          (if_keeps Q _ {y = s1} (keep.reports state _ s1 shown) shown))
        h

  pub after_stop_keeps :
      (ended : Option Failure) (s : ServiceState W) → Q s → Q (after_stop env enabled ended s)
  unfolding retain_with_snapshot after_stop
  after_stop_keeps none s h = h
  after_stop_keeps (some failure) s h =
      let ((state, failures), s1) = through env.snapshot s in
      keep.retains failure state s1 (keep.shows s h)

  pub stop_api_keeps : (s : ServiceState W) → Q s → Q (stop_api env enabled s)
  unfolding stop_api
  stop_api_keeps s h =
      let (ended, s1) = through env.stop_server s in
      if_keeps Q s.api_server {y = s}
        (observe_api_keeps (after_stop env enabled ended s1)
          (after_stop_keeps ended s1 (keep.stops s h)))
        h
