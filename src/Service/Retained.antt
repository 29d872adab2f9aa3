-- ===== src/Service/Retained.antt =====
-- Which failures of the API server bridgewire/hardware_service.py keeps.
use frontdoor.Prelude.{
  ℕ, ◌≤◌, ◌≡◌, Bool, true, false, All-map, ◌∙◌, List, [], ◌∷◌, some, ok, err, Exception, Result,
  any, count, count-append, All, ◌==◌, if◌then◌else◌, arith, refl,
}
use frontdoor.Server.{ApiServerState}
use frontdoor.Service.{
  Environment, ServiceState, new_service_state, Failure, raised, kept, append_failure, noted,
  report_api_state, retain_api_failure, retain_all, observe_snapshot, observe_api,
  retain_with_snapshot, after_stop, stop_api,
}
use frontdoor.Service.Steps.{StepsKeep, observe_api_keeps, after_stop_keeps, stop_api_keeps}

-- Whether a failure is an object of the server.
abbrev pub is_kept : ℕ → Failure → Bool
is_kept object (raised e) = false
is_kept object (kept other e) = other == object

abbrev pub times_kept : {W : Type 0} → ℕ → ServiceState W → ℕ
times_kept object s = count (is_kept object) s.failures

abbrev pub is_observed : {W : Type 0} → ℕ → ServiceState W → Bool
is_observed object s = any (λ known. known == object) s.observed

-- The failures have each observed object once, and no other object; there is a server.
abbrev pub IsRetained : {W : Type 0} → ServiceState W → Type 0
IsRetained s =
    (s.api_server ≡ true)
    × ((object : ℕ) → times_kept object s ≡ (if is_observed object s then 1 else 0))

-- A call of a nested function, the stop of the server, and an exception of anything else.
pub data ServiceCall : Type 0 where
  report_call : ApiServerState → Bool → ServiceCall
  retain_call : Failure → ServiceCall
  observe_call stop_call : ServiceCall
  failed_call : Exception → ServiceCall

module _ {W Session : Type 0} (env : Environment W Session) (enabled : Bool) where
  noted-IsRetained :
      (result : Result Unit) (s : ServiceState W) (object : ℕ)
      → let s' = noted (result, s) in
        (times_kept object s' ≡ times_kept object s)
        × (is_observed object s' ≡ is_observed object s)
        × (s'.api_server ≡ s.api_server)
  noted-IsRetained (ok _) s object = (refl, refl, refl)
  noted-IsRetained (err e) s object =
      (omega (arith, count-append (is_kept object) s.failures (raised e ∷ [])), refl, refl)

  report_api_state-keeps :
      (state : ApiServerState) (failure : Bool) (s : ServiceState W) (object : ℕ)
      → let s' = report_api_state env enabled state failure s in
        (times_kept object s' ≡ times_kept object s)
        × (is_observed object s' ≡ is_observed object s)
        × (s'.api_server ≡ s.api_server)
  unfolding report_api_state
  report_api_state-keeps state failure s object = noted-IsRetained _ _ object

  retain-IsRetained :
      (failure : Failure) (state : ApiServerState) (s : ServiceState W)
      → IsRetained s
      → IsRetained (retain_api_failure env enabled failure state s)
  unfolding retain_api_failure
  retain-IsRetained (raised e) state s h =
      let keeps = report_api_state-keeps state true (append_failure (raised e) s) in
      (
        (keeps 0).2 ∙ h.0,
        λ object. ground (
          arith,
          h.1 object,
          keeps object,
          count-append (is_kept object) s.failures (raised e ∷ []),
        ),
      )
  retain-IsRetained (kept id e) state s h =
      let keeps =
        report_api_state-keeps state true
          (record (append_failure (kept id e) s) { observed = id ∷ s.observed }) in
      (
        ground (arith, keeps 0, h.0),
        λ object. ground (
          arith,
          h.1 object,
          h.1 id,
          keeps object,
          count-append (is_kept object) s.failures (kept id e ∷ []),
        ),
      )

  -- What was observed stays observed, and a failure of the server is.
  retain-observed :
      (id : ℕ) (e : Exception) (state : ApiServerState) (s : ServiceState W) (object : ℕ)
      → let s' = retain_api_failure env enabled (kept id e) state s in
        (is_observed object s ≡ true → is_observed object s' ≡ true) × (is_observed id s' ≡ true)
  unfolding retain_api_failure
  retain-observed id e state s object =
      let later = record (append_failure (kept id e) s) { observed = id ∷ s.observed } in
      ground (
        arith,
        report_api_state-keeps state true later object,
        report_api_state-keeps state true later id,
      )

  retain_all-keeps :
      (failures : List (ℕ × Exception)) (state : ApiServerState) (s : ServiceState W) (object : ℕ)
      → is_observed object s ≡ true
      → is_observed object (retain_all env enabled failures state s) ≡ true
  unfolding retain_all
  retain_all-keeps [] state s object h = h
  retain_all-keeps ((id, e) ∷ rest) state s object h =
      retain_all-keeps rest state (retain_api_failure env enabled (kept id e) state s) object
        ((retain-observed id e state s object).0 h)

  retain_all-observed :
      (failures : List (ℕ × Exception)) (state : ApiServerState) (s : ServiceState W)
      → All (λ f. is_observed f.0 (retain_all env enabled failures state s) ≡ true) failures
  unfolding retain_all
  retain_all-observed [] state s = tt
  retain_all-observed ((id, e) ∷ rest) state s =
      let s' = retain_api_failure env enabled (kept id e) state s in
      (
        retain_all-keeps rest state s' id (retain-observed id e state s id).1,
        retain_all-observed rest state s',
      )

  report-IsRetained :
      (state : ApiServerState) (failure : Bool) (s : ServiceState W)
      → IsRetained s
      → IsRetained (report_api_state env enabled state failure s)
  report-IsRetained state failure s h =
      let keeps = report_api_state-keeps state failure s in
      ((keeps 0).2 ∙ h.0, λ object. ground (arith, h.1 object, keeps object))

  retention_keeper : StepsKeep IsRetained env enabled
  retention_keeper = record {
    reports = report-IsRetained;
    retains = retain-IsRetained;
    shows = λ s h. h;
    stops = λ s h. h;
  }

  unfoldable pub after_service_call : ServiceCall → ServiceState W → ServiceState W
  after_service_call (report_call state failure) s = report_api_state env enabled state failure s
  after_service_call (retain_call failure) s = retain_with_snapshot env enabled failure s
  after_service_call observe_call s = observe_api env enabled s
  after_service_call stop_call s = stop_api env enabled s
  after_service_call (failed_call e) s = append_failure (raised e) s

  unfoldable pub after_service_calls : List ServiceCall → ServiceState W → ServiceState W
  after_service_calls [] s = s
  after_service_calls (call ∷ calls) s = after_service_calls calls (after_service_call call s)

  after_service_call-IsRetained :
      (call : ServiceCall) (s : ServiceState W)
      → IsRetained s
      → IsRetained (after_service_call call s)
  unfolding after_service_call retain_with_snapshot after_stop
  after_service_call-IsRetained (report_call state failure) s h =
      report-IsRetained state failure s h
  after_service_call-IsRetained (retain_call failure) s h =
      after_stop_keeps IsRetained env enabled retention_keeper (some failure) s h
  after_service_call-IsRetained observe_call s h =
      observe_api_keeps IsRetained env enabled retention_keeper s h
  after_service_call-IsRetained stop_call s h =
      stop_api_keeps IsRetained env enabled retention_keeper s h
  after_service_call-IsRetained (failed_call e) s h = (
    h.0,
    λ object. ground (arith, h.1 object, count-append (is_kept object) s.failures (raised e ∷ [])),
  )

  after_service_calls-IsRetained :
      (calls : List ServiceCall) (s : ServiceState W)
      → IsRetained s
      → IsRetained (after_service_calls calls s)
  unfolding after_service_calls
  after_service_calls-IsRetained [] s h = h
  after_service_calls-IsRetained (call ∷ calls) s h =
      after_service_calls-IsRetained calls (after_service_call call s)
        (after_service_call-IsRetained call s h)

  observe_api-observed :
      (s : ServiceState W)
      → s.api_server ≡ true
      → All (λ f. is_observed f.0 (observe_api env enabled s) ≡ true) (env.snapshot s.world).0.1
  unfolding observe_api observe_snapshot
  observe_api-observed s made = rw made (retain_all-observed _ _ _)

-- After any calls of the service's nested functions, on a world that does as it likes: an exception
-- object that the API server keeps is among the failures at most once, and after a further
-- `observe_api` every one that its snapshot shows is there exactly once.
pub observe_api-once :
    {W Session : Type 0} (env : Environment W Session) (enabled : Bool) (calls : List ServiceCall)
    (w : W)
    → let s = record (new_service_state enabled w) { api_server = true } in
      let before = after_service_calls env enabled calls s in
      let after = observe_api env enabled before in
      ((object : ℕ) → times_kept object after ≤ 1)
      × All (λ f. times_kept f.0 after ≡ 1) (env.snapshot before.world).0.1
observe_api-once env enabled calls w =
    let before =
      after_service_calls env enabled calls
        (record (new_service_state enabled w) { api_server = true }) in
    let held = after_service_calls-IsRetained env enabled calls _ (refl, λ object. refl) in
    let after =
      observe_api_keeps IsRetained env enabled (retention_keeper env enabled) before held in
    (
      λ object. ground (arith, after.1 object),
      All-map (λ f seen. rw seen at (after.1 f.0)) _
          (observe_api-observed env enabled before held.0),
    )
