-- ===== src/Tests/Apis.antt =====
-- Requests to the routes: the health of the door of the statuses, and events of a reader of two.
use frontdoor.Prelude.{
  ℕ, ◌≡◌, ◌↔◌, ◌⊎◌, ◌<◌, ◌≤◌, ◌-◌, ◌+◌, inl, true, none, List, ok, refl, arith, Exec,
}
use frontdoor.Audit.{AuditEvent}
use frontdoor.Controller.State.{ControllerState}
use frontdoor.Reader.Supervisor.State.{ReaderHealthState}
use frontdoor.Queries.{EventQuery}
use frontdoor.Api.{health_route, events_route}
use frontdoor.Api.Routes.{
  health_route-published, plain, plain_query, Answered, events_route-Answered,
}
use frontdoor.Tests.Statuses.{door, reader, empty_store, published_at, sources, service, answers}
use frontdoor.Tests.Pages.{demo_codec, three_events}

abbrev stored : EventQuery → Exec ℕ (List AuditEvent)
stored query w = (ok three_events, w + 1)

health_route-published_example :
    let code = (health_route sources 10 service tt).0.status_code in
    ((code ≡ 200) ⊎ (code ≡ 503))
    × ((code ≡ 200) ↔ (
        ((sources.now tt).0.instant - 5 < 10)
        × ((ControllerState.ready ≡ ControllerState.ready)
            ⊎ (ControllerState.ready ≡ ControllerState.released))
        × (ReaderHealthState.ready ≡ ReaderHealthState.ready)
        × ((sources.authorization tt).loaded ≡ true)))
health_route-published_example =
    health_route-published sources service 10 tt empty_store door reader published_at refl answers

events_route-Answered_example :
    let limit : ℕ = 50 in
    let (response, w') = events_route demo_codec stored 100 (plain none none none) 7 in
    ((limit ≡ 0) ⊎ (100 < limit) → (response.status_code ≡ 422) × (w' ≡ 7))
    × (1 ≤ limit
        → limit ≤ 100
        → Answered demo_codec stored limit (stored (plain_query limit none none) 7).0 response
          × (w' ≡ (stored (plain_query limit none none) 7).1))
events_route-Answered_example =
    events_route-Answered demo_codec stored 100 none none 7 none 50 (omega arith)
      (omega arith, omega arith, inl refl)
