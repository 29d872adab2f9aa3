-- ===== src/Controller/Operations/Live.antt =====
-- Over a relay, a sink and a clock that serve, bridgewire/controller.py serves until it is shut down.
use frontdoor.Prelude.{
  ℕ, ◌≡◌, ◌⊎◌, refl, inl, inr, Bool, true, false, List, [], ◌∷◌, ok, is_ok, arith, String, All,
}
use frontdoor.Audit.{info, service_shutdown}
use frontdoor.Reader.Record.{RecordResult, accepted, malformed}
use frontdoor.Escalation.{EscalationTracker}
use frontdoor.Controller.State.{
  ControllerState, AuthorizationOutcome, authorized, denied, unknown, initializing, ready, released,
  stopped, Ports, AccessController, Door, new_controller,
}
use frontdoor.Controller.Effects.{command, attempt_safe_state, on_world, update}
use frontdoor.Controller.Effects.Frames.{
  audit-controller, record_suspicious-SameRelease, command-controller,
}
use frontdoor.Controller.Operations.{
  enter, start, start_from, start_new, start_secured, process, process_from, dispatch,
  process_parsed, process_malformed, by_outcome, refuse, release_from, begin_release, tick, tick_at,
  restored, shutdown, shutdown_from, shutdown_running, secure_and_finish, attempt_cleanup,
  finish_shutdown, Call, start_call, tick_call, failure_call, shutdown_call, process_call,
  after_call, after_calls,
}
use frontdoor.Controller.Operations.Total.{IsAttentive, audit_total, process-returns}

-- Attentive ports whose relay raises in no operation.
pub record IsReliable {W : Type 0} (ports : Ports W) : Type 0 where
  pub attentive : IsAttentive ports
  pub sets_up :
      (numbering : String) (channel : ℕ) (w : W) → (ports.setup numbering channel w).0 ≡ ok tt
  pub commands : (high : Bool) (w : W) → (ports.command high w).0 ≡ ok tt
  pub cleans_up : (w : W) → (ports.cleanup w).0 ≡ ok tt

-- Ready or released.
abbrev pub IsOpen : AccessController → Type 0
IsOpen c = (c.state ≡ ready) ⊎ (c.state ≡ released)

-- A call of the service while it runs: not the recoverable failure, and no shutdown.
abbrev pub is_serving : Call → Bool
is_serving failure_call = false
is_serving shutdown_call = false
is_serving _ = true

module _ {W : Type 0} (ports : Ports W) (reliable : IsReliable ports) where
  command_total : (high : Bool) (d : Door W) → (command ports high d).0 ≡ ok tt
  unfolding command
  command_total high d = ground (arith, reliable.commands high d.world)

  refuse-IsOpen :
      (t : _) (o : AuthorizationOutcome) (d : Door W)
      → IsOpen d.controller
      → IsOpen (refuse ports t o d).1.controller
  unfolding refuse
  refuse-IsOpen t o d h = grind (arith, audit-controller, record_suspicious-SameRelease)

  begin_release-released :
      (o : AuthorizationOutcome) (d : Door W)
      → (begin_release ports o d).1.controller.state ≡ released
  unfolding begin_release
  begin_release-released o d = grind (arith, audit-controller)

  release_from-IsOpen :
      (s : ControllerState) (o : AuthorizationOutcome) (d : Door W)
      → d.controller.state ≡ s
      → IsOpen (release_from ports s o d).1.controller
  unfolding release_from
  release_from-IsOpen released o d s = inr s
  release_from-IsOpen _ o d s =
      inr (ground (arith, command_total true d, begin_release-released o (command ports true d).1))

  by_outcome-IsOpen :
      (o : AuthorizationOutcome) (d : Door W)
      → IsOpen d.controller
      → IsOpen (by_outcome ports o d).1.controller
  unfolding by_outcome
  by_outcome-IsOpen denied d h = refuse-IsOpen _ denied d h
  by_outcome-IsOpen unknown d h = refuse-IsOpen _ unknown d h
  by_outcome-IsOpen authorized d h = grind (arith, audit-controller, release_from-IsOpen)

  process-IsOpen :
      (r : RecordResult) (d : Door W)
      → IsOpen d.controller
      → IsOpen (process ports r d).1.controller
  unfolding process process_from dispatch process_parsed process_malformed
  process-IsOpen (accepted p) d h = grind (arith, by_outcome-IsOpen)
  process-IsOpen (malformed reason) d h =
      grind (arith, audit-controller, record_suspicious-SameRelease)

  tick-IsOpen : (d : Door W) → IsOpen d.controller → IsOpen (tick ports d).1.controller
  unfolding tick tick_at restored
  tick-IsOpen d h = grind (arith, command_total, command-controller, audit-controller)

  start-IsOpen :
      (d : Door W) → d.controller.state ≡ initializing → IsOpen (start ports d).1.controller
  unfolding start start_from start_new start_secured on_world
  start-IsOpen d new = grind (
    arith,
    new,
    reliable.sets_up "BCM" d.controller.gpio_channel d.world,
    command_total,
    audit-controller,
  )

  start_again-IsOpen : (d : Door W) → IsOpen d.controller → IsOpen (start ports d).1.controller
  unfolding start start_from
  start_again-IsOpen d h = ground arith

  attempt_cleanup_total : (d : Door W) → (attempt_cleanup ports d).0 ≡ ok true
  unfolding attempt_cleanup on_world
  attempt_cleanup_total d = ground (arith, reliable.cleans_up d.world)

  attempt_safe_state_done : (d : Door W) → (attempt_safe_state ports d).0 ≡ ok true
  unfolding attempt_safe_state
  attempt_safe_state_done d = ground (arith, command_total false d)

  finish_shutdown-stopped :
      (d : Door W)
      → ((finish_shutdown ports true d).0 ≡ ok tt)
        × ((finish_shutdown ports true d).1.controller.state ≡ stopped)
  unfolding finish_shutdown enter update
  finish_shutdown-stopped d =
      let d' : Door W = record d { controller = record d.controller { state = stopped } } in
      ground (
        arith,
        audit_total ports reliable.attentive service_shutdown info [] d' (refl, refl),
        audit-controller ports service_shutdown info [] d',
      )

  secure_and_finish-stopped :
      (d : Door W)
      → ((secure_and_finish ports true d).0 ≡ ok tt)
        × ((secure_and_finish ports true d).1.controller.state ≡ stopped)
  unfolding secure_and_finish update
  secure_and_finish-stopped d = grind (arith, attempt_cleanup_total, finish_shutdown-stopped)

  shutdown-stopped :
      (d : Door W)
      → IsOpen d.controller
      → ((shutdown ports d).0 ≡ ok tt) × ((shutdown ports d).1.controller.state ≡ stopped)
  unfolding shutdown shutdown_from shutdown_running enter update
  shutdown-stopped d h = grind (arith, attempt_safe_state_done, secure_and_finish-stopped)

  after_calls-IsOpen :
      (calls : List Call) (d : Door W)
      → All (λ call. is_serving call ≡ true) calls
      → IsOpen d.controller
      → IsOpen (after_calls ports calls d).controller
  unfolding after_calls after_call
  after_calls-IsOpen [] d serving h = h
  after_calls-IsOpen (start_call ∷ calls) d (_, serving) h =
      after_calls-IsOpen calls (start ports d).1 serving (start_again-IsOpen d h)
  after_calls-IsOpen (tick_call ∷ calls) d (_, serving) h =
      after_calls-IsOpen calls (tick ports d).1 serving (tick-IsOpen d h)
  after_calls-IsOpen (process_call r ∷ calls) d (_, serving) h =
      after_calls-IsOpen calls (process ports r d).1 serving (process-IsOpen r d h)
  after_calls-IsOpen (failure_call ∷ calls) d (other, serving) h = absurd (cc)
  after_calls-IsOpen (shutdown_call ∷ calls) d (other, serving) h = absurd (cc)

-- Over attentive ports whose relay raises in no operation: a new controller that is started, and then
-- gets any records, ticks and further starts, is ready or released, so that it answers the next record
-- whatever it is; and a shutdown then returns and leaves it stopped.
pub controller-serves :
    {W : Type 0} (ports : Ports W) (calls : List Call) (w : W) (escalation : EscalationTracker)
    (release_seconds gpio_channel : ℕ) {c : AccessController} (r : RecordResult)
    → IsReliable ports
    → new_controller escalation release_seconds gpio_channel ≡ ok c
    → All (λ call. is_serving call ≡ true) calls
    → let d = after_calls ports (start_call ∷ calls) (record { controller = c; world = w }) in
      IsOpen d.controller
      × (is_ok (process ports r d).0 ≡ true)
      × ((shutdown ports d).0 ≡ ok tt)
      × ((shutdown ports d).1.controller.state ≡ stopped)
unfolding new_controller after_calls after_call
controller-serves ports calls w escalation release_seconds gpio_channel {c} r reliable made
      serving =
    let new : Door _ = record { controller = c; world = w } in
    let d = after_calls ports calls (start ports new).1 in
    let open_ =
      after_calls-IsOpen ports reliable calls (start ports new).1 serving
        (start-IsOpen ports reliable new (ground (arith, made))) in
    let (done, state) = shutdown-stopped ports reliable d open_ in
    let (when_ready, when_released, _) = process-returns ports reliable.attentive r d in
    (open_, elim open_ [ inl a ↦ when_ready a | inr a ↦ when_released a ], done, state)
