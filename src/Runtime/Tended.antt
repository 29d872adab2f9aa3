-- ===== src/Runtime/Tended.antt =====
-- What bridgewire/application/runtime.py does with a release that is due and with a failure.
use frontdoor.Prelude.{
  ℕ, ◌≤◌, ◌≡◌, ◌⊎◌, inl, inr, List, none, some, ok, false, arith, Result-cases, Option-cases, sym,
  subst, ap, ◌∙◌,
}
use frontdoor.Escalation.{EscalationTracker}
use frontdoor.Controller.State.{Door, AccessController, ready, released, faulted, new_controller}
use frontdoor.Controller.Effects.Frames.{audit-controller}
use frontdoor.Controller.Operations.{tick, recoverable_failure}
use frontdoor.Controller.Operations.Release.{tick_at_deadline}
use frontdoor.Controller.Operations.Soundness.{IsSound}
use frontdoor.Reader.Supervisor.State.{Reading}
use frontdoor.Reader.Supervisor.Effects.{on_world}
use frontdoor.Runtime.{Devices, Hub, Runtime, on_door}
use frontdoor.Runtime.Loop.{handle_failure}
use frontdoor.Runtime.Waiting.{tick_and_publish}
use frontdoor.Runtime.Cleanup.{publish_snapshot-controller, door_of}
use frontdoor.Runtime.Sound.{RuntimeCall, after_runtime_calls, runtime_calls-IsSound}

-- Over any state of its world: a failure whose handling returns leaves the controller faulted and
-- without a deadline, and a released controller has a deadline from which on a tick of the runtime ends the
-- release.
pub record IsTended {W Session : Type 0} (devices : Devices W Session) (r : Reading (Hub W) Session)
    : Type 0 where
  pub sound : IsSound r.world.controller
  pub fails :
      (handle_failure devices r).0 ≡ ok tt
      → ((handle_failure devices r).1.world.controller.state ≡ faulted)
        × ((handle_failure devices r).1.world.controller.release_deadline ≡ none)
  pub ends :
      r.world.controller.state ≡ released
      → (deadline : ℕ) × (r.world.controller.release_deadline ≡ some deadline)
        × (deadline ≤ (devices.ports.monotonic r.world.world).0
            → let c = (tick_and_publish devices r).1.world.controller in
              (c.state ≡ ready) ⊎ (c.state ≡ faulted))

module _ {W Session : Type 0} (devices : Devices W Session) where
  recoverable_failure-faulted :
      (d : Door W)
      → (recoverable_failure devices.ports d).0 ≡ ok tt
      → ((recoverable_failure devices.ports d).1.controller.state ≡ faulted)
        × ((recoverable_failure devices.ports d).1.controller.release_deadline ≡ none)
  unfolding recoverable_failure
  recoverable_failure-faulted d returned = grind (arith, audit-controller)

  handle_failure-controller :
      (r : Reading (Hub W) Session)
      → (handle_failure devices r).1.world.controller
        ≡ (recoverable_failure devices.ports (door_of r)).1.controller
  unfolding handle_failure on_world
  handle_failure-controller r =
      let r' : Reading (Hub W) Session =
        (on_world (on_door (recoverable_failure devices.ports)) r).1 in
      elim (Result-cases (recoverable_failure devices.ports (door_of r)).0) [
        | inl (_, made) ↦ ground (arith, made, publish_snapshot-controller devices r')
        | inr (e, failed) ↦ ground (arith, failed)
      ]

  handle_failure-returned :
      (r : Reading (Hub W) Session)
      → (handle_failure devices r).0 ≡ ok tt
      → (recoverable_failure devices.ports (door_of r)).0 ≡ ok tt
  unfolding handle_failure on_world
  handle_failure-returned r returned =
      elim (Result-cases (recoverable_failure devices.ports (door_of r)).0) [
        | inl (_, made) ↦ made
        | inr (e, failed) ↦ absurd (ground (arith, failed, returned))
      ]

  tick_and_publish-controller :
      (r : Reading (Hub W) Session)
      → (tick_and_publish devices r).1.world.controller
        ≡ (tick devices.ports (door_of r)).1.controller
  unfolding tick_and_publish on_world
  tick_and_publish-controller r =
      let r' : Reading (Hub W) Session = (on_world (on_door (tick devices.ports)) r).1 in
      elim (Result-cases (tick devices.ports (door_of r)).0) [
        | inl (_, made) ↦ ground (arith, made, publish_snapshot-controller devices r')
        | inr (e, failed) ↦ ground (arith, failed)
      ]

  tick-ends :
      (d : Door W) (deadline : ℕ)
      → d.controller.state ≡ released
      → d.controller.release_deadline ≡ some deadline
      → deadline ≤ (devices.ports.monotonic d.world).0
      → let c = (tick devices.ports d).1.controller in (c.state ≡ ready) ⊎ (c.state ≡ faulted)
  tick-ends d deadline s due late =
      let (_, takes, fails) = tick_at_deadline devices.ports d s due in
      let w = (devices.ports.monotonic d.world).1 in
      elim (Result-cases (devices.ports.command false w).0) [
        | inl (_, took) ↦ inl (ap (λ (c : AccessController). c.state) (takes late took))
        | inr (e, failed) ↦ inr (ap (λ (c : AccessController). c.state) (fails e late failed))
      ]

  sound-IsTended : (r : Reading (Hub W) Session) → IsSound r.world.controller → IsTended devices r
  sound-IsTended r h = record {
    sound = h;
    fails = λ returned.
        let same = handle_failure-controller r in
        let (state, deadline) =
          recoverable_failure-faulted (door_of r) (handle_failure-returned r returned) in
        (
          ap (λ (c : AccessController). c.state) same ∙ state,
          ap (λ (c : AccessController). c.release_deadline) same ∙ deadline,
        );
    ends = λ s. elim (Option-cases r.world.controller.release_deadline) [
      | inl missing ↦ absurd (ground (arith, missing, h.released_deadline s))
      | inr (deadline, due) ↦ (
        deadline,
        due,
        λ late.
            subst (λ (c : AccessController). (c.state ≡ ready) ⊎ (c.state ≡ faulted))
              (sym (tick_and_publish-controller r)) (tick-ends (door_of r) deadline s due late),
      )
    ];
  }

-- After any calls on a runtime around a new controller, rounds of the loop and waits with their
-- ticks included, whatever the devices, the reader and the files do: a released door has a deadline
-- and its last accepted command was HIGH, and a door that is ready or stopped has no deadline and its
-- last accepted command was LOW. If the runtime's handling of a failure then returns, the controller is
-- faulted without a deadline, and a tick of the runtime whose clock has reached the deadline of a release
-- leaves the controller ready or faulted, whatever raises after it.
pub runtime_calls-IsTended :
    {W Session : Type 0} (devices : Devices W Session) (calls : List RuntimeCall)
    (rt : Runtime W Session) (escalation : EscalationTracker) (release_seconds gpio_channel : ℕ)
    → new_controller escalation release_seconds gpio_channel ≡ ok rt.reading.world.controller
    → IsTended devices (after_runtime_calls devices calls rt).reading
runtime_calls-IsTended devices calls rt escalation release_seconds gpio_channel made =
    sound-IsTended devices (after_runtime_calls devices calls rt).reading
      (runtime_calls-IsSound devices calls rt escalation release_seconds gpio_channel made)
