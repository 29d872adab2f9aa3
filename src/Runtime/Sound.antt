-- ===== src/Runtime/Sound.antt =====
-- Any calls of the methods of `BridgewireRuntime` of bridgewire/application/runtime.py, in a row.
use frontdoor.Prelude.{ℕ, ◌≡◌, List, [], ◌∷◌, ok, Bool-cases, inl, inr, sym, subst, Result}
use frontdoor.Escalation.{EscalationTracker}
use frontdoor.Controller.State.{Ports, new_controller}
use frontdoor.Controller.Operations.Soundness.{
  IsSound, new_controller-IsSound, process-IsSound, start-IsSound, tick-IsSound,
  recoverable_failure-IsSound, shutdown-IsSound,
}
use frontdoor.Reader.Supervisor.State.{ReaderEvent}
use frontdoor.Runtime.{Devices, Runtime}
use frontdoor.Runtime.Loop.{start_runtime, run_once, handle_failure}
use frontdoor.Runtime.Waiting.{cooperative_wait}
use frontdoor.Runtime.Events.{record_reader_event}
use frontdoor.Runtime.Shutdown.{shutdown_runtime}
use frontdoor.Runtime.Cleanup.{shutdown_runtime-controller, shutdown_twice, door_of}
use frontdoor.Runtime.Calls.{
  Kept, start_runtime_keeps, run_once_keeps, cooperative_wait_keeps, record_reader_event_keeps,
  handle_failure_keeps,
}

-- A call of a method.
pub data RuntimeCall : Type 0 where
  start_call round_call failure_call shutdown_call : RuntimeCall
  wait_call : ℕ → RuntimeCall
  event_call : ReaderEvent → RuntimeCall

module _ {W Session : Type 0} (devices : Devices W Session) where
  -- The runtime after a call, whether it returned or raised.
  unfoldable pub after_runtime_call : RuntimeCall → Runtime W Session → Runtime W Session
  after_runtime_call start_call rt = record rt { reading = (start_runtime devices rt.reading).1 }
  after_runtime_call round_call rt = record rt { reading = (run_once devices rt.reading).1 }
  after_runtime_call failure_call rt = record rt { reading = (handle_failure devices rt.reading).1 }
  after_runtime_call shutdown_call rt = (shutdown_runtime devices rt).1
  after_runtime_call (wait_call n) rt = record rt {
    reading = (cooperative_wait devices n rt.reading).1;
  }
  after_runtime_call (event_call e) rt = record rt {
    reading = record rt.reading {
      world = (record_reader_event devices rt.reading.reader e rt.reading.world).1;
    };
  }

  unfoldable pub after_runtime_calls : List RuntimeCall → Runtime W Session → Runtime W Session
  after_runtime_calls [] rt = rt
  after_runtime_calls (call ∷ calls) rt = after_runtime_calls calls (after_runtime_call call rt)

pub Kept-IsSound : {W : Type 0} (ports : Ports W) → Kept IsSound ports
Kept-IsSound ports = record {
  starts = start-IsSound ports;
  ticks = tick-IsSound ports;
  fails = recoverable_failure-IsSound ports;
  ends = shutdown-IsSound ports;
  processes = process-IsSound ports;
}

module _ {W Session : Type 0} (devices : Devices W Session) where
  shutdown_runtime-IsSound :
      (rt : Runtime W Session)
      → IsSound rt.reading.world.controller
      → IsSound (shutdown_runtime devices rt).1.reading.world.controller
  shutdown_runtime-IsSound rt h = elim (Bool-cases rt.shutdown_complete) [
    | inl done ↦
        subst (λ (end : Result Unit × Runtime W Session). IsSound end.1.reading.world.controller)
          (sym (shutdown_twice devices rt done)) h
    | inr fresh ↦
        subst IsSound (sym (shutdown_runtime-controller devices rt fresh).0)
          (shutdown-IsSound devices.ports (door_of rt.reading) h)
  ]

  after_runtime_call-IsSound :
      (call : RuntimeCall) (rt : Runtime W Session)
      → IsSound rt.reading.world.controller
      → IsSound (after_runtime_call devices call rt).reading.world.controller
  unfolding after_runtime_call
  after_runtime_call-IsSound start_call rt h =
      start_runtime_keeps devices IsSound (Kept-IsSound devices.ports) rt.reading h
  after_runtime_call-IsSound round_call rt h =
      run_once_keeps devices IsSound (Kept-IsSound devices.ports) rt.reading h
  after_runtime_call-IsSound failure_call rt h =
      handle_failure_keeps devices IsSound (Kept-IsSound devices.ports) rt.reading h
  after_runtime_call-IsSound shutdown_call rt h = shutdown_runtime-IsSound rt h
  after_runtime_call-IsSound (wait_call n) rt h =
      cooperative_wait_keeps devices IsSound (Kept-IsSound devices.ports) n rt.reading h
  after_runtime_call-IsSound (event_call e) rt h =
      subst IsSound
        (sym (
          record_reader_event_keeps devices IsSound (Kept-IsSound devices.ports) rt.reading.reader e
            rt.reading.world))
        h

  after_runtime_calls-IsSound :
      (calls : List RuntimeCall) (rt : Runtime W Session)
      → IsSound rt.reading.world.controller
      → IsSound (after_runtime_calls devices calls rt).reading.world.controller
  unfolding after_runtime_calls
  after_runtime_calls-IsSound [] rt h = h
  after_runtime_calls-IsSound (call ∷ calls) rt h =
      after_runtime_calls-IsSound calls (after_runtime_call devices call rt)
        (after_runtime_call-IsSound call rt h)

pub runtime_calls-IsSound :
    {W Session : Type 0} (devices : Devices W Session) (calls : List RuntimeCall)
    (rt : Runtime W Session) (escalation : EscalationTracker) (release_seconds gpio_channel : ℕ)
    → new_controller escalation release_seconds gpio_channel ≡ ok rt.reading.world.controller
    → IsSound (after_runtime_calls devices calls rt).reading.world.controller
runtime_calls-IsSound devices calls rt escalation release_seconds gpio_channel made =
    after_runtime_calls-IsSound devices calls rt
      (new_controller-IsSound escalation release_seconds gpio_channel made)
