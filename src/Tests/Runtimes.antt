-- ===== src/Tests/Runtimes.antt =====
-- A runtime of a door with a reader that is silent.
use frontdoor.Prelude.{ℕ, ◌+◌, ◌≡◌, refl, true, false, none, some, [], ◌∷◌, ok, pure, arith}
use frontdoor.Reader.Supervisor.State.{ReaderEvent, reader_not_found, ReaderHealthState, ready}
use frontdoor.Escalation.{new_tracker}
use frontdoor.Controller.State.{new_controller, initializing}
use frontdoor.Controller.Operations.{shutdown}
use frontdoor.Runtime.{Devices, Runtime, new_runtime}
use frontdoor.Runtime.Waiting.{event_wait}
use frontdoor.Runtime.Shutdown.{shutdown_runtime}
use frontdoor.Runtime.Waiter.{IsDone, event_wait-IsDone}
use frontdoor.Runtime.Cleanup.{shutdown_runtime-controller, door_of}
use frontdoor.Runtime.Tended.{IsTended, runtime_calls-IsTended}
use frontdoor.Runtime.Sound.{
  start_call, round_call, wait_call, event_call, failure_call, shutdown_call, after_runtime_calls,
}
use frontdoor.Tests.Doors.{demo_ports, demo_controller, three_in_a_minute}
use frontdoor.Tests.Supervisors.{demo_supervisor}

abbrev demo_devices : Devices ℕ ℕ
demo_devices = record {
  ports = demo_ports;
  report = λ status details w. (ok tt, w);
  is_set = λ w. (false, w);
  wait_for = λ seconds w. (false, w + seconds);
  set_stop = λ w. w;
  interval = 50;
  enumerate_devices = λ w. (ok [], w);
  open_reader = λ path w. (ok 1, w);
  usable = λ session. true;
  read = λ session w. (ok [], w);
  close = λ session w. (ok tt, w);
  random_unit = λ w. (ok 500, w);
}

abbrev demo_runtime : Runtime ℕ ℕ
demo_runtime = new_runtime (demo_supervisor (some 1) ready 0) 16 (record {
  controller = demo_controller initializing none;
  store = some (record { snapshot = none });
  world = 0;
})

abbrev not_found_event : ReaderEvent
not_found_event = record {
  event_type = reader_not_found;
  attempt = 1;
  backoff_seconds = none;
  unrelated_count = 0;
}

event_wait-IsDone_example :
    IsDone
      (λ n w. (false, w + n))
      (pure tt)
      (λ w. w)
      (3 + 5)
      (event_wait (λ w. (w, w)) (λ n w. (false, w + n)) 2 (pure tt) 5 3)
event_wait-IsDone_example =
    event_wait-IsDone (λ w. (w, w)) (λ n w. (false, w + n)) 2 (pure tt) (λ w. w) 5 3
      (record {
        reads = λ w. (refl, omega arith);
        ticks = λ w. omega arith;
        waits = λ n w on. omega arith;
      })
      (omega arith)

shutdown_runtime-controller_example :
    let (result, rt') = shutdown_runtime demo_devices demo_runtime in
    (rt'.reading.world.controller
      ≡ (shutdown demo_ports (door_of demo_runtime.reading)).1.controller)
    × (result ≡ ok tt → rt'.shutdown_complete ≡ true)
    × (rt'.shutdown_complete ≡ true
        → (rt'.reading.reader.session ≡ none)
          × (rt'.reading.reader.health_state ≡ ReaderHealthState.stopped)
          × (shutdown_runtime demo_devices rt' ≡ (ok tt, rt')))
shutdown_runtime-controller_example = shutdown_runtime-controller demo_devices demo_runtime refl

runtime_calls-IsTended_example :
    IsTended demo_devices
      (after_runtime_calls demo_devices
        (start_call
          ∷ round_call
          ∷ wait_call 100
          ∷ event_call not_found_event
          ∷ failure_call
          ∷ shutdown_call
          ∷ [])
        demo_runtime).reading
unfolding new_controller
runtime_calls-IsTended_example =
    runtime_calls-IsTended demo_devices
      (start_call
        ∷ round_call
        ∷ wait_call 100
        ∷ event_call not_found_event
        ∷ failure_call
        ∷ shutdown_call
        ∷ [])
      demo_runtime (new_tracker three_in_a_minute) 5 23 refl
