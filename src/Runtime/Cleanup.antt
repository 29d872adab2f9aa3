-- ===== src/Runtime/Cleanup.antt =====
-- What a shutdown of `BridgewireRuntime` of bridgewire/application/runtime.py reaches.
use frontdoor.Prelude.{ℕ, zero, suc, ◌≡◌, true, false, none, ok, arith}
use frontdoor.Controller.State.{Door}
use frontdoor.Controller.Operations.{shutdown}
use frontdoor.Reader.Supervisor.State.{ReaderHealthState, Reading}
use frontdoor.Reader.Supervisor.Read.{close, disconnect, snapshot as reader_snapshot}
use frontdoor.Reader.Supervisor.Effects.{on_world, update}
use frontdoor.Controller.State.{snapshot}
use frontdoor.Runtime.{Devices, Hub, Runtime}
use frontdoor.Runtime.Events.{host}
use frontdoor.Runtime.Waiting.{publish_snapshot}
use frontdoor.Runtime.Shutdown.{clean_up, complete_shutdown, shutdown_runtime}

-- The door of a runtime.
abbrev pub door_of : {W Session : Type 0} → Reading (Hub W) Session → Door W
door_of r = record { controller = r.world.controller; world = r.world.world }

module _ {W Session : Type 0} (devices : Devices W Session) where
  pub publish_snapshot-controller :
      (r : Reading (Hub W) Session)
      → let r' = (publish_snapshot devices r).1 in
        (r'.world.controller ≡ r.world.controller) × (r'.reader ≡ r.reader)
  unfolding publish_snapshot snapshot reader_snapshot
  publish_snapshot-controller r = ground arith

  -- Closing the reader leaves the controller alone; when it returns, no session is open.
  close-controller :
      (r : Reading (Hub W) Session)
      → let (closed, r') = close (host devices r.stream) r in
        (r'.world.controller ≡ r.world.controller)
        × (closed ≡ ok tt
            → (r'.reader.session ≡ none) × (r'.reader.health_state ≡ ReaderHealthState.stopped))
  unfolding close disconnect update host
  close-controller r = ground arith

  clean_up-controller :
      (r : Reading (Hub W) Session)
      → let (failures, r') = clean_up devices r in
        (r'.world.controller ≡ (shutdown devices.ports (door_of r)).1.controller)
        × (failures ≡ ok 0
            → (r'.reader.session ≡ none) × (r'.reader.health_state ≡ ReaderHealthState.stopped))
  unfolding clean_up on_world
  clean_up-controller r = grind (arith, close-controller)

  complete_shutdown-reading :
      (failures : ℕ) (rt : Runtime W Session)
      → let (result, rt') = complete_shutdown devices failures rt in
        (rt'.reading.world.controller ≡ rt.reading.world.controller)
        × (rt'.reading.reader ≡ rt.reading.reader)
        × (rt.shutdown_complete ≡ false → rt'.shutdown_complete ≡ true → failures ≡ 0)
        × (result ≡ ok tt → rt'.shutdown_complete ≡ true)
  unfolding complete_shutdown
  complete_shutdown-reading zero rt = ground (arith, publish_snapshot-controller rt.reading)
  complete_shutdown-reading (suc failures) rt =
      ground (arith, publish_snapshot-controller rt.reading)

  pub shutdown_twice :
      (rt : Runtime W Session)
      → rt.shutdown_complete ≡ true
      → shutdown_runtime devices rt ≡ (ok tt, rt)
  unfolding shutdown_runtime
  shutdown_twice rt done = ground (arith, done)

  shutdown_parts :
      (rt : Runtime W Session)
      → rt.shutdown_complete ≡ false
      → let (result, rt') = shutdown_runtime devices rt in
        (rt'.reading.world.controller ≡ (shutdown devices.ports (door_of rt.reading)).1.controller)
        × (rt'.shutdown_complete ≡ true
            → (rt'.reading.reader.session ≡ none)
              × (rt'.reading.reader.health_state ≡ ReaderHealthState.stopped))
        × (result ≡ ok tt → rt'.shutdown_complete ≡ true)
  unfolding shutdown_runtime
  shutdown_parts rt fresh = grind (arith, clean_up-controller rt.reading, complete_shutdown-reading)

-- A shutdown of the runtime does to the controller what the controller's own shutdown does, whatever
-- fails in the reader, the health reporter or the publication afterwards. If it returns, it is
-- complete; and once it is complete no session is open, the reader is stopped, and a further
-- shutdown returns and changes nothing.
pub shutdown_runtime-controller :
    {W Session : Type 0} (devices : Devices W Session) (rt : Runtime W Session)
    → rt.shutdown_complete ≡ false
    → let (result, rt') = shutdown_runtime devices rt in
      (rt'.reading.world.controller ≡ (shutdown devices.ports (door_of rt.reading)).1.controller)
      × (result ≡ ok tt → rt'.shutdown_complete ≡ true)
      × (rt'.shutdown_complete ≡ true
          → (rt'.reading.reader.session ≡ none)
            × (rt'.reading.reader.health_state ≡ ReaderHealthState.stopped)
            × (shutdown_runtime devices rt' ≡ (ok tt, rt')))
shutdown_runtime-controller devices rt fresh =
    let (secured, cleaned, returned) = shutdown_parts devices rt fresh in
    (secured, returned, λ done. ((cleaned done).0, (cleaned done).1, shutdown_twice devices _ done))
