-- ===== src/Runtime/Loop.antt =====
-- The start, the rounds and the failures of the loop of bridgewire/application/runtime.py.
use frontdoor.Prelude.{
  ℕ, zero, suc, Bool, true, false, Option, none, some, List, [], ◌∷◌, ok, Exec, pure, gets, ◌>>=◌,
  ◌>>◌, is_none, if◌then◌else◌,
}
use frontdoor.Controller.Operations.{start, tick, recoverable_failure}
use frontdoor.Access.{submit_record, physical_reader}
use frontdoor.Reader.Record.{RecordResult}
use frontdoor.Reader.Supervisor.State.{Reading}
use frontdoor.Reader.Supervisor.Effects.{on_world}
use frontdoor.Reader.Supervisor.Connect.{connect_until_ready}
use frontdoor.Reader.Supervisor.Read.{read_records_once}
use frontdoor.Runtime.{Devices, Hub, on_base, read_base, on_door, finally}
use frontdoor.Runtime.Waiting.{publish_snapshot}
use frontdoor.Runtime.Events.{host}

module _ {W Session : Type 0} (devices : Devices W Session) where
  -- `BridgewireRuntime.start`
  unfoldable pub start_runtime : Exec (Reading (Hub W) Session) Unit
  unfolding on_world publish_snapshot
  start_runtime = do
    on_world (on_door (start devices.ports))
    on_world (on_base (devices.report "degraded" (("reason", "reader_connecting") ∷ [])))
    publish_snapshot devices

  -- The loop over the records of one read.
  unfoldable pub submit_all : List RecordResult → Exec (Reading (Hub W) Session) Unit
  unfolding on_world
  submit_all [] = pure tt
  submit_all (r ∷ rest) = do
    on_world (on_door (submit_record devices.ports r physical_reader))
    submit_all rest

  -- The body of the `try` of `run_once`.
  unfoldable pub connect_round : Exec (Reading (Hub W) Session) Bool
  unfolding on_world host
  connect_round r =
      (do
        ready ← connect_until_ready (host devices r.stream) 1
        if ready
            then (do
              on_world (on_base (devices.report "ready" (("reader", "connected") ∷ [])))
              pure true)
            else pure false)
        r

  unfoldable pub read_round : Exec (Reading (Hub W) Session) Bool
  unfolding on_world host submit_all
  read_round r =
      (do
        records ← read_records_once (host devices r.stream)
        submit_all records
        on_world (on_door (tick devices.ports))
        pure false)
        r

  unfoldable pub round_of : Bool → Exec (Reading (Hub W) Session) Bool
  unfolding connect_round read_round
  round_of disconnected = if disconnected then connect_round else read_round

  -- `BridgewireRuntime.run_once`
  unfoldable pub run_once : Exec (Reading (Hub W) Session) Bool
  unfolding on_world round_of publish_snapshot
  run_once = do
    on_world (on_door (tick devices.ports))
    disconnected ← gets (λ r. is_none r.reader.session)
    finally (round_of disconnected) (publish_snapshot devices)

  -- `BridgewireRuntime.run`, for as many rounds as the first argument at most; the callbacks leave the
  -- runtime alone, and `none` is an end of the rounds.
  unfoldable pub run :
      ℕ
      → Exec (Reading (Hub W) Session) Unit
      → Exec (Reading (Hub W) Session) Unit
      → Exec (Reading (Hub W) Session) (Option Unit)
  unfolding run_once on_world
  run zero on_ready on_iteration = pure none
  run (suc rounds) on_ready on_iteration = do
    requested ← on_world (read_base devices.is_set)
    if requested then pure (some tt) else (do
      connected ← run_once
      (if connected then on_ready else pure tt)
      on_iteration
      run rounds on_ready on_iteration)

  -- `request_shutdown` and `report_fault`
  unfoldable pub request_shutdown : Exec (Hub W) Unit
  request_shutdown h = (ok tt, record h { world = devices.set_stop h.world })

  unfoldable pub report_fault : Exec (Hub W) Unit
  report_fault = on_base (devices.report "faulted" [])

  -- `BridgewireRuntime.handle_failure`
  unfoldable pub handle_failure : Exec (Reading (Hub W) Session) Unit
  unfolding on_world publish_snapshot
  handle_failure = do
    on_world (on_door (recoverable_failure devices.ports))
    publish_snapshot devices
