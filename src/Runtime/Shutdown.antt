-- ===== src/Runtime/Shutdown.antt =====
-- The shutdown of bridgewire/application/runtime.py.
use frontdoor.Prelude.{ℕ, zero, suc, true, [], exception_group, ok, err, Exec, ◌>>=◌, if◌then◌else◌}
use frontdoor.Controller.Operations.{shutdown}
use frontdoor.Reader.Supervisor.State.{Reading}
use frontdoor.Reader.Supervisor.Effects.{on_world}
use frontdoor.Reader.Supervisor.Read.{close}
use frontdoor.Runtime.{Devices, Hub, Runtime, on_base, on_door}
use frontdoor.Runtime.Waiting.{publish_snapshot}
use frontdoor.Runtime.Events.{host}

module _ {W Session : Type 0} (devices : Devices W Session) where
  -- One round of the loop over the cleanups: an exception is a failure, and the next one is tried.
  abbrev pub attempt : Exec (Reading (Hub W) Session) Unit → ℕ → Exec (Reading (Hub W) Session) ℕ
  attempt cleanup failures r =
      let (result, r') = cleanup r in
      elim result [ ok _ ↦ (ok failures, r') | err e ↦ (ok (suc failures), r') ]

  -- The end of `shutdown`, by the number of failures.
  unfoldable pub complete_shutdown : ℕ → Exec (Runtime W Session) Unit
  unfolding publish_snapshot
  complete_shutdown zero rt =
      let (published, r) = publish_snapshot devices rt.reading in
      (published, record { reading = r; shutdown_complete = true })
  complete_shutdown (suc failures) rt =
      let (published, r) = publish_snapshot devices rt.reading in
      (elim published [ ok _ ↦ err exception_group | err e ↦ err e ], record rt { reading = r })

  -- The three cleanups in their order.
  unfoldable pub clean_up : Exec (Reading (Hub W) Session) ℕ
  unfolding on_world host
  clean_up = do
    after_access ← attempt (on_world (on_door (shutdown devices.ports))) 0
    after_reader ← attempt (λ r. close (host devices r.stream) r) after_access
    attempt (on_world (on_base (devices.report "stopped" []))) after_reader

  -- `BridgewireRuntime.shutdown`
  unfoldable pub shutdown_runtime : Exec (Runtime W Session) Unit
  unfolding clean_up complete_shutdown
  shutdown_runtime rt =
      if rt.shutdown_complete
      then (ok tt, rt)
      else (let (failures, r) = clean_up rt.reading in
          elim failures [
            | err e ↦ (err e, record rt { reading = r })
            | ok n ↦ complete_shutdown n (record rt { reading = r })
          ])
