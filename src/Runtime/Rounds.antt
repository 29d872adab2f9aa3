-- ===== src/Runtime/Rounds.antt =====
-- The controller of bridgewire/controller.py under `BridgewireRuntime.run`.
use frontdoor.Prelude.{
  ℕ, zero, suc, Bool, true, false, some, Exec, pure, ◌>>=◌, ◌>>◌, if◌then◌else◌,
}
use frontdoor.Controller.State.{AccessController}
use frontdoor.Reader.Supervisor.State.{Reading}
use frontdoor.Reader.Supervisor.Effects.{on_world}
use frontdoor.Runtime.{Devices, Hub, read_base}
use frontdoor.Runtime.Loop.{run_once, run}
use frontdoor.Runtime.Calls.{Kept, bind_keeps, run_once_keeps}

-- What holds after both branches holds after the conditional.
pub either_keeps :
    {S A : Type 0} (P : S → Type 0) (test : Bool) (m k : Exec S A) (s : S)
    → P (m s).1
    → P (k s).1
    → P ((if test then m else k) s).1
either_keeps P true m k s h g = h
either_keeps P false m k s h g = g

module _ {W Session : Type 0} (devices : Devices W Session) (P : AccessController → Type 0)
    (kept : Kept P devices.ports) (on_ready on_iteration : Exec (Reading (Hub W) Session) Unit)
    (readies : (r : Reading (Hub W) Session)
      → P r.world.controller
      → P (on_ready r).1.world.controller)
    (iterates : (r : Reading (Hub W) Session)
      → P r.world.controller
      → P (on_iteration r).1.world.controller) where
  abbrev Holds : Reading (Hub W) Session → Type 0
  Holds r = P r.world.controller

  pub run_keeps :
      (rounds : ℕ) (r : Reading (Hub W) Session)
      → P r.world.controller
      → P (run devices rounds on_ready on_iteration r).1.world.controller
  unfolding run on_world
  run_keeps zero r h = h
  run_keeps (suc rounds) r h =
      let (requested, r1) = on_world {Session = Session} (read_base devices.is_set) r in
      let rest = run devices rounds on_ready on_iteration in
      let after =
        λ (connected : Bool). (if connected then on_ready else pure tt) >> (on_iteration >> rest) in
      let answer = (devices.is_set r.world.world).0 in
      either_keeps Holds answer (pure (some tt)) (run_once devices >>= after) r1 h (
        bind_keeps Holds (run_once devices) after r1 (run_once_keeps devices P kept r1 h)
          (λ connected r2 h2.
            bind_keeps Holds (if connected then on_ready else pure tt) (λ _. on_iteration >> rest)
              r2 (either_keeps Holds connected on_ready (pure tt) r2 (readies r2 h2) h2)
              (λ _ r3 h3.
                bind_keeps Holds on_iteration (λ _. rest) r3 (iterates r3 h3)
                  (λ _ r4 h4. run_keeps rounds r4 h4))))
