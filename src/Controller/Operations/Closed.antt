-- ===== src/Controller/Operations/Closed.antt =====
-- How a shutdown of the controller of bridgewire/controller.py leaves its state.
use frontdoor.Prelude.{◌≡◌, ◌⊎◌, true, false, Bool, arith}
use frontdoor.Controller.State.{Ports, Door, AccessController, faulted, shutting_down, stopped}
use frontdoor.Controller.Effects.Frames.{audit-controller, attempt_safe_state-controller}
use frontdoor.Controller.Operations.{
  shutdown, shutdown_from, shutdown_running, secure_and_finish, finish_shutdown,
}
use frontdoor.Controller.Operations.Soundness.{attempt_cleanup-controller}

-- Neither ready nor released.
abbrev pub IsClosed : AccessController → Type 0
IsClosed c = (c.state ≡ stopped) ⊎ (c.state ≡ faulted) ⊎ (c.state ≡ shutting_down)

module _ {W : Type 0} (ports : Ports W) where
  finish_shutdown-IsClosed :
      (secured : Bool) (d : Door W) → IsClosed (finish_shutdown ports secured d).1.controller
  unfolding finish_shutdown
  finish_shutdown-IsClosed true d = grind (arith, audit-controller)
  finish_shutdown-IsClosed false d = ground arith

  secure_and_finish-IsClosed :
      (safe : Bool) (d : Door W)
      → d.controller.state ≡ shutting_down
      → IsClosed (secure_and_finish ports safe d).1.controller
  unfolding secure_and_finish
  secure_and_finish-IsClosed safe d s =
      grind (arith, attempt_cleanup-controller, finish_shutdown-IsClosed)

  pub shutdown-IsClosed : (d : Door W) → IsClosed (shutdown ports d).1.controller
  unfolding shutdown shutdown_from shutdown_running
  shutdown-IsClosed d = grind (arith, attempt_safe_state-controller, secure_and_finish-IsClosed)
