-- ===== src/Controller/Operations/Line/Stopping.antt =====
-- `start`, `tick`, the recoverable failure and `shutdown` of bridgewire/controller.py, and the level of the
-- relay's line.
use frontdoor.Prelude.{
  ℕ, String, ◌≡◌, Bool, true, false, Option, none, some, [], Exception, Exec, pure, try_else, arith,
  refl, ◌>>◌, leb, Bool-cases, ◌&&◌, raise, inl, inr, Result-cases,
}
use frontdoor.Audit.{
  relay_control_error, critical, error, info, service_started, service_shutdown, relay_restored,
}
use frontdoor.Controller.State.{
  ControllerState, initializing, ready, released, faulted, shutting_down, stopped, Ports, Door,
}
use frontdoor.Controller.Effects.{
  on_world, read_world, update, reason_of, audit, command, attempt_safe_state,
}
use frontdoor.Controller.Effects.Frames.{attempt_safe_state-controller}
use frontdoor.Controller.Operations.{
  enter, start, start_from, start_new, start_failed, start_secured, tick, tick_at, restored,
  restore_failed, recoverable_failure, shutdown_from, shutdown_running, secure_and_finish,
  attempt_cleanup, finish_shutdown,
}
use frontdoor.Controller.Operations.Line.{HasLine, Follows, KeepsFollows}
use frontdoor.Controller.Operations.Line.Effects.{
  bind-KeepsFollows, audit-Follows, attempt_safe_state-Follows, command-Follows, enter-Follows,
}

module _ {W : Type 0} (ports : Ports W) (level : W → Bool) (line : HasLine ports level) where
  try-KeepsFollows :
      {A B : Type 0} (m : Exec (Door W) A) (handler : Exception → Exec (Door W) B)
      (f : A → Exec (Door W) B) (d : Door W)
      → Follows level (m d).1
      → ((e : Exception) → KeepsFollows level (handler e))
      → ((a : A) → KeepsFollows level (f a))
      → Follows level (try_else m handler f d).1
  try-KeepsFollows m handler f d h k j = elim (Result-cases (m d).0) [
    | inl (a, made) ↦ ground (arith, made, j a (m d).1 h)
    | inr (e, failed) ↦ ground (arith, failed, k e (m d).1 h)
  ]

  start_failed-Follows :
      (reason : String) (e : Exception) → KeepsFollows level (start_failed ports reason e)
  unfolding start_failed
  start_failed-Follows reason e =
      let rest = audit ports relay_control_error critical (reason_of reason) >> raise e in
      (bind-KeepsFollows ports level line) (enter ports faulted) (λ _. rest)
        ((enter-Follows ports level line) faulted (λ same. absurd (cc)))
        (λ _.
          (bind-KeepsFollows ports level line)
            (audit ports relay_control_error critical (reason_of reason)) (λ _. raise e)
            ((audit-Follows ports level line) _ _ _) (λ _ d h. h))

  start_secured-Follows : KeepsFollows level (start_secured ports)
  unfolding start_secured
  start_secured-Follows =
      (bind-KeepsFollows ports level line) (enter ports ready)
        (λ _. audit ports service_started info [])
        ((enter-Follows ports level line) ready (λ same. absurd (cc)))
        (λ _. (audit-Follows ports level line) _ _ _)

  start_from-Follows :
      (s : ControllerState) (d : Door W)
      → d.controller.state ≡ s
      → Follows level d
      → Follows level (start_from ports s d).1
  unfolding start_from start_new on_world
  start_from-Follows initializing d new h =
      let setup = on_world (ports.setup "BCM" d.controller.gpio_channel) in
      let secure = λ (_ : Unit {0}).
        try_else (command ports false) (start_failed ports "low_failed")
          (λ _. start_secured ports) in
      try-KeepsFollows setup (start_failed ports "setup_failed") secure d
        (ground (arith, h, new, line.sets_up "BCM" d.controller.gpio_channel d.world))
        (start_failed-Follows "setup_failed")
        (λ _ d' h'.
          try-KeepsFollows (command ports false) (start_failed ports "low_failed")
            (λ _. start_secured ports) d' ((command-Follows ports level line) false d' h')
            (start_failed-Follows "low_failed") (λ _. start_secured-Follows))
  start_from-Follows _ d s h = h

  pub start-Follows : KeepsFollows level (start ports)
  unfolding start
  start-Follows d h = start_from-Follows d.controller.state d refl h

  restored-Follows : KeepsFollows level (restored ports)
  unfolding restored update
  restored-Follows d h =
      (audit-Follows ports level line) relay_restored info []
        (record d { controller = record d.controller { release_deadline = none; state = ready } })
        (ground (arith, h))

  restore_failed-Follows : (e : Exception) → KeepsFollows level (restore_failed ports e)
  unfolding restore_failed
  restore_failed-Follows e =
      (bind-KeepsFollows ports level line) (enter ports faulted)
        (λ _. audit ports relay_control_error critical (reason_of "low_failed"))
        ((enter-Follows ports level line) faulted (λ same. absurd (cc)))
        (λ _. (audit-Follows ports level line) _ _ _)

  tick_at-Follows :
      (s : ControllerState) (deadline : Option ℕ) → KeepsFollows level (tick_at ports s deadline)
  unfolding tick_at read_world
  tick_at-Follows released (some deadline) d h =
      let (now, w) = ports.monotonic d.world in
      let d' : Door W = record d { world = w } in
      let h' : Follows level d' = ground (arith, h, line.ticks d.world) in
      elim (Bool-cases (leb deadline now)) [
        | inl over ↦ rw over (
            try-KeepsFollows (command ports false) (restore_failed ports) (λ _. restored ports) d'
              ((command-Follows ports level line) false d' h') restore_failed-Follows
              (λ _. restored-Follows))
        | inr early ↦ rw early h'
      ]
  tick_at-Follows _ deadline d h = h

  pub tick-Follows : KeepsFollows level (tick ports)
  unfolding tick
  tick-Follows d h = tick_at-Follows d.controller.state d.controller.release_deadline d h

  pub recoverable_failure-Follows : KeepsFollows level (recoverable_failure ports)
  unfolding recoverable_failure update
  recoverable_failure-Follows =
      let fault : Exec (Door W) Unit =
        update (λ c. record c { release_deadline = none; state = faulted }) in
      (bind-KeepsFollows ports level line) (attempt_safe_state ports)
        (λ _. fault >> audit ports relay_control_error error [])
        (attempt_safe_state-Follows ports level line)
        (λ _.
          (bind-KeepsFollows ports level line) fault (λ _. audit ports relay_control_error error [])
            (λ d h. ground (arith, h)) (λ _. (audit-Follows ports level line) _ _ _))

  finish_shutdown-Follows : (secured : Bool) → KeepsFollows level (finish_shutdown ports secured)
  unfolding finish_shutdown
  finish_shutdown-Follows true =
      (bind-KeepsFollows ports level line) (enter ports stopped)
        (λ _. audit ports service_shutdown info [])
        ((enter-Follows ports level line) stopped (λ same. absurd (cc)))
        (λ _. (audit-Follows ports level line) _ _ _)
  finish_shutdown-Follows false = (enter-Follows ports level line) faulted (λ same. absurd (cc))

  attempt_cleanup-Follows :
      (d : Door W)
      → d.controller.state ≡ shutting_down
      → Follows level d
      → Follows level (attempt_cleanup ports d).1
  unfolding attempt_cleanup on_world
  attempt_cleanup-Follows d closing h =
      let failed = λ (e : Exception).
        audit ports relay_control_error critical (reason_of "cleanup_failed") >> pure false in
      try-KeepsFollows (on_world ports.cleanup) failed (λ _. pure true) d
        (ground (arith, h, closing, line.cleans_up d.world))
        (λ e.
          (bind-KeepsFollows ports level line)
            (audit ports relay_control_error critical (reason_of "cleanup_failed"))
            (λ _. pure false) ((audit-Follows ports level line) _ _ _) (λ _ d h. h))
        (λ _ d h. h)

  secure_and_finish-Follows :
      (safe : Bool) (d : Door W)
      → d.controller.state ≡ shutting_down
      → Follows level d
      → Follows level (secure_and_finish ports safe d).1
  unfolding secure_and_finish update
  secure_and_finish-Follows safe d closing h =
      let d' : Door W = record d { controller = record d.controller { release_deadline = none } } in
      let cleaned = attempt_cleanup-Follows d' closing (ground (arith, h)) in
      elim (Result-cases (attempt_cleanup ports d').0) [
        | inl (clean, made) ↦ ground (
          arith,
          made,
          finish_shutdown-Follows (safe && clean) (attempt_cleanup ports d').1 cleaned,
        )
        | inr (e, failed) ↦ ground (arith, failed, cleaned)
      ]

  shutdown_running-Follows : KeepsFollows level (shutdown_running ports)
  unfolding shutdown_running enter
  shutdown_running-Follows d h =
      let d1 : Door W = record d { controller = record d.controller { state = shutting_down } } in
      let h1 : Follows level d1 = ground (arith, h) in
      let d2 = (attempt_safe_state ports d1).1 in
      let h2 = (attempt_safe_state-Follows ports level line) d1 h1 in
      let closing : d2.controller.state ≡ shutting_down =
        ground (arith, attempt_safe_state-controller ports d1) in
      elim (Result-cases (attempt_safe_state ports d1).0) [
        | inl (safe, made) ↦ ground (arith, made, secure_and_finish-Follows safe d2 closing h2)
        | inr (e, failed) ↦ ground (arith, failed, h2)
      ]

  pub shutdown_from-Follows : (s : ControllerState) → KeepsFollows level (shutdown_from ports s)
  unfolding shutdown_from
  shutdown_from-Follows stopped d h = h
  shutdown_from-Follows _ d h = shutdown_running-Follows d h
