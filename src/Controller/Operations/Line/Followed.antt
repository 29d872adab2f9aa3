-- ===== src/Controller/Operations/Line/Followed.antt =====
-- Any calls of bridgewire/controller.py and the level of the relay's line.
use frontdoor.Prelude.{ℕ, ◌≡◌, ◌⊎◌, Bool, true, false, List, [], ◌∷◌, ok, arith}
use frontdoor.Escalation.{EscalationTracker}
use frontdoor.Controller.State.{
  ready, released, stopped, Ports, AccessController, Door, new_controller,
}
use frontdoor.Controller.Operations.Soundness.{calls-IsSound}
use frontdoor.Controller.Operations.{
  shutdown, Call, start_call, tick_call, failure_call, shutdown_call, process_call, after_call,
  after_calls,
}
use frontdoor.Controller.Operations.Line.{HasLine, Follows}
use frontdoor.Controller.Operations.Line.Processing.{process-Follows}
use frontdoor.Controller.Operations.Line.Stopping.{
  start-Follows, tick-Follows, recoverable_failure-Follows, shutdown_from-Follows,
}

module _ {W : Type 0} (ports : Ports W) (level : W → Bool) (line : HasLine ports level) where
  after_call-Follows :
      (call : Call) (d : Door W) → Follows level d → Follows level (after_call ports call d)
  unfolding after_call shutdown
  after_call-Follows start_call d h = (start-Follows ports level line) d h
  after_call-Follows tick_call d h = (tick-Follows ports level line) d h
  after_call-Follows failure_call d h = (recoverable_failure-Follows ports level line) d h
  after_call-Follows shutdown_call d h =
      (shutdown_from-Follows ports level line) d.controller.state d h
  after_call-Follows (process_call r) d h = (process-Follows ports level line) r d h

  pub after_calls-Follows :
      (calls : List Call) (d : Door W) → Follows level d → Follows level (after_calls ports calls d)
  unfolding after_calls
  after_calls-Follows [] d h = h
  after_calls-Follows (call ∷ calls) d h =
      after_calls-Follows calls (after_call ports call d) (after_call-Follows call d h)

-- After any calls on a new controller, returning or raising, over a relay whose line follows the
-- commands that return: the line is high while the door is released, and low while it is ready or
-- stopped.
pub line-follows :
    {W : Type 0} (ports : Ports W) (level : W → Bool) (calls : List Call) (w : W)
    (escalation : EscalationTracker) (release_seconds gpio_channel : ℕ) {c : AccessController}
    → HasLine ports level
    → new_controller escalation release_seconds gpio_channel ≡ ok c
    → let d = after_calls ports calls (record { controller = c; world = w }) in
      (d.controller.state ≡ released → level d.world ≡ true)
      × ((d.controller.state ≡ ready) ⊎ (d.controller.state ≡ stopped) → level d.world ≡ false)
unfolding new_controller
line-follows ports level calls w escalation release_seconds gpio_channel {c} line made =
    let sound = calls-IsSound ports calls w escalation release_seconds gpio_channel made in
    let follows =
      after_calls-Follows ports level line calls (record { controller = c; world = w })
        (ground (arith, made)) in
    (
      λ is_released. follows.raised is_released (sound.released_high is_released),
      λ closed. follows.lowered (sound.secured_low closed),
    )
