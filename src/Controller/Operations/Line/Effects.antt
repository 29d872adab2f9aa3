-- ===== src/Controller/Operations/Line/Effects.antt =====
-- The private steps of bridgewire/controller.py and the level of the relay's line.
use frontdoor.Prelude.{
  ◌≡◌, ◌⊎◌, Bool, true, false, [], Exception, ok, err, Exec, pure, try_else, ◌>>=◌, arith, refl, ap,
  ◌≢◌, inl, inr, Result-cases,
}
use frontdoor.Audit.{
  AuditEvent, EventType, Severity, Correlation, relay_control_error, escalation_critical,
  notification_delivery_failed, critical, error,
}
use frontdoor.Escalation.{EscalationLevel}
use frontdoor.Controller.State.{ControllerState, released, Ports, Door}
use frontdoor.Controller.Effects.{
  on_world, reason_of, audit, new_event, command, attempt_safe_state, escalate, announce,
  record_suspicious,
}
use frontdoor.Controller.Effects.Frames.{
  audit-controller, record_suspicious-SameRelease, command-controller,
  attempt_safe_state-controller,
}
use frontdoor.Controller.Operations.{enter}
use frontdoor.Controller.Operations.Line.{HasLine, Follows, KeepsFollows}

module _ {W : Type 0} (ports : Ports W) (level : W → Bool) (line : HasLine ports level) where
  -- An action that leaves the level as it is.
  abbrev IsStill : {A : Type 0} → Exec (Door W) A → Type 0
  IsStill m = (d : Door W) → level (m d).1.world ≡ level d.world

  bind-IsStill :
      {A B : Type 0} (m : Exec (Door W) A) (f : A → Exec (Door W) B)
      → IsStill m
      → ((a : A) → IsStill (f a))
      → IsStill (m >>= f)
  bind-IsStill m f h k d = elim (Result-cases (m d).0) [
    | inl (a, made) ↦ ground (arith, made, h d, k a (m d).1)
    | inr (e, failed) ↦ ground (arith, failed, h d)
  ]

  try_else-IsStill :
      {A B : Type 0} (m : Exec (Door W) A) (handler : Exception → Exec (Door W) B)
      (f : A → Exec (Door W) B)
      → IsStill m
      → ((e : Exception) → IsStill (handler e))
      → ((a : A) → IsStill (f a))
      → IsStill (try_else m handler f)
  try_else-IsStill m handler f h k j d = elim (Result-cases (m d).0) [
    | inl (a, made) ↦ ground (arith, made, h d, j a (m d).1)
    | inr (e, failed) ↦ ground (arith, failed, h d, k e (m d).1)
  ]

  new_event-line :
      (t : EventType) (s : Severity) (c : Correlation) (d : Door W)
      → level (new_event ports t s c d).1.world ≡ level d.world
  unfolding new_event
  new_event-line t s c d =
      let w1 = (ports.now d.world).1 in ground (arith, line.dates d.world, line.names w1)

  audit-line :
      (t : EventType) (s : Severity) (c : Correlation) (d : Door W)
      → level (audit ports t s c d).1.world ≡ level d.world
  unfolding audit
  audit-line t s c =
      bind-IsStill (new_event ports t s c) (λ e. on_world (ports.append e)) (new_event-line t s c)
        (λ e d. line.appends e d.world)

  announce-line :
      (l : EscalationLevel) (d : Door W) → level (announce ports l d).1.world ≡ level d.world
  unfolding announce on_world
  announce-line EscalationLevel.quiet d = refl
  announce-line EscalationLevel.warning d = audit-line _ _ _ d
  announce-line EscalationLevel.critical d =
      let queued = λ (e : AuditEvent).
        try_else (on_world (ports.enqueue e))
          (λ _. audit ports notification_delivery_failed error (reason_of "queue_unavailable"))
          (λ _. pure tt) in
      bind-IsStill (new_event ports escalation_critical critical [])
        (λ e. on_world (ports.append e) >>= λ _. queued e) (new_event-line _ _ _)
        (λ e.
          bind-IsStill (on_world (ports.append e)) (λ _. queued e) (λ d. line.appends e d.world)
            (λ _.
              try_else-IsStill (on_world (ports.enqueue e))
                (λ _.
                  audit ports notification_delivery_failed error (reason_of "queue_unavailable"))
                (λ _. pure tt) (λ d. line.enqueues e d.world) (λ _. audit-line _ _ _)
                (λ _ d. refl)))
        d

  escalate-line : (d : Door W) → level (escalate ports d).1.world ≡ level d.world
  unfolding escalate
  escalate-line d = ground (arith, line.ticks d.world)

  record_suspicious-line : (d : Door W) → level (record_suspicious ports d).1.world ≡ level d.world
  unfolding record_suspicious
  record_suspicious-line =
      bind-IsStill (escalate ports) (announce ports) escalate-line announce-line

  -- A command that returns has set the line and is noted; one that raises changes nothing.
  pub command-line :
      (high : Bool) (d : Door W)
      → let (outcome, d') = command ports high d in
        ((outcome ≡ ok tt) → level d'.world ≡ high)
        × ((e : Exception) → outcome ≡ err e → level d'.world ≡ level d.world)
  unfolding command
  command-line high d =
      (ground (arith, line.sets high d.world), λ e. ground (arith, line.leaves high d.world e))

  attempt_safe_state-line :
      (d : Door W)
      → let (outcome, d') = attempt_safe_state ports d in
        ((outcome ≡ ok true) × (level d'.world ≡ false))
        ⊎ ((outcome ≢ ok true) × (level d'.world ≡ level d.world))
  unfolding attempt_safe_state
  attempt_safe_state-line d =
      let (low, failed) = command-line false d in
      let d' = (command ports false d).1 in
      let noted = audit-line relay_control_error critical (reason_of "low_failed") d' in
      elim (Result-cases (command ports false d).0) [
        | inl (a, done) ↦ inl (ground (arith, done), ground (arith, done, low))
        | inr (e, raised) ↦ inr (ground (arith, raised), ground (arith, raised, failed e, noted))
      ]

  -- What an action does to the state, the last command and the level, by its outcome.
  Follows-same :
      (d d' : Door W)
      → Follows level d
      → d'.controller.state ≡ d.controller.state
      → d'.controller.last_relay_command_high ≡ d.controller.last_relay_command_high
      → level d'.world ≡ level d.world
      → Follows level d'
  Follows-same d d' h state last same = ground (arith, h, state, last, same)

  pub bind-KeepsFollows :
      {A B : Type 0} (m : Exec (Door W) A) (f : A → Exec (Door W) B)
      → KeepsFollows level m
      → ((a : A) → KeepsFollows level (f a))
      → KeepsFollows level (m >>= f)
  bind-KeepsFollows m f h k d follows = elim (Result-cases (m d).0) [
    | inl (a, made) ↦ ground (arith, made, k a (m d).1 (h d follows))
    | inr (e, failed) ↦ ground (arith, failed, h d follows)
  ]

  pub audit-Follows :
      (t : EventType) (s : Severity) (c : Correlation) → KeepsFollows level (audit ports t s c)
  audit-Follows t s c d h =
      let same = audit-controller ports t s c d in
      Follows-same d (audit ports t s c d).1 h (ap (λ c. c.state) same)
        (ap (λ c. c.last_relay_command_high) same) (audit-line t s c d)

  pub record_suspicious-Follows : KeepsFollows level (record_suspicious ports)
  record_suspicious-Follows d h =
      let same = record_suspicious-SameRelease ports d in
      Follows-same d (record_suspicious ports d).1 h same.state same.last_relay_command_high
        (record_suspicious-line d)

  pub attempt_safe_state-Follows : KeepsFollows level (attempt_safe_state ports)
  attempt_safe_state-Follows d h =
      ground (arith, attempt_safe_state-controller ports d, attempt_safe_state-line d)

  pub command-Follows : (high : Bool) → KeepsFollows level (command ports high)
  command-Follows high d h =
      let (noted, unchanged) = command-controller ports high d in
      let (sets, leaves) = command-line high d in
      elim (Result-cases (command ports high d).0) [
        | inl (a, done) ↦ ground (arith, noted done, sets done)
        | inr (e, raised) ↦ ground (arith, unchanged e raised, leaves e raised)
      ]

  -- An action after which the door is not released, and that leaves the last command alone.
  pub enter-Follows :
      (state : ControllerState) → state ≢ released → KeepsFollows level (enter ports state)
  unfolding enter
  enter-Follows state other d h = ground (arith, other)

  pure-Follows : {A : Type 0} (a : A) → KeepsFollows level (pure {S = Door W} a)
  pure-Follows a d h = h
