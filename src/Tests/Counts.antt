-- ===== src/Tests/Counts.antt =====
-- A policy of three reads in a minute, and an audit event.
use frontdoor.Prelude.{ℕ, ◌≡◌, ◌↔◌, arith, List, [], ◌∷◌, some, none, true, ok}
use frontdoor.Clock.{utc}
use frontdoor.Escalation.{EscalationTracker, EscalationLevel, new_tracker, record_all}
use frontdoor.Escalation.Alerts.{IsPolicy}
use frontdoor.Escalation.Window.{observe_all, no_history, record_all-eq-observe_all}
use frontdoor.Audit.{AuditEvent, Value, checked_event, relay_asserted, info}
use frontdoor.Audit.Validation.{IsReason, keys_allowed, checked_event-exact}
use frontdoor.Tests.Doors.{three_in_a_minute}

three_in_a_minute-IsPolicy : IsPolicy three_in_a_minute
three_in_a_minute-IsPolicy = record {
  warns = omega arith;
  increasing = omega arith;
  window = omega arith;
  ordered = omega arith;
  resets = omega arith;
}

abbrev two_reads : EscalationTracker
two_reads = record {
  policy = three_in_a_minute;
  events = 10 ∷ 30 ∷ [];
  level = EscalationLevel.quiet;
  last_event = some 30;
}

abbrev demo_times : List ℕ
demo_times = 10 ∷ 30 ∷ 65 ∷ 400 ∷ 1200 ∷ []

record_all-eq-observe_all_example :
    (record_all (new_tracker three_in_a_minute) demo_times).0
    ≡ observe_all three_in_a_minute no_history demo_times
record_all-eq-observe_all_example =
    record_all-eq-observe_all three_in_a_minute demo_times three_in_a_minute-IsPolicy
      (tt, (omega arith, (omega arith, (omega arith, (omega arith, tt)))))

abbrev demo_event : AuditEvent
demo_event = record {
  event_type = relay_asserted;
  severity = info;
  timestamp = record { instant = 3; zone = utc };
  correlation = ("duration_seconds", Value.number 5) ∷ [];
  reader_state = none;
  controller_state = some "released";
  delivery_status = none;
  event_id = "event";
}

checked_event-exact_example : (checked_event demo_event ≡ ok demo_event) ↔ (
    (true ≡ true)
    × (keys_allowed (("duration_seconds", Value.number 5) ∷ []) ≡ true)
    × ((v : Value) → none ≡ some v → IsReason v))
checked_event-exact_example = checked_event-exact demo_event
