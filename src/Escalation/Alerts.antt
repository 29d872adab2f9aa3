-- ===== src/Escalation/Alerts.antt =====
-- A policy of bridgewire/escalation.py, and what a tracker returns.
use frontdoor.Prelude.{ℕ, ◌≤◌, ◌<◌, ◌≡◌, false, arith}
use frontdoor.Escalation.{quiet, rank, EscalationPolicy, EscalationTracker, record_event, is_stale}

-- A policy of finite windows that the constructor accepts.
pub record IsPolicy (p : EscalationPolicy) : Type 0 where
  pub warns : 0 < p.warning_count
  pub increasing : p.warning_count < p.critical_count
  pub window : 0 < p.warning_window
  pub ordered : p.warning_window ≤ p.critical_window
  pub resets : 0 < p.reset_after

-- Within a run of events with no quiet period the level never falls, and an alert is returned
-- exactly when it rises, the new level itself.
pub record_event-rises :
    (t : EscalationTracker) (now : ℕ)
    → is_stale t.policy t.last_event now ≡ false
    → let (changed, t') = record_event t now in
      (rank t.level ≤ rank t'.level)
      × ((rank t.level < rank t'.level) → changed ≡ t'.level)
      × (t'.level ≡ t.level → changed ≡ quiet)
unfolding record_event
record_event-rises t now fresh = ground arith
