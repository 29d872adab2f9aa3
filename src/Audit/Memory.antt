-- ===== src/Audit/Memory.antt =====
-- The audit sink and the notification queue of bridgewire/audit.py that keep their events in memory.
use frontdoor.Prelude.{ℕ, Option, none, some, List, [], ◌∷◌, ◌++◌, length}
use frontdoor.Clock.{Timestamp}
use frontdoor.Audit.{AuditEvent}

-- `InMemoryAuditSink` and `InMemoryNotificationQueue`, whose state is a list of events.
pub record EventList : Type 0 where
  pub events : List AuditEvent

-- `InMemoryAuditSink.append` and `InMemoryNotificationQueue.enqueue`
unfoldable pub append_event : AuditEvent → EventList → EventList
append_event event s = record { events = s.events ++ event ∷ [] }

abbrev last_time : List AuditEvent → Option Timestamp
last_time [] = none
last_time (event ∷ []) = some event.timestamp
last_time (event ∷ next ∷ events) = last_time (next ∷ events)

unfoldable pub latest_event_time : EventList → Option Timestamp
latest_event_time s = last_time s.events

unfoldable pub pending_count : EventList → ℕ
pending_count s = length s.events
