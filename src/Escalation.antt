-- ===== src/Escalation.antt =====
-- bridgewire/escalation.py: how often suspicious reads have come lately. Times are whole clock
-- ticks. A comparison with `timestamp - window` is written with the window added on the other
-- side, which is the same for exact numbers.
pub mod Alerts
pub mod Window
use frontdoor.Prelude.{
  ℕ, ◌+◌, Bool, true, false, ◌||◌, Option, none, some, List, [], ◌∷◌, ◌++◌, Result, ok, err,
  value_error, ltb, leb, count, if◌then◌else◌,
}

pub data EscalationLevel : Type 0 where
  quiet warning critical : EscalationLevel

-- The value of the `IntEnum`; `quiet` is `NONE`.
abbrev pub rank : EscalationLevel → ℕ
rank quiet = 0
rank warning = 1
rank critical = 2

pub record EscalationPolicy : Type 0 where
  pub warning_count : ℕ
  pub warning_window : ℕ
  pub critical_count : ℕ
  pub critical_window : ℕ
  pub reset_after : ℕ

pub record EscalationTracker : Type 0 where
  pub policy : EscalationPolicy
  pub events : List ℕ
  pub level : EscalationLevel
  pub last_event : Option ℕ

-- `EscalationTracker.__init__`
unfoldable pub new_tracker : EscalationPolicy → EscalationTracker
new_tracker p = record { policy = p; events = []; level = quiet; last_event = none }

-- `timestamp - self._last_event >= self._policy.reset_after`
abbrev pub is_stale : EscalationPolicy → Option ℕ → ℕ → Bool
is_stale p none timestamp = false
is_stale p (some last) timestamp = leb (last + p.reset_after) timestamp

-- The first `if` of `record`.
unfoldable pub forget_stale : EscalationTracker → ℕ → EscalationTracker
forget_stale t timestamp =
    if is_stale t.policy t.last_event timestamp then record t { events = []; level = quiet } else t

-- The `while` loop of `record`, `event < timestamp - window`.
abbrev pub drop_older : ℕ → ℕ → List ℕ → List ℕ
drop_older window timestamp [] = []
drop_older window timestamp (event ∷ events) =
    let rest = drop_older window timestamp events in
    if ltb (event + window) timestamp then rest else event ∷ events

-- `sum(event >= timestamp - window for event in events)`
abbrev pub count_within : ℕ → ℕ → List ℕ → ℕ
count_within window timestamp = count λ event. leb timestamp (event + window)

abbrev pub level_max : EscalationLevel → EscalationLevel → EscalationLevel
level_max a b = if ltb (rank a) (rank b) then b else a

-- `new_level` of `record`
abbrev pub next_level : EscalationPolicy → EscalationLevel → ℕ → ℕ → EscalationLevel
next_level p level in_critical in_warning =
    if leb p.critical_count in_critical
    then critical
    else if leb p.warning_count in_warning
    then level_max level warning
    else level

-- What `record` returns.
abbrev pub changed_level : EscalationLevel → EscalationLevel → EscalationLevel
changed_level old new = if ltb (rank old) (rank new) then new else quiet

-- `EscalationTracker.record`
unfoldable pub record_event : EscalationTracker → ℕ → EscalationLevel × EscalationTracker
unfolding forget_stale
record_event tracker timestamp =
    let t = forget_stale tracker timestamp in
    let kept = drop_older t.policy.critical_window timestamp (t.events ++ timestamp ∷ []) in
    let level =
      next_level t.policy t.level (count_within t.policy.critical_window timestamp kept)
        (count_within t.policy.warning_window timestamp kept) in
    (
      changed_level t.level level,
      record t { events = kept; level = level; last_event = some timestamp },
    )

-- A tracker that is handed several times, with what it returned for each.
unfoldable pub record_all : EscalationTracker → List ℕ → List EscalationLevel × EscalationTracker
record_all tracker [] = ([], tracker)
record_all tracker (t ∷ ts) =
    let (changed, tracker') = record_event tracker t in
    let (rest, final) = record_all tracker' ts in (changed ∷ rest, final)
