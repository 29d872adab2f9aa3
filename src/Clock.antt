-- ===== src/Clock.antt =====
-- Points in time: the `datetime` values of bridgewire/clock.py and its users, and `ManualClock`.
use frontdoor.Prelude.{ℕ, ◌+◌, String, Bool, true, false}

-- `naive` is a datetime with no `tzinfo`, or whose `utcoffset()` is None.
pub data Zone : Type 0 where
  naive utc : Zone
  offset : String → Zone

-- The instant is in clock ticks.
pub record Timestamp : Type 0 where
  pub instant : ℕ
  pub zone : Zone

abbrev pub is_naive : Zone → Bool
is_naive naive = true
is_naive utc = false
is_naive (offset _) = false

-- `timestamp.tzinfo is not None and timestamp.utcoffset() is not None`
abbrev pub is_aware : Timestamp → Bool
is_aware t = elim (is_naive t.zone) [ true ↦ false | false ↦ true ]

-- `astimezone(UTC)` of an aware datetime.
abbrev pub as_utc : Timestamp → Timestamp
as_utc t = record t { zone = utc }

pub record ManualClock : Type 0 where
  pub elapsed : ℕ
  pub wall_time : Timestamp

-- `ManualClock.advance`, by a number of ticks that is not negative.
unfoldable pub advance : ManualClock → ℕ → ManualClock
advance c seconds = record {
  elapsed = c.elapsed + seconds;
  wall_time = record c.wall_time { instant = c.wall_time.instant + seconds };
}
