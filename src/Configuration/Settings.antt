-- ===== src/Configuration/Settings.antt =====
-- The numbers of bridgewire/configuration.py as Python's floats, and the constructors of
-- bridgewire/reader.py and bridgewire/escalation.py that they are given to. A finite float is a whole
-- number of thousandths; `below n` is that many thousandths and one more below zero.
use frontdoor.Prelude.{
  ℕ, Bool, true, false, not, ◌&&◌, ◌||◌, Option, none, some, Result, ok, err, value_error, leb,
  if◌then◌else◌,
}
use frontdoor.Escalation.{EscalationPolicy}
use frontdoor.Reader.Backoff.{BackoffPolicy}

pub data Float : Type 0 where
  exact below : ℕ → Float
  infinite minus_infinite nan : Float

-- `a <= b`, `a < b` and `a == b`
abbrev pub float_le : Float → Float → Bool
float_le nan b = false
float_le minus_infinite nan = false
float_le minus_infinite b = true
float_le (exact a) (exact b) = leb a b
float_le (exact a) infinite = true
float_le (exact a) b = false
float_le (below a) (exact b) = true
float_le (below a) (below b) = leb b a
float_le (below a) infinite = true
float_le (below a) b = false
float_le infinite infinite = true
float_le infinite b = false

abbrev pub float_lt : Float → Float → Bool
float_lt a b = float_le a b && not (float_le b a)

abbrev pub float_eq : Float → Float → Bool
float_eq a b = float_le a b && float_le b a

-- The fields of `BackoffPolicy` and of `EscalationPolicy` before anything is computed with them.
pub record BackoffSettings : Type 0 where
  pub minimum : Float
  pub maximum : Float
  pub jitter : Float

pub record EscalationSettings : Type 0 where
  pub warning_count : ℕ
  pub warning_window : Float
  pub critical_count : ℕ
  pub critical_window : Float
  pub reset_after : Float

-- `BackoffPolicy.__post_init__`
unfoldable pub checked_backoff : BackoffSettings → Result BackoffSettings
checked_backoff p =
    if float_le p.minimum (exact 0) || float_lt p.maximum p.minimum
    then err value_error
    else if not (float_le (exact 0) p.jitter && float_le p.jitter (exact 1000))
    then err value_error
    else ok p

-- `EscalationPolicy.__post_init__`
unfoldable pub checked_policy : EscalationSettings → Result EscalationSettings
checked_policy p =
    if leb p.warning_count 0 || leb p.critical_count p.warning_count
    then err value_error
    else if float_le p.warning_window (exact 0)
        || (float_lt p.critical_window p.warning_window || float_le p.reset_after (exact 0))
    then err value_error
    else ok p

-- What is computed of a number that is finite and not below zero.
abbrev pub with_whole : {A : Type 0} → Float → (ℕ → Option A) → Option A
with_whole (exact n) f = f n
with_whole _ f = none

-- The policies that the other models compute with.
abbrev pub whole_backoff : BackoffSettings → Option BackoffPolicy
whole_backoff s = with_whole s.minimum λ minimum. with_whole s.maximum λ maximum.
    with_whole s.jitter
      λ jitter. some (record { minimum = minimum; maximum = maximum; jitter = jitter })

abbrev pub whole_policy : EscalationSettings → Option EscalationPolicy
whole_policy s = with_whole s.warning_window λ warning_window.
    with_whole s.critical_window λ critical_window. with_whole s.reset_after λ reset_after.
      some (record {
        warning_count = s.warning_count;
        warning_window = warning_window;
        critical_count = s.critical_count;
        critical_window = critical_window;
        reset_after = reset_after;
      })
