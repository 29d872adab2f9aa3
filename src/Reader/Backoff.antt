-- ===== src/Reader/Backoff.antt =====
-- `BackoffPolicy` of bridgewire/reader.py. Times are whole clock ticks; the jitter and the random
-- unit are fractions in thousandths, and a delay is in ticks over the square of a thousand, so that
-- no product is rounded.
pub mod Bounds
use frontdoor.Prelude.{
  ℕ, zero, suc, ◌+◌, ◌-◌, ◌*◌, ◌^◌, min, Bool, ◌||◌, Result, ok, err, value_error, overflow_error,
  ltb, leb, if◌then◌else◌,
}

-- One, as a fraction.
abbrev pub unit : ℕ
unit = 1000

pub record BackoffPolicy : Type 0 where
  pub minimum : ℕ
  pub maximum : ℕ
  pub jitter : ℕ

-- The least power of two that no Python float holds: to multiply a float by `2 ** 1024` raises
-- `OverflowError`.
abbrev pub float_exponent_limit : ℕ
float_exponent_limit = 1024

-- `self.minimum * (2 ** max(0, attempt - 1))`, where the minimum is a float.
unfoldable pub scaled_minimum : BackoffPolicy → ℕ → Result ℕ
scaled_minimum p attempt =
    if leb float_exponent_limit (attempt - 1)
    then err overflow_error
    else ok (p.minimum * 2 ^ (attempt - 1))

-- `base - spread + (2 * spread * random_unit)`, over the square of the unit.
abbrev pub jittered : BackoffPolicy → ℕ → ℕ → ℕ
jittered p random_unit base =
    let spread = base * p.jitter in base * unit * unit - spread * unit + 2 * spread * random_unit

abbrev pub with_base : BackoffPolicy → ℕ → Result ℕ → Result ℕ
with_base p random_unit (err e) = err e
with_base p random_unit (ok scaled) = ok (jittered p random_unit (min p.maximum scaled))

-- `BackoffPolicy.delay`
unfoldable pub delay : BackoffPolicy → ℕ → ℕ → Result ℕ
unfolding scaled_minimum
delay p attempt random_unit = with_base p random_unit (scaled_minimum p attempt)
