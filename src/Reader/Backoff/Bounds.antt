-- ===== src/Reader/Backoff/Bounds.antt =====
-- How long `BackoffPolicy.delay` of bridgewire/reader.py waits, and where it raises.
use frontdoor.Prelude.{
  ℕ, ◌+◌, ◌-◌, ◌*◌, ◌^◌, ◌≤◌, ◌<◌, ◌≡◌, min, ◌↔◌, ok, err, overflow_error, arith, ap,
}
use native.Mathlib.Nat.{mul-add, mul-le-mul_left, one-le-pow}
use frontdoor.Reader.Backoff.{BackoffPolicy, unit, jittered, delay}

pub record IsBackoff (p : BackoffPolicy) : Type 0 where
  pub positive : 0 < p.minimum
  pub ordered : p.minimum ≤ p.maximum
  pub fraction : p.jitter ≤ unit

-- The waiting time before any jitter.
abbrev pub base_delay : BackoffPolicy → ℕ → ℕ
base_delay p attempt = min p.maximum (p.minimum * 2 ^ (attempt - 1))

-- `delay` raises exactly from the 1025th attempt on, whatever the policy.
pub delay_overflows :
    (p : BackoffPolicy) (attempt random_unit : ℕ)
    → (delay p attempt random_unit ≡ err overflow_error) ↔ (1025 ≤ attempt)
unfolding delay
delay_overflows p attempt random_unit = (λ h. ground arith, λ h. ground arith)

whole : (j : ℕ) → j ≤ unit → unit - j + j ≡ unit
whole j h = omega arith

share : (b j : ℕ) → j ≤ unit → b * (unit - j) + b * j ≡ b * unit
share b j h = omega (arith, mul-add b (unit - j) j, ap (λ (t : ℕ). b * t) (whole j h))

jittered_low :
    (p : BackoffPolicy) (u b : ℕ) → p.jitter ≤ unit → b * (unit - p.jitter) * unit ≤ jittered p u b
jittered_low p u b h = omega (arith, share b p.jitter h)

jittered_high :
    (p : BackoffPolicy) (u b : ℕ)
    → p.jitter ≤ unit
    → u ≤ unit
    → jittered p u b ≤ b * (unit + p.jitter) * unit
jittered_high p u b h r = omega (arith, share b p.jitter h, mul-le-mul_left (b * p.jitter) r)

-- With a policy that the constructor accepts, a delay differs from the base by at most the jitter's
-- share of it, and the base lies between the two bounds of the policy.
pub delay_bounds :
    (p : BackoffPolicy) (attempt random_unit : ℕ)
    → IsBackoff p
    → random_unit ≤ unit
    → attempt ≤ 1024
    → (d : ℕ) × (delay p attempt random_unit ≡ ok d)
      × (base_delay p attempt * (unit - p.jitter) * unit ≤ d)
      × (d ≤ base_delay p attempt * (unit + p.jitter) * unit)
      × (p.minimum ≤ base_delay p attempt)
      × (base_delay p attempt ≤ p.maximum)
unfolding delay
delay_bounds p attempt random_unit valid r few = (
  jittered p random_unit (base_delay p attempt),
  ground arith,
  jittered_low p random_unit (base_delay p attempt) valid.fraction,
  jittered_high p random_unit (base_delay p attempt) valid.fraction r,
  omega
      (arith, valid.ordered, mul-le-mul_left p.minimum (one-le-pow (attempt - 1) 2 (omega arith))),
  omega arith,
)
