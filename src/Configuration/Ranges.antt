-- ===== src/Configuration/Ranges.antt =====
-- Which floats the checks of bridgewire/configuration.py, bridgewire/reader.py and bridgewire/escalation.py
-- let through, and what is left of them where none is nan or infinite.
use frontdoor.Prelude.{◌≤◌, ◌<◌, true, false, ◌≡◌, refl, subst, arith, ℕ, Option, some, none}
use frontdoor.Escalation.Alerts.{IsPolicy}
use frontdoor.Escalation.{EscalationPolicy}
use frontdoor.Reader.Backoff.{BackoffPolicy}
use frontdoor.Configuration.Settings.{
  Float, exact, below, infinite, minus_infinite, nan, float_le, float_lt, BackoffSettings,
  EscalationSettings, whole_backoff, whole_policy, with_whole,
}
use frontdoor.Configuration.Whole.{WholeConfiguration, whole, with_policies}
use frontdoor.Reader.Backoff.Bounds.{IsBackoff}
use frontdoor.Configuration.{SystemConfiguration}

-- Above zero, or nan, which no comparison refuses.
abbrev pub IsPositiveOrNan : Float → Type 0
IsPositiveOrNan (exact n) = 0 < n
IsPositiveOrNan infinite = Unit
IsPositiveOrNan nan = Unit
IsPositiveOrNan _ = ⊥

-- At most the other number, or one of them is nan; for two numbers that are not below zero.
abbrev pub AreOrderedOrNan : Float → Float → Type 0
AreOrderedOrNan nan b = Unit
AreOrderedOrNan a nan = Unit
AreOrderedOrNan (exact a) (exact b) = a ≤ b
AreOrderedOrNan (exact a) infinite = Unit
AreOrderedOrNan infinite infinite = Unit
AreOrderedOrNan _ _ = ⊥

abbrev pub IsFraction : Float → Type 0
IsFraction (exact n) = n ≤ 1000
IsFraction _ = ⊥

pub record AreBackoffSettings (s : BackoffSettings) : Type 0 where
  pub positive : IsPositiveOrNan s.minimum
  pub ordered : AreOrderedOrNan s.minimum s.maximum
  pub fraction : IsFraction s.jitter

pub record ArePolicySettings (s : EscalationSettings) : Type 0 where
  pub warns : 0 < s.warning_count
  pub increasing : s.warning_count < s.critical_count
  pub window : IsPositiveOrNan s.warning_window
  pub ordered : AreOrderedOrNan s.warning_window s.critical_window
  pub resets : IsPositiveOrNan s.reset_after

-- What the service computes with, where no number is nan or infinite.
pub record IsUsable (c : WholeConfiguration) : Type 0 where
  pub backoff : IsBackoff c.backoff
  pub escalation : IsPolicy c.escalation
  pub stale : 0 < c.stale_after

pub above_zero : (a : Float) → float_le a (exact 0) ≡ false → IsPositiveOrNan a
above_zero (exact n) h = ground arith
above_zero (below n) h = absurd (cc)
above_zero infinite h = tt
above_zero minus_infinite h = absurd (cc)
above_zero nan h = tt

pub in_order :
    (a b : Float) → float_le a (exact 0) ≡ false → float_lt b a ≡ false → AreOrderedOrNan a b
in_order nan b h k = tt
in_order (below m) b h k = absurd (cc)
in_order minus_infinite b h k = absurd (cc)
in_order (exact m) (exact n) h k = ground arith
in_order (exact m) (below n) h k = absurd (cc)
in_order (exact m) infinite h k = tt
in_order (exact m) minus_infinite h k = absurd (cc)
in_order (exact m) nan h k = tt
in_order infinite (exact n) h k = absurd (cc)
in_order infinite (below n) h k = absurd (cc)
in_order infinite infinite h k = tt
in_order infinite minus_infinite h k = absurd (cc)
in_order infinite nan h k = tt

pub is_fraction :
    (a : Float) → float_le (exact 0) a ≡ true → float_le a (exact 1000) ≡ true → IsFraction a
is_fraction (exact n) h k = ground arith
is_fraction (below n) h k = absurd (cc)
is_fraction infinite h k = absurd (cc)
is_fraction minus_infinite h k = absurd (cc)
is_fraction nan h k = absurd (cc)

with_whole-exact :
    {A : Type 0} (a : Float) (f : ℕ → Option A) {x : A}
    → with_whole a f ≡ some x
    → (n : ℕ) × (a ≡ exact n) × (f n ≡ some x)
with_whole-exact (exact n) f same = (n, refl, same)
with_whole-exact (below n) f same = absurd (cc)
with_whole-exact infinite f same = absurd (cc)
with_whole-exact minus_infinite f same = absurd (cc)
with_whole-exact nan f same = absurd (cc)

ordered_exact : (a b : Float) (m n : ℕ) → a ≡ exact m → b ≡ exact n → AreOrderedOrNan a b → m ≤ n
ordered_exact a b m n same same' h =
    subst (λ x. AreOrderedOrNan x (exact n)) same (subst (λ y. AreOrderedOrNan a y) same' h)

whole_backoff-IsBackoff :
    (s : BackoffSettings) {p : BackoffPolicy}
    → AreBackoffSettings s
    → whole_backoff s ≡ some p
    → IsBackoff p
whole_backoff-IsBackoff s h same =
    let (a, minimum, rest) = with_whole-exact s.minimum _ same in
    let (b, maximum, rest') = with_whole-exact s.maximum _ rest in
    let (c, jitter, made) = with_whole-exact s.jitter _ rest' in
    let positive : IsPositiveOrNan (exact a) = subst IsPositiveOrNan minimum h.positive in
    let ordered : a ≤ b = ordered_exact s.minimum s.maximum a b minimum maximum h.ordered in
    let fraction : IsFraction (exact c) = subst IsFraction jitter h.fraction in
    record {
      positive = ground (arith, made, positive);
      ordered = ground (arith, made, ordered);
      fraction = ground (arith, made, fraction);
    }

whole_policy-IsPolicy :
    (s : EscalationSettings) {p : EscalationPolicy}
    → ArePolicySettings s
    → whole_policy s ≡ some p
    → IsPolicy p
whole_policy-IsPolicy s h same =
    let (a, window, rest) = with_whole-exact s.warning_window _ same in
    let (b, critical, rest') = with_whole-exact s.critical_window _ rest in
    let (c, reset, made) = with_whole-exact s.reset_after _ rest' in
    let positive : IsPositiveOrNan (exact a) = subst IsPositiveOrNan window h.window in
    let ordered : a ≤ b =
      ordered_exact s.warning_window s.critical_window a b window critical h.ordered in
    let resets : IsPositiveOrNan (exact c) = subst IsPositiveOrNan reset h.resets in
    record {
      warns = ground (arith, made, h.warns);
      increasing = ground (arith, made, h.increasing);
      window = ground (arith, made, positive);
      ordered = ground (arith, made, ordered);
      resets = ground (arith, made, resets);
    }

with_policies-IsUsable :
    (c : SystemConfiguration) (release stale : ℕ) (backoff : Option BackoffPolicy)
    (policy : Option EscalationPolicy) {w : WholeConfiguration}
    → with_policies c release stale backoff policy ≡ some w
    → ((p : BackoffPolicy) → backoff ≡ some p → IsBackoff p)
    → ((p : EscalationPolicy) → policy ≡ some p → IsPolicy p)
    → 0 < stale
    → IsUsable w
with_policies-IsUsable c release stale (some b) (some p) made h k positive =
    let is_backoff = h b refl in
    let is_policy = k p refl in
    record {
      backoff = ground (arith, made, is_backoff);
      escalation = ground (arith, made, is_policy);
      stale = ground (arith, made, positive);
    }
with_policies-IsUsable c release stale none policy made h k positive = absurd (cc)
with_policies-IsUsable c release stale (some b) none made h k positive = absurd (cc)

pub whole-IsUsable :
    (c : SystemConfiguration) {w : WholeConfiguration}
    → AreBackoffSettings c.backoff
    → ArePolicySettings c.escalation
    → IsPositiveOrNan c.api.operational_snapshot_stale_after_seconds
    → whole c ≡ some w
    → IsUsable w
unfolding whole
whole-IsUsable c backoff policy stale same =
    let (release, _, rest) = with_whole-exact c.gpio.release_seconds _ same in
    let (n, after, made) = with_whole-exact c.api.operational_snapshot_stale_after_seconds _ rest in
    with_policies-IsUsable c release n (whole_backoff c.backoff) (whole_policy c.escalation) made
      (λ p. whole_backoff-IsBackoff c.backoff backoff)
      (λ p. whole_policy-IsPolicy c.escalation policy) (subst IsPositiveOrNan after stale)
