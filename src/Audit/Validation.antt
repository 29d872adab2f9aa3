-- ===== src/Audit/Validation.antt =====
-- Which events the constructor of `AuditEvent` of bridgewire/audit.py accepts.
use frontdoor.Prelude.{
  String, ◌≡◌, ◌↔◌, refl, Bool, true, false, not, [], ◌∷◌, ok, err, value_error, arith, text_in,
  text_in-All, all, if◌then◌else◌, Bool-cases, inl, inr, ◌⊎◌, Option, none, some, subst,
}
use frontdoor.Clock.{is_aware}
use frontdoor.Audit.{
  AuditEvent, Correlation, Value, null, text, number, flag, allowed_reasons,
  allowed_correlation_keys, get, is_forbidden, keys_pass, reason_passes, checked_event,
}

-- Every key is on the allow list.
abbrev pub keys_allowed : Correlation → Bool
keys_allowed = all λ entry. text_in entry.0 allowed_correlation_keys

allowed_not_forbidden :
    (key : String) → text_in key allowed_correlation_keys ≡ true → is_forbidden key ≡ false
allowed_not_forbidden key h =
    text_in-All (λ k. is_forbidden k ≡ false) key allowed_correlation_keys
      (unfold is_forbidden in (refl, (refl, (refl, (refl, tt))))) h

keys_pass_cons :
    (key : String) (v : Value) (c : Correlation)
    → keys_pass ((key, v) ∷ c) ≡ (
        if is_forbidden key
        then false
        else if not (text_in key allowed_correlation_keys)
        then false
        else keys_pass c)
keys_pass_cons key v c = unfold keys_pass in refl

keys_pass-eq-keys_allowed : (c : Correlation) → keys_pass c ≡ keys_allowed c
keys_pass-eq-keys_allowed [] = unfold keys_pass in refl
keys_pass-eq-keys_allowed ((key, v) ∷ c) =
    elim (Bool-cases (text_in key allowed_correlation_keys)) [
      | inl allowed ↦ rw (
        keys_pass_cons key v c,
        allowed_not_forbidden key allowed,
        allowed,
        keys_pass-eq-keys_allowed c,
      )
      | inr other ↦ rw (keys_pass_cons key v c, other) (ground arith)
    ]

ladder :
    (a b c : Bool) (event : AuditEvent)
    → ((if not a
          then err value_error
          else if not b
          then err value_error
          else if not c
          then err value_error
          else ok event)
        ≡ ok event)
      ↔ ((a ≡ true) × (b ≡ true) × (c ≡ true))
ladder a b c event = (λ h. ground arith, λ h. ground arith)

pub passes_all :
    (event : AuditEvent)
    → (checked_event event ≡ ok event) ↔ (
        (is_aware event.timestamp ≡ true)
        × (keys_allowed event.correlation ≡ true)
        × (reason_passes (get "reason" event.correlation) ≡ true))
unfolding checked_event
passes_all event = rw (← keys_pass-eq-keys_allowed event.correlation) (
    ladder (is_aware event.timestamp) (keys_pass event.correlation)
      (reason_passes (get "reason" event.correlation)) event)

-- A reason that a correlation may have: null, or a text on the list of the reasons.
abbrev pub IsReason : Value → Type 0
IsReason v =
    (v ≡ null) ⊎ ((reason : String) × (v ≡ text reason) × (text_in reason allowed_reasons ≡ true))

value_passes : (v : Value) → (reason_passes (some v) ≡ true) ↔ IsReason v
value_passes null = (λ h. inl refl, λ h. refl)
value_passes (text reason) = (λ h. inr (reason, refl, h), λ h. ground (arith, h))
value_passes (number n) = (λ h. absurd (cc), λ h. ground (arith, h))
value_passes (flag b) = (λ h. absurd (cc), λ h. ground (arith, h))

reason_passes-exact :
    (reason : Option Value)
    → (reason_passes reason ≡ true) ↔ ((v : Value) → reason ≡ some v → IsReason v)
reason_passes-exact none = (λ h v same. absurd (cc), λ h. refl)
reason_passes-exact (some v) = (
  λ h other same.
      let equal : v ≡ other = ground (arith, same) in subst IsReason equal ((value_passes v).0 h),
  λ h. (value_passes v).1 (h v refl),
)

-- An event is accepted exactly if its time is aware, every key of its correlation is on the allow
-- list, and what its correlation gives as the reason, if anything, is null or a text on the list of
-- the reasons: the test for sensitive words refuses no event that the allow list would let through.
pub checked_event-exact :
    (event : AuditEvent)
    → (checked_event event ≡ ok event) ↔ (
        (is_aware event.timestamp ≡ true)
        × (keys_allowed event.correlation ≡ true)
        × ((v : Value) → get "reason" event.correlation ≡ some v → IsReason v))
checked_event-exact event =
    let (into, back) = reason_passes-exact (get "reason" event.correlation) in
    let (accepts, gives) = passes_all event in
    (
      λ accepted. ((accepts accepted).0, (accepts accepted).1, into (accepts accepted).2),
      λ (aware, keys, reason). gives (aware, keys, back reason),
    )
