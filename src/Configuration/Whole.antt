-- ===== src/Configuration/Whole.antt =====
-- A configuration of bridgewire/configuration.py whose floats are finite and not below zero.
use frontdoor.Prelude.{ℕ, Bool, Option, none, some}
use frontdoor.Escalation.{EscalationPolicy}
use frontdoor.Reader.Discovery.{ReaderIdentity}
use frontdoor.Reader.Backoff.{BackoffPolicy}
use frontdoor.Configuration.{SystemConfiguration}
use frontdoor.Configuration.Settings.{with_whole, whole_backoff, whole_policy}

-- What the service takes of a configuration.
pub record WholeConfiguration : Type 0 where
  pub reader_identity : ReaderIdentity
  pub maximum_record_bytes : ℕ
  pub release_seconds : ℕ
  pub channel : ℕ
  pub backoff : BackoffPolicy
  pub escalation : EscalationPolicy
  pub enabled : Bool
  pub max_event_page_size : ℕ
  pub stale_after : ℕ

abbrev pub with_policies :
    SystemConfiguration
    → ℕ
    → ℕ
    → Option BackoffPolicy
    → Option EscalationPolicy
    → Option WholeConfiguration
with_policies c release stale (some backoff) (some policy) = some (record {
  reader_identity = c.reader_identity;
  maximum_record_bytes = c.serial.maximum_record_bytes;
  release_seconds = release;
  channel = c.gpio.channel;
  backoff = backoff;
  escalation = policy;
  enabled = c.api.enabled;
  max_event_page_size = c.api.max_event_page_size;
  stale_after = stale;
})
with_policies c release stale _ _ = none

unfoldable pub whole : SystemConfiguration → Option WholeConfiguration
whole c = with_whole c.gpio.release_seconds λ release.
    with_whole c.api.operational_snapshot_stale_after_seconds
      λ stale. with_policies c release stale (whole_backoff c.backoff) (whole_policy c.escalation)
