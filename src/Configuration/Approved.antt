-- ===== src/Configuration/Approved.antt =====
-- What `load_configuration` of bridgewire/configuration.py lets through.
use frontdoor.Prelude.{is_empty, ◌≤◌, true, false, ◌≡◌, ◌⊎◌, is_none, some}
use frontdoor.Configuration.Settings.{exact}
use frontdoor.Configuration.Whole.{WholeConfiguration, whole}
use frontdoor.Reader.Discovery.{ReaderIdentity}
use frontdoor.Configuration.{SystemConfiguration, SerialConfiguration, GpioConfiguration}
use frontdoor.Configuration.Ranges.{
  IsPositiveOrNan, AreBackoffSettings, ArePolicySettings, IsUsable,
}

abbrev pub approved_serial : SerialConfiguration
approved_serial = record {
  baud_rate = 9600;
  data_bits = 8;
  parity = "none";
  stop_bits = 1;
  timeout_seconds = exact 1000;
  maximum_record_bytes = 16;
}

abbrev pub approved_gpio : GpioConfiguration
approved_gpio = record {
  numbering = "BCM";
  channel = 23;
  normal_high = false;
  release_high = true;
  release_seconds = exact 3000;
}

-- A path, or both numbers.
abbrev pub IsIdentified : ReaderIdentity → Type 0
IsIdentified i =
    (is_none i.by_id_path ≡ false) ⊎ ((is_none i.vid ≡ false) × (is_none i.pid ≡ false))

-- What the constructors of the parts and the checks after the `try` let through.
pub record IsApproved (c : SystemConfiguration) : Type 0 where
  pub identity : IsIdentified c.reader_identity
  pub backoff : AreBackoffSettings c.backoff
  pub escalation : ArePolicySettings c.escalation
  pub serial : c.serial ≡ approved_serial
  pub gpio : c.gpio ≡ approved_gpio
  pub backend : (c.relay.backend ≡ "simulated") ⊎ (c.relay.backend ≡ "raspberry_pi")
  pub host : is_empty c.api.host ≡ false
  pub port : (1 ≤ c.api.port) × (c.api.port ≤ 65535)
  pub page : (1 ≤ c.api.max_event_page_size) × (c.api.max_event_page_size ≤ 1000)
  pub stale : IsPositiveOrNan c.api.operational_snapshot_stale_after_seconds
  pub usable : {w : WholeConfiguration} → whole c ≡ some w → IsUsable w

-- The parts that constructors have checked.
record IsChecked (c : SystemConfiguration) : Type 0 where
  identity : IsIdentified c.reader_identity
  backoff : AreBackoffSettings c.backoff
  escalation : ArePolicySettings c.escalation
