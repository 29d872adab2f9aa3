-- ===== src/Configuration/Load.antt =====
-- `load_configuration` of bridgewire/configuration.py.
use frontdoor.Prelude.{
  is_empty, String, Bool, not, ◌&&◌, ◌||◌, Exception, value_error, invalid_query_error, type_error,
  key_error, os_error, reader_disconnected_error, Result, ok, err, str_eq, leb, ◌==◌, if◌then◌else◌,
}
use frontdoor.Prelude.Results.{◌>>=◌}
use frontdoor.Configuration.Settings.{
  exact, float_le, float_eq, BackoffSettings, EscalationSettings, checked_backoff, checked_policy,
}
use frontdoor.Reader.Discovery.{ReaderIdentity, checked_identity}
use frontdoor.Configuration.{
  Table, SerialConfiguration, GpioConfiguration, ApiConfiguration, api_defaults,
  SystemConfiguration, get, as_table, as_integer, as_number, as_string, as_boolean, optional,
  or_default, strip, path_of, empty, entry, text,
}

unfoldable pub read_identity : Table → Result ReaderIdentity
read_identity reader = do
  by_id_path ← optional as_string (get reader "by_id_path")
  vid ← optional as_integer (get reader "vid")
  pid ← optional as_integer (get reader "pid")
  serial_number ← optional as_string (get reader "serial_number")
  manufacturer ← optional as_string (get reader "manufacturer")
  product ← optional as_string (get reader "product")
  checked_identity (record {
    by_id_path = path_of by_id_path;
    vid = vid;
    pid = pid;
    serial_number = serial_number;
    manufacturer = manufacturer;
    product = product;
  })

unfoldable pub read_serial : Table → Result SerialConfiguration
read_serial serial = do
  baud_rate ← as_integer (get serial "baud_rate")
  data_bits ← as_integer (get serial "data_bits")
  parity ← as_string (get serial "parity")
  stop_bits ← as_integer (get serial "stop_bits")
  timeout_seconds ← as_number (get serial "timeout_seconds")
  maximum_record_bytes ← as_integer (get serial "maximum_record_bytes")
  ok (record {
    baud_rate = baud_rate;
    data_bits = data_bits;
    parity = parity;
    stop_bits = stop_bits;
    timeout_seconds = timeout_seconds;
    maximum_record_bytes = maximum_record_bytes;
  })

unfoldable pub read_gpio : Table → Result GpioConfiguration
read_gpio gpio = do
  numbering ← as_string (get gpio "numbering")
  channel ← as_integer (get gpio "channel")
  normal_high ← as_boolean (get gpio "normal_high")
  release_high ← as_boolean (get gpio "release_high")
  release_seconds ← as_number (get gpio "release_seconds")
  ok (record {
    numbering = numbering;
    channel = channel;
    normal_high = normal_high;
    release_high = release_high;
    release_seconds = release_seconds;
  })

unfoldable pub read_backoff : Table → Result BackoffSettings
read_backoff reconnect = do
  minimum ← as_number (get reconnect "minimum_seconds")
  maximum ← as_number (get reconnect "maximum_seconds")
  jitter ← as_number (get reconnect "jitter")
  checked_backoff (record { minimum = minimum; maximum = maximum; jitter = jitter })

unfoldable pub read_escalation : Table → Result EscalationSettings
read_escalation escalation = do
  warning_count ← as_integer (get escalation "warning_count")
  warning_window ← as_number (get escalation "warning_window_seconds")
  critical_count ← as_integer (get escalation "critical_count")
  critical_window ← as_number (get escalation "critical_window_seconds")
  reset_after ← as_number (get escalation "reset_after_seconds")
  checked_policy (record {
    warning_count = warning_count;
    warning_window = warning_window;
    critical_count = critical_count;
    critical_window = critical_window;
    reset_after = reset_after;
  })

unfoldable pub read_api : Table → Result ApiConfiguration
read_api api = do
  enabled ← or_default as_boolean api_defaults.enabled (get api "enabled")
  host ← or_default (λ v. as_string v >>= λ s. ok (strip s)) api_defaults.host (get api "host")
  port ← or_default as_integer api_defaults.port (get api "port")
  page ← or_default as_integer api_defaults.max_event_page_size (get api "max_event_page_size")
  stale ←
      or_default as_number api_defaults.operational_snapshot_stale_after_seconds
        (get api "operational_snapshot_stale_after_seconds")
  ok (record {
    enabled = enabled;
    host = host;
    port = port;
    max_event_page_size = page;
    operational_snapshot_stale_after_seconds = stale;
  })

-- The body of the `try`, once the file is parsed.
unfoldable pub read_tables : Table → Result SystemConfiguration
unfolding read_identity read_serial read_gpio read_backoff read_escalation read_api
read_tables raw = do
  reader ← as_table (get raw "reader")
  serial ← as_table (get raw "serial")
  gpio ← as_table (get raw "gpio")
  reconnect ← as_table (get raw "reconnect")
  escalation ← as_table (get raw "escalation")
  relay ← or_default as_table (entry "backend" (text "simulated") empty) (get raw "relay")
  api ← or_default as_table empty (get raw "api")
  identity ← read_identity reader
  serial_config ← read_serial serial
  gpio_config ← read_gpio gpio
  backoff ← read_backoff reconnect
  escalation_policy ← read_escalation escalation
  backend ← as_string (get relay "backend")
  api_config ← read_api api
  ok (record {
    reader_identity = identity;
    serial = serial_config;
    gpio = gpio_config;
    backoff = backoff;
    escalation = escalation_policy;
    relay = record { backend = backend };
    api = api_config;
  })

-- `serial_config == SerialConfiguration(9600, 8, "none", 1, 1.0, 16)`
abbrev pub is_approved_serial : SerialConfiguration → Bool
is_approved_serial s =
    (s.baud_rate == 9600)
    && ((s.data_bits == 8)
        && (str_eq s.parity "none"
            && ((s.stop_bits == 1)
                && (float_eq s.timeout_seconds (exact 1000) && (s.maximum_record_bytes == 16)))))

-- `gpio_config == GpioConfiguration("BCM", 23, False, True, 3.0)`
abbrev pub is_approved_gpio : GpioConfiguration → Bool
is_approved_gpio g =
    str_eq g.numbering "BCM"
    && ((g.channel == 23)
        && (not g.normal_high && (g.release_high && float_eq g.release_seconds (exact 3000))))

-- The checks after the `try`.
unfoldable pub check_configuration : SystemConfiguration → Result SystemConfiguration
check_configuration c =
    if not (is_approved_serial c.serial)
    then err value_error
    else if not (is_approved_gpio c.gpio)
    then err value_error
    else if not (str_eq c.relay.backend "simulated" || str_eq c.relay.backend "raspberry_pi")
    then err value_error
    else if is_empty c.api.host
    then err value_error
    else if not (leb 1 c.api.port && leb c.api.port 65535)
    then err value_error
    else if not (leb 1 c.api.max_event_page_size && leb c.api.max_event_page_size 1000)
    then err value_error
    else if float_le c.api.operational_snapshot_stale_after_seconds (exact 0)
    then err value_error
    else ok c

-- `except (OSError, KeyError, TypeError, ValueError, TOMLDecodeError)`
abbrev pub as_configuration_error : Exception → Exception
as_configuration_error os_error = value_error
as_configuration_error reader_disconnected_error = value_error
as_configuration_error key_error = value_error
as_configuration_error type_error = value_error
as_configuration_error value_error = value_error
as_configuration_error invalid_query_error = value_error
as_configuration_error e = e

abbrev pub caught {ℓ} : {A : Type ℓ} → Result A → Result A
caught (ok a) = ok a
caught (err e) = err (as_configuration_error e)

-- `load_configuration`, of the text that the file system gives and the TOML parser.
unfoldable pub load_configuration :
    (String → Result Table) → Result String → Result SystemConfiguration
load_configuration loads read = caught (read >>= loads >>= read_tables) >>= check_configuration
