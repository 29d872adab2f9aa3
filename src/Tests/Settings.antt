-- ===== src/Tests/Settings.antt =====
-- The configuration configs/hardware-bench.toml.
use frontdoor.Prelude.{Bool, ok, ◌≡◌, refl, true, false, some, none}
use frontdoor.Prelude.Results.{◌>>=◌}
use frontdoor.Reader.Discovery.{checked_identity}
use frontdoor.Configuration.Settings.{exact, nan, checked_backoff, checked_policy}
use frontdoor.Configuration.{
  Table, empty, entry, integer, float, text, boolean, table, SystemConfiguration, api_defaults,
}
use frontdoor.Configuration.Load.{
  load_configuration, read_tables, read_identity, read_serial, read_gpio, read_backoff,
  read_escalation, read_api, check_configuration,
}
use frontdoor.Configuration.Approved.{approved_serial, approved_gpio}

abbrev reader : Table
reader =
    entry "by_id_path" (text "/dev/serial/by-id/usb-1a86_USB_Serial-if00-port0")
      (entry "vid" (integer 6790) (entry "pid" (integer 29987) empty))

abbrev serial : Table
serial = entry "baud_rate" (integer 9600) (
    entry "data_bits" (integer 8) (
      entry "parity" (text "none") (
        entry "stop_bits" (integer 1) (
          entry "timeout_seconds" (float (exact 1000))
            (entry "maximum_record_bytes" (integer 16) empty)))))

abbrev gpio : Table
gpio = entry "numbering" (text "BCM") (
    entry "channel" (integer 23) (
      entry "normal_high" (boolean false)
        (entry "release_high" (boolean true) (entry "release_seconds" (float (exact 3000)) empty))))

abbrev api : Bool → Table
api enabled = entry "enabled" (boolean enabled) (
    entry "host" (text " 127.0.0.1 ") (
      entry "port" (integer 8080) (
        entry "max_event_page_size" (integer 100)
          (entry "operational_snapshot_stale_after_seconds" (float (exact 10000)) empty))))

abbrev reconnect : Table
reconnect =
    entry "minimum_seconds" (float (exact 1000))
      (entry "maximum_seconds" (float (exact 30000)) (entry "jitter" (float (exact 0)) empty))

abbrev escalation : Table
escalation = entry "warning_count" (integer 3) (
    entry "warning_window_seconds" (float (exact 60000)) (
      entry "critical_count" (integer 5) (
        entry "critical_window_seconds" (float (exact 300000))
          (entry "reset_after_seconds" (float (exact 900000)) empty))))

abbrev pub bench_with : Bool → Table
bench_with enabled = entry "reader" (table reader) (
    entry "serial" (table serial) (
      entry "gpio" (table gpio) (
        entry "relay" (table (entry "backend" (text "raspberry_pi") empty)) (
          entry "api" (table (api enabled))
            (entry "reconnect" (table reconnect) (entry "escalation" (table escalation) empty))))))

abbrev bench_tables : Table
bench_tables = bench_with false

abbrev bench : SystemConfiguration
bench = record {
  reader_identity = record {
    by_id_path = some "/dev/serial/by-id/usb-1a86_USB_Serial-if00-port0";
    vid = some 6790;
    pid = some 29987;
    serial_number = none;
    manufacturer = none;
    product = none;
  };
  serial = approved_serial;
  gpio = approved_gpio;
  backoff = record { minimum = exact 1000; maximum = exact 30000; jitter = exact 0 };
  escalation = record {
    warning_count = 3;
    warning_window = exact 60000;
    critical_count = 5;
    critical_window = exact 300000;
    reset_after = exact 900000;
  };
  relay = record { backend = "raspberry_pi" };
  api = api_defaults;
}

-- The bench with a freshness threshold of nan.
abbrev nan_api : Table
nan_api = entry "operational_snapshot_stale_after_seconds" (float nan) (api false)

abbrev nan_tables : Table
nan_tables = entry "api" (table nan_api) bench_tables

nan_loads :
    load_configuration (λ text. ok nan_tables) (ok "[reader]")
    ≡ ok (record bench {
      api = record api_defaults { operational_snapshot_stale_after_seconds = nan };
    })
unfolding ◌>>=◌ load_configuration read_tables read_identity read_serial read_gpio read_backoff
    read_escalation read_api check_configuration checked_identity checked_backoff checked_policy
nan_loads = refl
