-- ===== src/Tests/Services.antt =====
-- A hardware service whose stop was requested at once, over a relay line that is low or not.
use frontdoor.Prelude.{
  ℕ, ◌≡◌, ◌≤◌, refl, true, false, not, none, some, List, [], ◌∷◌, ok, os_error, runtime_error, Bool,
  All,
}
use frontdoor.Clock.{utc}
use frontdoor.Controller.State.{Ports, unknown}
use frontdoor.Server.{failed}
use frontdoor.Runtime.{Devices}
use frontdoor.Service.{Environment, new_service_state, kept, observe_api}
use frontdoor.Service.Retained.{
  ServiceCall, retain_call, observe_call, stop_call, failed_call, after_service_calls, times_kept,
  observe_api-once,
}
use frontdoor.Service.Finish.{run_hardware_service}
use frontdoor.Service.Secured.{WhenEnded}
use frontdoor.Service.Sound.{IsSecured, run_hardware_service-IsSecured}
use frontdoor.Service.Outcome.{IsClean, run_hardware_service-IsClean}
use frontdoor.Tests.Settings.{bench_with}

-- The world: whether the line is low.
abbrev line_ports : Ports Bool
line_ports = record {
  monotonic = λ w. (0, w);
  now = λ w. (record { instant = 0; zone = utc }, w);
  new_id = λ w. ("event", w);
  setup = λ numbering channel w. (ok tt, true);
  command = λ high w. (ok tt, not high);
  cleanup = λ w. (ok tt, true);
  classify = λ c w. (ok unknown, w);
  append = λ event w. (ok tt, w);
  enqueue = λ event w. (ok tt, w);
}

abbrev line_devices : Devices Bool ℕ
line_devices = record {
  ports = line_ports;
  report = λ status details w. (ok tt, w);
  is_set = λ w. (true, w);
  wait_for = λ seconds w. (true, w);
  set_stop = λ w. w;
  interval = 50;
  enumerate_devices = λ w. (ok [], w);
  open_reader = λ path w. (ok 1, w);
  usable = λ session. true;
  read = λ session w. (ok [], w);
  close = λ session w. (ok tt, w);
  random_unit = λ w. (ok 500, w);
}

-- The API server keeps one failure, and raises it again when it is stopped.
abbrev line_service : Bool → Environment Bool ℕ
line_service api = record {
  devices = line_devices;
  read_configuration = λ w. (ok "[reader]", w);
  loads = λ text. ok (bench_with api);
  open_audit = λ w. (ok tt, w);
  load_authorization = λ w. (ok tt, w);
  open_relay = λ w. (ok tt, w);
  install_signals = λ w. (ok tt, w);
  report_with_api = λ status details enabled state w. (ok tt, w);
  software_version = "0.1.0";
  create_server = λ w. (ok tt, w);
  start_server = λ w. (none, w);
  stop_server = λ w. (some (kept 7 runtime_error), w);
  snapshot = λ w. ((failed, (7, runtime_error) ∷ []), w);
  print_ready = λ w. (ok tt, w);
  close_audit = λ w. (ok tt, w);
}

run_hardware_service-IsSecured_example :
    WhenEnded
      (IsSecured (λ low. low ≡ true))
      (run_hardware_service (line_service true) true 1 false)
run_hardware_service-IsSecured_example =
    run_hardware_service-IsSecured (λ low. low ≡ true) (line_service true) true 1 false
      (record {
        cleans = λ w. refl;
        reports = λ status details enabled state w low. low;
        shows = λ w low. low;
        stops = λ w low. low;
        closes = λ w low. low;
      })

run_hardware_service-IsClean_example :
    WhenEnded IsClean (run_hardware_service (line_service false) true 1 false)
run_hardware_service-IsClean_example =
    run_hardware_service-IsClean (line_service false) true 1 false

abbrev some_calls : List ServiceCall
some_calls =
    observe_call ∷ failed_call os_error ∷ retain_call (kept 7 runtime_error) ∷ stop_call ∷ []

observe_api-once_example :
    let env = line_service true in
    let s = record (new_service_state true false) { api_server = true } in
    let before = after_service_calls env true some_calls s in
    let after = observe_api env true before in
    ((object : ℕ) → times_kept object after ≤ 1)
    × All (λ f. times_kept f.0 after ≡ 1) (env.snapshot before.world).0.1
observe_api-once_example = observe_api-once (line_service true) true some_calls false
