-- ===== src/Tests/Supervisors.antt =====
-- A supervisor of a reader that is unplugged, or whose cable is pulled while it is read.
use frontdoor.Prelude.{
  ℕ, ◌+◌, ◌≤◌, ◌≡◌, refl, arith, [], Option, some, none, true, false, ok, err,
  reader_disconnected_error, overflow_error,
}
use frontdoor.Reader.Stream.{new_stream}
use frontdoor.Reader.Supervisor.State.{
  ReaderSupervisor, Host, Reading, ReaderHealthState, ready, degraded,
}
use frontdoor.Reader.Supervisor.Connect.{connect_until_ready}
use frontdoor.Reader.Supervisor.Connect.Health.{AfterConnect, connect_until_ready-AfterConnect}
use frontdoor.Reader.Supervisor.Connect.Overflow.{connect_until_ready_silent}
use frontdoor.Tests.Readers.{demo_identity, demo_backoff}

-- No device is listed, and every read finds the cable pulled. A session is a number.
abbrev pulled : Host ℕ ℕ
pulled = record {
  enumerate_devices = λ w. (ok [], w);
  open_reader = λ path w. (ok 1, w);
  usable = λ session. true;
  read = λ session w. (err reader_disconnected_error, w);
  close = λ session w. (ok tt, w);
  wait = λ reader seconds w. (ok true, w + 1);
  emit = λ reader event w. (ok tt, w);
  random_unit = λ w. (ok 500, w);
  monotonic = none;
}

abbrev pub demo_supervisor : Option ℕ → ReaderHealthState → ℕ → ReaderSupervisor ℕ
demo_supervisor session health attempt = record {
  identity = demo_identity;
  backoff = demo_backoff;
  repeated_failure_threshold = 3;
  session = session;
  attempt = attempt;
  had_connection = true;
  repeated_failure_emitted = false;
  last_record_at = none;
  health_state = health;
}

abbrev unplugged : ℕ → Reading ℕ ℕ
unplugged attempt = record {
  reader = demo_supervisor none degraded attempt;
  stream = new_stream 64;
  world = 0;
}

abbrev plugged : Reading ℕ ℕ
plugged = record { reader = demo_supervisor (some 1) ready 0; stream = new_stream 64; world = 0 }

connect_until_ready-AfterConnect_example :
    let (outcome, r') = connect_until_ready pulled 4 (unplugged 2) in
    AfterConnect 2 4 outcome r'.reader
connect_until_ready-AfterConnect_example =
    connect_until_ready-AfterConnect pulled 4 (unplugged 2) refl

connect_until_ready_silent_example :
    let result = (connect_until_ready pulled 3 (unplugged 1023)).0 in
    (1023 + 3 ≤ 1024 → result ≡ ok false) × (1025 ≤ 1023 + 3 → result ≡ err overflow_error)
connect_until_ready_silent_example =
    connect_until_ready_silent pulled 3 (unplugged 1023)
      (record {
        no_device = λ w. refl;
        emits = λ s e w. refl;
        waits = λ s t w. refl;
        random = λ w. refl;
      })
      (omega arith)
