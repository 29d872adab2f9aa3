-- ===== src/Tests/Doors.antt =====
-- A door whose clock ticks once at each reading, whose relay and sink work, whose notification queue
-- is out of order, and that one badge opens.
use frontdoor.Prelude.{
  is_ok, runtime_error, ◌++◌, ◌≤◌, ◌<◌, ℕ, ◌+◌, ◌≡◌, ◌≢◌, ◌⊎◌, refl, inl, List, [], ◌∷◌, map, true,
  false, Option, none, some, ok, err, os_error, Exception, if◌then◌else◌,
}
use frontdoor.Clock.{utc}
use frontdoor.Escalation.{EscalationPolicy, new_tracker}
use frontdoor.Reader.Record.{Text, RecordResult, accepted, malformed}
use frontdoor.Authorization.{text_eq}
use frontdoor.Controller.State.{
  authorized, unknown, ControllerState, initializing, ready, released, faulted, stopped, Ports,
  AccessController, Door, new_controller,
}
use frontdoor.Controller.Tracing.{traced, relay_calls, commanded, cleaned_up}
use frontdoor.Controller.Operations.{
  Call, start_call, tick_call, shutdown_call, process_call, after_calls, process, tick, shutdown,
}
use frontdoor.Controller.Operations.Soundness.{IsSound, calls-IsSound}
use frontdoor.Controller.Operations.Relay.{IsGuarded, after_calls-IsGuarded, shutdown-log}
use frontdoor.Controller.Operations.Release.{SameHold, records-SameHold, tick_at_deadline}
use frontdoor.Controller.Operations.Total.{IsAttentive, process-returns}
use frontdoor.Access.{AccessServiceResult, submit_record, physical_reader}
use frontdoor.Controller.Operations.Live.{IsReliable, IsOpen, controller-serves}
use frontdoor.Access.Reports.{IsFaithful, submit_record-IsFaithful}

-- Badges that the tests read.
abbrev pub badge : Text
badge = b'0' ∷ b'1' ∷ b'2' ∷ b'3' ∷ b'4' ∷ b'5' ∷ b'6' ∷ b'7' ∷ b'8' ∷ b'F' ∷ []

abbrev pub stranger : Text
stranger = b'A' ∷ b'A' ∷ b'A' ∷ b'A' ∷ b'A' ∷ b'0' ∷ b'0' ∷ b'0' ∷ b'0' ∷ b'1' ∷ []

abbrev pub three_in_a_minute : EscalationPolicy
three_in_a_minute = record {
  warning_count = 3;
  warning_window = 60;
  critical_count = 5;
  critical_window = 300;
  reset_after = 600;
}

abbrev pub demo_ports : Ports ℕ
demo_ports = record {
  monotonic = λ w. (w, w + 1);
  now = λ w. (record { instant = w; zone = utc }, w);
  new_id = λ w. ("event", w);
  setup = λ numbering channel w. (ok tt, w);
  command = λ high w. (ok tt, w);
  cleanup = λ w. (ok tt, w);
  classify = λ c w. (ok (if text_eq c badge then authorized else unknown), w);
  append = λ event w. (ok tt, w);
  enqueue = λ event w. (err os_error, w);
}

abbrev pub demo_controller : ControllerState → Option ℕ → AccessController
demo_controller state deadline = record {
  escalation = new_tracker three_in_a_minute;
  release_seconds = 5;
  gpio_channel = 23;
  state = state;
  release_deadline = deadline;
  last_relay_command_high = none;
  last_credential_processed_at = none;
}

abbrev demo_door : {W : Type 0} → ControllerState → Option ℕ → W → Door W
demo_door state deadline w = record { controller = demo_controller state deadline; world = w }

abbrev demo_records : List RecordResult
demo_records =
    accepted (record { credential = stranger })
    ∷ malformed "checksum_mismatch"
    ∷ accepted (record { credential = badge })
    ∷ []

abbrev pub demo_calls : List Call
demo_calls = start_call ∷ map process_call demo_records ++ tick_call ∷ shutdown_call ∷ []

demo_ports-IsAttentive : IsAttentive demo_ports
demo_ports-IsAttentive = record {
  aware = λ w. refl;
  stores = λ event w. refl;
  classifies = λ c w. (_, refl);
}

calls-IsSound_example :
    IsSound (after_calls demo_ports demo_calls (demo_door initializing none 0)).controller
unfolding new_controller
calls-IsSound_example =
    calls-IsSound demo_ports demo_calls 0 (new_tracker three_in_a_minute) 5 23 refl

after_calls-IsGuarded_example :
    IsGuarded
      (after_calls (traced demo_ports) demo_calls (demo_door initializing none (0, []))).world.1
after_calls-IsGuarded_example =
    after_calls-IsGuarded demo_ports demo_calls (demo_door initializing none (0, [])) tt

shutdown-log_example :
    let (outcome, d') = shutdown (traced demo_ports) (demo_door released (some 9) (0, [])) in
    (d'.world.1 ≡ cleaned_up ∷ commanded false ∷ [])
    ⊎ ((d'.world.1 ≡ commanded false ∷ []) × (outcome ≢ ok tt))
shutdown-log_example =
    shutdown-log demo_ports (demo_door released (some 9) (0, [])) (λ same. absurd (cc))

process-returns_example :
    let d : Door ℕ = demo_door ready none 0 in
    let r = accepted (record { credential = badge }) in
    (d.controller.state ≡ ready → is_ok (process demo_ports r d).0 ≡ true)
    × (d.controller.state ≡ released → is_ok (process demo_ports r d).0 ≡ true)
    × (d.controller.state ≢ ready
        → d.controller.state ≢ released
        → process demo_ports r d ≡ (err runtime_error, d))
process-returns_example =
    process-returns demo_ports demo_ports-IsAttentive (accepted (record { credential = badge }))
      (demo_door ready none 0)

records-SameHold_example :
    let d' =
      after_calls
        (traced demo_ports)
        (map process_call demo_records)
        (demo_door released (some 9) (0, commanded true ∷ [])) in
    SameHold (demo_controller released (some 9)) d'.controller
    × (relay_calls d'.world.1 ≡ commanded true ∷ [])
records-SameHold_example =
    records-SameHold demo_ports demo_records (demo_door released (some 9) (0, commanded true ∷ []))
      refl

tick_at_deadline_example :
    let c' = (tick demo_ports (demo_door released (some 9) 12)).1.controller in
    (12 < 9 → (tick demo_ports (demo_door released (some 9) 12)).1 ≡ demo_door released (some 9) 13)
    × (9 ≤ 12
        → (demo_ports.command false 13).0 ≡ ok tt
        → c' ≡ record (demo_controller released (some 9)) {
          state = ready;
          release_deadline = none;
          last_relay_command_high = some false;
        })
    × ((e : Exception)
        → 9 ≤ 12
        → (demo_ports.command false 13).0 ≡ err e
        → c' ≡ record (demo_controller released (some 9)) { state = faulted })
tick_at_deadline_example = tick_at_deadline demo_ports (demo_door released (some 9) 12) refl refl

submit_record-IsFaithful_example :
    (a : AccessServiceResult) × ((submit_record demo_ports
        (accepted (record { credential = badge }))
        physical_reader
        (demo_door ready none 0)).0
      ≡ ok a)
    × IsFaithful ready
        (submit_record demo_ports
          (accepted (record { credential = badge }))
          physical_reader
          (demo_door ready none 0)).1.controller.state
        false
        a
submit_record-IsFaithful_example =
    submit_record-IsFaithful demo_ports demo_ports-IsAttentive
      (accepted (record { credential = badge })) physical_reader (demo_door ready none 0) (inl refl)

demo_ports-IsReliable : IsReliable demo_ports
demo_ports-IsReliable = record {
  attentive = demo_ports-IsAttentive;
  sets_up = λ numbering channel w. refl;
  commands = λ high w. refl;
  cleans_up = λ w. refl;
}

controller-serves_example :
    let d =
      after_calls demo_ports
        (start_call ∷ process_call (accepted (record { credential = badge })) ∷ tick_call ∷ [])
        (demo_door initializing none 0) in
    IsOpen d.controller
    × (is_ok (process demo_ports (malformed "noise") d).0 ≡ true)
    × ((shutdown demo_ports d).0 ≡ ok tt)
    × ((shutdown demo_ports d).1.controller.state ≡ stopped)
unfolding new_controller
controller-serves_example =
    controller-serves demo_ports
      (process_call (accepted (record { credential = badge })) ∷ tick_call ∷ []) 0
      (new_tracker three_in_a_minute) 5 23 (malformed "noise") demo_ports-IsReliable refl
      (refl, (refl, tt))
