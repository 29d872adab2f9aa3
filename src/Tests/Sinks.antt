-- ===== src/Tests/Sinks.antt =====
-- A sink over two lists of rows, whose connection refuses one event.
use frontdoor.Prelude.{
  ◌≡◌, refl, List, [], ◌∷◌, ◌++◌, ok, err, sqlite_error, str_eq, if◌then◌else◌, none, arith, Bool,
  true, false, Result,
}
use frontdoor.Queries.Rows.{Row, events_of}
use frontdoor.AuditSink.{Connection, append_all}
use frontdoor.AuditSink.Recorded.{Transacts, append_all-found}
use frontdoor.Tests.Pages.{demo_formats, first_event, second_event, third_event, event_accepted}
use frontdoor.Audit.{Severity}

abbrev Log : Type 0
Log = List Row × List Row

abbrev log_insert : Row → Log → Result (Unit {0}) × Log
log_insert row w =
    if str_eq row.event_id "b" then (err sqlite_error, w) else (ok tt, (w.0, w.1 ++ row ∷ []))

abbrev log_leave : Bool → Log → Result (Unit {0}) × Log
log_leave true w = (ok tt, (w.0 ++ w.1, []))
log_leave false w = (ok tt, (w.0, []))

abbrev log : Connection Log
log = record {
  make_directory = λ w. (ok tt, w);
  connect = λ w. (ok tt, w);
  execute = λ sql w. (ok tt, w);
  insert = log_insert;
  leave = log_leave;
  commit = λ w. (ok tt, w);
  count_rows = λ w. (ok none, w);
  close = λ w. (ok tt, w);
}

log-Transacts : Transacts log (λ w. w.0) (λ w. w.1)
log-Transacts = record {
  inserts = λ row w. ground arith;
  commits = λ w. (refl, λ done. refl, λ e failed. ground (arith, failed));
  rolls_back = λ w. (refl, refl);
}

append_all-found_example :
    let (recorded, w') =
      append_all log demo_formats (first_event ∷ second_event ∷ third_event ∷ []) ([], []) in
    (w'.1 ≡ []) × (events_of demo_formats w'.0 ≡ ok recorded)
append_all-found_example =
    append_all-found log demo_formats (λ w. w.0) (λ w. w.1) log-Transacts
      (first_event ∷ second_event ∷ third_event ∷ []) ([], []) refl refl
      (
        (record { json = refl; iso = refl }, event_accepted 1 "a" Severity.warning),
        (
          (record { json = refl; iso = refl }, event_accepted 2 "b" Severity.info),
          ((record { json = refl; iso = refl }, event_accepted 3 "c" Severity.warning), tt),
        ),
      )
