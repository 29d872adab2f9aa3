-- ===== src/Controller/Operations/Release.antt =====
-- How long a release of bridgewire/controller.py lasts.
use frontdoor.Prelude.{
  ℕ, ◌≤◌, ◌<◌, ◌≡◌, refl, false, none, some, List, [], ◌∷◌, map, Exception, ok, err, arith, ◌∙◌,
}
use frontdoor.Reader.Record.{RecordResult, ParsedRecord, accepted, malformed}
use frontdoor.Controller.State.{
  AuthorizationOutcome, authorized, denied, unknown, ready, released, faulted, Ports,
  AccessController, Door,
}
use frontdoor.Controller.Effects.{command}
use frontdoor.Controller.Effects.Frames.{audit-controller, record_suspicious-SameRelease}
use frontdoor.Controller.Tracing.{Traced, traced, relay_calls}
use frontdoor.Controller.Operations.Relay.{audit-log, refuse-log, record_suspicious-log}
use frontdoor.Controller.Operations.{
  process, process_from, dispatch, process_parsed, process_malformed, by_outcome, refuse,
  release_from, tick, tick_at, restored, restore_failed, process_call, after_call, after_calls,
}

-- The release that a controller is in.
pub record SameHold (c c' : AccessController) : Type 0 where
  pub state : c'.state ≡ c.state
  pub release_deadline : c'.release_deadline ≡ c.release_deadline
  pub last_relay_command_high : c'.last_relay_command_high ≡ c.last_relay_command_high

module _ {W : Type 0} (ports : Ports W) where
  by_outcome-SameHold :
      (o : AuthorizationOutcome) (d : Door W)
      → d.controller.state ≡ released
      → SameHold d.controller (by_outcome ports o d).1.controller
  unfolding by_outcome refuse release_from
  by_outcome-SameHold denied d s = grind (arith, audit-controller, record_suspicious-SameRelease)
  by_outcome-SameHold unknown d s = grind (arith, audit-controller, record_suspicious-SameRelease)
  by_outcome-SameHold authorized d s = grind (arith, audit-controller)

  process_parsed-SameHold :
      (p : ParsedRecord) (d : Door W)
      → d.controller.state ≡ released
      → SameHold d.controller (process_parsed ports p d).1.controller
  unfolding process_parsed
  process_parsed-SameHold p d s = grind (arith, by_outcome-SameHold)

  process-SameHold :
      (r : RecordResult) (d : Door W)
      → d.controller.state ≡ released
      → SameHold d.controller (process ports r d).1.controller
  unfolding process process_from dispatch process_malformed
  process-SameHold (accepted p) d s = grind (arith, process_parsed-SameHold p d)
  process-SameHold (malformed reason) d s =
      grind (arith, audit-controller, record_suspicious-SameRelease)

  records_keep :
      (records : List RecordResult) (d : Door W)
      → d.controller.state ≡ released
      → SameHold d.controller (after_calls ports (map process_call records) d).controller
  unfolding after_calls after_call
  records_keep [] d s = record {
    state = refl;
    release_deadline = refl;
    last_relay_command_high = refl;
  }
  records_keep (r ∷ records) d s =
      let now = process-SameHold r d s in
      let later = records_keep records (process ports r d).1 (now.state ∙ s) in
      record {
        state = later.state ∙ now.state;
        release_deadline = later.release_deadline ∙ now.release_deadline;
        last_relay_command_high = later.last_relay_command_high ∙ now.last_relay_command_high;
      }

  by_outcome-log :
      (o : AuthorizationOutcome) (d : Door (Traced W))
      → d.controller.state ≡ released
      → (by_outcome (traced ports) o d).1.world.1 ≡ d.world.1
  unfolding by_outcome release_from
  by_outcome-log denied d s = refuse-log ports _ denied d
  by_outcome-log unknown d s = refuse-log ports _ unknown d
  by_outcome-log authorized d s = grind (arith, audit-log ports, audit-controller)

  process-relay_calls :
      (r : RecordResult) (d : Door (Traced W))
      → d.controller.state ≡ released
      → relay_calls (process (traced ports) r d).1.world.1 ≡ relay_calls d.world.1
  unfolding process process_from dispatch process_parsed process_malformed
  process-relay_calls (accepted p) d s = grind (arith, by_outcome-log)
  process-relay_calls (malformed reason) d s =
      grind (arith, audit-log ports, record_suspicious-log ports)

  -- A tick of a released door reads the clock once. Before the deadline it does nothing more; from
  -- the deadline on it commands LOW, and the door is ready if the relay takes the command and faulted
  -- if it does not.
  pub tick_at_deadline :
      (d : Door W) {deadline : ℕ}
      → d.controller.state ≡ released
      → d.controller.release_deadline ≡ some deadline
      → let (now, w) = ports.monotonic d.world in
        let c' = (tick ports d).1.controller in
        (now < deadline → (tick ports d).1 ≡ record d { world = w })
        × (deadline ≤ now
            → (ports.command false w).0 ≡ ok tt
            → c' ≡ record d.controller {
              state = ready;
              release_deadline = none;
              last_relay_command_high = some false;
            })
        × ((e : Exception)
            → deadline ≤ now
            → (ports.command false w).0 ≡ err e
            → c' ≡ record d.controller { state = faulted })
  unfolding tick tick_at restored restore_failed command
  tick_at_deadline d s due = (
    λ early. ground arith,
    λ late took. grind (arith, audit-controller),
    λ e late failed. grind (arith, audit-controller),
  )

-- While the door is released no record that comes in, of any kind, moves the deadline or changes the
-- state, and none calls the relay: a log of the calls of the ports has no call of it that was not
-- there before.
pub records-SameHold :
    {W : Type 0} (ports : Ports W) (records : List RecordResult) (d : Door (Traced W))
    → d.controller.state ≡ released
    → let d' = after_calls (traced ports) (map process_call records) d in
      SameHold d.controller d'.controller × (relay_calls d'.world.1 ≡ relay_calls d.world.1)
unfolding after_calls after_call
records-SameHold ports [] d s = (records_keep (traced ports) [] d s, refl)
records-SameHold ports (r ∷ records) d s =
    let d' = (process (traced ports) r d).1 in
    let now = process-SameHold (traced ports) r d s in
    let (_, quiet) = records-SameHold ports records d' (now.state ∙ s) in
    (records_keep (traced ports) (r ∷ records) d s, quiet ∙ process-relay_calls ports r d s)
