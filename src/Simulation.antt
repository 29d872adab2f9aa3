-- ===== src/Simulation.antt =====
-- The simulated surroundings of a controller in bridgewire/simulation.py: a manual clock, events in
-- memory, a simulated relay and a loaded authorization store. `uuid4` is a parameter.
pub mod Line
use frontdoor.Prelude.{ℕ, ◌+◌, String, Bool, ok, Result, Exec}
use frontdoor.Clock.{ManualClock, advance}
use frontdoor.Audit.{AuditEvent}
use frontdoor.Audit.Memory.{EventList, append_event}
use frontdoor.Authorization.{AuthorizationStore, classify}
use frontdoor.Gpio.{SimulatedRelay, simulated_setup, simulated_command, simulated_cleanup}
use frontdoor.Controller.State.{Ports}

-- The objects that `run_vertical_slice_result` constructs, and how many ids were drawn.
pub record Simulated (Files : Type 0) : Type 0 where
  pub clock : ManualClock
  pub audit : EventList
  pub notifications : EventList
  pub store : AuthorizationStore Files
  pub relay : SimulatedRelay
  pub drawn : ℕ

module _ {Files : Type 0} (uuid4 : ℕ → String) where
  -- A method of the relay, whose actions have the time of the clock.
  abbrev pub on_relay :
      (ℕ → Exec SimulatedRelay Unit) → Simulated Files → Result (Unit {0}) × Simulated Files
  on_relay m s = let (result, r) = m s.clock.elapsed s.relay in (result, record s { relay = r })

  abbrev pub simulated_ports : Ports (Simulated Files)
  simulated_ports = record {
    monotonic = λ s. (s.clock.elapsed, s);
    now = λ s. (s.clock.wall_time, s);
    new_id = λ s. (uuid4 s.drawn, record s { drawn = s.drawn + 1 });
    setup = λ numbering channel. on_relay (λ now. simulated_setup now numbering channel);
    command = λ high. on_relay (λ now. simulated_command now high);
    cleanup = on_relay simulated_cleanup;
    classify = λ credential s. (ok (classify s.store credential), s);
    append = λ event s. (ok tt, record s { audit = append_event event s.audit });
    enqueue = λ event s. (ok tt, record s { notifications = append_event event s.notifications });
  }
