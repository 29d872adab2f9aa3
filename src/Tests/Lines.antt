-- ===== src/Tests/Lines.antt =====
-- The simulated surroundings of a door that reads a badge.
use frontdoor.Prelude.{ℕ, ◌≡◌, ◌⊎◌, refl, true, false, none, [], ◌∷◌}
use frontdoor.Clock.{utc}
use frontdoor.Escalation.{new_tracker}
use frontdoor.Gpio.{new_simulated}
use frontdoor.Controller.State.{initializing, ready, released, stopped, new_controller}
use frontdoor.Controller.Operations.{after_calls}
use frontdoor.Controller.Operations.Line.Followed.{line-follows}
use frontdoor.Simulation.{Simulated, simulated_ports}
use frontdoor.Simulation.Line.{is_high, simulated-HasLine}
use frontdoor.Tests.Doors.{demo_controller, demo_calls, badge, three_in_a_minute}

abbrev surroundings : Simulated ℕ
surroundings = record {
  clock = record { elapsed = 0; wall_time = record { instant = 0; zone = utc } };
  audit = record { events = [] };
  notifications = record { events = [] };
  store = record {
    records = (badge, record { key = badge; name = none; allow = true }) ∷ [];
    version = none;
    modified_at = none;
    world = 0;
  };
  relay = new_simulated;
  drawn = 0;
}

line-follows_example :
    let d =
      after_calls
        (simulated_ports (λ n. "event"))
        demo_calls
        (record { controller = demo_controller initializing none; world = surroundings }) in
    (d.controller.state ≡ released → d.world.relay.is_high ≡ true)
    × ((d.controller.state ≡ ready) ⊎ (d.controller.state ≡ stopped)
        → d.world.relay.is_high ≡ false)
unfolding new_controller
line-follows_example =
    line-follows (simulated_ports (λ n. "event")) is_high demo_calls surroundings
      (new_tracker three_in_a_minute) 5 23 (simulated-HasLine (λ n. "event")) refl
