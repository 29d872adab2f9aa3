-- ===== src/Simulation/Line.antt =====
-- The line of the simulated relay of bridgewire/gpio.py follows the commands that it takes.
use frontdoor.Prelude.{ℕ, String, Bool, true, false, ok, err, Exception, ◌≡◌, refl, arith}
use frontdoor.Gpio.{SimulatedRelay, simulated_setup, simulated_command, simulated_cleanup}
use frontdoor.Controller.Operations.Line.{HasLine}
use frontdoor.Simulation.{Simulated, simulated_ports}

abbrev pub is_high : {Files : Type 0} → Simulated Files → Bool
is_high s = s.relay.is_high

module _ (now : ℕ) (r : SimulatedRelay) where
  command_sets :
      (high : Bool)
      → (simulated_command now high r).0 ≡ ok tt
      → (simulated_command now high r).1.is_high ≡ high
  unfolding simulated_command
  command_sets true done = ground arith
  command_sets false done = ground arith

  command_leaves :
      (high : Bool) (e : Exception)
      → (simulated_command now high r).0 ≡ err e
      → (simulated_command now high r).1.is_high ≡ r.is_high
  unfolding simulated_command
  command_leaves true e failed = ground arith
  command_leaves false e failed = ground arith

  setup_leaves :
      (numbering : String) (channel : ℕ)
      → (simulated_setup now numbering channel r).1.is_high ≡ r.is_high
  unfolding simulated_setup
  setup_leaves numbering channel = ground arith

  cleanup_leaves : (simulated_cleanup now r).1.is_high ≡ r.is_high
  unfolding simulated_cleanup
  cleanup_leaves = ground arith

pub simulated-HasLine :
    {Files : Type 0} (uuid4 : ℕ → String)
    → HasLine {W = Simulated Files} (simulated_ports uuid4) is_high
simulated-HasLine uuid4 = record {
  sets = λ high s. command_sets s.clock.elapsed s.relay high;
  leaves = λ high s. command_leaves s.clock.elapsed s.relay high;
  sets_up = λ numbering channel s low.
      ground (arith, setup_leaves s.clock.elapsed s.relay numbering channel, low);
  cleans_up = λ s low. ground (arith, cleanup_leaves s.clock.elapsed s.relay, low);
  ticks = λ s. refl;
  dates = λ s. refl;
  names = λ s. refl;
  classifies = λ c s. refl;
  appends = λ e s. refl;
  enqueues = λ e s. refl;
}
