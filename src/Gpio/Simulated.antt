-- ===== src/Gpio/Simulated.antt =====
-- The log of the simulated relay of bridgewire/gpio.py and its level.
use frontdoor.Prelude.{ℕ, ◌≡◌, refl, String, Bool, true, false, none, List, [], ◌∷◌, ◌++◌, arith}
use frontdoor.Gpio.{
  setup, low, high, cleanup, RelayAction, SimulatedRelay, note, simulated_setup, command_on,
  simulated_command, cleanup_on, simulated_cleanup,
}

-- The level after the actions of a log, from a level before them.
abbrev pub level_after : Bool → List RelayAction → Bool
level_after level [] = level
level_after level (a ∷ rest) = elim a.action [
  | setup ↦ level_after level rest
  | low ↦ level_after false rest
  | high ↦ level_after true rest
  | cleanup ↦ level_after level rest
]

level_after-append :
    (level : Bool) (xs ys : List RelayAction)
    → level_after level (xs ++ ys) ≡ level_after (level_after level xs) ys
level_after-append level [] ys = refl
level_after-append level (x ∷ xs) ys =
    elim x.action
      as (λ t.
        level_after level (record x { action = t } ∷ xs ++ ys)
        ≡ level_after (level_after level (record x { action = t } ∷ xs)) ys) [
          | setup ↦ level_after-append level xs ys
          | low ↦ level_after-append false xs ys
          | high ↦ level_after-append true xs ys
          | cleanup ↦ level_after-append level xs ys
        ]

-- A call of a method of the relay, with what the clock reads in it.
pub data SimulatedCall : Type 0 where
  setup_at : ℕ → String → ℕ → SimulatedCall
  command_at : ℕ → Bool → SimulatedCall
  cleanup_at : ℕ → SimulatedCall

unfoldable pub simulate : SimulatedCall → SimulatedRelay → SimulatedRelay
simulate (setup_at now numbering channel) r = (simulated_setup now numbering channel r).1
simulate (command_at now level) r = (simulated_command now level r).1
simulate (cleanup_at now) r = (simulated_cleanup now r).1

unfoldable pub simulate_all : List SimulatedCall → SimulatedRelay → SimulatedRelay
simulate_all [] r = r
simulate_all (c ∷ cs) r = simulate_all cs (simulate c r)

-- The level is what the log says, and a relay that was not set up has an empty log.
abbrev pub IsLogged : SimulatedRelay → Type 0
IsLogged r = (r.is_high ≡ level_after false r.actions) × (r.channel ≡ none → r.actions ≡ [])

simulate-IsLogged : (c : SimulatedCall) (r : SimulatedRelay) → IsLogged r → IsLogged (simulate c r)
unfolding simulate simulated_setup simulated_command simulated_cleanup command_on cleanup_on note
simulate-IsLogged (setup_at now numbering channel) r h = grind (arith, level_after-append)
simulate-IsLogged (command_at now true) r h = grind (arith, level_after-append)
simulate-IsLogged (command_at now false) r h = grind (arith, level_after-append)
simulate-IsLogged (cleanup_at now) r h = grind (arith, level_after-append)

-- Over any calls of the methods, with any failures injected, the level of the relay is what its log
-- says, and a relay that was not set up has an empty log, where both held before.
pub simulate_all-IsLogged :
    (cs : List SimulatedCall) (r : SimulatedRelay) → IsLogged r → IsLogged (simulate_all cs r)
unfolding simulate_all
simulate_all-IsLogged [] r h = h
simulate_all-IsLogged (c ∷ cs) r h =
    simulate_all-IsLogged cs (simulate c r) (simulate-IsLogged c r h)
