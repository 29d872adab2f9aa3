-- ===== src/Gpio.antt =====
-- bridgewire/gpio.py: the simulated relay and the adapter of the Raspberry Pi. The library RPi.GPIO
-- and the simulated relay's clock are parameters.
pub mod Simulated
pub mod Driven
use frontdoor.Prelude.{
  ℕ, String, Bool, true, false, not, ◌||◌, Option, none, some, List, [], ◌∷◌, ◌++◌, Exception,
  value_error, runtime_error, Result, ok, err, Exec, pure, raise, gets, modify, ◌>>=◌, ◌>>◌, str_eq,
  ◌==◌, if◌then◌else◌,
}

pub data RelayActionType : Type 0 where
  setup low high cleanup : RelayActionType

pub record RelayAction : Type 0 where
  pub action : RelayActionType
  pub timestamp : ℕ
  pub channel : ℕ

pub record SimulatedRelay : Type 0 where
  pub actions : List RelayAction
  pub is_high : Bool
  pub channel : Option ℕ
  pub numbering : Option String
  pub fail_next_high : Bool
  pub fail_next_low : Bool
  pub fail_next_setup : Bool
  pub fail_next_cleanup : Bool

-- `SimulatedRelay.__init__`
abbrev pub new_simulated : SimulatedRelay
new_simulated = record {
  actions = [];
  is_high = false;
  channel = none;
  numbering = none;
  fail_next_high = false;
  fail_next_low = false;
  fail_next_setup = false;
  fail_next_cleanup = false;
}

abbrev pub level_action : Bool → RelayActionType
level_action true = high
level_action false = low

-- The methods of `SimulatedRelay`; `now` is what the clock reads in the call.
module _ (now : ℕ) where
  pub note : RelayActionType → ℕ → SimulatedRelay → SimulatedRelay
  note action channel r = record r {
    actions = r.actions ++ (record { action = action; timestamp = now; channel = channel } ∷ []);
  }

  unfoldable pub simulated_setup : String → ℕ → Exec SimulatedRelay Unit
  unfolding note
  simulated_setup numbering channel r =
      if r.fail_next_setup then (err runtime_error, record r { fail_next_setup = false }) else (
        ok tt,
        note setup channel (record r { numbering = some numbering; channel = some channel }),
      )

  pub command_on : Option ℕ → Bool → Exec SimulatedRelay Unit
  unfolding note
  command_on none level r = (err runtime_error, r)
  command_on (some channel) true r =
      if r.fail_next_high
      then (err runtime_error, record r { fail_next_high = false })
      else (ok tt, note (level_action true) channel (record r { is_high = true }))
  command_on (some channel) false r =
      if r.fail_next_low
      then (err runtime_error, record r { fail_next_low = false })
      else (ok tt, note (level_action false) channel (record r { is_high = false }))

  unfoldable pub simulated_command : Bool → Exec SimulatedRelay Unit
  unfolding command_on
  simulated_command level r = command_on r.channel level r

  pub cleanup_on : Option ℕ → Exec SimulatedRelay Unit
  unfolding note
  cleanup_on none r = (ok tt, r)
  cleanup_on (some channel) r = (ok tt, note cleanup channel r)

  unfoldable pub simulated_cleanup : Exec SimulatedRelay Unit
  unfolding cleanup_on
  simulated_cleanup r =
      if r.fail_next_cleanup
      then (err runtime_error, record r { fail_next_cleanup = false })
      else cleanup_on r.channel r

-- The calls of RPi.GPIO that the adapter makes; each may raise. `output` is told the level, and
-- `setup_low` is `setup(channel, OUT, initial=LOW)`.
pub record Gpio (W : Type 0) : Type 0 where
  pub setwarnings : Bool → W → Result (Unit {0}) × W
  pub setmode_bcm : W → Result (Unit {0}) × W
  pub setup_low : ℕ → W → Result (Unit {0}) × W
  pub output : ℕ → Bool → W → Result (Unit {0}) × W
  pub cleanup_channel : ℕ → W → Result (Unit {0}) × W

-- `RaspberryPiRelay`, with the world that RPi.GPIO acts on.
pub record RaspberryPiRelay (W : Type 0) : Type 0 where
  pub channel : Option ℕ
  pub closed : Bool
  pub world : W

-- `RaspberryPiRelay.__init__`, with RPi.GPIO imported.
abbrev pub new_relay : {W : Type 0} → W → RaspberryPiRelay W
new_relay w = record { channel = none; closed = false; world = w }

module _ {W : Type 0} (gpio : Gpio W) where
  abbrev pub call : (W → Result (Unit {0}) × W) → Exec (RaspberryPiRelay W) Unit
  call f r = let (result, w) = f r.world in (result, record r { world = w })

  pub setup_channel : ℕ → Exec (RaspberryPiRelay W) Unit
  setup_channel channel = do
    call (gpio.setwarnings false)
    call gpio.setmode_bcm
    call (gpio.setup_low channel)
    modify (λ r. record r { channel = some channel; closed = false })

  pub setup_unless : Option ℕ → String → ℕ → Exec (RaspberryPiRelay W) Unit
  unfolding setup_channel
  setup_unless (some _) numbering channel = pure tt
  setup_unless none numbering channel =
      if not (str_eq numbering "BCM") || not (channel == 23)
      then raise value_error
      else setup_channel channel

  unfoldable pub relay_setup : String → ℕ → Exec (RaspberryPiRelay W) Unit
  unfolding setup_unless
  relay_setup numbering channel r = setup_unless r.channel numbering channel r

  pub command_unless : Option ℕ → Bool → Bool → Exec (RaspberryPiRelay W) Unit
  command_unless (some channel) false level = call (gpio.output channel level)
  command_unless _ _ level = raise runtime_error

  unfoldable pub relay_command : Bool → Exec (RaspberryPiRelay W) Unit
  unfolding command_unless
  relay_command level r = command_unless r.channel r.closed level r

  -- The `finally` clause: what it raises replaces what `output` raised.
  pub release_channel : ℕ → Result (Unit {0}) → Exec (RaspberryPiRelay W) Unit
  release_channel channel lowered = do
    call (gpio.cleanup_channel channel)
    modify (λ r. record r { closed = true })
    λ r. (lowered, r)

  pub cleanup_unless : Option ℕ → Bool → Exec (RaspberryPiRelay W) Unit
  unfolding release_channel
  cleanup_unless (some channel) false r =
      let (lowered, after) = call (gpio.output channel false) r in
      release_channel channel lowered after
  cleanup_unless _ _ r = (ok tt, r)

  unfoldable pub relay_cleanup : Exec (RaspberryPiRelay W) Unit
  unfolding cleanup_unless
  relay_cleanup r = cleanup_unless r.channel r.closed r
