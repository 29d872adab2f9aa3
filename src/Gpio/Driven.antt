-- ===== src/Gpio/Driven.antt =====
-- What the adapter of the Raspberry Pi asks of RPi.GPIO over any calls, with ports that keep a log.
use frontdoor.Prelude.{
  ℕ, ◌≡◌, refl, String, Bool, true, false, ◌&&◌, Option, none, some, List, [], ◌∷◌, Result, ok,
  ◌==◌, arith,
}
use frontdoor.Gpio.{
  Gpio, RaspberryPiRelay, setup_channel, setup_unless, relay_setup, command_unless, relay_command,
  release_channel, cleanup_unless, relay_cleanup,
}

pub data PinCall : Type 0 where
  configured : PinCall
  prepared : ℕ → Result (Unit {0}) → PinCall
  driven : ℕ → Bool → PinCall
  cleaned : ℕ → PinCall

-- The log has the newest call first.
abbrev pub logged : {W : Type 0} → Gpio W → Gpio (W × List PinCall)
logged gpio = record {
  setwarnings = λ on t. let (r, w) = gpio.setwarnings on t.0 in (r, (w, configured ∷ t.1));
  setmode_bcm = λ t. let (r, w) = gpio.setmode_bcm t.0 in (r, (w, configured ∷ t.1));
  setup_low =
      λ channel t. let (r, w) = gpio.setup_low channel t.0 in (r, (w, prepared channel r ∷ t.1));
  output = λ channel level t.
      let (r, w) = gpio.output channel level t.0 in (r, (w, driven channel level ∷ t.1));
  cleanup_channel =
      λ channel t. let (r, w) = gpio.cleanup_channel channel t.0 in (r, (w, cleaned channel ∷ t.1));
}

-- Channel 23 was set up low without an exception.
abbrev pub is_prepared : List PinCall → Bool
is_prepared [] = false
is_prepared (prepared channel (ok _) ∷ rest) = channel == 23
is_prepared (_ ∷ rest) = is_prepared rest

-- Every level and every cleanup is for channel 23 after it was set up, and every cleanup comes
-- directly after the level LOW.
abbrev pub is_safe : List PinCall → Bool
is_safe [] = true
is_safe (configured ∷ rest) = is_safe rest
is_safe (prepared _ _ ∷ rest) = is_safe rest
is_safe (driven channel level ∷ rest) = (channel == 23) && (is_prepared rest && is_safe rest)
is_safe (cleaned channel ∷ driven other false ∷ rest) =
    (channel == 23) && is_safe (driven other false ∷ rest)
is_safe (cleaned channel ∷ _) = false

abbrev pub is_held : Option ℕ → List PinCall → Bool
is_held none log = true
is_held (some channel) log = (channel == 23) && is_prepared log

pub data PinMethod : Type 0 where
  setup_with : String → ℕ → PinMethod
  command_to : Bool → PinMethod
  clean_up : PinMethod

module _ {W : Type 0} (gpio : Gpio W) where
  unfoldable pub drive : PinMethod → RaspberryPiRelay W → RaspberryPiRelay W
  drive (setup_with numbering channel) r = (relay_setup gpio numbering channel r).1
  drive (command_to level) r = (relay_command gpio level r).1
  drive clean_up r = (relay_cleanup gpio r).1

  unfoldable pub drive_all : List PinMethod → RaspberryPiRelay W → RaspberryPiRelay W
  drive_all [] r = r
  drive_all (m ∷ ms) r = drive_all ms (drive m r)

module _ {W : Type 0} (gpio : Gpio W) where
  -- The log is safe, and a relay that is set up has channel 23, which the log shows.
  abbrev pub IsDriven : RaspberryPiRelay (W × List PinCall) → Type 0
  IsDriven r = (is_safe r.world.1 ≡ true) × (is_held r.channel r.world.1 ≡ true)

  setup-IsDriven :
      (numbering : String) (channel : ℕ) (r : RaspberryPiRelay (W × List PinCall))
      → IsDriven r
      → IsDriven (relay_setup (logged gpio) numbering channel r).1
  unfolding relay_setup setup_unless setup_channel
  setup-IsDriven numbering channel r h = ground arith

  command-IsDriven :
      (level : Bool) (r : RaspberryPiRelay (W × List PinCall))
      → IsDriven r
      → IsDriven (relay_command (logged gpio) level r).1
  unfolding relay_command command_unless
  command-IsDriven level r h = ground arith

  cleanup-IsDriven :
      (r : RaspberryPiRelay (W × List PinCall))
      → IsDriven r
      → IsDriven (relay_cleanup (logged gpio) r).1
  unfolding relay_cleanup cleanup_unless release_channel
  cleanup-IsDriven r h = ground arith

  drive-IsDriven :
      (m : PinMethod) (r : RaspberryPiRelay (W × List PinCall))
      → IsDriven r
      → IsDriven (drive (logged gpio) m r)
  unfolding drive
  drive-IsDriven (setup_with numbering channel) r h = setup-IsDriven numbering channel r h
  drive-IsDriven (command_to level) r h = command-IsDriven level r h
  drive-IsDriven clean_up r h = cleanup-IsDriven r h

  -- Over any calls of the methods, whichever of the calls of RPi.GPIO raise, a safe log stays safe:
  -- every level and every cleanup is for channel 23, after it was set up LOW, and every cleanup comes
  -- directly after the level LOW.
  pub drive_all-IsDriven :
      (ms : List PinMethod) (r : RaspberryPiRelay (W × List PinCall))
      → IsDriven r
      → IsDriven (drive_all (logged gpio) ms r)
  unfolding drive_all
  drive_all-IsDriven [] r h = h
  drive_all-IsDriven (m ∷ ms) r h =
      drive_all-IsDriven ms (drive (logged gpio) m r) (drive-IsDriven m r h)

  -- Once a cleanup has closed a relay, no later call of a method reaches RPi.GPIO or changes the
  -- relay.
  drive_all_closed :
      (ms : List PinMethod) (c : ℕ) (r : RaspberryPiRelay W)
      → r.channel ≡ some c
      → r.closed ≡ true
      → drive_all gpio ms r ≡ r
  unfolding drive_all drive relay_setup setup_unless relay_command command_unless relay_cleanup
      cleanup_unless
  drive_all_closed [] c r set closed = refl
  drive_all_closed (setup_with numbering channel ∷ ms) c r set closed =
      grind (arith, drive_all_closed ms c r)
  drive_all_closed (command_to level ∷ ms) c r set closed = grind (arith, drive_all_closed ms c r)
  drive_all_closed (clean_up ∷ ms) c r set closed = grind (arith, drive_all_closed ms c r)
