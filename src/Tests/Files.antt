-- ===== src/Tests/Files.antt =====
-- An authorization file of two rows, and relays.
use frontdoor.Prelude.{
  ℕ, ◌+◌, ◌≡◌, refl, List, [], ◌∷◌, some, none, true, false, ok, err, Exception, os_error,
}
use frontdoor.Clock.{utc}
use frontdoor.Reader.Record.{Text}
use frontdoor.Authorization.{
  Row, Parsing, Files, Metadata, AuthorizationStore, load_stream, reload, classify, normalize_key,
  add_rows, add_row, put,
}
use frontdoor.Authorization.Verdict.{IsLoaded, verdict, load_stream-classify}
use frontdoor.Authorization.Store.{IsAsBefore, IsReplaced, reload_all_or_nothing}
use frontdoor.Authorization.Install.{Installing, Installation, install}
use frontdoor.Authorization.Install.Atomic.{loads, install_atomic}
use frontdoor.Gpio.{Gpio, new_relay}
use frontdoor.Gpio.Driven.{
  PinMethod, setup_with, command_to, clean_up, logged, drive_all, IsDriven, drive_all-IsDriven,
}
use frontdoor.Gpio.Simulated.{SimulatedCall, setup_at, command_at, cleanup_at}
use frontdoor.Tests.Doors.{badge, stranger}

-- The badge's key, with dashes and a small letter.
abbrev dashed : Text
dashed =
    b'0' ∷ b'1' ∷ b'-' ∷ b'2' ∷ b'3' ∷ b'-' ∷ b'4' ∷ b'5' ∷ b'-' ∷ b'6' ∷ b'7' ∷ b'-' ∷ b'8' ∷ b'f'
    ∷ []

abbrev row : Text → Text → Text → Row
row key name allow = ("KEY", some key) ∷ ("NAME", some name) ∷ ("ALLOW", some allow) ∷ []

abbrev demo_rows : List Row
demo_rows = row dashed (b'A' ∷ []) (b'y' ∷ []) ∷ row stranger (b'B' ∷ []) (b'N' ∷ []) ∷ []

-- A reader that finds the two rows in every text, and a validator that finds no error.
abbrev demo_parsing : Parsing
demo_parsing = record {
  read_csv = λ text. ok (some ("KEY" ∷ "NAME" ∷ "ALLOW" ∷ []), demo_rows);
  first_error = λ rows. none;
}

abbrev demo_files : Files ℕ
demo_files = record {
  read_text = λ path w. (ok [], w);
  stat = λ path w. (
    ok (record { mtime_ns = 7; size = 40; modified_at = record { instant = 7; zone = utc } }),
    w,
  );
}

abbrev demo_store : AuthorizationStore ℕ
demo_store = record {
  records =
      (badge, record { key = badge; name = some (b'A' ∷ []); allow = true })
      ∷ (stranger, record { key = stranger; name = some (b'B' ∷ []); allow = false })
      ∷ [];
  version = none;
  modified_at = none;
  world = 0;
}

load_stream-classify_example :
    (rows : List Row) × IsLoaded demo_parsing [] rows demo_store.records
    × ((credential : Text) → classify demo_store credential ≡ verdict credential rows)
unfolding load_stream add_rows add_row put normalize_key
load_stream-classify_example = load_stream-classify demo_parsing [] demo_store refl

reload_all_or_nothing_example :
    ((e : Exception)
      → (reload demo_parsing demo_files "users.csv" demo_store).0 ≡ err e
      → IsAsBefore demo_store (reload demo_parsing demo_files "users.csv" demo_store).1)
    × ((reload demo_parsing demo_files "users.csv" demo_store).0 ≡ ok tt
        → (text : Text) × (metadata : Metadata) × (ok [] ≡ ok text)
          × ((demo_files.stat "users.csv" (demo_files.read_text "users.csv" demo_store.world).1).0
              ≡ ok metadata)
          × IsReplaced demo_parsing text metadata
              (reload demo_parsing demo_files "users.csv" demo_store).1)
reload_all_or_nothing_example = reload_all_or_nothing demo_parsing demo_files "users.csv" demo_store

-- Every level raises, as on a board with no pins.
abbrev broken_gpio : Gpio ℕ
broken_gpio = record {
  setwarnings = λ on w. (ok tt, w);
  setmode_bcm = λ w. (ok tt, w);
  setup_low = λ channel w. (ok tt, w);
  output = λ channel level w. (err os_error, w + 1);
  cleanup_channel = λ channel w. (ok tt, w);
}

abbrev demo_methods : List PinMethod
demo_methods = setup_with "BCM" 23 ∷ command_to true ∷ clean_up ∷ command_to true ∷ []

drive_all-IsDriven_example :
    IsDriven broken_gpio (drive_all (logged broken_gpio) demo_methods (new_relay (0, [])))
drive_all-IsDriven_example =
    drive_all-IsDriven broken_gpio demo_methods (new_relay (0, [])) (refl, refl)

abbrev demo_simulation : List SimulatedCall
demo_simulation =
    command_at 0 true
    ∷ setup_at 1 "BCM" 23
    ∷ command_at 2 false
    ∷ command_at 3 true
    ∷ cleanup_at 4
    ∷ []

-- A disk that is full when the copy is flushed.
abbrev full_disk : Installing ℕ
full_disk = record {
  inject = λ stage w. (ok tt, w);
  read_candidate = λ w. (ok [], w);
  make_directory = λ w. (ok tt, w);
  list_abandoned = λ w. (ok (".users.csv.old" ∷ []), w);
  unlink = λ name w. (err os_error, w);
  create_temporary = λ w. (ok tt, w);
  copy = λ w. (([], ok tt), w);
  flush = λ w. (err os_error, w);
  fsync = λ w. (ok tt, w);
  read_temporary = λ w. (ok tt, w);
  replace = λ w. (ok tt, w);
  unlink_temporary = λ w. (ok tt, w);
}

abbrev demo_installation : Installation ℕ
demo_installation = record {
  stage = "candidate_validation";
  temporary = none;
  destination = some (b'o' ∷ []);
  reports = [];
  world = 0;
}

install_atomic_example :
    let (outcome, i') = install demo_parsing full_disk demo_installation in
    ((e : Exception) → outcome ≡ err e → i'.destination ≡ some (b'o' ∷ []))
    × (outcome ≡ ok tt → loads demo_parsing full_disk i'.destination ≡ true)
install_atomic_example = install_atomic demo_parsing full_disk demo_installation
