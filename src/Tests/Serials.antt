-- ===== src/Tests/Serials.antt =====
-- Two entries of /dev/serial/by-id, of which one is a link, and a session whose settings are refused.
use frontdoor.Prelude.{
  ℕ, String, true, some, none, List, [], ◌∷◌, ok, err, subprocess_error, value_error, ◌+◌, ◌≡◌, ◌≢◌,
  ◌↔◌, refl, str_eq, text_in, if◌then◌else◌,
}
use frontdoor.Reader.Discovery.{SerialDevice, found, ambiguous, discover_reader}
use frontdoor.Prelude.Results.{◌>>=◌ as and_then}
use frontdoor.Serial.{
  properties_of, properties_in, lines_of, split_property, get_last, Host, enumerate_serial_devices,
}
use frontdoor.Serial.Found.{by_path, discover_reader-by_path}
use frontdoor.Serial.Session.{System, open_session}
use frontdoor.Serial.Descriptors.{
  read_call, close_call, logged, LeavesProper, open_session-LeavesProper,
}

abbrev entries : List String
entries = "reader" ∷ "notes" ∷ []

abbrev demo_host : Host ℕ
demo_host = record {
  is_dir = λ w. (ok true, w);
  by_id = λ w. (ok entries, w);
  is_symlink = λ path w. (ok (str_eq path "reader"), w);
  query = λ path w. (if true then ok "ID_VENDOR_ID=1a86\n" else err subprocess_error, w);
  resolve = λ path w. (ok "/dev/ttyUSB0", w);
  int_16 = λ s. if str_eq s "1a86" then ok 0x1a86 else err value_error;
}

discover_reader-by_path_example :
    (ds : List SerialDevice) × (enumerate_serial_devices demo_host 5 ≡ (ok ds, 5))
    × ((discover_reader ds (by_path "reader")).status ≢ ambiguous)
    × (((discover_reader ds (by_path "reader")).status ≡ found)
        ↔ ((text_in "reader" entries ≡ true) × (str_eq "reader" "reader" ≡ true) × (true ≡ true)))
unfolding properties_of properties_in lines_of split_property get_last and_then
discover_reader-by_path_example =
    discover_reader-by_path demo_host entries (λ path. str_eq path "reader") (λ path. true) "reader"
      5
      (record {
        is_dirs = λ w. refl;
        lists = λ w. refl;
        links = λ path w. refl;
        output = λ path. "ID_VENDOR_ID=1a86\n";
        queries = λ path w. refl;
        resolved = λ path. "/dev/ttyUSB0";
        resolves = λ path w. refl;
        vendor = λ path. some 0x1a86;
        vendors = λ path linked answered. refl;
        model = λ path. none;
        models = λ path linked answered. refl;
      })
      (refl, (refl, tt))

abbrev demo_system : System ℕ
demo_system = record {
  termios = record {
    b9600 = 13;
    csize = 48;
    parenb = 256;
    cstopb = 64;
    cs8 = 48;
    clocal = 2048;
    cread = 128;
  };
  open_file = λ path w. (ok 3, w + 1);
  setraw = λ fd w. (ok tt, w);
  tcgetattr = λ fd w. (
    ok (record {
      iflag = 0;
      oflag = 0;
      cflag = 0xdbf;
      lflag = 0;
      ispeed = 15;
      ospeed = 15;
      cc = [];
    }),
    w,
  );
  tcsetattr = λ fd a w. (err value_error, w);
  tcflush = λ fd w. (ok tt, w);
  select = λ fd w. (ok true, w);
  read = λ fd w. (ok (0x02 ∷ []), w);
  close = λ fd w. (ok tt, w + 1);
}

open_session-LeavesProper_example :
    let (result, l) = open_session (logged demo_system) "/dev/ttyUSB0" 9600 (0, []) in
    LeavesProper demo_system (read_call ∷ close_call ∷ close_call ∷ read_call ∷ []) [] result l
open_session-LeavesProper_example =
    open_session-LeavesProper demo_system (read_call ∷ close_call ∷ close_call ∷ read_call ∷ []) []
      "/dev/ttyUSB0" 9600 0 (λ n w. refl) tt
