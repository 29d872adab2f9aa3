-- ===== src/Tests/Readers.antt =====
-- What a reader sends for a badge, whole and in pieces.
use frontdoor.Prelude.{
  String, ◌*◌, ◌-◌, ℕ, ◌+◌, ◌≤◌, ◌≡◌, refl, arith, List, [], ◌∷◌, ◌++◌, map, concat, All, Option,
  some, none, ok,
}
use frontdoor.Reader.Record.{Text, parse_reader_record, build_record}
use frontdoor.Reader.Record.RoundTrip.{IsIdentifier, build-parse}
use frontdoor.Reader.Stream.{ReaderRecordStream, new_stream, feed, feed_all}
use frontdoor.Reader.Stream.Settled.{IsSettled, IsGenuine, feed-IsSettled}
use frontdoor.Reader.Stream.Chunks.{wire, read_back, feed_all-wire}
use frontdoor.Reader.Discovery.{ReaderIdentity, SerialDevice}
use frontdoor.Reader.Backoff.{BackoffPolicy, delay, unit}
use frontdoor.Reader.Backoff.Bounds.{base_delay, delay_bounds}
use frontdoor.Tests.Doors.{badge, stranger}

badge-IsIdentifier : IsIdentifier badge
badge-IsIdentifier = record { ten = refl; digits = refl }

stranger-IsIdentifier : IsIdentifier stranger
stranger-IsIdentifier = record { ten = refl; digits = refl }

-- The record of the badge.
abbrev badge_bytes : Text
badge_bytes = 2 ∷ badge ++ b'8' ∷ b'F' ∷ 13 ∷ 10 ∷ 3 ∷ []

build-parse_example : build_record badge ≡ some badge_bytes
unfolding parse_reader_record
build-parse_example = build-parse badge_bytes (record { credential = badge }) refl

feed-IsSettled_example :
    let s : ReaderRecordStream = record { buffer = 2 ∷ b'0' ∷ []; maximum_buffer = 64 } in
    IsSettled 64 (feed s (b'1' ∷ 3 ∷ badge_bytes)).1.buffer
    × All (IsGenuine (2 ∷ b'0' ∷ b'1' ∷ 3 ∷ badge_bytes)) (feed s (b'1' ∷ 3 ∷ badge_bytes)).0
feed-IsSettled_example =
    feed-IsSettled (record { buffer = 2 ∷ b'0' ∷ []; maximum_buffer = 64 }) (b'1' ∷ 3 ∷ badge_bytes)
      (refl, refl, omega arith)

-- The badge and the stranger, cut inside of the first record.
abbrev demo_credentials : List Text
demo_credentials = badge ∷ stranger ∷ []

abbrev stranger_bytes : Text
stranger_bytes = 2 ∷ stranger ++ b'A' ∷ b'1' ∷ 13 ∷ 10 ∷ 3 ∷ []

abbrev demo_chunks : List Text
demo_chunks =
    (2 ∷ b'0' ∷ [])
    ∷ []
    ∷ (b'1' ∷ b'2' ∷ b'3' ∷ b'4' ∷ b'5' ∷ b'6' ∷ b'7' ∷ b'8' ∷ b'F' ∷ b'8' ∷ b'F' ∷ 13 ∷ 10 ∷ 3
        ∷ stranger_bytes)
    ∷ []

demo_chunks-wire : concat demo_chunks ≡ wire demo_credentials
unfolding build_record
demo_chunks-wire = refl

feed_all-wire_example :
    ((feed_all (new_stream 64) demo_chunks).0 ≡ map read_back demo_credentials)
    × ((feed_all (new_stream 64) demo_chunks).1.buffer ≡ [])
feed_all-wire_example =
    feed_all-wire 64 demo_credentials demo_chunks (omega arith)
      (badge-IsIdentifier, (stranger-IsIdentifier, tt)) demo_chunks-wire

abbrev pub demo_identity : ReaderIdentity
demo_identity = record {
  by_id_path = none;
  vid = some 0x0403;
  pid = some 0x6001;
  serial_number = some "A1";
  manufacturer = none;
  product = none;
}

abbrev serial_device : String → Option String → ℕ → SerialDevice
serial_device path serial vid = record {
  path = path;
  by_id_path = none;
  vid = some vid;
  pid = some 0x6001;
  serial_number = serial;
  manufacturer = none;
  product = none;
}

abbrev demo_devices : List SerialDevice
demo_devices =
    serial_device "/dev/ttyUSB0" (some "B2") 0x0403
    ∷ serial_device "/dev/ttyUSB1" (some "A1") 0x0403
    ∷ serial_device "/dev/ttyACM0" none 0x2341
    ∷ []

abbrev pub demo_backoff : BackoffPolicy
demo_backoff = record { minimum = 2; maximum = 60; jitter = 200 }

delay_bounds_example :
    (d : ℕ) × (delay demo_backoff 7 250 ≡ ok d)
    × (base_delay demo_backoff 7 * (unit - 200) * unit ≤ d)
    × (d ≤ base_delay demo_backoff 7 * (unit + 200) * unit)
    × (2 ≤ base_delay demo_backoff 7)
    × (base_delay demo_backoff 7 ≤ 60)
delay_bounds_example =
    delay_bounds demo_backoff 7 250
      (record { positive = omega arith; ordered = omega arith; fraction = omega arith })
      (omega arith) (omega arith)
