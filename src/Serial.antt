-- ===== src/Serial.antt =====
-- The devices of bridgewire/adapters/reader/posix_serial.py, from /dev/serial/by-id and udevadm. The
-- file system, udevadm and `int(s, 16)` are parameters.
pub mod Printed
pub mod Found
pub mod Session
pub mod Descriptors
use Prim.Native.Char.{Char, code}
use Prim.Native.String
use frontdoor.Prelude.{
  ℕ, String, Bool, true, false, ◌||◌, ◌&&◌, Option, none, some, List, [], ◌∷◌, Exception, os_error,
  reader_disconnected_error, subprocess_error, Result, ok, err, Exec, pure, raise, lift, gets,
  ◌>>=◌, ◌>>◌, str_eq, leb, ◌==◌, if◌then◌else◌,
}
use frontdoor.Prelude.Results.{◌>>=◌ as and_then}
use frontdoor.Reader.Discovery.{SerialDevice}

-- What the functions call. `by_id` is the sorted list of the entries of /dev/serial/by-id, or nothing
-- where that is no directory; `query` is what `udevadm info --query=property` prints.
pub record Host (W : Type 0) : Type 0 where
  pub is_dir : W → Result Bool × W
  pub by_id : W → Result (List String) × W
  pub is_symlink : String → W → Result Bool × W
  pub query : String → W → Result String × W
  pub resolve : String → W → Result String × W
  pub int_16 : String → Result ℕ

-- Where `str.splitlines` breaks a line. The empty line that it does not see between a carriage return
-- and a line feed has no `=`, and is dropped.
abbrev pub is_break : ℕ → Bool
is_break c =
    (leb 0x0a c && leb c 0x0d)
    || ((leb 0x1c c && leb c 0x1e) || (c == 0x85 || (c == 0x2028 || c == 0x2029)))

abbrev pub with_first : Char → List String → List String
with_first c [] = String.◌∷◌ c String.[] ∷ []
with_first c (line ∷ rest) = String.◌∷◌ c line ∷ rest

unfoldable pub lines_of : String → List String
lines_of String.[] = String.[] ∷ []
lines_of (String.◌∷◌ c s) =
    let rest = lines_of s in if is_break (code c) then String.[] ∷ rest else with_first c rest

-- `line.split("=", 1)`, if there is a `=` in the line.
abbrev pub with_key : Char → Option (String × String) → Option (String × String)
with_key c none = none
with_key c (some (key, value)) = some (String.◌∷◌ c key, value)

unfoldable pub split_property : String → Option (String × String)
split_property String.[] = none
split_property (String.◌∷◌ c s) =
    let rest = split_property s in if code c == b'=' then some (String.[], s) else with_key c rest

abbrev pub with_property :
    Option (String × String) → List (String × String) → List (String × String)
with_property none rest = rest
with_property (some p) rest = p ∷ rest

unfoldable pub properties_in : List String → List (String × String)
unfolding split_property
properties_in [] = []
properties_in (line ∷ lines) = with_property (split_property line) (properties_in lines)

unfoldable pub properties_of : String → List (String × String)
unfolding lines_of properties_in
properties_of output = properties_in (lines_of output)

-- `dict(pairs).get(key)`: the last pair counts.
abbrev pub or_earlier : Bool → String → Option String → Option String
or_earlier same value (some later) = some later
or_earlier true value none = some value
or_earlier false value none = none

unfoldable pub get_last : String → List (String × String) → Option String
get_last key [] = none
get_last key ((other, value) ∷ rest) = or_earlier (str_eq key other) value (get_last key rest)

-- The `except` clause; `subprocess_error` is `CalledProcessError` and `TimeoutExpired`.
abbrev pub is_caught : Exception → Bool
is_caught os_error = true
is_caught reader_disconnected_error = true
is_caught subprocess_error = true
is_caught _ = false

module _ {W : Type 0} (host : Host W) where
  abbrev pub optional_int : Option String → Result (Option ℕ)
  optional_int none = ok none
  optional_int (some s) = and_then (host.int_16 s) (λ n. ok (some n))

  unfoldable pub device_of : String → String → List (String × String) → Result SerialDevice
  unfolding get_last and_then
  device_of path resolved properties =
      and_then (optional_int (get_last "ID_VENDOR_ID" properties)) (λ vid.
        and_then (optional_int (get_last "ID_MODEL_ID" properties)) (λ pid. ok (record {
          path = resolved;
          by_id_path = some path;
          vid = vid;
          pid = pid;
          serial_number = get_last "ID_SERIAL_SHORT" properties;
          manufacturer = get_last "ID_VENDOR" properties;
          product = get_last "ID_MODEL" properties;
        })))

  -- What follows the query.
  unfoldable pub described : String → Result String → Exec W (Option SerialDevice)
  unfolding properties_of device_of
  described path (err e) w = if is_caught e then (ok none, w) else (err e, w)
  described path (ok output) w =
      (do
        resolved ← host.resolve path
        device ← lift (device_of path resolved (properties_of output))
        pure (some device))
        w

  -- `_serial_device_from_by_id`
  unfoldable pub serial_device_from_by_id : String → Exec W (Option SerialDevice)
  unfolding described
  serial_device_from_by_id path w = let (output, w') = host.query path w in described path output w'

  abbrev pub with_device : Option SerialDevice → List SerialDevice → List SerialDevice
  with_device none rest = rest
  with_device (some device) rest = device ∷ rest

  -- The loop over the entries.
  unfoldable pub devices_at : List String → Exec W (List SerialDevice)
  unfolding serial_device_from_by_id
  devices_at [] = pure []
  devices_at (path ∷ paths) = do
    link ← host.is_symlink path
    device ← if link then serial_device_from_by_id path else pure none
    devices ← devices_at paths
    pure (with_device device devices)

  unfoldable pub enumerate_serial_devices : Exec W (List SerialDevice)
  unfolding devices_at
  enumerate_serial_devices = do
    there ← host.is_dir
    if there then (do paths ← host.by_id; devices_at paths) else pure []
