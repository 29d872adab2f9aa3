-- ===== src/Reader/Discovery.antt =====
-- Which serial device is the reader: `ReaderIdentity`, `SerialDevice`, `_matches` and
-- `discover_reader` of bridgewire/reader.py. A path is the text of the path.
pub mod Counting
use frontdoor.Prelude.{
  ℕ, ◌-◌, String, Bool, true, false, not, ◌&&◌, ◌||◌, Option, none, some, List, [], ◌∷◌, Result, ok,
  err, value_error, keep, length, is_none, option_eq, option_text_eq, if◌then◌else◌,
}

pub record ReaderIdentity : Type 0 where
  pub by_id_path : Option String
  pub vid : Option ℕ
  pub pid : Option ℕ
  pub serial_number : Option String
  pub manufacturer : Option String
  pub product : Option String

-- `ReaderIdentity.__post_init__`
unfoldable pub checked_identity : ReaderIdentity → Result ReaderIdentity
checked_identity i =
    if is_none i.by_id_path && (is_none i.vid || is_none i.pid) then err value_error else ok i

pub record SerialDevice : Type 0 where
  pub path : String
  pub by_id_path : Option String
  pub vid : Option ℕ
  pub pid : Option ℕ
  pub serial_number : Option String
  pub manufacturer : Option String
  pub product : Option String

pub data DiscoveryStatus : Type 0 where
  found not_found ambiguous : DiscoveryStatus

pub record DiscoveryResult : Type 0 where
  pub status : DiscoveryStatus
  pub device : Option SerialDevice
  pub unrelated_count : ℕ

-- `expected is None or expected == actual`
abbrev pub agrees : Option String → Option String → Bool
agrees expected actual = is_none expected || option_text_eq expected actual

-- `_matches`
unfoldable pub matches : SerialDevice → ReaderIdentity → Bool
matches device identity =
    let path_matches =
      not (is_none identity.by_id_path) && option_text_eq device.by_id_path identity.by_id_path in
    if is_none identity.vid || is_none identity.pid
    then path_matches
    else if not (option_eq device.vid identity.vid) || not (option_eq device.pid identity.pid)
    then false
    else agrees identity.serial_number device.serial_number
      && (agrees identity.manufacturer device.manufacturer
          && agrees identity.product device.product)

abbrev pub matching : List SerialDevice → ReaderIdentity → List SerialDevice
matching devices identity = keep (λ device. matches device identity) devices

-- The three returns of `discover_reader`, by the devices that match.
abbrev pub discovery_of : ℕ → List SerialDevice → DiscoveryResult
discovery_of total [] = record { status = not_found; device = none; unrelated_count = total }
discovery_of total (device ∷ []) = record {
  status = found;
  device = some device;
  unrelated_count = total - 1;
}
discovery_of total (first ∷ second ∷ more) = record {
  status = ambiguous;
  device = none;
  unrelated_count = total - length (first ∷ second ∷ more);
}

unfoldable pub discover_reader : List SerialDevice → ReaderIdentity → DiscoveryResult
discover_reader devices identity = discovery_of (length devices) (matching devices identity)
