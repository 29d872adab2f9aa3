-- ===== src/Configuration.antt =====
-- bridgewire/configuration.py: the tables of the configuration file, and the checks of what they say.
-- The TOML parser and the file system are parameters. A clock tick is a thousandth of a second. Integers
-- below zero are not modelled; floats are those of Configuration/Settings.
pub mod Settings
pub mod Load
pub mod Whole
pub mod Ranges
pub mod Approved
use Prim.Native.Char.{code}
use Prim.Native.String
use frontdoor.Prelude.{
  is_empty, ℕ, ◌*◌, String, Bool, true, false, not, ◌&&◌, ◌||◌, Option, none, some, Exception,
  value_error, invalid_query_error, type_error, key_error, os_error, reader_disconnected_error,
  Result, ok, err, str_eq, leb, ltb, ◌==◌, if◌then◌else◌,
}
use frontdoor.Prelude.Results.{◌>>=◌}
use frontdoor.Configuration.Settings.{Float, exact, BackoffSettings, EscalationSettings}
use frontdoor.Reader.Discovery.{ReaderIdentity, checked_identity}

-- What `tomllib.loads` gives; `other` stands for arrays, dates and times.
mutual
  pub data Value : Type 0 where
    integer : ℕ → Value
    float : Float → Value
    text : String → Value
    boolean : Bool → Value
    table : Table → Value
    other : Value

  pub data Table : Type 0 where
    empty : Table
    entry : String → Value → Table → Table

pub record SerialConfiguration : Type 0 where
  pub baud_rate : ℕ
  pub data_bits : ℕ
  pub parity : String
  pub stop_bits : ℕ
  pub timeout_seconds : Float
  pub maximum_record_bytes : ℕ

pub record GpioConfiguration : Type 0 where
  pub numbering : String
  pub channel : ℕ
  pub normal_high : Bool
  pub release_high : Bool
  pub release_seconds : Float

pub record RelayConfiguration : Type 0 where
  pub backend : String

pub record ApiConfiguration : Type 0 where
  pub enabled : Bool
  pub host : String
  pub port : ℕ
  pub max_event_page_size : ℕ
  pub operational_snapshot_stale_after_seconds : Float

-- The defaults of `ApiConfiguration`.
abbrev pub api_defaults : ApiConfiguration
api_defaults = record {
  enabled = false;
  host = "127.0.0.1";
  port = 8080;
  max_event_page_size = 100;
  operational_snapshot_stale_after_seconds = exact 10000;
}

pub record SystemConfiguration : Type 0 where
  pub reader_identity : ReaderIdentity
  pub serial : SerialConfiguration
  pub gpio : GpioConfiguration
  pub backoff : BackoffSettings
  pub escalation : EscalationSettings
  pub relay : RelayConfiguration
  pub api : ApiConfiguration

-- `table.get(name)`
abbrev pub get : Table → String → Option Value
get empty name = none
get (entry key value rest) name = if str_eq name key then some value else get rest name

-- The conversions of the values: `ConfigurationError` is a `ValueError`.
abbrev pub as_table : Option Value → Result Table
as_table (some (table t)) = ok t
as_table _ = err value_error

abbrev pub as_integer : Option Value → Result ℕ
as_integer (some (integer n)) = ok n
as_integer _ = err value_error

abbrev pub as_number : Option Value → Result Float
as_number (some (integer n)) = ok (exact (n * 1000))
as_number (some (float n)) = ok n
as_number _ = err value_error

abbrev pub as_string : Option Value → Result String
as_string (some (text s)) = ok s
as_string _ = err value_error

abbrev pub as_boolean : Option Value → Result Bool
as_boolean (some (boolean b)) = ok b
as_boolean _ = err value_error

-- `_optional_integer` and `_optional_string`
abbrev pub optional {ℓ} :
    {A : Type ℓ} → (Option Value → Result A) → Option Value → Result (Option A)
optional convert none = ok none
optional convert (some value) = convert (some value) >>= λ a. ok (some a)

-- `convert(table, name) if name in table else default`
abbrev pub or_default {ℓ} : {A : Type ℓ} → (Option Value → Result A) → A → Option Value → Result A
or_default convert default none = ok default
or_default convert default (some value) = convert (some value)

-- `str.isspace` of one character.
abbrev pub is_space : ℕ → Bool
is_space c =
    (leb 0x09 c && leb c 0x0d)
    || ((leb 0x1c c && leb c 0x20)
        || ((c == 0x85)
            || ((c == 0xa0)
                || ((c == 0x1680)
                    || ((leb 0x2000 c && leb c 0x200a)
                        || ((c == 0x2028)
                            || ((c == 0x2029)
                                || ((c == 0x202f) || ((c == 0x205f) || (c == 0x3000))))))))))

abbrev pub strip_end : String → String
strip_end String.[] = String.[]
strip_end (String.◌∷◌ c s) =
    let rest = strip_end s in
    if is_space (code c) && is_empty rest then String.[] else String.◌∷◌ c rest

abbrev pub strip_start : String → String
strip_start String.[] = String.[]
strip_start (String.◌∷◌ c s) =
    let rest = strip_start s in if is_space (code c) then rest else String.◌∷◌ c s

-- `str.strip`
abbrev pub strip : String → String
strip s = strip_end (strip_start s)

-- `Path(by_id_path) if by_id_path else None`
abbrev pub path_of : Option String → Option String
path_of none = none
path_of (some path) = if is_empty path then none else some path
