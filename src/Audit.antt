-- ===== src/Audit.antt =====
-- bridgewire/audit.py: audit events and the checks of their constructor. The keys of a correlation
-- are lowered as ASCII.
pub mod Validation
pub mod Memory
pub mod Values
use Prim.Native.Char.{code}
use Prim.Native.String
use frontdoor.Prelude.{
  ℕ, zero, suc, ◌+◌, String, Bool, true, false, not, ◌&&◌, ◌||◌, Option, none, some, List, [], ◌∷◌,
  ◌++◌, Result, ok, err, value_error, any, text_in, str_eq, ltb, leb, ◌==◌, if◌then◌else◌,
}
use frontdoor.Clock.{Timestamp, is_aware}

pub data Severity : Type 0 where
  debug info warning critical error : Severity

pub data EventType : Type 0 where
  service_started service_shutdown configuration_error : EventType
  credential_authorized credential_denied credential_unknown malformed_record : EventType
  escalation_warning escalation_critical : EventType
  relay_asserted relay_restored relay_control_error : EventType
  authorization_reloaded authorization_reload_failed : EventType
  notification_delivery_failed notification_backlog_recovered : EventType
  reader_connecting reader_connected reader_not_found reader_identity_ambiguous : EventType
  reader_open_failed reader_read_failed reader_disconnected reader_recovered : EventType
  reader_record_received reader_record_malformed : EventType
  reconnect_scheduled reconnect_repeatedly_failed : EventType

-- A value of a correlation.
pub data Value : Type 0 where
  text : String → Value
  number : ℕ → Value
  flag : Bool → Value
  null : Value

abbrev pub Correlation : Type 0
Correlation = List (String × Value)

pub record AuditEvent : Type 0 where
  pub event_type : EventType
  pub severity : Severity
  pub timestamp : Timestamp
  pub correlation : Correlation
  pub reader_state : Option String
  pub controller_state : Option String
  pub delivery_status : Option String
  pub event_id : String

-- `_FORBIDDEN_KEYS`
abbrev pub forbidden_keys : List String
forbidden_keys = "credential" ∷ "card" ∷ "name" ∷ "secret" ∷ "token" ∷ "webhook" ∷ "password" ∷ []

-- `_ALLOWED_CORRELATION_KEYS`
abbrev pub allowed_correlation_keys : List String
allowed_correlation_keys = "reason" ∷ "duration_seconds" ∷ "attempt" ∷ "event_count" ∷ []

-- The reasons that a reader gives for a malformed record.
abbrev pub reader_reasons : List String
reader_reasons =
    "invalid_length" ∷ "invalid_framing" ∷ "invalid_terminator" ∷ "invalid_encoding"
    ∷ "invalid_identifier" ∷ "invalid_checksum_encoding" ∷ "checksum_mismatch" ∷ "excessive_length"
    ∷ []

-- `_ALLOWED_REASONS`
abbrev pub allowed_reasons : List String
allowed_reasons =
    "invalid_length" ∷ "invalid_framing" ∷ "invalid_terminator" ∷ "invalid_encoding"
    ∷ "invalid_identifier" ∷ "invalid_checksum_encoding" ∷ "checksum_mismatch" ∷ "excessive_length"
    ∷ "malformed_record" ∷ "queue_unavailable" ∷ "setup_failed" ∷ "high_failed" ∷ "low_failed"
    ∷ "cleanup_failed" ∷ []

-- `correlation.get(key)`
abbrev pub get : String → Correlation → Option Value
get key [] = none
get key ((k, v) ∷ rest) = if str_eq key k then some v else get key rest

-- The code points of a text.
abbrev pub codes : String → List ℕ
codes String.[] = []
codes (String.◌∷◌ c s) = code c ∷ codes s

-- `key.lower()`
abbrev pub lower : List ℕ → List ℕ
lower [] = []
lower (c ∷ s) = (if leb b'A' c && leb c b'Z' then c + 32 else c) ∷ lower s

abbrev pub starts_with : List ℕ → List ℕ → Bool
starts_with [] s = true
starts_with (c ∷ t) [] = false
starts_with (c ∷ t) (d ∷ s) = (c == d) && starts_with t s

-- `forbidden in lowered`
abbrev pub occurs : List ℕ → List ℕ → Bool
occurs t [] = starts_with t []
occurs t (c ∷ s) = starts_with t (c ∷ s) || occurs t s

unfoldable pub is_forbidden : String → Bool
is_forbidden key = any (λ word. occurs (codes word) (lower (codes key))) forbidden_keys

-- The loop over the keys: it raises at the first key that is forbidden or not allowed.
unfoldable pub keys_pass : Correlation → Bool
unfolding is_forbidden
keys_pass [] = true
keys_pass ((key, _) ∷ rest) =
    if is_forbidden key
    then false
    else if not (text_in key allowed_correlation_keys)
    then false
    else keys_pass rest

-- `reason is not None and reason not in _ALLOWED_REASONS` is false.
abbrev pub reason_passes : Option Value → Bool
reason_passes none = true
reason_passes (some null) = true
reason_passes (some (text reason)) = text_in reason allowed_reasons
reason_passes (some (number _)) = false
reason_passes (some (flag _)) = false

-- `AuditEvent.__post_init__`
unfoldable pub checked_event : AuditEvent → Result AuditEvent
checked_event event =
    if not (is_aware event.timestamp)
    then err value_error
    else if not (keys_pass event.correlation)
    then err value_error
    else if not (reason_passes (get "reason" event.correlation))
    then err value_error
    else ok event
