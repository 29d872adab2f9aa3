-- ===== src/Audit/Values.antt =====
-- The values of the enumerations of bridgewire/audit.py, and the look-up of a member by its value.
use frontdoor.Prelude.{
  String, List, [], ◌∷◌, Result, ok, err, value_error, str_eq, ◌≡◌, refl, if◌then◌else◌,
}
use frontdoor.Audit.{EventType, Severity}

abbrev pub type_value : EventType → String
type_value EventType.service_started = "service_started"
type_value EventType.service_shutdown = "service_shutdown"
type_value EventType.configuration_error = "configuration_error"
type_value EventType.credential_authorized = "credential_authorized"
type_value EventType.credential_denied = "credential_denied"
type_value EventType.credential_unknown = "credential_unknown"
type_value EventType.malformed_record = "malformed_record"
type_value EventType.escalation_warning = "escalation_warning"
type_value EventType.escalation_critical = "escalation_critical"
type_value EventType.relay_asserted = "relay_asserted"
type_value EventType.relay_restored = "relay_restored"
type_value EventType.relay_control_error = "relay_control_error"
type_value EventType.authorization_reloaded = "authorization_reloaded"
type_value EventType.authorization_reload_failed = "authorization_reload_failed"
type_value EventType.notification_delivery_failed = "notification_delivery_failed"
type_value EventType.notification_backlog_recovered = "notification_backlog_recovered"
type_value EventType.reader_connecting = "reader_connecting"
type_value EventType.reader_connected = "reader_connected"
type_value EventType.reader_not_found = "reader_not_found"
type_value EventType.reader_identity_ambiguous = "reader_identity_ambiguous"
type_value EventType.reader_open_failed = "reader_open_failed"
type_value EventType.reader_read_failed = "reader_read_failed"
type_value EventType.reader_disconnected = "reader_disconnected"
type_value EventType.reader_recovered = "reader_recovered"
type_value EventType.reader_record_received = "reader_record_received"
type_value EventType.reader_record_malformed = "reader_record_malformed"
type_value EventType.reconnect_scheduled = "reconnect_scheduled"
type_value EventType.reconnect_repeatedly_failed = "reconnect_repeatedly_failed"

abbrev pub severity_value : Severity → String
severity_value Severity.debug = "debug"
severity_value Severity.info = "info"
severity_value Severity.warning = "warning"
severity_value Severity.critical = "critical"
severity_value Severity.error = "error"

-- The first member of a list that has a value.
abbrev pub by_value : {A : Type 0} → (A → String) → String → List A → Result A
by_value value text [] = err value_error
by_value value text (a ∷ rest) = if str_eq text (value a) then ok a else by_value value text rest

abbrev all_types : List EventType
all_types =
    EventType.service_started ∷ EventType.service_shutdown ∷ EventType.configuration_error
    ∷ EventType.credential_authorized ∷ EventType.credential_denied ∷ EventType.credential_unknown
    ∷ EventType.malformed_record ∷ EventType.escalation_warning ∷ EventType.escalation_critical
    ∷ EventType.relay_asserted ∷ EventType.relay_restored ∷ EventType.relay_control_error
    ∷ EventType.authorization_reloaded ∷ EventType.authorization_reload_failed
    ∷ EventType.notification_delivery_failed ∷ EventType.notification_backlog_recovered
    ∷ EventType.reader_connecting ∷ EventType.reader_connected ∷ EventType.reader_not_found
    ∷ EventType.reader_identity_ambiguous ∷ EventType.reader_open_failed
    ∷ EventType.reader_read_failed ∷ EventType.reader_disconnected ∷ EventType.reader_recovered
    ∷ EventType.reader_record_received ∷ EventType.reader_record_malformed
    ∷ EventType.reconnect_scheduled ∷ EventType.reconnect_repeatedly_failed ∷ []

-- `EventType(text)`
unfoldable pub type_of : String → Result EventType
type_of text = by_value type_value text all_types

-- `Severity(text)`
unfoldable pub severity_of : String → Result Severity
severity_of text =
    by_value severity_value text
      (Severity.debug ∷ Severity.info ∷ Severity.warning ∷ Severity.critical ∷ Severity.error ∷ [])

pub type_of-type_value : (t : EventType) → type_of (type_value t) ≡ ok t
unfolding type_of
type_of-type_value EventType.service_started = refl
type_of-type_value EventType.service_shutdown = refl
type_of-type_value EventType.configuration_error = refl
type_of-type_value EventType.credential_authorized = refl
type_of-type_value EventType.credential_denied = refl
type_of-type_value EventType.credential_unknown = refl
type_of-type_value EventType.malformed_record = refl
type_of-type_value EventType.escalation_warning = refl
type_of-type_value EventType.escalation_critical = refl
type_of-type_value EventType.relay_asserted = refl
type_of-type_value EventType.relay_restored = refl
type_of-type_value EventType.relay_control_error = refl
type_of-type_value EventType.authorization_reloaded = refl
type_of-type_value EventType.authorization_reload_failed = refl
type_of-type_value EventType.notification_delivery_failed = refl
type_of-type_value EventType.notification_backlog_recovered = refl
type_of-type_value EventType.reader_connecting = refl
type_of-type_value EventType.reader_connected = refl
type_of-type_value EventType.reader_not_found = refl
type_of-type_value EventType.reader_identity_ambiguous = refl
type_of-type_value EventType.reader_open_failed = refl
type_of-type_value EventType.reader_read_failed = refl
type_of-type_value EventType.reader_disconnected = refl
type_of-type_value EventType.reader_recovered = refl
type_of-type_value EventType.reader_record_received = refl
type_of-type_value EventType.reader_record_malformed = refl
type_of-type_value EventType.reconnect_scheduled = refl
type_of-type_value EventType.reconnect_repeatedly_failed = refl

pub severity_of-severity_value : (s : Severity) → severity_of (severity_value s) ≡ ok s
unfolding severity_of
severity_of-severity_value Severity.debug = refl
severity_of-severity_value Severity.info = refl
severity_of-severity_value Severity.warning = refl
severity_of-severity_value Severity.critical = refl
severity_of-severity_value Severity.error = refl
