-- ===== src/Names.antt =====
-- The names that the program gives to its result codes, in the order of the codes. A code below 0
-- or past the end of the enumeration is unknown; a number past the end stands for both.
pub mod Distinct
use crossnook.Base.{ℕ, zero, suc, List, [], ◌∷◌, Text, codes}

abbrev pub unknown : Text
unknown = codes "unknown"

-- `if (result < 0 || result >= COUNT) return "unknown"; return names[result];`
unfoldable pub name_at : List Text → ℕ → Text
name_at [] value = unknown
name_at (name ∷ names) zero = name
name_at (name ∷ names) (suc value) = name_at names value

abbrev pub identity_result_names : List Text
identity_result_names = codes "ok" ∷ codes "invalid" ∷ codes "io-error" ∷ []

-- `cn_koreader_identity_result_name`
abbrev pub identity_result_name : ℕ → Text
identity_result_name = name_at identity_result_names

abbrev pub sync_status_names : List Text
sync_status_names =
    codes "ok"
    ∷ codes "invalid"
    ∷ codes "identity-failed"
    ∷ codes "local-failed"
    ∷ codes "local-unsupported"
    ∷ codes "trusted-time-failed"
    ∷ codes "dns-failed"
    ∷ codes "auth-failed"
    ∷ codes "https-failed"
    ∷ codes "protocol-failed"
    ∷ codes "no-memory"
    ∷ []

-- `cn_kosync_sync_status_name`
abbrev pub sync_status_name : ℕ → Text
sync_status_name = name_at sync_status_names

abbrev pub sync_decision_names : List Text
sync_decision_names =
    codes "none"
    ∷ codes "no-state"
    ∷ codes "local-selected"
    ∷ codes "remote-selected"
    ∷ codes "no-change"
    ∷ codes "ambiguous"
    ∷ []

-- `cn_kosync_sync_decision_name`
abbrev pub sync_decision_name : ℕ → Text
sync_decision_name = name_at sync_decision_names

abbrev pub product_outcome_names : List Text
product_outcome_names =
    codes "disabled"
    ∷ codes "unchanged"
    ∷ codes "uploaded"
    ∷ codes "imported"
    ∷ codes "no-state"
    ∷ codes "conflict"
    ∷ codes "auth-required"
    ∷ codes "trusted-time-unavailable"
    ∷ codes "connectivity-failure"
    ∷ codes "security-failure"
    ∷ codes "service-failure"
    ∷ codes "local-unsupported"
    ∷ codes "local-failure"
    ∷ codes "configuration-failure"
    ∷ codes "internal-failure"
    ∷ []

-- `cn_kosync_product_outcome_name`
abbrev pub product_outcome_name : ℕ → Text
product_outcome_name = name_at product_outcome_names

abbrev pub retry_policy_names : List Text
retry_policy_names = codes "none" ∷ codes "automatic-later" ∷ codes "explicit-action" ∷ []

-- `cn_kosync_retry_policy_name`
abbrev pub retry_policy_name : ℕ → Text
retry_policy_name = name_at retry_policy_names

abbrev pub mutation_state_names : List Text
mutation_state_names = codes "none" ∷ codes "confirmed" ∷ codes "possible" ∷ []

-- `cn_kosync_mutation_state_name`
abbrev pub mutation_state_name : ℕ → Text
mutation_state_name = name_at mutation_state_names

abbrev pub time_result_names : List Text
time_result_names =
    codes "ok"
    ∷ codes "invalid"
    ∷ codes "internal"
    ∷ codes "entropy-failed"
    ∷ codes "socket-failed"
    ∷ codes "send-failed"
    ∷ codes "timeout"
    ∷ codes "recv-failed"
    ∷ codes "peer-mismatch"
    ∷ codes "packet-size"
    ∷ codes "version"
    ∷ codes "mode"
    ∷ codes "unsynchronized"
    ∷ codes "kiss-of-death"
    ∷ codes "stratum"
    ∷ codes "originate-mismatch"
    ∷ codes "zero-receive"
    ∷ codes "zero-transmit"
    ∷ codes "time-range"
    ∷ codes "clock-set-failed"
    ∷ []

-- `cn_timesimple_result_name`
abbrev pub time_result_name : ℕ → Text
time_result_name = name_at time_result_names

abbrev pub dns_result_names : List Text
dns_result_names =
    codes "ok"
    ∷ codes "invalid"
    ∷ codes "invalid-hostname"
    ∷ codes "entropy-failed"
    ∷ codes "socket-failed"
    ∷ codes "network-failed"
    ∷ codes "timeout"
    ∷ codes "packet-size"
    ∷ codes "malformed-response"
    ∷ codes "truncated-response"
    ∷ codes "nxdomain"
    ∷ codes "server-failure"
    ∷ codes "no-address"
    ∷ codes "unsupported-cname"
    ∷ []

-- `cn_dnssimple_result_name`
abbrev pub dns_result_name : ℕ → Text
dns_result_name = name_at dns_result_names

abbrev pub kosync_result_names : List Text
kosync_result_names =
    codes "ok"
    ∷ codes "not-found"
    ∷ codes "invalid"
    ∷ codes "auth-failed"
    ∷ codes "http-error"
    ∷ codes "transport-error"
    ∷ codes "bad-json"
    ∷ codes "bad-protocol"
    ∷ codes "no-memory"
    ∷ []

-- `cn_kosync_result_name`
abbrev pub kosync_result_name : ℕ → Text
kosync_result_name = name_at kosync_result_names

abbrev pub netsimple_result_names : List Text
netsimple_result_names =
    codes "ok"
    ∷ codes "invalid"
    ∷ codes "resolve-error"
    ∷ codes "connect-refused"
    ∷ codes "network-unreachable"
    ∷ codes "host-unreachable"
    ∷ codes "connect-timeout"
    ∷ codes "connect-error"
    ∷ codes "send-error"
    ∷ codes "recv-error"
    ∷ codes "recv-timeout"
    ∷ codes "truncated"
    ∷ codes "bad-response"
    ∷ codes "send-timeout"
    ∷ codes "tls-entropy-failed"
    ∷ codes "tls-invalid-ca"
    ∷ codes "tls-handshake-failed"
    ∷ codes "tls-handshake-timeout"
    ∷ codes "tls-trust-failed"
    ∷ codes "tls-hostname-mismatch"
    ∷ codes "tls-cert-time-failed"
    ∷ codes "tls-cert-invalid"
    ∷ codes "tls-protocol-failed"
    ∷ codes "tls-internal"
    ∷ codes "tls-recv-timeout"
    ∷ []

-- `cn_netsimple_result_name`
abbrev pub netsimple_result_name : ℕ → Text
netsimple_result_name = name_at netsimple_result_names
