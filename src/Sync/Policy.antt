-- ===== src/Sync/Policy.antt =====
-- `src/sync/kosync_policy.c`: the product result of a synchronisation. The pointer to the result is
-- not NULL here; the result is what stands behind it afterwards.
pub mod Confirmed
pub mod Retries
use crossnook.Base.{
  ℕ, ◌≡◌, Bool, true, false, not, ◌&&◌, ◌||◌, Option, none, some, ◌==◌, leb, if◌then◌else◌,
}
use crossnook.Sync.Types.{
  SyncStatus, Decision, TimeResult, DnsResult, Transport, KosyncResult, SyncResult, Outcome, Retry,
  Mutation, ProductResult,
}

-- An `int` as a condition.
abbrev pub is_set : ℕ → Bool
is_set flag = not (flag == 0)

unfoldable pub fail_closed : ProductResult
fail_closed = record {
  outcome = Outcome.internal_failure;
  retry = Retry.explicit_action;
  local_mutation = Mutation.no_mutation;
  remote_mutation = Mutation.no_mutation;
}

abbrev pub is_boolean : ℕ → Bool
is_boolean flag = flag == 0 || flag == 1

unfoldable pub boolean_fields_valid : SyncResult → Bool
boolean_fields_valid sync =
    is_boolean sync.local_present
    && (is_boolean sync.remote_present
        && (is_boolean sync.local_save_attempted
            && (is_boolean sync.remote_put_attempted
                && (is_boolean sync.local_saved && is_boolean sync.remote_uploaded))))

unfoldable pub transport_valid : Transport → Bool
transport_valid Transport.out_of_range = false
transport_valid _ = true

unfoldable pub transport_is_pre_put : Transport → Bool
transport_is_pre_put Transport.invalid = true
transport_is_pre_put Transport.resolve_error = true
transport_is_pre_put Transport.connect_refused = true
transport_is_pre_put Transport.network_unreachable = true
transport_is_pre_put Transport.host_unreachable = true
transport_is_pre_put Transport.connect_timeout = true
transport_is_pre_put Transport.connect_error = true
transport_is_pre_put Transport.tls_entropy_failed = true
transport_is_pre_put Transport.tls_invalid_ca = true
transport_is_pre_put Transport.tls_handshake_failed = true
transport_is_pre_put Transport.tls_handshake_timeout = true
transport_is_pre_put Transport.tls_trust_failed = true
transport_is_pre_put Transport.tls_hostname_mismatch = true
transport_is_pre_put Transport.tls_cert_time_failed = true
transport_is_pre_put Transport.tls_cert_invalid = true
transport_is_pre_put Transport.tls_internal = true
transport_is_pre_put _ = false

-- What an attempt that was not confirmed says of the server, by the status and the transport.
unfoldable pub attempted_mutation : SyncStatus → Transport → Mutation
attempted_mutation SyncStatus.auth_failed transport = Mutation.no_mutation
attempted_mutation SyncStatus.invalid transport = Mutation.no_mutation
attempted_mutation SyncStatus.https_failed transport =
    if transport_valid transport && transport_is_pre_put transport
    then Mutation.no_mutation
    else Mutation.possible
attempted_mutation _ transport = Mutation.possible

unfoldable pub remote_mutation : SyncResult → Mutation
remote_mutation sync =
    if is_set sync.remote_uploaded
    then Mutation.confirmed
    else if not (is_set sync.remote_put_attempted)
    then Mutation.no_mutation
    else attempted_mutation sync.status sync.transport_result

-- Both sides are present and nothing was written.
abbrev both_present : SyncResult → Bool
both_present sync =
    is_set sync.local_present
    && (is_set sync.remote_present
        && (not (is_set sync.local_save_attempted)
            && (not (is_set sync.remote_put_attempted)
                && (not (is_set sync.local_saved) && not (is_set sync.remote_uploaded)))))

-- The flags that a decision allows.
unfoldable pub decision_flags : Decision → SyncResult → Bool
decision_flags Decision.no_state sync =
    not (is_set sync.local_present)
    && (not (is_set sync.remote_present)
        && (not (is_set sync.local_save_attempted)
            && (not (is_set sync.remote_put_attempted)
                && (not (is_set sync.local_saved) && not (is_set sync.remote_uploaded)))))
decision_flags Decision.local_selected sync =
    is_set sync.local_present
    && (not (is_set sync.remote_present)
        && (not (is_set sync.local_save_attempted)
            && (is_set sync.remote_put_attempted
                && (not (is_set sync.local_saved) && is_set sync.remote_uploaded))))
decision_flags Decision.remote_selected sync =
    not (is_set sync.local_present)
    && (is_set sync.remote_present
        && (is_set sync.local_save_attempted
            && (not (is_set sync.remote_put_attempted)
                && (is_set sync.local_saved && not (is_set sync.remote_uploaded)))))
decision_flags Decision.no_change sync = both_present sync
decision_flags Decision.ambiguous sync = both_present sync
decision_flags _ sync = false

unfoldable pub success_invariants_hold : SyncResult → Bool
success_invariants_hold sync =
    if is_set sync.local_saved && not (is_set sync.local_save_attempted)
    then false
    else if is_set sync.remote_uploaded && not (is_set sync.remote_put_attempted)
    then false
    else decision_flags sync.decision sync

-- The outcome and the retry policy of a classification; the mutations stay.
abbrev pub set_outcome : Outcome → Retry → ProductResult → ProductResult
set_outcome outcome retry result = record result { outcome = outcome; retry = retry }

-- The two switches on the decision of a successful run.
unfoldable pub success_outcome : Decision → ProductResult → ProductResult
success_outcome Decision.no_state result = set_outcome Outcome.no_state Retry.no_retry result
success_outcome Decision.local_selected result = set_outcome Outcome.uploaded Retry.no_retry result
success_outcome Decision.remote_selected result = set_outcome Outcome.imported Retry.no_retry result
success_outcome Decision.no_change result = set_outcome Outcome.unchanged Retry.no_retry result
success_outcome Decision.ambiguous result =
    set_outcome Outcome.conflict Retry.explicit_action result
success_outcome _ result = fail_closed

unfoldable pub classify_success : SyncResult → ProductResult → ProductResult
classify_success sync result =
    if not (success_invariants_hold sync) then fail_closed else success_outcome sync.decision result

unfoldable pub classify_time : TimeResult → ProductResult → ProductResult
classify_time TimeResult.out_of_range result = fail_closed
classify_time TimeResult.ok result = fail_closed
classify_time TimeResult.socket_failed result =
    set_outcome Outcome.trusted_time_unavailable Retry.automatic_later result
classify_time TimeResult.send_failed result =
    set_outcome Outcome.trusted_time_unavailable Retry.automatic_later result
classify_time TimeResult.timeout result =
    set_outcome Outcome.trusted_time_unavailable Retry.automatic_later result
classify_time TimeResult.recv_failed result =
    set_outcome Outcome.trusted_time_unavailable Retry.automatic_later result
classify_time _ result = set_outcome Outcome.trusted_time_unavailable Retry.explicit_action result

abbrev connectivity : ProductResult → ProductResult
connectivity = set_outcome Outcome.connectivity_failure Retry.automatic_later

abbrev explicit : Outcome → ProductResult → ProductResult
explicit outcome = set_outcome outcome Retry.explicit_action

unfoldable pub classify_dns : DnsResult → ProductResult → ProductResult
classify_dns DnsResult.socket_failed result = connectivity result
classify_dns DnsResult.network_failed result = connectivity result
classify_dns DnsResult.timeout result = connectivity result
classify_dns DnsResult.server_failure result = connectivity result
classify_dns DnsResult.invalid result = explicit Outcome.configuration_failure result
classify_dns DnsResult.invalid_hostname result = explicit Outcome.configuration_failure result
classify_dns DnsResult.entropy_failed result = explicit Outcome.internal_failure result
classify_dns DnsResult.packet_size result = explicit Outcome.service_failure result
classify_dns DnsResult.malformed_response result = explicit Outcome.service_failure result
classify_dns DnsResult.truncated_response result = explicit Outcome.service_failure result
classify_dns DnsResult.nxdomain result = explicit Outcome.service_failure result
classify_dns DnsResult.no_address result = explicit Outcome.service_failure result
classify_dns DnsResult.unsupported_cname result = explicit Outcome.service_failure result
classify_dns _ result = fail_closed

unfoldable pub classify_https : Transport → ProductResult → ProductResult
classify_https Transport.resolve_error result = connectivity result
classify_https Transport.connect_refused result = connectivity result
classify_https Transport.network_unreachable result = connectivity result
classify_https Transport.host_unreachable result = connectivity result
classify_https Transport.connect_timeout result = connectivity result
classify_https Transport.connect_error result = connectivity result
classify_https Transport.send_error result = connectivity result
classify_https Transport.recv_error result = connectivity result
classify_https Transport.recv_timeout result = connectivity result
classify_https Transport.send_timeout result = connectivity result
classify_https Transport.tls_handshake_timeout result = connectivity result
classify_https Transport.tls_recv_timeout result = connectivity result
classify_https Transport.tls_invalid_ca result = explicit Outcome.security_failure result
classify_https Transport.tls_trust_failed result = explicit Outcome.security_failure result
classify_https Transport.tls_hostname_mismatch result = explicit Outcome.security_failure result
classify_https Transport.tls_cert_time_failed result = explicit Outcome.security_failure result
classify_https Transport.tls_cert_invalid result = explicit Outcome.security_failure result
classify_https Transport.truncated result = explicit Outcome.service_failure result
classify_https Transport.bad_response result = explicit Outcome.service_failure result
classify_https Transport.tls_handshake_failed result = explicit Outcome.service_failure result
classify_https Transport.tls_protocol_failed result = explicit Outcome.service_failure result
classify_https Transport.invalid result = explicit Outcome.configuration_failure result
classify_https Transport.tls_entropy_failed result = explicit Outcome.internal_failure result
classify_https Transport.tls_internal result = explicit Outcome.internal_failure result
classify_https _ result = fail_closed

abbrev is_temporary : ℕ → Bool
is_temporary status = status == 408 || (status == 429 || (leb 500 status && leb status 599))

unfoldable pub classify_protocol : KosyncResult → ℕ → ProductResult → ProductResult
classify_protocol KosyncResult.http_error status result =
    set_outcome Outcome.service_failure
      (if is_temporary status then Retry.automatic_later else Retry.explicit_action) result
classify_protocol KosyncResult.bad_json status result = explicit Outcome.service_failure result
classify_protocol KosyncResult.bad_protocol status result = explicit Outcome.service_failure result
classify_protocol _ status result = fail_closed

-- The code that a status points to lies outside its enumeration, or the status itself does.
unfoldable pub is_unreadable : SyncStatus → SyncResult → Bool
is_unreadable SyncStatus.out_of_range sync = true
is_unreadable SyncStatus.trusted_time_failed sync = elim (sync.time_result) [
  | TimeResult.out_of_range ↦ true
  | _ ↦ false
]
is_unreadable SyncStatus.dns_failed sync = elim (sync.dns_result) [
  | DnsResult.out_of_range ↦ true
  | _ ↦ false
]
is_unreadable SyncStatus.https_failed sync = not (transport_valid sync.transport_result)
is_unreadable SyncStatus.protocol_failed sync = elim (sync.kosync_result) [
  | KosyncResult.out_of_range ↦ true
  | _ ↦ false
]
is_unreadable _ sync = false

abbrev pub is_decision : Decision → Bool
is_decision Decision.out_of_range = false
is_decision _ = true

unfoldable pub local_mutation : SyncResult → Mutation
local_mutation sync =
    if is_set sync.local_saved
    then Mutation.confirmed
    else if is_set sync.local_save_attempted
    then Mutation.possible
    else Mutation.no_mutation

abbrev pub is_ok : SyncStatus → Bool
is_ok SyncStatus.ok = true
is_ok _ = false

-- The flags contradict one another, or the status.
unfoldable pub is_contradictory : SyncResult → Bool
is_contradictory sync =
    (is_set sync.local_saved && not (is_set sync.local_save_attempted))
    || ((is_set sync.remote_uploaded && not (is_set sync.remote_put_attempted))
        || (not (is_ok sync.status) && (is_set sync.local_saved || is_set sync.remote_uploaded)))

-- The last switch; `false` is the return value -1.
unfoldable pub classify_status : SyncStatus → SyncResult → ProductResult → Bool × ProductResult
classify_status SyncStatus.ok sync result = (true, classify_success sync result)
classify_status SyncStatus.invalid sync result =
    (true, explicit Outcome.configuration_failure result)
classify_status SyncStatus.identity_failed sync result =
    (true, explicit Outcome.local_failure result)
classify_status SyncStatus.local_failed sync result = (true, explicit Outcome.local_failure result)
classify_status SyncStatus.local_unsupported sync result =
    (true, explicit Outcome.local_unsupported result)
classify_status SyncStatus.trusted_time_failed sync result =
    (true, classify_time sync.time_result result)
classify_status SyncStatus.dns_failed sync result = (true, classify_dns sync.dns_result result)
classify_status SyncStatus.auth_failed sync result = (true, explicit Outcome.auth_required result)
classify_status SyncStatus.https_failed sync result =
    (true, classify_https sync.transport_result result)
classify_status SyncStatus.protocol_failed sync result =
    (true, classify_protocol sync.kosync_result sync.http_status result)
classify_status SyncStatus.no_memory sync result = (true, explicit Outcome.internal_failure result)
classify_status _ sync result = (false, fail_closed)

-- `cn_kosync_policy_classify`: `true` is the return value 0 and `false` is -1.
unfoldable pub classify : ℕ → Option SyncResult → Bool × ProductResult
classify enabled none =
    if not (is_boolean enabled)
    then (false, fail_closed)
    else if not (is_set enabled)
    then (true, set_outcome Outcome.disabled Retry.no_retry fail_closed)
    else (false, fail_closed)
classify enabled (some sync) =
    if not (is_boolean enabled)
    then (false, fail_closed)
    else if not (is_set enabled)
    then (true, set_outcome Outcome.disabled Retry.no_retry fail_closed)
    else if not (boolean_fields_valid sync)
        || (is_unreadable sync.status sync || not (is_decision sync.decision))
    then (false, fail_closed)
    else if is_contradictory sync
    then (true, fail_closed)
    else classify_status sync.status sync (record fail_closed {
      local_mutation = local_mutation sync;
      remote_mutation = remote_mutation sync;
    })
