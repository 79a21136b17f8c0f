-- ===== src/Sync/Types.antt =====
-- The enumerations and records that the synchronisation components share. A C enumeration can
-- hold any `int`: `out_of_range` stands for the values outside the enumerators, the count included.
-- A flag is an `int` too, here a number: 0, 1, or something else from 2 on.
use crossnook.Base.{ℕ, Option, Text}
use crossnook.KoreaderIdentity.{IdentityResult, DocumentId}

pub data SyncStatus : Type 0 where
  ok invalid identity_failed local_failed local_unsupported trusted_time_failed : SyncStatus
  dns_failed auth_failed https_failed protocol_failed no_memory out_of_range : SyncStatus

pub data Decision : Type 0 where
  decision_none no_state local_selected remote_selected no_change ambiguous : Decision
  out_of_range : Decision

pub data TimeResult : Type 0 where
  ok invalid internal entropy_failed socket_failed send_failed timeout recv_failed : TimeResult
  peer_mismatch packet_size version mode unsynchronized kiss_of_death stratum : TimeResult
  originate_mismatch zero_receive zero_transmit time_range clock_set_failed : TimeResult
  out_of_range : TimeResult

pub data DnsResult : Type 0 where
  ok invalid invalid_hostname entropy_failed socket_failed network_failed timeout : DnsResult
  packet_size malformed_response truncated_response nxdomain server_failure : DnsResult
  no_address unsupported_cname out_of_range : DnsResult

pub data Transport : Type 0 where
  ok invalid resolve_error connect_refused network_unreachable host_unreachable : Transport
  connect_timeout connect_error send_error recv_error recv_timeout truncated : Transport
  bad_response send_timeout tls_entropy_failed tls_invalid_ca tls_handshake_failed : Transport
  tls_handshake_timeout tls_trust_failed tls_hostname_mismatch tls_cert_time_failed : Transport
  tls_cert_invalid tls_protocol_failed tls_internal tls_recv_timeout out_of_range : Transport

pub data KosyncResult : Type 0 where
  ok not_found invalid auth_failed http_error transport_error bad_json : KosyncResult
  bad_protocol no_memory out_of_range : KosyncResult

pub data ProgressResult : Type 0 where
  ok missing corrupt unsupported io_error invalid no_memory : ProgressResult

-- `cn_reader_position`: `none` is the progress -1 (or any negative one), which is not known.
pub record Position : Type 0 where
  pub location : Text
  pub progress_10000 : Option ℕ

-- `cn_kosync_progress`.
pub record KosyncProgress : Type 0 where
  pub document_id : Text
  pub logical_position : Option Text
  pub progress_10000 : Option ℕ
  pub device : Text
  pub device_id : Text
  pub timestamp : ℕ
  pub has_timestamp : ℕ

-- `cn_kosync_sync_result`, with the two fields of `kosync_outcome` at the end.
pub record SyncResult : Type 0 where
  pub status : SyncStatus
  pub decision : Decision
  pub local_present : ℕ
  pub remote_present : ℕ
  pub local_save_attempted : ℕ
  pub remote_put_attempted : ℕ
  pub local_saved : ℕ
  pub remote_uploaded : ℕ
  pub document_id : DocumentId
  pub remote_progress : KosyncProgress
  pub local_identity_ok : ℕ
  pub identity_result : IdentityResult
  pub local_load_result : ProgressResult
  pub local_save_result : ProgressResult
  pub time_result : TimeResult
  pub dns_result : DnsResult
  pub kosync_result : KosyncResult
  pub put_timestamp : ℕ
  pub has_put_timestamp : ℕ
  pub http_status : ℕ
  pub transport_result : Transport

pub data Outcome : Type 0 where
  disabled unchanged uploaded imported no_state conflict auth_required : Outcome
  trusted_time_unavailable connectivity_failure security_failure service_failure : Outcome
  local_unsupported local_failure configuration_failure internal_failure : Outcome

pub data Retry : Type 0 where
  no_retry automatic_later explicit_action : Retry

pub data Mutation : Type 0 where
  no_mutation confirmed possible : Mutation

-- `cn_kosync_product_result`.
pub record ProductResult : Type 0 where
  pub outcome : Outcome
  pub retry : Retry
  pub local_mutation : Mutation
  pub remote_mutation : Mutation
