-- ===== src/Sync/Once.antt =====
-- `src/sync/kosync_sync.c`: one synchronisation of a book. The components that it calls are
-- parameters, but for the identity of the document and the record that is uploaded; a call that
-- the code makes is an entry of the trace, with what it answered. The pointer to the result is not
-- NULL, and the result is what stands behind it afterwards, the returned status included.
use crossnook.Base.{ℕ, Bool, false, Option, none, some, List, [], ◌∷◌, Text, text_eq}
use crossnook.Md5.{Context}
use crossnook.KoreaderIdentity.{IdentityResult, SampledFile, document_id_init}
use crossnook.Sync.Types.{
  SyncStatus, Decision, TimeResult, DnsResult, Transport, KosyncResult, ProgressResult, Position,
  KosyncProgress, SyncResult,
}
use crossnook.Sync.Upload.{progress_init}

pub data TimePolicy : Type 0 where
  establish caller_established out_of_range : TimePolicy

-- `cn_kosync_client`: what the run reads of it.
pub record Client : Type 0 where
  pub host : Text
  pub use_tls : Bool

-- `cn_kosync_sync_config`: a pointer whose target the run does not read is the truth value of its
-- not being NULL; of the TLS configuration the run reads whether `get_time` is set.
pub record Config : Type 0 where
  pub document_path : Option Text
  pub has_progress_store : Bool
  pub time_policy : TimePolicy
  pub has_time : Bool
  pub has_dns : Bool
  pub tls_get_time : Option Bool
  pub client : Option Client
  pub device : Option Text
  pub device_id : Option Text

-- What the server's answer to a request leaves behind the pointers.
pub record GetAnswer : Type 0 where
  pub result : KosyncResult
  pub progress : KosyncProgress
  pub http_status : ℕ
  pub transport : Transport

pub record PutAnswer : Type 0 where
  pub result : KosyncResult
  pub timestamp : ℕ
  pub http_status : ℕ
  pub transport : Transport

-- The components that the run calls, each at most once.
pub record Collaborators : Type 0 where
  pub file : SampledFile
  pub stack : Context
  pub malloc : ℕ → Bool
  pub from_path : Text → Option Text
  pub load : Text → ProgressResult × Position
  pub save : Text → Option Text → Option ℕ → ProgressResult
  pub sync_time : TimeResult
  pub resolve : Text → DnsResult × List ℕ
  pub set_tls : ℕ → KosyncResult
  pub get_progress : Text → GetAnswer
  pub put_progress : KosyncProgress → PutAnswer

pub data Call : Type 0 where
  load_call : ProgressResult → Call
  time_call : TimeResult → Call
  resolve_call : DnsResult → Call
  get_call : KosyncResult → Call
  save_call : Option Text → Option ℕ → ProgressResult → Call
  put_call : KosyncProgress → KosyncResult → Call

abbrev pub Run : Type 0
Run = SyncResult × List Call

unfoldable pub finish : SyncResult → SyncStatus → Run
finish result status = (record result { status = status }, [])

-- A call in front of those that follow it.
unfoldable pub after : Call → Run → Run
after call run = (run.0, call ∷ run.1)

unfoldable pub map_kosync : KosyncResult → SyncStatus
map_kosync KosyncResult.auth_failed = SyncStatus.auth_failed
map_kosync KosyncResult.transport_error = SyncStatus.https_failed
map_kosync KosyncResult.http_error = SyncStatus.protocol_failed
map_kosync KosyncResult.bad_json = SyncStatus.protocol_failed
map_kosync KosyncResult.bad_protocol = SyncStatus.protocol_failed
map_kosync KosyncResult.no_memory = SyncStatus.no_memory
map_kosync _ = SyncStatus.invalid

-- A failure of the local store.
unfoldable pub local_failure : ProgressResult → SyncStatus
local_failure ProgressResult.no_memory = SyncStatus.no_memory
local_failure _ = SyncStatus.local_failed

unfoldable pub result_init : SyncResult
result_init = record {
  status = SyncStatus.invalid;
  decision = Decision.decision_none;
  local_present = 0;
  remote_present = 0;
  local_save_attempted = 0;
  remote_put_attempted = 0;
  local_saved = 0;
  remote_uploaded = 0;
  document_id = document_id_init;
  remote_progress = progress_init;
  local_identity_ok = 0;
  identity_result = IdentityResult.invalid;
  local_load_result = ProgressResult.invalid;
  local_save_result = ProgressResult.invalid;
  time_result = TimeResult.invalid;
  dns_result = DnsResult.invalid;
  kosync_result = KosyncResult.invalid;
  put_timestamp = 0;
  has_put_timestamp = 0;
  http_status = 0;
  transport_result = Transport.invalid;
}

-- The answer to the save of the server's position.
unfoldable pub saved : SyncResult → ProgressResult → Run
saved result ProgressResult.ok = finish (record result { local_saved = 1 }) SyncStatus.ok
saved result code = finish result (local_failure code)

-- The answer to the upload of the local position.
unfoldable pub uploaded : SyncResult → KosyncResult → Run
uploaded result KosyncResult.ok =
    finish (record result { remote_uploaded = 1; has_put_timestamp = 1 }) SyncStatus.ok
uploaded result code = finish result (map_kosync code)

-- `strcmp(...) == 0`; a position that the server sent is not NULL.
abbrev pub same_location : Text → Option Text → Bool
same_location location none = false
same_location location (some other) = text_eq location other
