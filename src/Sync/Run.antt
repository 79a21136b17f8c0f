-- ===== src/Sync/Run.antt =====
-- `src/sync/kosync_sync.c`: the run of `cn_kosync_sync_once`, one function for each stage. A stage
-- takes what the earlier ones found: whether a local record is present, the result so far, the
-- local identity and the identity of the document, the local position, and the device's name and
-- identifier.
pub mod Unwritten
pub mod Reported
use crossnook.Base.{
  ℕ, Bool, true, false, not, ◌&&◌, ◌||◌, Option, none, some, List, [], ◌∷◌, if◌then◌else◌, Text,
}
use crossnook.KoreaderIdentity.{
  IdentityResult, DocumentId, document_id_init, koreader_binary, document_id_text,
}
use crossnook.Sync.Types.{
  SyncStatus, Decision, TimeResult, DnsResult, KosyncResult, ProgressResult, Position,
  KosyncProgress, SyncResult,
}
use crossnook.Sync.Upload.{progress_init, progress_set}
use crossnook.Sync.Once.{
  TimePolicy, Client, Config, Collaborators, Run, finish, after, map_kosync, local_failure,
  result_init, saved, uploaded, same_location, load_call, time_call, resolve_call, get_call,
  save_call, put_call,
}

-- The guard on the time policy; `none` refuses the configuration, and otherwise the flag tells
-- whether the run establishes the time.
unfoldable pub establishes : TimePolicy → Bool → Bool → Option Bool
establishes TimePolicy.establish has_time get_time =
    if not has_time || get_time then none else some true
establishes TimePolicy.caller_established has_time get_time = some false
establishes TimePolicy.out_of_range has_time get_time = none

module _ (world : Collaborators) where
  unfoldable pub import_remote : SyncResult → Text → Run
  import_remote result identity =
      let remote = result.remote_progress in
      let code = world.save identity remote.logical_position remote.progress_10000 in
      after (save_call remote.logical_position remote.progress_10000 code) (
        saved
          (record result {
            decision = Decision.remote_selected;
            local_save_attempted = 1;
            local_save_result = code;
          })
          code)

  -- `cn_kosync_put_progress` of the record that `cn_kosync_progress_set` filled.
  unfoldable pub put : SyncResult → KosyncProgress → Run
  put result upload =
      let answer = world.put_progress upload in
      after (put_call upload answer.result) (
        uploaded
          (record result {
            remote_put_attempted = 1;
            kosync_result = answer.result;
            put_timestamp = answer.timestamp;
            http_status = answer.http_status;
            transport_result = answer.transport;
          })
          answer.result)

  unfoldable pub set_then_put : SyncResult → KosyncResult → KosyncProgress → Run
  set_then_put result KosyncResult.ok upload =
      put (record result { kosync_result = KosyncResult.ok }) upload
  set_then_put result code upload =
      finish (record result { kosync_result = code }) (map_kosync code)

  unfoldable pub upload_local : SyncResult → Text → Position → Text → Text → Run
  upload_local result id position device device_id = elim (position.progress_10000) [
    | none ↦
        finish (record result { decision = Decision.local_selected }) SyncStatus.local_unsupported
    | some n ↦
        let (code, upload) =
          progress_set world.malloc progress_init id position.location (some n) device device_id in
        set_then_put (record result { decision = Decision.local_selected }) code upload
  ]

  -- The decision, once the server's answer is known; the flags are the truth of the two sides.
  unfoldable pub decide : Bool → Bool → SyncResult → Text → Text → Position → Text → Text → Run
  decide false false result identity id position device device_id =
      finish (record result { decision = Decision.no_state }) SyncStatus.ok
  decide false true result identity id position device device_id = import_remote result identity
  decide true false result identity id position device device_id =
      upload_local result id position device device_id
  decide true true result identity id position device device_id =
      if same_location position.location result.remote_progress.logical_position
      then finish (record result { decision = Decision.no_change }) SyncStatus.ok
      else finish (record result { decision = Decision.ambiguous }) SyncStatus.ok

  -- The answer to the request for the server's position.
  unfoldable pub got : KosyncResult → Bool → SyncResult → Text → Text → Position → Text → Text → Run
  got KosyncResult.ok present result identity id position device device_id =
      decide present true (record result { remote_present = 1 }) identity id position device
        device_id
  got KosyncResult.not_found present result identity id position device device_id =
      decide present false result identity id position device device_id
  got code present result identity id position device device_id = finish result (map_kosync code)

  unfoldable pub get : Bool → SyncResult → Text → Text → Position → Text → Text → Run
  get present result identity id position device device_id =
      let answer = world.get_progress id in
      after (get_call answer.result) (
        got answer.result present
          (record result {
            kosync_result = answer.result;
            remote_progress = answer.progress;
            http_status = answer.http_status;
            transport_result = answer.transport;
          })
          identity id position device device_id)

  -- The copy of the client is bound to the first address.
  unfoldable pub connect :
      KosyncResult → Bool → SyncResult → Text → Text → Position → Text → Text → Run
  connect KosyncResult.ok present result identity id position device device_id =
      get present (record result { kosync_result = KosyncResult.ok }) identity id position device
        device_id
  connect code present result identity id position device device_id =
      finish (record result { kosync_result = code }) (map_kosync code)

  unfoldable pub resolved :
      DnsResult → List ℕ → Bool → SyncResult → Text → Text → Position → Text → Text → Run
  resolved DnsResult.ok [] present result identity id position device device_id =
      finish (record result { dns_result = DnsResult.no_address }) SyncStatus.dns_failed
  resolved DnsResult.ok (address ∷ others) present result identity id position device device_id =
      connect (world.set_tls address) present (record result { dns_result = DnsResult.ok }) identity
        id position device device_id
  resolved code addresses present result identity id position device device_id =
      finish (record result { dns_result = code }) SyncStatus.dns_failed

  unfoldable pub resolve : Text → Bool → SyncResult → Text → Text → Position → Text → Text → Run
  resolve host present result identity id position device device_id =
      let (code, addresses) = world.resolve host in
      after (resolve_call code)
        (resolved code addresses present result identity id position device device_id)

  unfoldable pub timed :
      TimeResult → Text → Bool → SyncResult → Text → Text → Position → Text → Text → Run
  timed TimeResult.ok host present result identity id position device device_id =
      resolve host present (record result { time_result = TimeResult.ok }) identity id position
        device device_id
  timed code host present result identity id position device device_id =
      finish (record result { time_result = code }) SyncStatus.trusted_time_failed

  unfoldable pub take_time :
      Bool → Text → Bool → SyncResult → Text → Text → Position → Text → Text → Run
  take_time true host present result identity id position device device_id =
      after (time_call world.sync_time)
        (timed world.sync_time host present result identity id position device device_id)
  take_time false host present result identity id position device device_id =
      timed TimeResult.ok host present result identity id position device device_id

  -- What the local store answers: a missing record is no failure.
  unfoldable pub loaded :
      ProgressResult → Position → Bool → Text → SyncResult → Text → Text → Text → Text → Run
  loaded ProgressResult.ok position from_network host result identity id device device_id =
      take_time from_network host true (record result { local_present = 1 }) identity id position
        device device_id
  loaded ProgressResult.missing position from_network host result identity id device device_id =
      take_time from_network host false result identity id position device device_id
  loaded code position from_network host result identity id device device_id =
      finish result (local_failure code)

  unfoldable pub load_local : Bool → Text → SyncResult → Text → Text → Text → Text → Run
  load_local from_network host result identity id device device_id =
      let (code, position) = world.load identity in
      after (load_call code) (
        loaded code position from_network host (record result { local_load_result = code }) identity
          id device device_id)

  -- The identity of the document, and its text.
  unfoldable pub identified :
      IdentityResult
      → Option DocumentId
      → Option Text
      → Bool
      → Text
      → SyncResult
      → Text
      → Text
      → Text
      → Run
  identified IdentityResult.ok (some document) (some id) from_network host result identity device
        device_id =
      load_local from_network host
        (record result { identity_result = IdentityResult.ok; document_id = document }) identity id
        device device_id
  identified code (some document) id from_network host result identity device device_id =
      finish (record result { identity_result = code; document_id = document })
        SyncStatus.identity_failed
  identified code none id from_network host result identity device device_id =
      finish (record result { identity_result = code }) SyncStatus.identity_failed

  unfoldable pub identify : Option Text → Bool → Text → Text → Text → Text → Run
  identify none from_network host path device device_id =
      finish result_init SyncStatus.identity_failed
  identify (some identity) from_network host path device device_id =
      let (code, document) =
        koreader_binary world.file world.stack (some path) (some document_id_init) in
      identified code document (document_id_text document) from_network host
        (record result_init { local_identity_ok = 1 }) identity device device_id

  unfoldable pub start : Option Bool → Client → Text → Text → Text → Run
  start none client path device device_id = finish result_init SyncStatus.invalid
  start (some from_network) client path device device_id =
      if not client.use_tls
      then finish result_init SyncStatus.invalid
      else identify (world.from_path path) from_network client.host path device device_id

  -- The guard on the pointers of the configuration.
  unfoldable pub pointers :
      Config → Option Text → Option Bool → Option Client → Option Text → Option Text → Run
  pointers config (some path) (some get_time) (some client) (some device) (some device_id) =
      if not (config.has_progress_store && config.has_dns)
      then finish result_init SyncStatus.invalid
      else start (establishes config.time_policy config.has_time get_time) client path device
          device_id
  pointers config path tls client device device_id = finish result_init SyncStatus.invalid

  -- `cn_kosync_sync_once`
  unfoldable pub sync_once : Option Config → Run
  sync_once none = finish result_init SyncStatus.invalid
  sync_once (some config) =
      pointers config config.document_path config.tls_get_time config.client config.device
        config.device_id
