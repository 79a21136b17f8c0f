-- ===== src/Sync/Run/Reported.antt =====
-- What the classification of a run reports, against the calls that the run made.
use crossnook.Base.{
  ℕ, ◌≡◌, refl, arith, ap, Bool, true, false, not, ◌&&◌, Option, none, some, List, [], ◌∷◌, Text,
  if_both,
}
use crossnook.KoreaderIdentity.{
  koreader_binary, document_id_text, document_id_init, IdentityResult, DocumentId,
}
use crossnook.Sync.Types.{
  SyncStatus, Decision, TimeResult, DnsResult, KosyncResult, ProgressResult, Position,
  KosyncProgress, SyncResult,
}
use crossnook.Sync.Once.{
  Client, Config, Collaborators, Call, load_call, time_call, resolve_call, get_call, save_call,
  put_call, Run, finish, after, map_kosync, local_failure, result_init, saved, uploaded,
  same_location,
}
use crossnook.Sync.Run.{
  import_remote, put, set_then_put, upload_local, decide, got, get, connect, resolved, resolve,
  timed, take_time, loaded, load_local, identified, identify, establishes, start, pointers,
  sync_once,
}
use crossnook.Sync.Upload.{progress_init, progress_set}
use crossnook.Sync.Policy.{classify}
use crossnook.Sync.Policy.Confirmed.{is_uploaded, is_imported}
use crossnook.Sync.Run.Unwritten.{
  IsUnwritten, classify-IsUnwritten, classify-uploaded, classify-imported,
}

-- An upload that the server confirmed is among the calls.
unfoldable pub put_ok : List Call → Bool
put_ok [] = false
put_ok (put_call upload KosyncResult.ok ∷ calls) = true
put_ok (call ∷ calls) = put_ok calls

-- A save that the store confirmed is among the calls.
unfoldable pub save_ok : List Call → Bool
save_ok [] = false
save_ok (save_call location progress ProgressResult.ok ∷ calls) = true
save_ok (call ∷ calls) = save_ok calls

-- The outcome of the run's classification says what the calls did.
unfoldable pub IsReported : Run → Type 0
IsReported run =
    let outcome = (classify 1 (some run.0)).1.outcome in
    (is_uploaded outcome ≡ put_ok run.1) × (is_imported outcome ≡ save_ok run.1)

-- The result before the decision: nothing was attempted, and the flags are those of the two sides.
unfoldable pub IsFresh : ℕ → ℕ → SyncResult → Type 0
IsFresh local remote result =
    (result.local_present ≡ local)
    × (result.remote_present ≡ remote)
    × (result.local_save_attempted ≡ 0)
    × (result.remote_put_attempted ≡ 0)
    × (result.local_saved ≡ 0)
    × (result.remote_uploaded ≡ 0)

finish-IsReported :
    (result : SyncResult) (status : SyncStatus)
    → result.local_saved ≡ 0
    → result.remote_uploaded ≡ 0
    → IsReported (finish result status)
unfolding IsReported finish put_ok save_ok IsUnwritten
finish-IsReported result status s u =
    classify-IsUnwritten (record result { status = status }) (ground arith) (ground arith)

-- A call that is neither a save nor an upload.
unfoldable is_plain : Call → Bool
is_plain (put_call upload code) = false
is_plain (save_call location progress code) = false
is_plain _ = true

after-IsReported :
    (call : Call) (run : Run) → is_plain call ≡ true → IsReported run → IsReported (after call run)
unfolding IsReported after put_ok save_ok is_plain
after-IsReported (put_call upload code) run plain h = absurd (ground arith)
after-IsReported (save_call location progress code) run plain h = absurd (ground arith)
after-IsReported (load_call code) run plain h = h
after-IsReported (time_call answer) run plain h = h
after-IsReported (resolve_call code) run plain h = h
after-IsReported (get_call code) run plain h = h

saved-IsReported :
    (result : SyncResult) (location : Option Text) (progress : Option ℕ) (code : ProgressResult)
    → result.decision ≡ Decision.remote_selected
    → result.local_present ≡ 0
    → result.remote_present ≡ 1
    → result.local_save_attempted ≡ 1
    → result.remote_put_attempted ≡ 0
    → result.local_saved ≡ 0
    → result.remote_uploaded ≡ 0
    → IsReported (after (save_call location progress code) (saved result code))
unfolding IsReported after saved put_ok save_ok finish is_uploaded is_imported
saved-IsReported result location progress code d p r a n s u =
    elim code as (λ k. IsReported (after (save_call location progress k) (saved result k))) [
      | ProgressResult.ok ↦
          let e =
            classify-imported (record result { local_saved = 1; status = SyncStatus.ok }) refl d p r
              a n refl u in
          (ap is_uploaded e, ap is_imported e)
      | _ ↦ finish-IsReported result (local_failure _) s u
    ]

uploaded-IsReported :
    (result : SyncResult) (upload : KosyncProgress) (code : KosyncResult)
    → result.decision ≡ Decision.local_selected
    → result.local_present ≡ 1
    → result.remote_present ≡ 0
    → result.local_save_attempted ≡ 0
    → result.remote_put_attempted ≡ 1
    → result.local_saved ≡ 0
    → result.remote_uploaded ≡ 0
    → IsReported (after (put_call upload code) (uploaded result code))
unfolding IsReported after uploaded put_ok save_ok finish is_uploaded is_imported
uploaded-IsReported result upload code d p r a n s u =
    elim code as (λ k. IsReported (after (put_call upload k) (uploaded result k))) [
      | KosyncResult.ok ↦
          let e =
            classify-uploaded
              (record result { remote_uploaded = 1; has_put_timestamp = 1; status = SyncStatus.ok })
              refl d p r a n s refl in
          (ap is_uploaded e, ap is_imported e)
      | _ ↦ finish-IsReported result (map_kosync _) s u
    ]

-- One flag of a result, from a truth value.
abbrev flag : Bool → ℕ
flag true = 1
flag false = 0

stop :
    (local remote : ℕ) (result : SyncResult) (status : SyncStatus)
    → IsFresh local remote result
    → IsReported (finish result status)
unfolding IsFresh
stop local remote result status fresh =
    let (l, r, a, p, s, u) = fresh in finish-IsReported result status s u

module _ (world : Collaborators) where
  import_remote-IsReported :
      (result : SyncResult) (identity : Text)
      → IsFresh 0 1 result
      → IsReported (import_remote world result identity)
  unfolding import_remote IsFresh
  import_remote-IsReported result identity fresh =
      let (l, r, a, p, s, u) = fresh in saved-IsReported _ _ _ _ refl l r refl p s u

  put-IsReported :
      (result : SyncResult) (upload : KosyncProgress)
      → IsFresh 1 0 result
      → result.decision ≡ Decision.local_selected
      → IsReported (put world result upload)
  unfolding put IsFresh
  put-IsReported result upload fresh chosen =
      let (l, r, a, p, s, u) = fresh in uploaded-IsReported _ _ _ chosen l r a refl s u

  set_then_put-IsReported :
      (result : SyncResult) (code : KosyncResult) (upload : KosyncProgress)
      → IsFresh 1 0 result
      → result.decision ≡ Decision.local_selected
      → IsReported (set_then_put world result code upload)
  unfolding set_then_put IsFresh
  set_then_put-IsReported result code upload fresh chosen =
      elim code as (λ k. IsReported (set_then_put world result k upload)) [
        | KosyncResult.ok ↦ put-IsReported _ upload fresh chosen
        | _ ↦ stop _ _ _ _ fresh
      ]

  module _ (identity id : Text) (position : Position) (device device_id : Text) where
    upload_local-IsReported :
        (result : SyncResult)
        → IsFresh 1 0 result
        → IsReported (upload_local world result id position device device_id)
    unfolding upload_local IsFresh
    upload_local-IsReported result fresh =
        elim (position.progress_10000)
          as (λ k. IsReported (elim k [
            | none ↦
                finish (record result { decision = Decision.local_selected })
                  SyncStatus.local_unsupported
            | some n ↦
                set_then_put world (record result { decision = Decision.local_selected })
                  (progress_set world.malloc progress_init id position.location (some n) device
                    device_id).0
                  (progress_set world.malloc progress_init id position.location (some n) device
                    device_id).1
          ])) [ none ↦ stop _ _ _ _ fresh | some n ↦ set_then_put-IsReported _ _ _ fresh refl ]

    decide-IsReported :
        (local remote : Bool) (result : SyncResult)
        → IsFresh (flag local) (flag remote) result
        → IsReported (decide world local remote result identity id position device device_id)
    unfolding decide IsFresh
    decide-IsReported false false result fresh = stop _ _ _ _ fresh
    decide-IsReported false true result fresh = import_remote-IsReported result identity fresh
    decide-IsReported true false result fresh = upload_local-IsReported result fresh
    decide-IsReported true true result fresh =
        if_both IsReported (same_location position.location result.remote_progress.logical_position)
          (λ h. stop _ _ _ _ fresh) (λ h. stop _ _ _ _ fresh)

    got-IsReported :
        (code : KosyncResult) (local : Bool) (result : SyncResult)
        → IsFresh (flag local) 0 result
        → IsReported (got world code local result identity id position device device_id)
    unfolding got IsFresh
    got-IsReported code local result fresh =
        elim code
          as (λ k. IsReported (got world k local result identity id position device device_id)) [
            | KosyncResult.ok ↦
                let (l, r, a, p, s, u) = fresh in
                decide-IsReported local true _ (l, refl, a, p, s, u)
            | KosyncResult.not_found ↦ decide-IsReported local false result fresh
            | _ ↦ stop _ _ _ _ fresh
          ]

    connect-IsReported :
        (code : KosyncResult) (local : Bool) (result : SyncResult)
        → IsFresh (flag local) 0 result
        → IsReported (connect world code local result identity id position device device_id)
    unfolding connect get IsFresh is_plain
    connect-IsReported code local result fresh =
        elim code
          as (λ k.
            IsReported (connect world k local result identity id position device device_id)) [
              | KosyncResult.ok ↦
                  after-IsReported _ _ refl
                    (got-IsReported (world.get_progress id).result local _ fresh)
              | _ ↦ stop _ _ _ _ fresh
            ]

    resolved-IsReported :
        (code : DnsResult) (addresses : List ℕ) (local : Bool) (result : SyncResult)
        → IsFresh (flag local) 0 result
        → IsReported
            (resolved world code addresses local result identity id position device device_id)
    unfolding resolved IsFresh
    resolved-IsReported code [] local result fresh =
        elim code
          as (λ k.
            IsReported (resolved world k [] local result identity id position device device_id)) [
              | DnsResult.ok ↦ stop _ _ _ _ fresh
              | _ ↦ stop _ _ _ _ fresh
            ]
    resolved-IsReported code (address ∷ others) local result fresh =
        elim code
          as (λ k. IsReported (
            resolved world k (address ∷ others) local result identity id position device
              device_id)) [
                | DnsResult.ok ↦ connect-IsReported (world.set_tls address) local _ fresh
                | _ ↦ stop _ _ _ _ fresh
              ]

    timed-IsReported :
        (code : TimeResult) (host : Text) (local : Bool) (result : SyncResult)
        → IsFresh (flag local) 0 result
        → IsReported (timed world code host local result identity id position device device_id)
    unfolding timed resolve IsFresh is_plain
    timed-IsReported code host local result fresh =
        elim code
          as (λ k.
            IsReported (timed world k host local result identity id position device device_id)) [
              | TimeResult.ok ↦
                  after-IsReported _ _ refl (
                    resolved-IsReported (world.resolve host).0 (world.resolve host).1 local _ fresh)
              | _ ↦ stop _ _ _ _ fresh
            ]

    take_time-IsReported :
        (from_network : Bool) (host : Text) (local : Bool) (result : SyncResult)
        → IsFresh (flag local) 0 result
        → IsReported
            (take_time world from_network host local result identity id position device device_id)
    unfolding take_time is_plain
    take_time-IsReported true host local result fresh =
        after-IsReported _ _ refl (timed-IsReported world.sync_time host local result fresh)
    take_time-IsReported false host local result fresh =
        timed-IsReported TimeResult.ok host local result fresh

  loaded-IsReported :
      (code : ProgressResult) (position : Position) (from_network : Bool) (host : Text)
      (result : SyncResult) (identity id device device_id : Text)
      → IsFresh 0 0 result
      → IsReported
          (loaded world code position from_network host result identity id device device_id)
  unfolding loaded IsFresh
  loaded-IsReported code position from_network host result identity id device device_id fresh =
      elim code
        as (λ k.
          IsReported
            (loaded world k position from_network host result identity id device device_id)) [
              | ProgressResult.ok ↦
                  let (l, r, a, p, s, u) = fresh in
                  take_time-IsReported identity id position device device_id from_network host true
                    _ (refl, r, a, p, s, u)
              | ProgressResult.missing ↦
                  take_time-IsReported identity id position device device_id from_network host false
                    _ fresh
              | _ ↦ stop _ _ _ _ fresh
            ]

  module _ (from_network : Bool) (host path device device_id : Text) where
    identified-IsReported :
        (code : IdentityResult) (document : Option DocumentId) (id : Option Text)
        (result : SyncResult) (identity : Text)
        → IsFresh 0 0 result
        → IsReported
            (identified world code document id from_network host result identity device device_id)
    unfolding identified load_local IsFresh is_plain
    identified-IsReported IdentityResult.ok (some document) (some id) result identity fresh =
        after-IsReported _ _ refl (
          loaded-IsReported (world.load identity).0 (world.load identity).1 from_network host _
            identity id device device_id fresh)
    identified-IsReported IdentityResult.ok (some document) none result identity fresh =
        stop _ _ _ _ fresh
    identified-IsReported IdentityResult.ok none id result identity fresh = stop _ _ _ _ fresh
    identified-IsReported IdentityResult.invalid (some document) id result identity fresh =
        stop _ _ _ _ fresh
    identified-IsReported IdentityResult.invalid none id result identity fresh = stop _ _ _ _ fresh
    identified-IsReported IdentityResult.io_error (some document) id result identity fresh =
        stop _ _ _ _ fresh
    identified-IsReported IdentityResult.io_error none id result identity fresh = stop _ _ _ _ fresh

    identify-IsReported :
        (identity : Option Text)
        → IsReported (identify world identity from_network host path device device_id)
    unfolding identify IsFresh result_init
    identify-IsReported none = finish-IsReported _ _ refl refl
    identify-IsReported (some identity) =
        let (code, document) =
          koreader_binary world.file world.stack (some path) (some document_id_init) in
        identified-IsReported code document (document_id_text document)
          (record result_init { local_identity_ok = 1 }) identity
          (refl, refl, refl, refl, refl, refl)

  start-IsReported :
      (from_network : Option Bool) (client : Client) (path device device_id : Text)
      → IsReported (start world from_network client path device device_id)
  unfolding start result_init
  start-IsReported none client path device device_id = finish-IsReported _ _ refl refl
  start-IsReported (some from_network) client path device device_id =
      if_both IsReported (not client.use_tls) (λ h. finish-IsReported _ _ refl refl)
        (λ h.
          identify-IsReported from_network client.host path device device_id (world.from_path path))

  pointers-IsReported :
      (config : Config) (path : Option Text) (tls : Option Bool) (client : Option Client)
      (device device_id : Option Text)
      → IsReported (pointers world config path tls client device device_id)
  unfolding pointers result_init
  pointers-IsReported config (some path) (some get_time) (some client) (some device)
        (some device_id) =
      if_both IsReported (not (config.has_progress_store && config.has_dns))
        (λ h. finish-IsReported _ _ refl refl)
        (λ h.
          start-IsReported (establishes config.time_policy config.has_time get_time) client path
            device device_id)
  pointers-IsReported config none tls client device device_id = finish-IsReported _ _ refl refl
  pointers-IsReported config (some path) none client device device_id =
      finish-IsReported _ _ refl refl
  pointers-IsReported config (some path) (some get_time) none device device_id =
      finish-IsReported _ _ refl refl
  pointers-IsReported config (some path) (some get_time) (some client) none device_id =
      finish-IsReported _ _ refl refl
  pointers-IsReported config (some path) (some get_time) (some client) (some device) none =
      finish-IsReported _ _ refl refl

-- Whatever the configuration is and whatever the components answer, the classification of the
-- run's result has the outcome `uploaded` exactly when the run made an upload that was answered
-- with ok, and the outcome `imported` exactly when it made a save that was answered with ok.
pub sync_once-IsReported :
    (world : Collaborators) (config : Option Config) → IsReported (sync_once world config)
unfolding sync_once result_init
sync_once-IsReported world none = finish-IsReported _ _ refl refl
sync_once-IsReported world (some config) =
    pointers-IsReported world config config.document_path config.tls_get_time config.client
      config.device config.device_id
