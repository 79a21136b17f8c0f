-- ===== src/Server/Requests.antt =====
-- The requests to the server: `cn_kosync_authorize`, `cn_kosync_put_progress` and
-- `cn_kosync_get_progress` of `src/sync/kosync.c`, and `cn_kosync_classify_remote`. The network and
-- `malloc` are parameters. The pointers to the client, the results and the outcome are not NULL.
use Prim.Native.Nat.{bit_and}
use crossnook.Base.{
  ℕ, ◌+◌, Bool, not, ◌&&◌, ◌||◌, Option, none, some, List, [], ◌∷◌, ◌++◌, ◌==◌, leb, if◌then◌else◌,
  length, Text, text_eq, codes, drop, take,
}
use crossnook.Sync.Types.{KosyncResult, KosyncProgress, Transport}
use crossnook.Sync.Upload.{progress_init, document_id_ok}
use crossnook.Http.Fields.{path_max}
use crossnook.Http.Request.{Request, Method, request_max}
use crossnook.Http.Status.{Wire, Response, Exchange, exchange}
use crossnook.Json.Number.{Libc}
use crossnook.Json.Object.{
  Parse, failed, parsed, field_document, field_timestamp, json_max, parse_object, parse_progress,
}
use crossnook.Json.Serialize.{serialize_progress}
use crossnook.Server.Url.{Client}

abbrev pub response_max : ℕ
response_max = 65536

-- `cn_kosync_outcome`.
pub record Outcome : Type 0 where
  pub http_status : ℕ
  pub transport_result : Transport

-- `init_outcome`.
abbrev pub init_outcome : Outcome
init_outcome = record { http_status = 0; transport_result = Transport.invalid }

unfoldable pub endpoint_path : Client → Text → ℕ → Option Text
endpoint_path client suffix cap =
    if leb cap (length (client.base_path ++ suffix))
    then none
    else some (client.base_path ++ suffix)

-- What `map_response` returns, and the outcome it fills.
unfoldable pub map_response : Transport → Response → KosyncResult × Outcome
map_response Transport.ok response = (
  if response.status == 401
      then KosyncResult.auth_failed
      else if not (response.status == 200)
      then KosyncResult.http_error
      else KosyncResult.ok,
  record { http_status = response.status; transport_result = Transport.ok },
)
map_response transport response =
    (KosyncResult.transport_error, record { http_status = 0; transport_result = transport })

-- The request of the client, without a body.
abbrev pub request_of : Client → Method → Text → Request
request_of client method path = record {
  method = method;
  host = some client.host;
  connect_host = if length client.connect_host == 0 then none else some client.connect_host;
  port = some client.port;
  path = some path;
  headers =
      record {
        name = some (codes "Accept");
        value = some (codes "application/vnd.koreader.v1+json");
      }
      ∷ record { name = some (codes "x-auth-user"); value = some client.username }
      ∷ record { name = some (codes "x-auth-key"); value = some client.userkey }
      ∷ [];
  content_type = none;
  body = none;
  tls = client.use_tls && client.tls;
}

abbrev pub put_request : Client → Text → List ℕ → Request
put_request client path json = record (request_of client Method.put path) {
  content_type = some (codes "application/json");
  body = some json;
}

abbrev pub suffix_authorize : Text
suffix_authorize = codes "/users/auth"

abbrev pub suffix_put : Text
suffix_put = codes "/syncs/progress"

abbrev pub suffix_get : Text → Text
suffix_get document_id = codes "/syncs/progress/" ++ document_id

abbrev pub response_cap : ℕ
response_cap = json_max + request_max

-- A client that uses TLS needs its configuration.
abbrev pub lacks_tls : Client → Bool
lacks_tls client = client.use_tls && not client.tls

-- The body of a response.
abbrev pub body_of : Exchange → List ℕ
body_of e = take e.response.body_bytes (drop e.response.header_bytes e.buffer)

-- The acknowledgement of an upload must name the document and have a timestamp.
unfoldable pub acknowledged : Text → Parse → KosyncResult × ℕ
acknowledged document_id (failed code) = (code, 0)
acknowledged document_id (parsed ack) =
    let required = field_document + field_timestamp in
    if not (bit_and ack.fields required == required)
      || not (text_eq ack.progress.document_id document_id)
    then (KosyncResult.bad_protocol, 0)
    else (KosyncResult.ok, ack.progress.timestamp)

-- The progress that was read must be of the document.
unfoldable pub of_document : Text → KosyncResult × KosyncProgress → KosyncResult × KosyncProgress
of_document document_id (KosyncResult.ok, progress) =
    if not (text_eq progress.document_id document_id)
    then (KosyncResult.bad_protocol, progress_init)
    else (KosyncResult.ok, progress)
of_document document_id (code, progress) = (code, progress)

module _ (libc : Libc) (malloc : ℕ → Bool) where
  -- What follows the exchange of an upload.
  unfoldable pub put_answered :
      Text → Exchange → KosyncResult × Outcome → KosyncResult × ℕ × Outcome
  put_answered document_id e (KosyncResult.ok, outcome) =
      let (code, timestamp) = acknowledged document_id (parse_object libc malloc (body_of e)) in
      (code, timestamp, outcome)
  put_answered document_id e (code, outcome) = (code, 0, outcome)

  -- What follows the exchange of a download.
  unfoldable pub get_answered :
      Text
      → KosyncProgress
      → Exchange
      → KosyncResult × Outcome
      → KosyncResult × KosyncProgress × Outcome
  get_answered document_id progress e (KosyncResult.ok, outcome) =
      let (code, read) =
        of_document document_id (parse_progress libc malloc (body_of e) progress) in
      (code, read, outcome)
  get_answered document_id progress e (code, outcome) = (code, progress, outcome)

module _ (malloc : ℕ → Bool) (wire : Request → Text → ℕ → Wire) where
  -- `cn_kosync_authorize`.
  unfoldable pub authorize : Client → KosyncResult × Outcome
  authorize client =
      if lacks_tls client
      then (KosyncResult.invalid, init_outcome)
      else elim (endpoint_path client suffix_authorize (path_max + 1)) [
        | none ↦ (KosyncResult.invalid, init_outcome)
        | some path ↦
            let e = exchange wire (request_of client Method.get path) response_max in
            if not (malloc response_max)
            then (KosyncResult.no_memory, init_outcome)
            else map_response e.transport e.response
      ]

module _ (libc : Libc) (malloc : ℕ → Bool) (wire : Request → Text → ℕ → Wire) where
  -- The upload to a path, if that fits.
  unfoldable pub put_to : Client → KosyncProgress → Text → Option Text → KosyncResult × ℕ × Outcome
  put_to client progress json none = (KosyncResult.invalid, 0, init_outcome)
  put_to client progress json (some path) =
      let e = exchange wire (put_request client path json) response_cap in
      put_answered libc malloc progress.document_id e (map_response e.transport e.response)

  unfoldable pub put_json :
      Client → KosyncProgress → KosyncResult × Option Text → KosyncResult × ℕ × Outcome
  put_json client progress (KosyncResult.ok, some json) =
      put_to client progress json (endpoint_path client suffix_put (path_max + 1))
  put_json client progress (code, json) = (code, 0, init_outcome)

  -- `cn_kosync_put_progress`: what it returns, the timestamp if that is ok, and the outcome.
  unfoldable pub put_progress : Client → KosyncProgress → KosyncResult × ℕ × Outcome
  put_progress client progress =
      if lacks_tls client
      then (KosyncResult.invalid, 0, init_outcome)
      else if not (malloc (json_max + 1)) || not (malloc response_cap)
      then (KosyncResult.no_memory, 0, init_outcome)
      else put_json client progress (serialize_progress progress (json_max + 1))

  -- The download from a path, if that fits.
  unfoldable pub get_from :
      Client → Text → KosyncProgress → Option Text → KosyncResult × KosyncProgress × Outcome
  get_from client document_id progress none = (KosyncResult.invalid, progress, init_outcome)
  get_from client document_id progress (some path) =
      let e = exchange wire (request_of client Method.get path) response_cap in
      if leb 64 (length (suffix_get document_id))
      then (KosyncResult.invalid, progress, init_outcome)
      else if not (malloc response_cap)
      then (KosyncResult.no_memory, progress, init_outcome)
      else get_answered libc malloc document_id progress e (map_response e.transport e.response)

  -- `cn_kosync_get_progress`: what it returns, the progress behind the pointer, and the outcome.
  unfoldable pub get_progress :
      Client → Text → KosyncProgress → KosyncResult × KosyncProgress × Outcome
  get_progress client document_id progress =
      if not (document_id_ok (some document_id)) || lacks_tls client
      then (KosyncResult.invalid, progress, init_outcome)
      else get_from client document_id progress
          (endpoint_path client (suffix_get document_id) (path_max + 1))
