-- ===== src/Examples/Servers.antt =====
-- Runs of the client of the server: an address, and a network that answers with a stored body.
use mathlib.Core.Path.{subst}
use crossnook.Base.{
  ◌∙◌, some-injective, ℕ, ◌+◌, ◌≡◌, refl, arith, true, false, none, some, List, [], ◌∷◌, ◌++◌, ltb,
  if◌then◌else◌, length, drop, Text, codes,
}
use crossnook.Sync.Types.{KosyncResult}
use crossnook.Sync.Upload.{document_id_ok}
use crossnook.Utf8.Header.{bounded_count, header_text_ok}
use crossnook.Http.Fields.{port_digits, parse_port, bytes_ok, host_text_ok, path_text_ok, validate}
use crossnook.Http.Request.{Request, Method, request_max, build_exchange_request, method_text}
use crossnook.Http.RequestText.{IsRequest, request_text, build_exchange_request-request_text}
use crossnook.Http.Status.{Wire, received, Response, parse_status}
use crossnook.Http.Framing.{response_text}
use crossnook.Http.Parsed.{status_text_line, parse_status-response_text}
use crossnook.Json.Writer.{short_escape, strip_zeros, percentage_text}
use crossnook.Json.Written.{escaped, escaped_text}
use crossnook.Json.Strings.{IsText}
use crossnook.Json.Object.{json_max}
use crossnook.Json.Serialize.{serialize_progress, serialize_progress-json_text, json_text}
use crossnook.Server.Url.{Client, client_init, strip_slashes, connect_to, client_set_tls}
use crossnook.Server.Ready.{IsReady, client_init-IsReady, client_set_tls-IsReady}
use crossnook.Server.Address.{IsAddress, url_text, client_init-url_text}
use crossnook.Server.Fits.{put_fits}
use crossnook.Server.Requests.{put_request, suffix_put, get_progress}
use crossnook.Server.Delivered.{answer, ok_outcome, get_progress-serialize_progress}
use crossnook.Server.Checked.{get_progress-same_document}
use crossnook.Examples.Progresses.{
  decimals, decimals-IsRounded, sample_id, sample_progress, sample_fields, sample_position,
}

abbrev host : Text
host = codes "sync.example"

sample-IsAddress : IsAddress true host (some (codes "8443")) (codes "/koreader") 2
unfolding host_text_ok bytes_ok parse_port port_digits path_text_ok strip_slashes
sample-IsAddress = record {
  port_value = 8443;
  good_host = refl;
  plain_host = refl;
  good_port = refl;
  good_path = refl;
  plain_path = refl;
  no_slash = refl;
  short_path = omega arith;
}

header_ok_user : header_text_ok (some (codes "reader")) 255 false ≡ true
unfolding header_text_ok bounded_count
header_ok_user = refl

abbrev sample_client : Client
sample_client = record {
  host = host;
  port = codes "8443";
  base_path = codes "/koreader";
  username = codes "reader";
  userkey = codes "reader";
  connect_host = [];
  tls = false;
  use_tls = true;
  connect_ms = 20000;
  recv_ms = 10000;
}

client_init-url_text_example :
    client_init
      (some (url_text true host (some (codes "8443")) (codes "/koreader") 2))
      (some (codes "reader"))
      (some (codes "reader"))
    ≡ some sample_client
client_init-url_text_example =
    client_init-url_text true host (some (codes "8443")) (codes "/koreader") 2 (codes "reader")
      (codes "reader") sample-IsAddress header_ok_user header_ok_user

client_init-IsReady_example : IsReady sample_client
client_init-IsReady_example =
    client_init-IsReady (some (url_text true host (some (codes "8443")) (codes "/koreader") 2))
      (some (codes "reader")) (some (codes "reader")) sample_client
      (client_init-url_text true host (some (codes "8443")) (codes "/koreader") 2 (codes "reader")
        (codes "reader") sample-IsAddress header_ok_user header_ok_user)

sample-IsReady : IsReady sample_client
sample-IsReady =
    client_init-IsReady (some (url_text true host (some (codes "8443")) (codes "/koreader") 2))
      (some (codes "reader")) (some (codes "reader")) sample_client
      (client_init-url_text true host (some (codes "8443")) (codes "/koreader") 2 (codes "reader")
        (codes "reader") sample-IsAddress header_ok_user header_ok_user)

client_set_tls-IsReady_example :
    IsReady (client_set_tls sample_client (some true) (some (codes "192.0.2.7"))).1
client_set_tls-IsReady_example =
    client_set_tls-IsReady sample_client (some true) (some (codes "192.0.2.7")) sample-IsReady

abbrev pub bound_client : Client
bound_client = record sample_client { tls = true }

pub bound-IsReady : IsReady bound_client
unfolding client_set_tls connect_to
bound-IsReady = client_set_tls-IsReady sample_client (some true) none sample-IsReady

abbrev pub sample_json : Text
sample_json = json_text sample_progress (codes "a\"b\n") 2500

sample_fits : ltb (length sample_json) (json_max + 1) ≡ true
unfolding escaped_text escaped short_escape percentage_text strip_zeros
sample_fits = refl

sample_IsText : (position : Text) → some (codes "a\"b\n") ≡ some position → IsText position
sample_IsText position h = subst IsText (some-injective h) (omega arith)

pub sample_serialized :
    serialize_progress sample_progress (json_max + 1) ≡ (KosyncResult.ok, some sample_json)
unfolding serialize_progress
sample_serialized =
    serialize_progress-json_text sample_progress (codes "a\"b\n") 2500 (json_max + 1) sample_fields
      sample_position
    ∙ rw sample_fits refl

-- A server that answers every request with a stored body.
abbrev pub serves : List ℕ → Request → Text → ℕ → Wire
serves body spec lines cap =
    received (answer b'0' (codes " OK") (codes "Server: x" ∷ []) body) false

get_progress-serialize_progress_example :
    get_progress decimals (λ size. true) (serves sample_json) bound_client sample_id sample_progress
    ≡ (KosyncResult.ok, record sample_progress { timestamp = 0; has_timestamp = 0 }, ok_outcome)
get_progress-serialize_progress_example =
    get_progress-serialize_progress decimals (λ size. true) (serves sample_json) bound_client
      sample_progress sample_progress sample_json b'0' (codes " OK") (codes "Server: x" ∷ [])
      decimals-IsRounded (λ size. refl) bound-IsReady refl (λ position h. sample_IsText position h)
      (omega arith) (omega arith) sample_serialized refl refl ((omega arith, refl), tt) refl

get_progress-same_document_example :
    (sample_id ≡ sample_id) × (ok_outcome ≡ ok_outcome) × (document_id_ok (some sample_id) ≡ true)
get_progress-same_document_example =
    get_progress-same_document decimals (λ size. true) (serves sample_json) bound_client sample_id
      sample_progress (record sample_progress { timestamp = 0; has_timestamp = 0 }) ok_outcome
      (get_progress-serialize_progress decimals (λ size. true) (serves sample_json) bound_client
        sample_progress sample_progress sample_json b'0' (codes " OK") (codes "Server: x" ∷ [])
        decimals-IsRounded (λ size. refl) bound-IsReady refl
        (λ position h. sample_IsText position h) (omega arith) (omega arith) sample_serialized refl
        refl ((omega arith, refl), tt) refl)

put_fits_example :
    build_exchange_request
      (put_request sample_client (sample_client.base_path ++ suffix_put) (1 ∷ []))
      request_max
    ≡ some (
        request_text
          (put_request sample_client (sample_client.base_path ++ suffix_put) (1 ∷ []))
          (codes "PUT")
          host
          (codes "8443")
          (sample_client.base_path ++ suffix_put))
put_fits_example =
    put_fits sample_client sample-IsReady suffix_put
      (record {
        rest = codes "syncs/progress";
        at_slash = refl;
        short_rest = omega arith;
        good_rest = refl;
      })
      (1 ∷ [])

abbrev plain_request : Request
plain_request = record {
  method = Method.get;
  host = some host;
  connect_host = none;
  port = some (codes "80");
  path = some (codes "/a");
  headers = [];
  content_type = none;
  body = none;
  tls = false;
}

plain-IsRequest : IsRequest plain_request (codes "GET") host (codes "80") (codes "/a")
unfolding validate host_text_ok bytes_ok parse_port port_digits path_text_ok method_text
plain-IsRequest = record {
  at_host = refl;
  at_port = refl;
  at_path = refl;
  is_valid = refl;
  at_connect_host = refl;
  few_headers = omega arith;
  good_headers = refl;
  at_method = refl;
}

build_exchange_request-request_text_example : build_exchange_request plain_request 12 ≡ (
    if ltb (length (request_text plain_request (codes "GET") host (codes "80") (codes "/a"))) 12
    then some (request_text plain_request (codes "GET") host (codes "80") (codes "/a"))
    else none)
build_exchange_request-request_text_example =
    build_exchange_request-request_text plain_request (codes "GET") host (codes "80") (codes "/a")
      12 plain-IsRequest

parse_status-response_text_example :
    (response : Response) × (parse_status (
        response_text
          (status_text_line b'1' b'1' b'4' b'0' b'1' (codes " no"))
          (codes "A: b" ∷ [])
          (codes "\n\nbody"))
      ≡ some response)
    × (response.status ≡ 401)
    × (drop response.header_bytes (
          response_text
            (status_text_line b'1' b'1' b'4' b'0' b'1' (codes " no"))
            (codes "A: b" ∷ [])
            (codes "\n\nbody"))
        ≡ codes "\n\nbody")
    × (response.body_bytes ≡ 6)
parse_status-response_text_example =
    parse_status-response_text b'1' b'1' b'4' b'0' b'1' (codes " no") (codes "A: b" ∷ [])
      (codes "\n\nbody") refl refl refl refl refl refl ((omega arith, refl), tt)
