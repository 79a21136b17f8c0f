-- ===== src/Server/Upload.antt =====
-- What an upload sends and takes for an answer, as predicates, with the steps that establish them.
use Prim.Native.Nat.{bit_and}
use crossnook.Base.{
  ◌≡◌, inl, inr, refl, arith, Bool, not, ◌||◌, ◌==◌, ==_iff, Option, none, some, [], ◌∷◌, ◌++◌,
  if_both, Text, codes, text_eq, text_eq→eq, Bool-cases, ℕ, ◌+◌,
}
use crossnook.Sync.Types.{KosyncResult, KosyncProgress, Transport}
use crossnook.Http.Request.{Request, Method, build_exchange_request, request_max}
use crossnook.Http.Status.{Wire, Response, Exchange, exchange, concluded}
use crossnook.Json.Number.{Libc}
use crossnook.Json.Object.{ParsedObject, Parse, failed, parsed, json_max, parse_object}
use crossnook.Json.Failures.{IsParse, parse_object-IsParse}
use crossnook.Json.Writer.{Writer}
use crossnook.Json.Serialize.{serialize_progress, serialize_parts, written, fields_ok, position_ok}
use crossnook.Server.Url.{Client}
use crossnook.Server.Requests.{
  Outcome, map_response, response_cap, body_of, acknowledged, put_answered,
}

-- A request with the body by PUT, for the client's account and the path of uploads.
pub record IsUpload (client : Client) (json : Text) (spec : Request) : Type 0 where
  pub by_put : spec.method ≡ Method.put
  pub to_host : spec.host ≡ some client.host
  pub to_port : spec.port ≡ some client.port
  pub to_path : spec.path ≡ some (client.base_path ++ codes "/syncs/progress")
  pub as_json : spec.content_type ≡ some (codes "application/json")
  pub with_body : spec.body ≡ some json
  pub over_tls : spec.tls ≡ client.use_tls
  pub with_headers :
      spec.headers
      ≡ record {
        name = some (codes "Accept");
        value = some (codes "application/vnd.koreader.v1+json");
      }
        ∷ record { name = some (codes "x-auth-user"); value = some client.username }
        ∷ record { name = some (codes "x-auth-key"); value = some client.userkey }
        ∷ []

-- An answer 200 whose body is an object with the document and a timestamp.
pub record IsAcknowledged (libc : Libc) (malloc : ℕ → Bool) (document_id : Text) (timestamp : ℕ)
    (e : Exchange) : Type 0 where
  pub over_network : e.transport ≡ Transport.ok
  pub status_200 : e.response.status ≡ 200
  pub ack : ParsedObject
  pub body_parses : parse_object libc malloc (body_of e) ≡ parsed ack
  pub has_both : bit_and ack.fields 33 ≡ 33
  pub of_document : ack.progress.document_id ≡ document_id
  pub at_timestamp : ack.progress.timestamp ≡ timestamp

-- What an upload that returns ok has done.
abbrev pub IsUploaded :
    Libc → (ℕ → Bool) → (Request → Text → ℕ → Wire) → Client → KosyncProgress → ℕ → Type 0
IsUploaded libc malloc wire client progress timestamp =
    (json : Text) × (spec : Request) × (lines : Text) × (serialize_progress progress (json_max + 1)
      ≡ (KosyncResult.ok, some json))
    × IsUpload client json spec
    × (build_exchange_request spec request_max ≡ some lines)
    × IsAcknowledged libc malloc progress.document_id timestamp
        (concluded (wire spec lines response_cap))

pub mapped_ok :
    (transport : Transport) (response : Response)
    → (map_response transport response).0 ≡ KosyncResult.ok
    → (transport ≡ Transport.ok) × (response.status ≡ 200)
unfolding map_response
mapped_ok Transport.ok response h = (refl, ground arith)
mapped_ok _ response h = absurd (ground arith)

acknowledged_ok :
    (document_id : Text) (parse : Parse)
    → IsParse parse
    → (acknowledged document_id parse).0 ≡ KosyncResult.ok
    → (ack : ParsedObject) × (parse ≡ parsed ack)
      × (bit_and ack.fields 33 ≡ 33)
      × (ack.progress.document_id ≡ document_id)
      × (ack.progress.timestamp ≡ (acknowledged document_id parse).1)
unfolding acknowledged IsParse
acknowledged_ok document_id (failed code) p h = absurd (p h)
acknowledged_ok document_id (parsed ack) p h =
    elim (Bool-cases
      (not (bit_and ack.fields 33 == 33) || not (text_eq ack.progress.document_id document_id))) [
        | inl bad ↦ absurd (ground arith)
        | inr good ↦ (
          ack,
          refl,
          (==_iff _ _).0 (ground arith),
          text_eq→eq ack.progress.document_id document_id (ground arith),
          rw good refl,
        )
      ]

module _ (libc : Libc) (malloc : ℕ → Bool) where
  pub answered_ok :
      (document_id : Text) (e : Exchange) (mapped : KosyncResult × Outcome)
      → (mapped.0 ≡ KosyncResult.ok → (e.transport ≡ Transport.ok) × (e.response.status ≡ 200))
      → (put_answered libc malloc document_id e mapped).0 ≡ KosyncResult.ok
      → IsAcknowledged libc malloc document_id (put_answered libc malloc document_id e mapped).1 e
  unfolding put_answered
  answered_ok document_id e (KosyncResult.ok, outcome) k h =
      let (over, status) = k refl in
      let (ack, parses, both, document, time) =
        acknowledged_ok document_id (parse_object libc malloc (body_of e))
          (parse_object-IsParse libc malloc (body_of e)) h in
      record {
        over_network = over;
        status_200 = status;
        ack = ack;
        body_parses = parses;
        has_both = both;
        of_document = document;
        at_timestamp = time;
      }
  answered_ok document_id e (_, outcome) k h = absurd (ground arith)

pub sent :
    (wire : Request → Text → ℕ → Wire) (spec : Request) (o : Option Text) (cap : ℕ)
    → build_exchange_request spec request_max ≡ o
    → (exchange wire spec cap).transport ≡ Transport.ok
    → (lines : Text) × (build_exchange_request spec request_max ≡ some lines)
      × (exchange wire spec cap ≡ concluded (wire spec lines cap))
unfolding exchange
sent wire spec none cap b h = elim (Bool-cases (cap == 0)) [
  | inl no_room ↦ let e = rw (no_room, exchange) at h in absurd (ground arith)
  | inr room ↦ let e = rw (room, b, exchange) at h in absurd (ground arith)
]
sent wire spec (some lines) cap b h = elim (Bool-cases (cap == 0)) [
  | inl no_room ↦ let e = rw (no_room, exchange) at h in absurd (ground arith)
  | inr room ↦ (lines, b, rw (room, b) refl)
]

-- What is written is a text.
unwritten : (o : Option Writer) → ¬ (written o ≡ (KosyncResult.ok, none))
unwritten none h = absurd (ground arith)
unwritten (some writer) h = absurd (ground arith)

pub serialize_parts_some :
    (progress : KosyncProgress) (place : Option Text) (number : Option ℕ) (cap : ℕ)
    → ¬ (serialize_parts progress place number cap ≡ (KosyncResult.ok, none))
unfolding serialize_parts
serialize_parts_some progress none number room h = absurd (ground arith)
serialize_parts_some progress (some position) none room h = absurd (ground arith)
serialize_parts_some progress (some position) (some n) room h =
    if_both (λ r. ¬ (r ≡ (KosyncResult.ok, none)))
      (room == 0 || (not (fields_ok progress n) || not (position_ok position)))
      (λ refused h. absurd (ground arith)) (λ passed. unwritten _) h
