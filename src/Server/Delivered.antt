-- ===== src/Server/Delivered.antt =====
-- A position that one client uploads is the position that another downloads.
use mathlib.Core.Path.{subst, ap₂}
use crossnook.Base.{
  ℕ, ◌+◌, ◌≡◌, inl, inr, refl, ap, ◌∙◌, sym, arith, Bool, true, false, Option, none, some, List, [],
  if◌then◌else◌, length, Text, text_eq_refl, all, take, drop, take_all, is_digit, Bool-cases,
}
use crossnook.Sync.Types.{KosyncResult, KosyncProgress, Transport}
use crossnook.Http.Request.{Request, Method}
use crossnook.Http.Status.{Wire, received, Response, Exchange, concluded, responded}
use crossnook.Http.Framing.{in_line, AllLines, response_text}
use crossnook.Http.Parsed.{status_text_line, parse_status-response_text}
use crossnook.Json.Number.{Libc}
use crossnook.Json.Strings.{IsText}
use crossnook.Json.Doubles.{IsRounded}
use crossnook.Json.Object.{json_max, parse_progress}
use crossnook.Json.Serialize.{
  fields_ok, position_ok, serialize_parts, serialize_progress, json_text,
  serialize_progress-json_text,
}
use crossnook.Json.Readable.{IsReadable, fields_ok-IsReadable}
use crossnook.Json.RoundTrip.{read_back, parse_progress-json_text}
use crossnook.Server.Url.{Client}
use crossnook.Server.Ready.{IsReady}
use crossnook.Server.Requests.{
  Outcome, map_response, request_of, response_cap, lacks_tls, body_of, of_document, get_answered,
  get_progress,
}
use crossnook.Server.Answered.{get_path, get_lines, get_progress-exchange}

-- A response with the code 200.
abbrev pub answer : ℕ → Text → List Text → List ℕ → List ℕ
answer minor reason lines body =
    response_text (status_text_line b'1' minor b'2' b'0' b'0' reason) lines body

abbrev pub ok_outcome : Outcome
ok_outcome = record { http_status = 200; transport_result = Transport.ok }

responded-body :
    (response : Response) (buffer body : List ℕ)
    → response.status ≡ 200
    → drop response.header_bytes buffer ≡ body
    → response.body_bytes ≡ length body
    → let e = responded (some response) false buffer in
      (map_response e.transport e.response ≡ (KosyncResult.ok, ok_outcome)) × (body_of e ≡ body)
unfolding map_response
responded-body response buffer body status dropped size = (
  rw status refl,
  ap (take response.body_bytes) dropped ∙ take_all response.body_bytes body (sym size),
)

-- The code and the body of the exchange that an answer makes.
pub answer-body :
    (minor : ℕ) (reason : Text) (lines : List Text) (body : List ℕ)
    → is_digit minor ≡ true
    → all in_line reason ≡ true
    → AllLines lines
    → let e = concluded (received (answer minor reason lines body) false) in
      (map_response e.transport e.response ≡ (KosyncResult.ok, ok_outcome)) × (body_of e ≡ body)
answer-body minor reason lines body hm hr hl =
    let (response, read, status, dropped, size) =
      parse_status-response_text b'1' minor b'2' b'0' b'0' reason lines body refl hm refl refl refl
        hr hl in
    subst
      (λ o.
        let e = responded o false (answer minor reason lines body) in
        (map_response e.transport e.response ≡ (KosyncResult.ok, ok_outcome)) × (body_of e ≡ body))
      (sym read) (responded-body response (answer minor reason lines body) body status dropped size)

-- What a serialisation that succeeds has checked, and what it wrote.
text_of : KosyncResult × Option Text → Text
text_of (code, none) = []
text_of (code, some text) = text

chosen_text :
    (b : Bool) (text json : Text)
    → ◌≡◌ {A = KosyncResult × Option Text}
        (if b then (KosyncResult.ok, some text) else (KosyncResult.invalid, none))
        (KosyncResult.ok, some json)
    → json ≡ text
unfolding text_of
chosen_text true text json h = ap text_of (sym h)
chosen_text false text json h = absurd (ground arith)

serialize_parts-ok :
    (progress : KosyncProgress) (place : Option Text) (number : Option ℕ) (json_cap : ℕ)
    (json : Text)
    → serialize_parts progress place number json_cap ≡ (KosyncResult.ok, some json)
    → (position : Text) × (n : ℕ) × (place ≡ some position)
      × (number ≡ some n)
      × (fields_ok progress n ≡ true)
      × (position_ok position ≡ true)
      × (json ≡ json_text progress position n)
unfolding serialize_parts
serialize_parts-ok progress none number json_cap json h = absurd (ground arith)
serialize_parts-ok progress (some position) none json_cap json h = absurd (ground arith)
serialize_parts-ok progress (some position) (some n) json_cap json h =
    elim (Bool-cases (fields_ok progress n)) [
      | inr bad ↦ absurd (ground arith)
      | inl fields ↦ elim (Bool-cases (position_ok position)) [
        | inr bad ↦ absurd (ground arith)
        | inl place ↦
            let e =
              sym (serialize_progress-json_text progress position n json_cap fields place) ∙ h in
            (position, n, refl, refl, fields, place, chosen_text _ _ json e)
      ]
    ]

serialize_progress-ok :
    (progress : KosyncProgress) (json_cap : ℕ) (json : Text)
    → serialize_progress progress json_cap ≡ (KosyncResult.ok, some json)
    → (position : Text) × (n : ℕ) × (progress.logical_position ≡ some position)
      × (progress.progress_10000 ≡ some n)
      × (fields_ok progress n ≡ true)
      × (position_ok position ≡ true)
      × (json ≡ json_text progress position n)
unfolding serialize_progress
serialize_progress-ok progress json_cap json h =
    serialize_parts-ok progress progress.logical_position progress.progress_10000 json_cap json h

-- What is made of a body that is the text of a progress of the document.
get_answered-body :
    (libc : Libc) (malloc : ℕ → Bool) (progress before : KosyncProgress) (position : Text) (n : ℕ)
    (e : Exchange)
    → IsRounded libc
    → malloc 65537 ≡ true
    → IsReadable progress position n
    → body_of e ≡ json_text progress position n
    → get_answered libc malloc progress.document_id before e (KosyncResult.ok, ok_outcome)
      ≡ (KosyncResult.ok, read_back progress position n, ok_outcome)
unfolding get_answered of_document
get_answered-body libc malloc progress before position n e exact room r body =
    ap
      (λ input.
        let (code, read) =
          of_document progress.document_id (parse_progress libc malloc input before) in
        (code, read, ok_outcome))
      body
    ∙ ap
        (λ result.
          let (code, read) = of_document progress.document_id result in (code, read, ok_outcome))
        (parse_progress-json_text libc malloc progress before position n exact room r)
    ∙ (let same = text_eq_refl progress.document_id in rw same refl)

-- A body that the client serialised, when the server answers the download of its document with it
-- in a response of code 200, is downloaded as the same progress with no timestamp, where the
-- client is ready, the texts have no NUL, the memory suffices, and `strtod`, the constants, the
-- product and the sum round to the nearest double.
pub get_progress-serialize_progress :
    (libc : Libc) (malloc : ℕ → Bool) (wire : Request → Text → ℕ → Wire) (client : Client)
    (progress before : KosyncProgress) (json : Text) (minor : ℕ) (reason : Text) (lines : List Text)
    → IsRounded libc
    → ((size : ℕ) → malloc size ≡ true)
    → IsReady client
    → lacks_tls client ≡ false
    → ((position : Text) → progress.logical_position ≡ some position → IsText position)
    → IsText progress.device
    → IsText progress.device_id
    → serialize_progress progress (json_max + 1) ≡ (KosyncResult.ok, some json)
    → is_digit minor ≡ true
    → all in_line reason ≡ true
    → AllLines lines
    → wire
        (request_of client Method.get (get_path client progress.document_id))
        (get_lines client progress.document_id)
        response_cap
      ≡ received (answer minor reason lines json) false
    → get_progress libc malloc wire client progress.document_id before
      ≡ (KosyncResult.ok, record progress { timestamp = 0; has_timestamp = 0 }, ok_outcome)
get_progress-serialize_progress libc malloc wire client progress before json minor reason lines
      exact room ready tls tp td ti s hm hr hl w =
    let (position, n, at_position, at_number, fields, place, text) =
      serialize_progress-ok progress (json_max + 1) json s in
    let readable =
      fields_ok-IsReadable progress position n fields place (tp position at_position) td ti in
    let (mapped, body) = answer-body minor reason lines json hm hr hl in
    let e = concluded (received (answer minor reason lines json) false) in
    get_progress-exchange libc malloc wire client progress.document_id before ready tls
      readable.id_ok (room response_cap)
    ∙ ap
        (λ wired.
          let e = concluded wired in
          get_answered libc malloc progress.document_id before e
            (map_response e.transport e.response))
        w
    ∙ ap (get_answered libc malloc progress.document_id before e) mapped
    ∙ get_answered-body libc malloc progress before position n e exact (room 65537) readable
        (body ∙ text)
    ∙ ap₂
        (λ place number. (
          KosyncResult.ok,
          record progress {
            logical_position = place;
            progress_10000 = number;
            timestamp = 0;
            has_timestamp = 0;
          },
          ok_outcome,
        ))
        (sym at_position) (sym at_number)
