-- ===== src/Server/Checked.antt =====
-- What a download and an upload that succeed have checked, whatever the network answered.
use mathlib.Core.Path.{subst}
use crossnook.Base.{
  ◌≡◌, inl, inr, refl, arith, Bool, true, not, ◌||◌, Option, none, some, leb, if_both, length, Text,
  text_eq, text_eq→eq, Bool-cases, ℕ,
}
use crossnook.Sync.Types.{KosyncResult, KosyncProgress, Transport}
use crossnook.Sync.Upload.{document_id_ok}
use crossnook.Http.Request.{Request, Method}
use crossnook.Http.Status.{Wire, Response, Exchange, exchange}
use crossnook.Json.Number.{Libc}
use crossnook.Json.Object.{parse_progress}
use crossnook.Server.Url.{Client}
use crossnook.Server.Requests.{
  Outcome, map_response, request_of, suffix_get, response_cap, lacks_tls, body_of, of_document,
  get_answered, get_from, get_progress,
}
use crossnook.Server.Delivered.{ok_outcome}

-- A success is of the document, and the server's code was 200.
abbrev pub IsChecked : Text → KosyncResult × KosyncProgress × Outcome → Type 0
IsChecked document_id (code, progress, outcome) =
    code ≡ KosyncResult.ok
    → (progress.document_id ≡ document_id)
      × (outcome ≡ ok_outcome)
      × (document_id_ok (some document_id) ≡ true)

pub map_response-ok :
    (transport : Transport) (response : Response)
    → (map_response transport response).0 ≡ KosyncResult.ok
    → (map_response transport response).1 ≡ ok_outcome
unfolding map_response
map_response-ok Transport.ok response h = ground arith
map_response-ok _ response h = absurd (ground arith)

of_document-same :
    (document_id : Text) (result : KosyncResult × KosyncProgress)
    → (of_document document_id result).0 ≡ KosyncResult.ok
    → (of_document document_id result).1.document_id ≡ document_id
unfolding of_document
of_document-same document_id (KosyncResult.ok, progress) h =
    elim (Bool-cases (text_eq progress.document_id document_id)) [
      | inl same ↦ rw same (text_eq→eq progress.document_id document_id same)
      | inr other ↦ absurd (ground arith)
    ]
of_document-same document_id (_, progress) h = absurd (ground arith)

module _ (libc : Libc) (malloc : ℕ → Bool) (wire : Request → Text → ℕ → Wire) where
  get_answered-IsChecked :
      (document_id : Text) (before : KosyncProgress) (e : Exchange)
      (mapped : KosyncResult × Outcome)
      → document_id_ok (some document_id) ≡ true
      → (mapped.0 ≡ KosyncResult.ok → mapped.1 ≡ ok_outcome)
      → IsChecked document_id (get_answered libc malloc document_id before e mapped)
  unfolding get_answered
  get_answered-IsChecked document_id before e (KosyncResult.ok, outcome) id k h =
      (of_document-same document_id (parse_progress libc malloc (body_of e) before) h, k refl, id)
  get_answered-IsChecked document_id before e (_, outcome) id k h = absurd (ground arith)

  get_from-IsChecked :
      (client : Client) (document_id : Text) (before : KosyncProgress) (path : Option Text)
      → document_id_ok (some document_id) ≡ true
      → IsChecked document_id (get_from libc malloc wire client document_id before path)
  unfolding get_from
  get_from-IsChecked client document_id before none id = λ h. absurd (ground arith)
  get_from-IsChecked client document_id before (some path) id =
      let e = exchange wire (request_of client Method.get path) response_cap in
      if_both (IsChecked document_id) (leb 64 (length (suffix_get document_id)))
        (λ long h. absurd (ground arith))
        λ short.
          if_both (IsChecked document_id) (not (malloc response_cap))
            (λ full h. absurd (ground arith))
            λ room.
              get_answered-IsChecked document_id before e (map_response e.transport e.response) id
                (map_response-ok e.transport e.response)

  pub get_progress-IsChecked :
      (client : Client) (document_id : Text) (before : KosyncProgress)
      → IsChecked document_id (get_progress libc malloc wire client document_id before)
  unfolding get_progress
  get_progress-IsChecked client document_id before =
      if_both (IsChecked document_id) (not (document_id_ok (some document_id)) || lacks_tls client)
        (λ refused h. absurd (ground arith))
        λ passed. get_from-IsChecked client document_id before _ (ground arith)

-- A download that returns ok, whatever the network and the memory do, gives a progress of the
-- document that was asked for, under a valid identity, and the code of the server was 200.
pub get_progress-same_document :
    (libc : Libc) (malloc : ℕ → Bool) (wire : Request → Text → ℕ → Wire) (client : Client)
    (document_id : Text) (before progress : KosyncProgress) (outcome : Outcome)
    → get_progress libc malloc wire client document_id before ≡ (KosyncResult.ok, progress, outcome)
    → (progress.document_id ≡ document_id)
      × (outcome ≡ ok_outcome)
      × (document_id_ok (some document_id) ≡ true)
get_progress-same_document libc malloc wire client document_id before progress outcome h =
    subst (IsChecked document_id) h
      (get_progress-IsChecked libc malloc wire client document_id before) refl
