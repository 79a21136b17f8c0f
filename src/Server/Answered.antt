-- ===== src/Server/Answered.antt =====
-- What `cn_kosync_put_progress` of `src/sync/kosync.c` sends, and what `cn_kosync_get_progress` makes
-- of the same body.
use crossnook.Base.{
  ℕ, ◌+◌, ◌≡◌, refl, ap, ◌∙◌, arith, Bool, true, false, some, List, [], ◌∷◌, ◌++◌, ◌==◌, leb,
  length, Text, codes, all, is_lower_hex,
}
use crossnook.Sync.Types.{KosyncResult, KosyncProgress}
use crossnook.Sync.Upload.{document_id_ok}
use crossnook.Http.Fields.{is_path_byte}
use crossnook.Http.Request.{Request, Method, build_exchange_request, request_max}
use crossnook.Http.RequestText.{request_text}
use crossnook.Http.Status.{Wire, exchange, concluded}
use crossnook.Json.Number.{Libc}
use crossnook.Json.Object.{json_max}
use crossnook.Json.Readable.{document_id_ok-length}
use crossnook.Json.Serialize.{serialize_progress}
use crossnook.Server.Url.{Client}
use crossnook.Server.Ready.{IsReady}
use crossnook.Server.Fits.{IsSuffix, endpoint_path-append, get_fits, put_fits}
use crossnook.Server.Requests.{
  map_response, request_of, put_request, suffix_put, suffix_get, response_cap, lacks_tls,
  get_answered, get_from, get_progress, put_answered, put_to, put_json, put_progress,
}

abbrev pub get_path : Client → Text → Text
get_path client document_id = client.base_path ++ suffix_get document_id

abbrev pub put_path : Client → Text
put_path client = client.base_path ++ suffix_put

-- The lines of the requests.
abbrev pub get_lines : Client → Text → Text
get_lines client document_id =
    request_text (request_of client Method.get (get_path client document_id)) (codes "GET")
      client.host client.port (get_path client document_id)

abbrev pub put_lines : Client → List ℕ → Text
put_lines client json =
    request_text (put_request client (put_path client) json) (codes "PUT") client.host client.port
      (put_path client)

suffix_put-IsSuffix : IsSuffix suffix_put
suffix_put-IsSuffix = record {
  rest = codes "syncs/progress";
  at_slash = refl;
  short_rest = omega arith;
  good_rest = refl;
}

hex_path : (text : Text) → all is_lower_hex text ≡ true → all is_path_byte text ≡ true
hex_path [] h = refl
hex_path (c ∷ cs) h = ground (arith, hex_path cs (ground arith))

suffix_get-IsSuffix :
    (document_id : Text)
    → document_id_ok (some document_id) ≡ true
    → IsSuffix (suffix_get document_id)
suffix_get-IsSuffix document_id h =
    let (size, hex) = document_id_ok-length document_id h in
    record {
      rest = codes "syncs/progress/" ++ document_id;
      at_slash = refl;
      short_rest = omega arith;
      good_rest = hex_path document_id hex;
    }

exchange-written :
    (wire : Request → Text → ℕ → Wire) (spec : Request) (lines : Text) (cap : ℕ)
    → (cap == 0) ≡ false
    → build_exchange_request spec request_max ≡ some lines
    → exchange wire spec cap ≡ concluded (wire spec lines cap)
unfolding exchange
exchange-written wire spec lines cap h k = rw (h, k) refl

module _ (libc : Libc) (malloc : ℕ → Bool) (wire : Request → Text → ℕ → Wire) where
  -- The download that is answered is the one of the request.
  pub get_progress-exchange :
      (client : Client) (document_id : Text) (before : KosyncProgress)
      → IsReady client
      → lacks_tls client ≡ false
      → document_id_ok (some document_id) ≡ true
      → malloc response_cap ≡ true
      → get_progress libc malloc wire client document_id before ≡ (
          let e = concluded (
            wire
              (request_of client Method.get (get_path client document_id))
              (get_lines client document_id)
              response_cap) in
          get_answered libc malloc document_id before e (map_response e.transport e.response))
  unfolding get_progress get_from
  get_progress-exchange client document_id before ready tls id room =
      let suffix = suffix_get-IsSuffix document_id id in
      let short : leb 64 (length (suffix_get document_id)) ≡ false =
        ground (arith, (document_id_ok-length document_id id).0) in
      let sent =
        exchange-written wire _ _ response_cap refl
          (get_fits client ready (suffix_get document_id) suffix) in
      simp (id, tls)
        (ap (get_from libc malloc wire client document_id before)
            (endpoint_path-append client ready (suffix_get document_id) suffix)
          ∙ rw (short, room)
              (ap
                (λ e.
                  get_answered libc malloc document_id before e
                    (map_response e.transport e.response))
                sent))

  pub put_progress-exchange :
      (client : Client) (progress : KosyncProgress) (json : Text)
      → IsReady client
      → lacks_tls client ≡ false
      → malloc (json_max + 1) ≡ true
      → malloc response_cap ≡ true
      → serialize_progress progress (json_max + 1) ≡ (KosyncResult.ok, some json)
      → put_progress libc malloc wire client progress ≡ (
          let e = concluded (
            wire
              (put_request client (put_path client) json)
              (put_lines client json)
              response_cap) in
          put_answered libc malloc progress.document_id e (map_response e.transport e.response))
  unfolding put_progress put_json put_to
  put_progress-exchange client progress json ready tls room_json room s =
      let sent =
        exchange-written wire _ _ response_cap refl
          (put_fits client ready suffix_put suffix_put-IsSuffix json) in
      simp (tls, room_json, room, s)
        (ap (put_to libc malloc wire client progress json)
            (endpoint_path-append client ready suffix_put suffix_put-IsSuffix)
          ∙ ap
              (λ e.
                put_answered libc malloc progress.document_id e
                  (map_response e.transport e.response))
              sent)
