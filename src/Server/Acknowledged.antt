-- ===== src/Server/Acknowledged.antt =====
-- What an upload that succeeds has sent, and what the server has answered.
use mathlib.Core.Path.{subst}
use crossnook.Base.{
  ◌≡◌, refl, ap, arith, Bool, false, not, ◌||◌, Option, none, some, ◌++◌, leb, if_both, length,
  Text, codes, ℕ, ◌+◌,
}
use crossnook.Sync.Types.{KosyncResult, KosyncProgress}
use crossnook.Http.Fields.{path_max}
use crossnook.Http.Request.{Request}
use crossnook.Http.Status.{Wire, exchange}
use crossnook.Json.Number.{Libc}
use crossnook.Json.Object.{json_max}
use crossnook.Json.Serialize.{serialize_progress}
use crossnook.Server.Url.{Client}
use crossnook.Server.Requests.{
  Outcome, map_response, put_request, endpoint_path, suffix_put, response_cap, lacks_tls, put_to,
  put_json, put_progress,
}
use crossnook.Server.Upload.{
  IsAcknowledged, IsUploaded, mapped_ok, answered_ok, sent, serialize_parts_some,
}

module _ (libc : Libc) (malloc : ℕ → Bool) (wire : Request → Text → ℕ → Wire) where
  abbrev Uploaded : Client → KosyncProgress → KosyncResult × ℕ × Outcome → Type 0
  Uploaded client progress (code, timestamp, outcome) =
      code ≡ KosyncResult.ok → IsUploaded libc malloc wire client progress timestamp

  put_path-Uploaded :
      (client : Client) (progress : KosyncProgress) (json path : Text)
      → lacks_tls client ≡ false
      → serialize_progress progress (json_max + 1) ≡ (KosyncResult.ok, some json)
      → path ≡ client.base_path ++ codes "/syncs/progress"
      → Uploaded client progress (put_to libc malloc wire client progress json (some path))
  unfolding put_to
  put_path-Uploaded client progress json path tls s p h =
      let spec = put_request client path json in
      let e = exchange wire spec response_cap in
      let answered =
        answered_ok libc malloc progress.document_id e (map_response e.transport e.response)
          (mapped_ok e.transport e.response) h in
      let (lines, built, same) = sent wire spec _ response_cap refl answered.over_network in
      (
        json,
        spec,
        lines,
        s,
        record {
          by_put = refl;
          to_host = refl;
          to_port = refl;
          to_path = ap some p;
          as_json = refl;
          with_body = refl;
          over_tls = ground arith;
          with_headers = refl;
        },
        built,
        subst (IsAcknowledged libc malloc progress.document_id _) same answered,
      )

  put_to-Uploaded :
      (client : Client) (progress : KosyncProgress) (json : Text)
      → lacks_tls client ≡ false
      → serialize_progress progress (json_max + 1) ≡ (KosyncResult.ok, some json)
      → Uploaded client progress (
          put_to libc malloc wire client progress json
            (endpoint_path client suffix_put (path_max + 1)))
  unfolding put_to endpoint_path
  put_to-Uploaded client progress json tls s =
      if_both (λ o. Uploaded client progress (put_to libc malloc wire client progress json o))
        (leb (path_max + 1) (length (client.base_path ++ suffix_put)))
        (λ long h. absurd (ground arith))
        λ short. put_path-Uploaded client progress json _ tls s refl

  put_json-Uploaded :
      (client : Client) (progress : KosyncProgress) (result : KosyncResult × Option Text)
      → lacks_tls client ≡ false
      → serialize_progress progress (json_max + 1) ≡ result
      → Uploaded client progress (put_json libc malloc wire client progress result)
  unfolding put_json serialize_progress
  put_json-Uploaded client progress (KosyncResult.ok, some json) tls s =
      put_to-Uploaded client progress json tls s
  put_json-Uploaded client progress (KosyncResult.ok, none) tls s = absurd (
      serialize_parts_some progress progress.logical_position progress.progress_10000 (json_max + 1)
        s)
  put_json-Uploaded client progress (_, json) tls s = λ h. absurd (ground arith)

  put_progress-Uploaded :
      (client : Client) (progress : KosyncProgress)
      → Uploaded client progress (put_progress libc malloc wire client progress)
  unfolding put_progress
  put_progress-Uploaded client progress =
      if_both (Uploaded client progress) (lacks_tls client) (λ refused h. absurd (ground arith))
        λ tls.
          if_both (Uploaded client progress)
            (not (malloc (json_max + 1)) || not (malloc response_cap))
            (λ full h. absurd (ground arith)) λ room. put_json-Uploaded client progress _ tls refl

-- An upload that returns ok, whatever the network and the memory do, has serialised the progress
-- and built a request by PUT to the path of uploads at the host and port of the client, with its
-- user name and key in the headers, the serialised text as a JSON body, and TLS as the client
-- wants it; what the network made of that request is a response of code 200 whose body is an
-- object with a document, the one of the progress, and a timestamp, the one returned.
pub put_progress-IsUploaded :
    (libc : Libc) (malloc : ℕ → Bool) (wire : Request → Text → ℕ → Wire) (client : Client)
    (progress : KosyncProgress) (timestamp : ℕ) (outcome : Outcome)
    → put_progress libc malloc wire client progress ≡ (KosyncResult.ok, timestamp, outcome)
    → IsUploaded libc malloc wire client progress timestamp
put_progress-IsUploaded libc malloc wire client progress timestamp outcome h =
    subst (Uploaded libc malloc wire client progress) h
      (put_progress-Uploaded libc malloc wire client progress) refl
