-- ===== src/Examples/Uploads.antt =====
-- An upload that the server acknowledges.
use crossnook.Base.{◌≡◌, refl, ap, ◌∙◌, arith, true, [], ◌∷◌, Text, codes}
use crossnook.Sync.Types.{KosyncResult}
use crossnook.Utf8.{scan_fuel}
use crossnook.Utf8.Kosync.{utf8_valid, sequence}
use crossnook.Http.Status.{concluded}
use crossnook.Json.Reader.{reader_space, first_is, reader_string, string_chars, string_piece, store}
use crossnook.Json.Number.{
  reader_timestamp, number_token, span_digits, some_digits, sign_part, integer_part, fraction_part,
  exponent_part,
}
use crossnook.Json.Object.{
  ParsedObject, parsed, parse_object, object_body, members, member, member_key, set_once,
  object_init,
}
use crossnook.Server.Answered.{put_path, put_lines, put_progress-exchange}
use crossnook.Server.Delivered.{answer-body, ok_outcome}
use crossnook.Server.Acknowledged.{put_progress-IsUploaded}
use crossnook.Server.Upload.{IsUploaded}
use crossnook.Server.Requests.{put_request, response_cap, put_progress, put_answered, acknowledged}
use crossnook.Examples.Progresses.{decimals, sample_id, sample_progress}
use crossnook.Examples.Servers.{serves, bound_client, bound-IsReady, sample_json, sample_serialized}

abbrev ack_json : Text
ack_json = codes "{\"document\":\"0123456789abcdef0123456789abcdef\",\"timestamp\":42}"

abbrev ack : ParsedObject
ack = record {
  progress = record (object_init).progress {
    document_id = sample_id;
    timestamp = 42;
    has_timestamp = 1;
  };
  fields = 33;
}

ack_parsed : parse_object decimals (λ size. true) ack_json ≡ parsed ack
unfolding parse_object object_body members member member_key set_once reader_space first_is
    reader_string string_chars string_piece store utf8_valid scan_fuel sequence reader_timestamp
    number_token span_digits some_digits sign_part integer_part fraction_part exponent_part
ack_parsed = refl

uploaded :
    put_progress decimals (λ size. true) (serves ack_json) bound_client sample_progress
    ≡ (KosyncResult.ok, 42, ok_outcome)
unfolding put_answered acknowledged
uploaded =
    let spec = put_request bound_client (put_path bound_client) sample_json in
    let e = concluded (serves ack_json spec (put_lines bound_client sample_json) response_cap) in
    let (mapped, body) =
      answer-body b'0' (codes " OK") (codes "Server: x" ∷ []) ack_json refl refl
        ((omega arith, refl), tt) in
    put_progress-exchange decimals (λ size. true) (serves ack_json) bound_client sample_progress
      sample_json bound-IsReady refl refl refl sample_serialized
    ∙ ap (put_answered decimals (λ size. true) sample_id e) mapped
    ∙ ap
        (λ bytes.
          let (code, timestamp) =
            acknowledged sample_id (parse_object decimals (λ size. true) bytes) in
          (code, timestamp, ok_outcome))
        body
    ∙ ap
        (λ parse.
          let (code, timestamp) = acknowledged sample_id parse in (code, timestamp, ok_outcome))
        ack_parsed

put_progress-IsUploaded_example :
    IsUploaded decimals (λ size. true) (serves ack_json) bound_client sample_progress 42
put_progress-IsUploaded_example =
    put_progress-IsUploaded decimals (λ size. true) (serves ack_json) bound_client sample_progress
      42 ok_outcome uploaded
