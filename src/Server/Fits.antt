-- ===== src/Server/Fits.antt =====
-- The requests of a client that is ready are well formed, and fit the buffer of
-- `cn_netsimple_exchange` of `src/net/netsimple.c`.
use mathlib.Core.Path.{ap₂}
use crossnook.Base.{
  ℕ, ◌+◌, ◌≤◌, ◌<◌, ◌≡◌, ◌⊎◌, inl, inr, refl, ap, ◌∙◌, arith, Bool, true, false, ◌&&◌, Option, none,
  some, List, [], ◌∷◌, ◌++◌, ◌==◌, ltb, if◌then◌else◌, length, length-append, Text, codes, all,
  all-append, if_both, IsShort, append-IsShort, text-IsShort,
}
use crossnook.Utf8.Header.{header_text_ok, header_text_ok_iff}
use crossnook.Http.Fields.{
  path_max, host_text_ok, path_text_ok, is_path_byte, validate, header_name_ok, header_value_ok,
  bytes_ok,
}
use crossnook.Http.Bounds.{
  path_text_ok_lem, path_text_ok_intro, header_value_ok_intro, length-port, validate_intro,
  host_text_ok_lem,
}
use crossnook.Http.Request.{
  Method, header_ok, connect_host_ok, method_text, shows_port, unsigned_text, length_line,
  build_exchange_request, request_max,
}
use crossnook.Http.RequestText.{
  IsRequest, request_text, port_part, header_part, body_part, build_exchange_request-request_text,
  length-unsigned_text,
}
use crossnook.Server.Url.{Client, path_or_root, base_path_max, username_max, userkey_max}
use crossnook.Server.Ready.{IsReady}
use crossnook.Server.Requests.{endpoint_path, request_of, put_request}

-- What the client puts behind the path of the server.
pub record IsSuffix (suffix : Text) : Type 0 where
  pub rest : Text
  pub at_slash : suffix ≡ b'/' ∷ rest
  pub short_rest : length rest < 64
  pub good_rest : all is_path_byte rest ≡ true

path_append :
    (base suffix : Text)
    → path_text_ok (path_or_root base) ≡ true
    → length base ≤ base_path_max
    → IsSuffix suffix
    → path_text_ok (base ++ suffix) ≡ true
path_append [] suffix good short s =
    ap path_text_ok s.at_slash ∙ path_text_ok_intro s.rest (omega (arith, s.short_rest)) s.good_rest
path_append (c ∷ cs) suffix good short s =
    let (tail, at_slash, pass) = path_text_ok_lem (c ∷ cs) good in
    let sizes : length (tail ++ suffix) < path_max =
      omega (
        arith,
        length-append tail suffix,
        ap length at_slash,
        ap length s.at_slash,
        s.short_rest,
      ) in
    let bytes : all is_path_byte suffix ≡ true = ap (all is_path_byte) s.at_slash ∙ s.good_rest in
    ap (λ path. path_text_ok (path ++ suffix)) at_slash
    ∙ path_text_ok_intro (tail ++ suffix) sizes
        (all-append is_path_byte tail suffix ∙ ap₂ ◌&&◌ pass bytes)

accept_ok :
    header_ok (record {
      name = some (codes "Accept");
      value = some (codes "application/vnd.koreader.v1+json");
    })
    ≡ true
unfolding header_name_ok header_value_ok bytes_ok
accept_ok = refl

header_ok-text :
    (name value : Text)
    → header_name_ok (some name) ≡ true
    → header_text_ok (some value) username_max false ≡ true
    → header_ok (record { name = some name; value = some value }) ≡ true
header_ok-text name value good text =
    let (some_byte, fits, pass) = (header_text_ok_iff value username_max).0 text in
    ap₂ ◌&&◌ good (header_value_ok_intro value (omega arith) pass)

connect_host_ok-client :
    (host : Text)
    → (host ≡ []) ⊎ (host_text_ok (some host) ≡ true)
    → connect_host_ok (if length host == 0 then none else some host) ≡ true
connect_host_ok-client [] h = refl
connect_host_ok-client (c ∷ cs) (inl e) = absurd (omega (arith, ap length e))
connect_host_ok-client (c ∷ cs) (inr h) =
    let some_byte : (length (c ∷ cs) == 0) ≡ false = ground arith in rw some_byte h

-- The parts of a request take at most these bytes.
port_part-IsShort :
    (tls : Bool) (port tail : Text) (n : ℕ)
    → length port ≤ 8
    → IsShort tail n
    → IsShort (port_part tls port tail) (9 + n)
port_part-IsShort tls port tail n h short =
    if_both (λ text. IsShort text (9 + n)) (shows_port tls port)
      (λ shown. record { fits = omega (arith, h, short.fits, length-append port tail) })
      λ hidden. record { fits = omega (arith, short.fits) }

header_part-IsShort :
    (name value tail : Text) (n : ℕ)
    → length name ≤ 16
    → length value ≤ 255
    → IsShort tail n
    → IsShort
        (header_part (record { name = some name; value = some value }) tail)
        (16 + (2 + (255 + (2 + n))))
header_part-IsShort name value tail n h k short = append-IsShort (text-IsShort name 16 h) (
    append-IsShort (text-IsShort (codes ": ") 2 (omega arith)) (
      append-IsShort (text-IsShort value 255 k)
        (append-IsShort (text-IsShort (codes "\r\n") 2 (omega arith)) short)))

-- The lines of a request in front of the body fit the buffer of 4096 bytes.
request_text-IsShort :
    (client : Client) (method path : Text) (body : Option (List ℕ)) (content_type : Option Text)
    → IsReady client
    → length method ≤ 3
    → length path ≤ 1088
    → IsShort (body_part body content_type (codes "\r\n")) 128
    → length (
        request_text
          (record (request_of client Method.get path) { content_type = content_type; body = body })
          method
          client.host
          client.port
          path)
      < request_max
request_text-IsShort client method path body content_type ready m p b =
    let (_, host_fits, _) = host_text_ok_lem client.host ready.good_host in
    let (_, name_fits, _) =
      (header_text_ok_iff client.username username_max).0 ready.good_username in
    let (_, key_fits, _) = (header_text_ok_iff client.userkey userkey_max).0 ready.good_userkey in
    let short = append-IsShort (text-IsShort method 3 m) (
      append-IsShort (text-IsShort (codes " ") 1 (omega arith)) (
        append-IsShort (text-IsShort path 1088 p) (
          append-IsShort (text-IsShort (codes " HTTP/1.0\r\nHost: ") 17 (omega arith)) (
            append-IsShort (text-IsShort client.host 255 host_fits) (
              port_part-IsShort (client.use_tls && client.tls) client.port _ _
                (length-port client.port ready.port_value ready.good_port)
                (append-IsShort (text-IsShort (codes "\r\n") 2 (omega arith)) (
                  header_part-IsShort (codes "Accept") (codes "application/vnd.koreader.v1+json") _
                    _ (omega arith) (omega arith)
                    (header_part-IsShort (codes "x-auth-user") client.username _ _ (omega arith)
                      name_fits
                      (header_part-IsShort (codes "x-auth-key") client.userkey _ _ (omega arith)
                        key_fits b))))))))) in
    omega (arith, short.fits)

body_lines-IsShort :
    (json : List ℕ)
    → IsShort (body_part (some json) (some (codes "application/json")) (codes "\r\n")) 128
body_lines-IsShort json = record {
  fits = omega (
    arith,
    length-unsigned_text 20 (length json),
    length-append (unsigned_text 20 (length json)) (codes "\r\n\r\n"),
    length-append (unsigned_text 20 (length json)) (codes "\r\n"),
    length-append (length_line (length json)) (codes "\r\n"),
  );
}

fits_buffer :
    (built : Option Text) (text : Text)
    → built ≡ (if ltb (length text) request_max then some text else none)
    → length text < request_max
    → built ≡ some text
fits_buffer built text e h = e ∙ ground arith

module _ (client : Client) (ready : IsReady client) (suffix : Text) (s : IsSuffix suffix) where
  path_ok : path_text_ok (client.base_path ++ suffix) ≡ true
  path_ok = path_append client.base_path suffix ready.good_path ready.short_path s

  length-path : length (client.base_path ++ suffix) ≤ 1088
  length-path = omega (
    arith,
    length-append client.base_path suffix,
    ready.short_path,
    s.short_rest,
    ap length s.at_slash,
  )

  pub endpoint_path-append :
      endpoint_path client suffix (path_max + 1) ≡ some (client.base_path ++ suffix)
  unfolding endpoint_path
  endpoint_path-append = ground (arith, length-path)

  headers_ok : all header_ok (request_of client Method.get []).headers ≡ true
  unfolding header_name_ok bytes_ok
  headers_ok = ap₂ ◌&&◌ accept_ok (
      ap₂ ◌&&◌ (header_ok-text (codes "x-auth-user") client.username refl ready.good_username) (
        ap₂ ◌&&◌ (header_ok-text (codes "x-auth-key") client.userkey refl ready.good_userkey) refl))

  connect_ok : connect_host_ok (request_of client Method.get []).connect_host ≡ true
  connect_ok = connect_host_ok-client client.connect_host ready.good_connect_host

  valid : validate (some client.host) (some client.port) (some (client.base_path ++ suffix)) ≡ true
  valid =
      validate_intro client.host client.port _ ready.port_value ready.good_host ready.good_port
        path_ok

  -- The text of a request of the client, with the lines that describe the body.
  get-IsRequest :
      IsRequest
        (request_of client Method.get (client.base_path ++ suffix))
        (codes "GET")
        client.host
        client.port
        (client.base_path ++ suffix)
  get-IsRequest = record {
    at_host = refl;
    at_port = refl;
    at_path = refl;
    is_valid = valid;
    at_connect_host = connect_ok;
    few_headers = omega arith;
    good_headers = headers_ok;
    at_method = unfold method_text in refl;
  }

  put-IsRequest :
      (json : List ℕ)
      → IsRequest
          (put_request client (client.base_path ++ suffix) json)
          (codes "PUT")
          client.host
          client.port
          (client.base_path ++ suffix)
  put-IsRequest json = record {
    at_host = refl;
    at_port = refl;
    at_path = refl;
    is_valid = valid;
    at_connect_host = connect_ok;
    few_headers = omega arith;
    good_headers = headers_ok;
    at_method = unfold method_text header_value_ok bytes_ok in refl;
  }

  -- A request is written whole.
  pub get_fits :
      build_exchange_request (request_of client Method.get (client.base_path ++ suffix)) request_max
      ≡ some (
          request_text
            (request_of client Method.get (client.base_path ++ suffix))
            (codes "GET")
            client.host
            client.port
            (client.base_path ++ suffix))
  get_fits =
      fits_buffer _ _ (build_exchange_request-request_text _ _ _ _ _ request_max get-IsRequest) (
        request_text-IsShort client (codes "GET") _ none none ready (omega arith) length-path
          (text-IsShort (codes "\r\n") 128 (omega arith)))

  -- The lines of the upload of a ready client, of whatever body and for a path suffix of at most
  -- 64 valid bytes, are written whole into the buffer of 4096 bytes.
  pub put_fits :
      (json : List ℕ)
      → build_exchange_request (put_request client (client.base_path ++ suffix) json) request_max
        ≡ some (
            request_text
              (put_request client (client.base_path ++ suffix) json)
              (codes "PUT")
              client.host
              client.port
              (client.base_path ++ suffix))
  put_fits json =
      fits_buffer _ _
        (build_exchange_request-request_text _ _ _ _ _ request_max (put-IsRequest json))
        (request_text-IsShort client (codes "PUT") _ (some json) (some (codes "application/json"))
          ready (omega arith) length-path (body_lines-IsShort json))
