-- ===== src/Http/RequestText.antt =====
-- The text of a request, and that `cn_netsimple_build_exchange_request` of `src/net/netsimple.c`
-- writes it.
use crossnook.Base.{
  ℕ, zero, suc, ◌+◌, ◌/◌, ◌%◌, ◌≤◌, ◌≡◌, refl, ◌∙◌, arith, Bool, true, false, ◌&&◌, ◌||◌, Option,
  none, some, List, [], ◌∷◌, ◌++◌, append_assoc, ◌==◌, ltb, leb, if◌then◌else◌, length,
  length-append, Text, codes, all, ◌>>=◌, >>=_assoc, put_then, Bool-cases, inl, inr,
}
use crossnook.Http.Fields.{validate, header_name_ok, header_value_ok}
use crossnook.Http.Request.{
  Header, Request, append_text, unsigned_text, length_line, header_ok, shows_port, append_port,
  append_header, append_headers, append_body_lines, append_request, checked_request,
  build_exchange_request, connect_host_ok, method_text, header_max,
}

abbrev pub text_or : Option Text → Text
text_or none = []
text_or (some text) = text

-- What the port, the headers and the body put in front of the rest.
abbrev pub port_part : Bool → Text → Text → Text
port_part tls port tail = if shows_port tls port then codes ":" ++ (port ++ tail) else tail

abbrev pub header_part : Header → Text → Text
header_part header tail =
    text_or header.name ++ (codes ": " ++ (text_or header.value ++ (codes "\r\n" ++ tail)))

abbrev pub headers_part : List Header → Text → Text
headers_part [] tail = tail
headers_part (header ∷ rest) tail = header_part header (headers_part rest tail)

abbrev pub body_part : Option (List ℕ) → Option Text → Text → Text
body_part (some body) (some content_type) tail =
    codes "Content-Type: "
    ++ (content_type ++ (codes "\r\n" ++ (length_line (length body) ++ tail)))
body_part _ _ tail = tail

abbrev pub request_text : Request → Text → Text → Text → Text → Text
request_text spec method host port path =
    method
    ++ (codes " "
        ++ (path
            ++ (codes " HTTP/1.0\r\nHost: "
                ++ (host
                    ++ port_part spec.tls port (
                        codes "\r\n"
                        ++ headers_part spec.headers
                            (body_part spec.body spec.content_type (codes "\r\n")))))))

pub length-unsigned_text : (fuel n : ℕ) → length (unsigned_text fuel n) ≤ fuel
unfolding unsigned_text
length-unsigned_text zero n = omega arith
length-unsigned_text (suc fuel) n = ground (
  arith,
  length-unsigned_text fuel (n / 10),
  length-append (unsigned_text fuel (n / 10)) ((b'0' + n % 10) ∷ []),
)

-- The line fits the buffer of 64 bytes.
pub length-length_line : (n : ℕ) → leb 64 (length (length_line n)) ≡ false
length-length_line n =
    ground (arith, length-unsigned_text 20 n, length-append (unsigned_text 20 n) (codes "\r\n"))

module _ (cap : ℕ) where
  append_text-append :
      (used xs ys : Text)
      → (append_text cap used xs >>= λ next. append_text cap next ys)
        ≡ append_text cap used (xs ++ ys)
  unfolding append_text
  append_text-append used xs ys =
      ground (arith, append_assoc used xs ys, length-append used xs, length-append xs ys)

  text_then :
      (used xs ys : Text) (f : Text → Option Text)
      → ((next : Text) → f next ≡ append_text cap next ys)
      → (append_text cap used xs >>= f) ≡ append_text cap used (xs ++ ys)
  text_then = put_then (append_text cap) append_text-append

  -- The same inside a chain of steps.
  chain_then :
      (used xs ys : Text) (g f : Text → Option Text)
      → ((next : Text) → (g next >>= f) ≡ append_text cap next ys)
      → ((append_text cap used xs >>= g) >>= f) ≡ append_text cap used (xs ++ ys)
  chain_then used xs ys g f h =
      >>=_assoc (append_text cap used xs) g f ∙ text_then used xs ys (λ next. g next >>= f) h

  append_port-part :
      (tls : Bool) (port used ys : Text) (f : Text → Option Text)
      → ((next : Text) → f next ≡ append_text cap next ys)
      → (append_port cap tls port used >>= f) ≡ append_text cap used (port_part tls port ys)
  unfolding append_port
  append_port-part tls port used ys f h = elim (Bool-cases (shows_port tls port)) [
    | inl shown ↦ rw shown (
        >>=_assoc (append_text cap used (codes ":")) _ f
        ∙ text_then used (codes ":") (port ++ ys) _ λ next. text_then next port ys f h)
    | inr hidden ↦ rw hidden (h used)
  ]

  append_header-part :
      (used : Text) (name value : Option Text) (ys : Text) (f : Text → Option Text)
      → (header_name_ok name && header_value_ok value) ≡ true
      → ((next : Text) → f next ≡ append_text cap next ys)
      → (append_header cap used name value >>= f)
        ≡ append_text cap used (header_part (record { name = name; value = value }) ys)
  unfolding append_header header_name_ok header_value_ok
  append_header-part used none value ys f ok h = ground arith
  append_header-part used (some name) none ys f ok h = ground arith
  append_header-part used (some name) (some value) ys f ok h = chain_then used name _ _ f λ u1.
      chain_then u1 (codes ": ") _ _ f
        λ u2. chain_then u2 value _ _ f λ u3. text_then u3 (codes "\r\n") ys f h

  append_headers-part :
      (used : Text) (headers : List Header) (ys : Text) (f : Text → Option Text)
      → all header_ok headers ≡ true
      → ((next : Text) → f next ≡ append_text cap next ys)
      → (append_headers cap used headers >>= f) ≡ append_text cap used (headers_part headers ys)
  unfolding append_headers
  append_headers-part used [] ys f ok h = h used
  append_headers-part used (header ∷ rest) ys f ok h =
      >>=_assoc (append_header cap used header.name header.value) _ f
      ∙ append_header-part used header.name header.value _ _ (ground arith)
          (λ next. append_headers-part next rest ys f (ground arith) h)

  append_body_lines-part :
      (used : Text) (body : Option (List ℕ)) (content_type : Option Text) (ys : Text)
      (f : Text → Option Text)
      → ((next : Text) → f next ≡ append_text cap next ys)
      → (append_body_lines cap used body content_type >>= f)
        ≡ append_text cap used (body_part body content_type ys)
  unfolding append_body_lines
  append_body_lines-part used none content_type ys f h = h used
  append_body_lines-part used (some body) none ys f h = h used
  append_body_lines-part used (some body) (some content_type) ys f h =
      chain_then used (codes "Content-Type: ") _ _ f λ u1. chain_then u1 content_type _ _ f λ u2.
        chain_then u2 (codes "\r\n") _ _ f λ u3.
          rw (length-length_line (length body)) (text_then u3 (length_line (length body)) ys f h)

  -- The lines of a request are its text, if that and the NUL fit.
  append_request-request_text :
      (spec : Request) (method host port path : Text)
      → all header_ok spec.headers ≡ true
      → append_request cap spec method host port path
        ≡ append_text cap [] (request_text spec method host port path)
  unfolding append_request
  append_request-request_text spec method host port path ok = text_then [] method _ _ λ u1.
      text_then u1 (codes " ") _ _ λ u2. text_then u2 path _ _ λ u3.
        text_then u3 (codes " HTTP/1.0\r\nHost: ") _ _ λ u4. text_then u4 host _ _ λ u5.
          append_port-part spec.tls port u5 _ _ λ u6. text_then u6 (codes "\r\n") _ _ λ u7.
            append_headers-part u7 spec.headers _ _ ok
              λ u8. append_body_lines-part u8 spec.body spec.content_type _ _ λ u9. refl

-- The parts of a request that passes the checks.
pub record IsRequest (spec : Request) (method host port path : Text) : Type 0 where
  pub at_host : spec.host ≡ some host
  pub at_port : spec.port ≡ some port
  pub at_path : spec.path ≡ some path
  pub is_valid : validate (some host) (some port) (some path) ≡ true
  pub at_connect_host : connect_host_ok spec.connect_host ≡ true
  pub few_headers : length spec.headers ≤ header_max
  pub good_headers : all header_ok spec.headers ≡ true
  pub at_method : method_text spec.method spec.body spec.content_type ≡ some method

-- A request that passes the checks is built as its text exactly when that and a NUL fit the
-- buffer, and is refused otherwise.
pub build_exchange_request-request_text :
    (spec : Request) (method host port path : Text) (cap : ℕ)
    → IsRequest spec method host port path
    → build_exchange_request spec cap ≡ (
        if ltb (length (request_text spec method host port path)) cap
        then some (request_text spec method host port path)
        else none)
unfolding build_exchange_request checked_request
build_exchange_request-request_text spec method host port path cap r =
    let few : ltb header_max (length spec.headers) ≡ false = ground (arith, r.few_headers) in
    simp
      (
        r.at_host,
        r.at_port,
        r.at_path,
        r.is_valid,
        r.at_connect_host,
        few,
        r.good_headers,
        r.at_method,
        append_request-request_text cap spec method host port path r.good_headers,
      )
      (fits (request_text spec method host port path))
  where
    fits :
        (text : Text)
        → (if cap == 0 || false then none else append_text cap [] text)
          ≡ (if ltb (length text) cap then some text else none)
    fits text = unfold append_text in ground arith
