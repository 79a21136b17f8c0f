-- ===== src/Http/Request.antt =====
-- Requests of `src/net/netsimple.c`: `cn_netsimple_build_exchange_request`. The body stands with its
-- length, and the headers with their number.
use crossnook.Base.{
  ℕ, zero, suc, ◌+◌, ◌-◌, ◌/◌, ◌%◌, Bool, true, not, ◌&&◌, ◌||◌, Option, none, some, List, [], ◌∷◌,
  ◌++◌, ◌==◌, ltb, leb, if◌then◌else◌, length, Text, text_eq, codes, all, ◌>>=◌,
}
use crossnook.Http.Fields.{validate, host_text_ok, header_name_ok, header_value_ok}

abbrev pub header_max : ℕ
header_max = 8

abbrev pub request_max : ℕ
request_max = 4096

-- A C enumeration can hold any `int`: `out_of_range` stands for the values outside.
pub data Method : Type 0 where
  get put out_of_range : Method

pub record Header : Type 0 where
  pub name : Option Text
  pub value : Option Text

-- `cn_netsimple_request`; `tls` is whether the pointer is not NULL.
pub record Request : Type 0 where
  pub method : Method
  pub host : Option Text
  pub connect_host : Option Text
  pub port : Option Text
  pub path : Option Text
  pub headers : List Header
  pub content_type : Option Text
  pub body : Option (List ℕ)
  pub tls : Bool

-- `append_text`: the bytes that are used, with the text behind them.
unfoldable pub append_text : ℕ → Text → Text → Option Text
append_text cap used text =
    if leb cap (length used) || leb (cap - length used) (length text)
    then none
    else some (used ++ text)

-- `%llu`, on fuel for the digits: 20 are enough below 2 ^ 64.
unfoldable pub unsigned_text : ℕ → ℕ → Text
unsigned_text zero n = []
unsigned_text (suc fuel) n =
    let front = unsigned_text fuel (n / 10) in
    if n / 10 == 0 then (b'0' + n % 10) ∷ [] else front ++ (b'0' + n % 10) ∷ []

abbrev pub length_line : ℕ → Text
length_line n = codes "Content-Length: " ++ (unsigned_text 20 n ++ codes "\r\n")

abbrev pub header_ok : Header → Bool
header_ok header = header_name_ok header.name && header_value_ok header.value

abbrev pub connect_host_ok : Option Text → Bool
connect_host_ok none = true
connect_host_ok (some host) = host_text_ok (some host)

-- The method and the body, if they go together.
unfoldable pub method_text : Method → Option (List ℕ) → Option Text → Option Text
method_text Method.get none none = some (codes "GET")
method_text Method.put (some body) (some content_type) =
    if not (header_value_ok (some content_type)) then none else some (codes "PUT")
method_text _ _ _ = none

-- The port, unless it is the one that the scheme implies.
abbrev pub shows_port : Bool → Text → Bool
shows_port tls port =
    (tls && not (text_eq port (codes "443"))) || (not tls && not (text_eq port (codes "80")))

unfoldable pub append_port : ℕ → Bool → Text → Text → Option Text
append_port cap tls port used =
    if shows_port tls port
    then (do with_colon ← append_text cap used (codes ":"); append_text cap with_colon port)
    else some used

unfoldable pub append_header : ℕ → Text → Option Text → Option Text → Option Text
append_header cap used (some name) (some value) = do
  u1 ← append_text cap used name
  u2 ← append_text cap u1 (codes ": ")
  u3 ← append_text cap u2 value
  append_text cap u3 (codes "\r\n")
append_header cap used name value = none

-- The loop over the headers.
unfoldable pub append_headers : ℕ → Text → List Header → Option Text
append_headers cap used [] = some used
append_headers cap used (header ∷ rest) = do
  next ← append_header cap used header.name header.value
  append_headers cap next rest

-- The lines of a body: its type and its length.
unfoldable pub append_body_lines : ℕ → Text → Option (List ℕ) → Option Text → Option Text
append_body_lines cap used (some body) (some content_type) = do
  u1 ← append_text cap used (codes "Content-Type: ")
  u2 ← append_text cap u1 content_type
  u3 ← append_text cap u2 (codes "\r\n")
  if leb 64 (length (length_line (length body)))
      then none
      else append_text cap u3 (length_line (length body))
append_body_lines cap used _ _ = some used

-- The lines of a request whose parts have passed the checks.
unfoldable pub append_request : ℕ → Request → Text → Text → Text → Text → Option Text
append_request cap spec method host port path = do
  u1 ← append_text cap [] method
  u2 ← append_text cap u1 (codes " ")
  u3 ← append_text cap u2 path
  u4 ← append_text cap u3 (codes " HTTP/1.0\r\nHost: ")
  u5 ← append_text cap u4 host
  u6 ← append_port cap spec.tls port u5
  u7 ← append_text cap u6 (codes "\r\n")
  u8 ← append_headers cap u7 spec.headers
  u9 ← append_body_lines cap u8 spec.body spec.content_type
  append_text cap u9 (codes "\r\n")

unfoldable pub checked_request :
    ℕ → Request → Option Text → Option Text → Option Text → Option Text → Option Text
checked_request cap spec (some method) (some host) (some port) (some path) =
    if not (all header_ok spec.headers) then none else append_request cap spec method host port path
checked_request cap spec _ _ _ _ = none

-- `cn_netsimple_build_exchange_request`: the request, or none for CN_NETSIMPLE_INVALID.
unfoldable pub build_exchange_request : Request → ℕ → Option Text
build_exchange_request spec cap =
    if cap == 0
      || (not (validate spec.host spec.port spec.path)
          || (not (connect_host_ok spec.connect_host) || ltb header_max (length spec.headers)))
    then none
    else checked_request cap spec (method_text spec.method spec.body spec.content_type) spec.host
        spec.port spec.path
