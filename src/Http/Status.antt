-- ===== src/Http/Status.antt =====
-- Responses of `src/net/netsimple.c`: `cn_netsimple_parse_status`, and the two ends of
-- `cn_netsimple_exchange`, which builds the request and reads the response. What lies between, the
-- sockets and the TLS connection, is a parameter.
use crossnook.Base.{
  ℕ, zero, suc, ◌+◌, ◌-◌, ◌*◌, Bool, not, ◌&&◌, ◌||◌, Option, none, some, List, [], ◌∷◌, ◌==◌, ltb,
  leb, if◌then◌else◌, length, Text, codes, is_digit, after_prefix, ◌>>=◌,
}
use crossnook.Sync.Types.{Transport}
use crossnook.Http.Request.{Request, build_exchange_request, request_max}

-- `cn_netsimple_response`; the text of the status is the list of its bytes.
pub record Response : Type 0 where
  pub status : ℕ
  pub header_bytes : ℕ
  pub body_bytes : ℕ
  pub total_bytes : ℕ
  pub status_text : Text

abbrev pub is_blank : ℕ → Bool
is_blank c = c == 0x20 || c == 0x09

unfoldable pub skip_blanks : List ℕ → List ℕ
skip_blanks [] = []
skip_blanks (c ∷ cs) = let rest = skip_blanks cs in if is_blank c then rest else c ∷ cs

-- The digits of the code that are left, from the value of those in front.
unfoldable pub code_digits : ℕ → ℕ → List ℕ → Option (ℕ × List ℕ)
code_digits zero value input = some (value, input)
code_digits (suc left) value [] = none
code_digits (suc left) value (c ∷ cs) =
    let rest = code_digits left (value * 10 + (c - b'0')) cs in
    if not (is_digit c) then none else rest

-- `parse_code`: the code, and what stands from its text on.
unfoldable pub parse_code : List ℕ → Option (ℕ × List ℕ)
parse_code input = do
  (code, rest) ← code_digits 3 0 (skip_blanks input)
  some (code, skip_blanks rest)

-- The text of the status, up to the end of the line.
unfoldable pub status_line : List ℕ → Text
status_line [] = []
status_line (c ∷ cs) = let rest = status_line cs in if c == 0x0d || c == 0x0a then [] else c ∷ rest

unfoldable pub skip_line_ends : List ℕ → List ℕ
skip_line_ends [] = []
skip_line_ends (c ∷ cs) =
    let rest = skip_line_ends cs in if c == 0x0d || c == 0x0a then rest else c ∷ cs

-- A digit.
unfoldable pub one_digit : List ℕ → Option (List ℕ)
one_digit [] = none
one_digit (c ∷ cs) = if is_digit c then some cs else none

-- The minor version may have a second digit; a blank or the end of the line follows.
unfoldable pub end_of_version : List ℕ → Option (List ℕ)
end_of_version [] = none
end_of_version (c ∷ cs) = if c == 0x20 || (c == 0x09 || c == 0x0d) then some (c ∷ cs) else none

unfoldable pub second_digit : List ℕ → List ℕ
second_digit [] = []
second_digit (c ∷ cs) = if is_digit c then cs else c ∷ cs

unfoldable pub version : List ℕ → Option (List ℕ)
version input = do
  after_name ← after_prefix (codes "HTTP/") (skip_line_ends input)
  after_major ← one_digit after_name
  after_dot ← after_prefix (codes ".") after_major
  after_minor ← one_digit after_dot
  end_of_version (second_digit after_minor)

-- The first place of a pattern.
unfoldable pub find : Text → List ℕ → Option ℕ
find pattern [] = none
find pattern (c ∷ cs) = elim (after_prefix pattern (c ∷ cs)) [
  | some rest ↦ some 0
  | none ↦ elim (find pattern cs) [ none ↦ none | some i ↦ some (i + 1) ]
]

abbrev pub place_or : Option ℕ → ℕ → ℕ
place_or none len = len
place_or (some i) len = i

-- Where the body begins, from the places of an empty line that ends in CR LF and in LF.
unfoldable pub header_end : ℕ → ℕ → ℕ → ℕ
header_end len crlfcrlf lflf =
    let bytes =
      if crlfcrlf == len && lflf == len
      then len
      else if leb crlfcrlf lflf
      then crlfcrlf + 4
      else lflf + 2 in
    if ltb len bytes then len else bytes

unfoldable pub header_bytes_of : List ℕ → ℕ
header_bytes_of buf =
    header_end (length buf) (place_or (find (codes "\r\n\r\n") buf) (length buf))
      (place_or (find (codes "\n\n") buf) (length buf))

-- `cn_netsimple_parse_status`: the response, or none for CN_NETSIMPLE_BAD_RESPONSE.
unfoldable pub parse_status : List ℕ → Option Response
parse_status buf = do
  after_version ← version buf
  (code, code_text) ← parse_code after_version
  some (record {
    status = code;
    header_bytes = header_bytes_of buf;
    body_bytes = length buf - header_bytes_of buf;
    total_bytes = length buf;
    status_text = status_line code_text;
  })

-- What the network makes of a request: an end with an error, or the bytes that were received, and
-- whether the buffer was full.
pub data Wire : Type 0 where
  stopped : Transport → Wire
  received : List ℕ → Bool → Wire

-- What an exchange gives: the result, the response and the buffer.
pub record Exchange : Type 0 where
  pub transport : Transport
  pub response : Response
  pub buffer : List ℕ

abbrev pub no_response : Response
no_response = record {
  status = 0;
  header_bytes = 0;
  body_bytes = 0;
  total_bytes = 0;
  status_text = [];
}

-- From `recv_done` on.
abbrev pub responded : Option Response → Bool → List ℕ → Exchange
responded none truncated buffer = record {
  transport = if truncated then Transport.truncated else Transport.bad_response;
  response = no_response;
  buffer = buffer;
}
responded (some response) truncated buffer = record {
  transport = if truncated then Transport.truncated else Transport.ok;
  response = response;
  buffer = buffer;
}

abbrev pub concluded : Wire → Exchange
concluded (stopped transport) = record {
  transport = transport;
  response = no_response;
  buffer = [];
}
concluded (received bytes truncated) = responded (parse_status bytes) truncated bytes

-- `cn_netsimple_exchange`: the network is given the request, its lines and the size of the buffer.
unfoldable pub exchange : (Request → Text → ℕ → Wire) → Request → ℕ → Exchange
exchange wire spec buffer_cap =
    if buffer_cap == 0
    then concluded (stopped Transport.invalid)
    else elim (build_exchange_request spec request_max) [
      | none ↦ concluded (stopped Transport.invalid)
      | some lines ↦ concluded (wire spec lines buffer_cap)
    ]
