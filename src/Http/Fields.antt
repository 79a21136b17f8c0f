-- ===== src/Http/Fields.antt =====
-- The checks of `src/net/netsimple.c` on the host, the port, the path and the headers of a request.
use crossnook.Base.{
  is_digit, ℕ, ◌+◌, ◌-◌, ◌*◌, Bool, true, false, not, ◌&&◌, ◌||◌, Option, none, some, [], ◌∷◌, ◌==◌,
  ltb, leb, if◌then◌else◌, Text,
}

abbrev pub host_max : ℕ
host_max = 255

abbrev pub port_max_text : ℕ
port_max_text = 8

abbrev pub path_max : ℕ
path_max = 2048

-- The loop over the digits, from the value and the number of the digits in front.
unfoldable pub port_digits : ℕ → ℕ → Text → Option ℕ
port_digits digits value [] = if digits == 0 || ltb value 1 then none else some value
port_digits digits value (c ∷ cs) =
    let next = value * 10 + (c - b'0') in
    let rest = port_digits (digits + 1) next cs in
    if not (is_digit c)
    then none
    else if leb port_max_text digits
    then none
    else if ltb 65535 next
    then none
    else rest

unfoldable pub parse_port : Option Text → Option ℕ
parse_port none = none
parse_port (some text) = port_digits 0 0 text

abbrev pub is_host_byte : ℕ → Bool
is_host_byte c = not (leb c 0x20 || (c == 0x7f || (c == b'/' || c == 0x5c)))

-- A loop that refuses a byte from the index `maximum` on, or one that the test refuses.
unfoldable pub bytes_ok : ℕ → (ℕ → Bool) → ℕ → Text → Bool
bytes_ok maximum test n [] = true
bytes_ok maximum test n (c ∷ cs) =
    let rest = bytes_ok maximum test (n + 1) cs in
    if leb maximum n || not (test c) then false else rest

unfoldable pub host_text_ok : Option Text → Bool
host_text_ok none = false
host_text_ok (some []) = false
host_text_ok (some (c ∷ cs)) = bytes_ok host_max is_host_byte 0 (c ∷ cs)

abbrev pub is_path_byte : ℕ → Bool
is_path_byte c = not (leb c 0x20 || (c == 0x7f || c == 0x5c))

unfoldable pub path_text_ok : Text → Bool
path_text_ok [] = false
path_text_ok (c ∷ cs) = if not (c == b'/') then false else bytes_ok path_max is_path_byte 0 (c ∷ cs)

-- `cn_netsimple_validate`.
unfoldable pub validate : Option Text → Option Text → Option Text → Bool
validate host port none = false
validate host port (some path) =
    if not (host_text_ok host)
    then false
    else elim (parse_port port) [ none ↦ false | some value ↦ path_text_ok path ]

abbrev pub is_name_byte : ℕ → Bool
is_name_byte c =
    (leb b'a' c && leb c b'z') || ((leb b'A' c && leb c b'Z') || (is_digit c || c == b'-'))

unfoldable pub header_name_ok : Option Text → Bool
header_name_ok none = false
header_name_ok (some []) = false
header_name_ok (some (c ∷ cs)) = bytes_ok 63 is_name_byte 0 (c ∷ cs)

abbrev pub is_value_byte : ℕ → Bool
is_value_byte c = not (ltb c 0x20 || c == 0x7f)

unfoldable pub header_value_ok : Option Text → Bool
header_value_ok none = false
header_value_ok (some value) = bytes_ok 2048 is_value_byte 0 value
