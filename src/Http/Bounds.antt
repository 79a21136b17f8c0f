-- ===== src/Http/Bounds.antt =====
-- What the checks of `src/net/netsimple.c` on the texts of a request let pass.
use crossnook.Base.{
  ℕ, ◌+◌, ◌-◌, ◌*◌, ◌≤◌, ◌<◌, ◌≡◌, ap, ◌∙◌, sym, arith, Bool, true, false, ◌&&◌, some, [], ◌∷◌,
  ◌==◌, leb, length, Text, all, Bool-cases, ==_iff, inl, inr, Option-cases,
}
use crossnook.Http.Fields.{
  host_max, port_max_text, path_max, port_digits, parse_port, bytes_ok, is_host_byte, host_text_ok,
  is_path_byte, path_text_ok, validate, header_value_ok, is_value_byte,
}

-- The loop passes a text that fits, of bytes that pass.
pub bytes_ok_lem :
    (maximum : ℕ) (test : ℕ → Bool) (n : ℕ) (text : Text)
    → n ≤ maximum
    → bytes_ok maximum test n text ≡ (leb (n + length text) maximum && all test text)
unfolding bytes_ok
bytes_ok_lem maximum test n [] h = ground arith
bytes_ok_lem maximum test n (c ∷ cs) h = elim (Bool-cases (leb maximum n)) [
  | inl full ↦ ground arith
  | inr room ↦ ground (arith, bytes_ok_lem maximum test (n + 1) cs (ground arith))
]

pub host_text_ok_lem :
    (host : Text)
    → host_text_ok (some host) ≡ true
    → (0 < length host) × (length host ≤ host_max) × (all is_host_byte host ≡ true)
unfolding host_text_ok
host_text_ok_lem [] h = ground arith
host_text_ok_lem (c ∷ cs) h =
    let e : (leb (0 + length (c ∷ cs)) host_max && all is_host_byte (c ∷ cs)) ≡ true =
      sym (bytes_ok_lem host_max is_host_byte 0 (c ∷ cs) (omega arith)) ∙ h in
    (omega arith, ground arith, ground arith)

pub path_text_ok_intro :
    (cs : Text)
    → length cs < path_max
    → all is_path_byte cs ≡ true
    → path_text_ok (b'/' ∷ cs) ≡ true
unfolding path_text_ok
path_text_ok_intro cs fits pass =
    bytes_ok_lem path_max is_path_byte 0 (b'/' ∷ cs) (omega arith) ∙ ground arith

pub path_text_ok_lem :
    (path : Text)
    → path_text_ok path ≡ true
    → (cs : Text) × (path ≡ b'/' ∷ cs) × (all is_path_byte cs ≡ true)
unfolding path_text_ok
path_text_ok_lem [] h = absurd (ground arith)
path_text_ok_lem (c ∷ cs) h = elim (Bool-cases (c == b'/')) [
  | inl slash ↦
      let e : (leb (0 + length (c ∷ cs)) path_max && all is_path_byte (c ∷ cs)) ≡ true =
        sym (bytes_ok_lem path_max is_path_byte 0 (c ∷ cs) (omega arith)) ∙ ground arith in
      (cs, ap (λ d. d ∷ cs) ((==_iff c b'/').0 slash), ground arith)
  | inr other ↦ absurd (ground arith)
]

pub header_value_ok_intro :
    (value : Text)
    → length value ≤ 2048
    → all is_value_byte value ≡ true
    → header_value_ok (some value) ≡ true
unfolding header_value_ok
header_value_ok_intro value fits pass =
    rw (bytes_ok_lem 2048 is_value_byte 0 value (omega arith)) (ground arith)

length-port_digits :
    (digits value : ℕ) (text : Text) (v : ℕ)
    → digits ≤ port_max_text
    → port_digits digits value text ≡ some v
    → digits + length text ≤ port_max_text
unfolding port_digits
length-port_digits digits value [] v h e = omega arith
length-port_digits digits value (c ∷ cs) v h e =
    let room : leb port_max_text digits ≡ false = ground arith in
    omega (
      arith,
      length-port_digits (digits + 1) (value * 10 + (c - b'0')) cs v (ground arith) (ground arith),
    )

-- A port has eight digits at most.
pub length-port :
    (port : Text) (value : ℕ) → parse_port (some port) ≡ some value → length port ≤ port_max_text
unfolding parse_port
length-port port value h = omega (arith, length-port_digits 0 0 port value (omega arith) h)

pub validate_lem :
    (host port path : Text)
    → validate (some host) (some port) (some path) ≡ true
    → (value : ℕ) × (host_text_ok (some host) ≡ true)
      × (parse_port (some port) ≡ some value)
      × (path_text_ok path ≡ true)
unfolding validate
validate_lem host port path h = elim (Option-cases (parse_port (some port))) [
  | inl refused ↦ absurd (ground arith)
  | inr (value, read) ↦ (value, ground arith, read, ground arith)
]

pub validate_intro :
    (host port path : Text) (value : ℕ)
    → host_text_ok (some host) ≡ true
    → parse_port (some port) ≡ some value
    → path_text_ok path ≡ true
    → validate (some host) (some port) (some path) ≡ true
unfolding validate
validate_intro host port path value h p t = rw (h, p) t
