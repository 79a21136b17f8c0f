-- ===== src/Server/Address.antt =====
-- The address that `cn_kosync_client_init` of `src/sync/kosync.c` reads is the one that was written.
use mathlib.Core.Path.{ap₂}
use crossnook.Base.{
  ℕ, zero, suc, ◌+◌, ◌-◌, ◌*◌, ◌≤◌, ◌<◌, ◌≡◌, inl, inr, refl, ap, ◌∙◌, arith, Bool, true, false,
  not, ◌&&◌, ◌||◌, Option, none, some, [], ◌∷◌, ◌++◌, ◌==◌, if◌then◌else◌, length, length-append,
  replicate, length-replicate, Text, codes, all, all-append, all_weaken, bind_some, is_digit,
  Bool-cases, ◌>>=◌,
}
use crossnook.Utf8.Header.{header_text_ok}
use crossnook.Http.Fields.{port_max_text, port_digits, parse_port, host_text_ok, path_text_ok}
use crossnook.Http.Bounds.{path_text_ok_lem, host_text_ok_lem, length-port, validate_intro}
use crossnook.Server.Url.{
  username_max, userkey_max, base_path_max, in_front, is_refused_byte, is_path_text, path_or_root,
  default_port, copy_url_part, scheme, authority, split_colon, host_and_port, strip_slashes,
  client_of, client_from, client_init,
}

-- A byte that does not end a host in an address.
abbrev pub is_name_byte : ℕ → Bool
is_name_byte c = not (c == b'/' || (c == b':' || is_refused_byte c))

abbrev pub scheme_text : Bool → Text
scheme_text use_tls = if use_tls then codes "https://" else codes "http://"

abbrev pub port_text : Option Text → Text
port_text none = []
port_text (some port) = b':' ∷ port

-- The port of the address, or the one that the scheme implies.
abbrev pub port_of : Bool → Option Text → Text
port_of use_tls none = default_port use_tls
port_of use_tls (some port) = port

-- An address, with slashes at its end.
abbrev pub url_text : Bool → Text → Option Text → Text → ℕ → Text
url_text use_tls host port path slashes =
    scheme_text use_tls ++ ((host ++ port_text port) ++ (path ++ replicate slashes b'/'))

abbrev is_authority_byte : ℕ → Bool
is_authority_byte c = not (c == b'/' || is_refused_byte c)

first_of : {c d : ℕ} {cs ds : Text} → c ∷ cs ≡ d ∷ ds → c ≡ d
first_of {c} e = ap (λ text. elim text [ [] ↦ c | x ∷ xs ↦ x ]) e

-- A path is empty or begins with a slash.
abbrev StartsPath : Text → Type 0
StartsPath [] = Unit
StartsPath (c ∷ cs) = c ≡ b'/'

authority-append :
    (front rest : Text)
    → all is_authority_byte front ≡ true
    → StartsPath rest
    → authority (front ++ rest) ≡ some (front, rest)
unfolding authority
authority-append [] [] h s = refl
authority-append [] (c ∷ cs) h s = let slash : (c == b'/') ≡ true = ground arith in rw slash refl
authority-append (c ∷ cs) rest h s =
    let other : (c == b'/') ≡ false = ground arith in
    let passes : is_refused_byte c ≡ false = ground arith in
    rw (other, passes) (ap (in_front c) (authority-append cs rest (ground arith) s))

split_colon-host :
    (host : Text) (port : Option Text)
    → all is_name_byte host ≡ true
    → split_colon (host ++ port_text port) ≡ (host, port)
unfolding split_colon
split_colon-host [] none h = refl
split_colon-host [] (some port) h = refl
split_colon-host (c ∷ cs) port h =
    let other : (c == b':') ≡ false = ground arith in
    rw other (ap (λ parts. (c ∷ parts.0, parts.1)) (split_colon-host cs port (ground arith)))

port_digits-all :
    (digits value : ℕ) (text : Text) (v : ℕ)
    → port_digits digits value text ≡ some v
    → all is_digit text ≡ true
unfolding port_digits
port_digits-all digits value [] v h = refl
port_digits-all digits value (c ∷ cs) v h = elim (Bool-cases (is_digit c)) [
  | inr other ↦ absurd (ground arith)
  | inl digit ↦
      ap₂ ◌&&◌ digit (port_digits-all (digits + 1) (value * 10 + (c - b'0')) cs v (ground arith))
]

strip_slashes-slashes : (n : ℕ) → strip_slashes (replicate n b'/') ≡ []
unfolding strip_slashes
strip_slashes-slashes zero = refl
strip_slashes-slashes (suc n) = rw (strip_slashes-slashes n) refl

strip_slashes-append :
    (path : Text) (n : ℕ) → strip_slashes (path ++ replicate n b'/') ≡ strip_slashes path
unfolding strip_slashes
strip_slashes-append [] n = strip_slashes-slashes n
strip_slashes-append (c ∷ cs) n =
    ap (λ stripped. elim stripped [ [] ↦ if c == b'/' then [] else c ∷ [] | d ∷ ds ↦ c ∷ d ∷ ds ])
      (strip_slashes-append cs n)

copy_url_part-fits :
    (cap : ℕ) (text : Text)
    → 0 < length text
    → length text < cap
    → copy_url_part cap text ≡ some text
unfolding copy_url_part
copy_url_part-fits cap text lo hi = ground arith

abbrev pub is_path_char : ℕ → Bool
is_path_char c = not (c == b'?' || c == b'#')

-- The parts of an address.
pub record IsAddress (use_tls : Bool) (host : Text) (port : Option Text) (path : Text) (slashes : ℕ)
    : Type 0 where
  pub port_value : ℕ
  pub good_host : host_text_ok (some host) ≡ true
  pub plain_host : all is_name_byte host ≡ true
  pub good_port : parse_port (some (port_of use_tls port)) ≡ some port_value
  pub good_path : path_text_ok (path_or_root path) ≡ true
  pub plain_path : all is_path_char path ≡ true
  pub no_slash : strip_slashes path ≡ path
  pub short_path : length path + slashes ≤ base_path_max

port_some : (port : Text) (value : ℕ) → parse_port (some port) ≡ some value → 0 < length port
unfolding parse_port port_digits
port_some [] value h = absurd (ground arith)
port_some (c ∷ cs) value h = omega arith

starts :
    (path : Text) (slashes : ℕ)
    → path_text_ok (path_or_root path) ≡ true
    → StartsPath (path ++ replicate slashes b'/')
starts [] zero h = tt
starts [] (suc n) h = refl
starts (c ∷ cs) n h = let (rest, start, pass) = path_text_ok_lem (c ∷ cs) h in first_of start

port-IsAuthority :
    (port : Option Text) (value : ℕ) (use_tls : Bool)
    → parse_port (some (port_of use_tls port)) ≡ some value
    → all is_authority_byte (port_text port) ≡ true
port-IsAuthority none value use_tls h = refl
port-IsAuthority (some port) value use_tls h =
    all_weaken is_digit is_authority_byte (λ c d. ground arith) port
      (port_digits-all 0 0 port value (unfold parse_port in h))

host_and_port-parts :
    (use_tls : Bool) (host : Text) (port : Option Text) (value : ℕ)
    → host_text_ok (some host) ≡ true
    → parse_port (some (port_of use_tls port)) ≡ some value
    → host_and_port use_tls (host, port) ≡ some (host, port_of use_tls port)
unfolding host_and_port
host_and_port-parts use_tls host none value h p =
    let (some_byte, fits, pass) = host_text_ok_lem host h in
    bind_some (copy_url_part-fits 256 host some_byte (omega arith)) _
host_and_port-parts use_tls host (some port) value h p =
    let (some_byte, fits, pass) = host_text_ok_lem host h in
    let short = length-port port value p in
    bind_some (copy_url_part-fits 256 host some_byte (omega arith)) _
    ∙ bind_some (copy_url_part-fits (port_max_text + 1) port (port_some port value p) (omega arith))
        _

scheme-text :
    (use_tls : Bool) (rest : Text) → scheme (scheme_text use_tls ++ rest) ≡ some (use_tls, rest)
unfolding scheme
scheme-text true rest = refl
scheme-text false rest = refl

slashes_all : (n : ℕ) → all is_path_char (replicate n b'/') ≡ true
slashes_all zero = refl
slashes_all (suc n) = slashes_all n

client_of-parts :
    (use_tls : Bool) (host : Text) (port : Option Text) (path : Text) (slashes : ℕ)
    (username userkey : Text)
    → IsAddress use_tls host port path slashes
    → client_of use_tls username userkey
        (host, port_of use_tls port)
        (path ++ replicate slashes b'/')
      ≡ some (record {
        host = host;
        port = port_of use_tls port;
        base_path = path;
        username = username;
        userkey = userkey;
        connect_host = [];
        tls = false;
        use_tls = use_tls;
        connect_ms = 20000;
        recv_ms = 10000;
      })
unfolding client_of
client_of-parts use_tls host port path slashes username userkey a =
    let stripped = strip_slashes-append path slashes ∙ a.no_slash in
    let slashes_pass : all is_path_char (replicate slashes b'/') ≡ true = slashes_all slashes in
    let passes : all is_path_char (path ++ replicate slashes b'/') ≡ true =
      all-append is_path_char path (replicate slashes b'/') ∙ ap₂ ◌&&◌ a.plain_path slashes_pass in
    let is_path : is_path_text (path ++ replicate slashes b'/') ≡ true = ground (
      arith,
      passes,
      a.short_path,
      length-append path (replicate slashes b'/'),
      length-replicate {A = ℕ} slashes b'/',
    ) in
    let valid =
      validate_intro host (port_of use_tls port) (path_or_root path) a.port_value a.good_host
        a.good_port a.good_path in
    rw (a.good_port, client_of) (rw (is_path, stripped, valid) refl)

-- From an address of a scheme, a host, a port or none, a path that does not end in a slash, and
-- some slashes, all valid, and valid names, the client is made of exactly these parts, with the
-- port that the scheme implies if there is none.
pub client_init-url_text :
    (use_tls : Bool) (host : Text) (port : Option Text) (path : Text) (slashes : ℕ)
    (username userkey : Text)
    → IsAddress use_tls host port path slashes
    → header_text_ok (some username) username_max false ≡ true
    → header_text_ok (some userkey) userkey_max false ≡ true
    → client_init (some (url_text use_tls host port path slashes)) (some username) (some userkey)
      ≡ some (record {
        host = host;
        port = port_of use_tls port;
        base_path = path;
        username = username;
        userkey = userkey;
        connect_host = [];
        tls = false;
        use_tls = use_tls;
        connect_ms = 20000;
        recv_ms = 10000;
      })
unfolding client_init client_from client_of
client_init-url_text use_tls host port path slashes username userkey a u k =
    let rest = path ++ replicate slashes b'/' in
    let front_ok : all is_authority_byte (host ++ port_text port) ≡ true =
      all-append is_authority_byte host (port_text port)
      ∙ ap₂ ◌&&◌ (all_weaken is_name_byte is_authority_byte (λ c d. ground arith) host a.plain_host)
          (port-IsAuthority port a.port_value use_tls a.good_port) in
    rw (u, k)
      (bind_some (scheme-text use_tls ((host ++ port_text port) ++ rest)) _
        ∙ bind_some
            (authority-append (host ++ port_text port) rest front_ok
              (starts path slashes a.good_path))
            _
        ∙ ap
            (λ parts. host_and_port use_tls parts >>= λ found.
              client_of use_tls username userkey found rest)
            (split_colon-host host port a.plain_host)
        ∙ bind_some (host_and_port-parts use_tls host port a.port_value a.good_host a.good_port) _
        ∙ client_of-parts use_tls host port path slashes username userkey a)
