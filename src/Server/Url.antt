-- ===== src/Server/Url.antt =====
-- The address of the server: `cn_kosync_client_init` and `cn_kosync_client_set_tls` of
-- `src/sync/kosync.c`. A client is made or refused; what a refusal leaves in the memory of the client
-- is not read, and is left out.
use crossnook.Base.{
  ℕ, ◌+◌, Bool, true, false, not, ◌&&◌, ◌||◌, Option, none, some, [], ◌∷◌, ◌==◌, ltb, leb,
  if◌then◌else◌, length, Text, codes, all, after_prefix, ◌>>=◌,
}
use crossnook.Sync.Types.{KosyncResult}
use crossnook.Utf8.Header.{bounded_length, header_text_ok}
use crossnook.Http.Fields.{host_max, port_max_text, parse_port, validate}

abbrev pub username_max : ℕ
username_max = 255

abbrev pub userkey_max : ℕ
userkey_max = 255

abbrev pub base_path_max : ℕ
base_path_max = 1024

-- `cn_kosync_client`; `tls` is whether the pointer is not NULL.
pub record Client : Type 0 where
  pub host : Text
  pub port : Text
  pub base_path : Text
  pub username : Text
  pub userkey : Text
  pub connect_host : Text
  pub tls : Bool
  pub use_tls : Bool
  pub connect_ms : ℕ
  pub recv_ms : ℕ

unfoldable pub copy_url_part : ℕ → Text → Option Text
copy_url_part cap text = if length text == 0 || leb cap (length text) then none else some text

-- Whether TLS is used, and what stands behind the scheme.
unfoldable pub scheme : Text → Option (Bool × Text)
scheme url = elim (after_prefix (codes "http://") url) [
  | some rest ↦ some (false, rest)
  | none ↦ elim (after_prefix (codes "https://") url) [
    | some rest ↦ some (true, rest)
    | none ↦ none
  ]
]

abbrev pub is_refused_byte : ℕ → Bool
is_refused_byte c = c == b'@' || (c == b'?' || c == b'#')

abbrev pub in_front : ℕ → Option (Text × Text) → Option (Text × Text)
in_front c none = none
in_front c (some (front, rest)) = some (c ∷ front, rest)

-- The authority, up to the first slash, and the rest.
unfoldable pub authority : Text → Option (Text × Text)
authority [] = some ([], [])
authority (c ∷ cs) =
    let more = authority cs in
    if c == b'/' then some ([], c ∷ cs) else if is_refused_byte c then none else in_front c more

-- What stands in front of the first colon, and behind it.
unfoldable pub split_colon : Text → Text × Option Text
split_colon [] = ([], none)
split_colon (c ∷ cs) =
    let (front, behind) = split_colon cs in if c == b':' then ([], some cs) else (c ∷ front, behind)

abbrev pub default_port : Bool → Text
default_port use_tls = if use_tls then codes "443" else codes "80"

-- The host and the port.
unfoldable pub host_and_port : Bool → Text × Option Text → Option (Text × Text)
host_and_port use_tls (front, none) = do
  host ← copy_url_part (host_max + 1) front
  some (host, default_port use_tls)
host_and_port use_tls (front, some behind) = do
  host ← copy_url_part (host_max + 1) front
  port ← copy_url_part (port_max_text + 1) behind
  some (host, port)

-- The slashes at the end are cut off.
unfoldable pub strip_slashes : Text → Text
strip_slashes [] = []
strip_slashes (c ∷ cs) = elim (strip_slashes cs) [
  | [] ↦ if c == b'/' then [] else c ∷ []
  | d ∷ ds ↦ c ∷ d ∷ ds
]

abbrev pub is_path_text : Text → Bool
is_path_text path =
    all (λ c. not (c == b'?' || c == b'#')) path && not (ltb base_path_max (length path))

abbrev pub path_or_root : Text → Text
path_or_root [] = codes "/"
path_or_root (c ∷ cs) = c ∷ cs

-- The client of the parts of the address, if they are valid.
unfoldable pub client_of : Bool → Text → Text → Text × Text → Text → Option Client
client_of use_tls username userkey (host, port) path = elim (parse_port (some port)) [
  | none ↦ none
  | some value ↦
      if not (is_path_text path)
        || not (validate (some host) (some port) (some (path_or_root (strip_slashes path))))
      then none
      else some (record {
        host = host;
        port = port;
        base_path = strip_slashes path;
        username = username;
        userkey = userkey;
        connect_host = [];
        tls = false;
        use_tls = use_tls;
        connect_ms = 20000;
        recv_ms = 10000;
      })
]

unfoldable pub client_from : Text → Text → Text → Option Client
client_from url username userkey = do
  (use_tls, behind) ← scheme url
  (front, path) ← authority behind
  parts ← host_and_port use_tls (split_colon front)
  client_of use_tls username userkey parts path

-- `cn_kosync_client_init`: the client, or none for CN_KOSYNC_INVALID.
unfoldable pub client_init : Option Text → Option Text → Option Text → Option Client
client_init (some url) (some username) (some userkey) =
    if not (header_text_ok (some username) username_max false)
      || not (header_text_ok (some userkey) userkey_max false)
    then none
    else client_from url username userkey
client_init url username userkey = none

-- The address that takes the place of the host in connections.
unfoldable pub connect_to : Client → Option Text → KosyncResult × Client
connect_to client none = (KosyncResult.ok, record client { tls = true })
connect_to client (some host) =
    if bounded_length (some host) host_max == 0
      || (ltb host_max (bounded_length (some host) host_max)
          || not (validate (some host) (some client.port) (some (codes "/"))))
    then (KosyncResult.invalid, client)
    else (KosyncResult.ok, record client { connect_host = host; tls = true })

-- `cn_kosync_client_set_tls`: of the TLS configuration, whether it names a file of certificates.
unfoldable pub client_set_tls : Client → Option Bool → Option Text → KosyncResult × Client
client_set_tls client none connect_host = (KosyncResult.invalid, client)
client_set_tls client (some ca_path) connect_host =
    if not (client.use_tls && ca_path)
    then (KosyncResult.invalid, client)
    else connect_to client connect_host
