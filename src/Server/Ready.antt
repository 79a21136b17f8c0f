-- ===== src/Server/Ready.antt =====
-- The clients that `cn_kosync_client_init` and `cn_kosync_client_set_tls` of `src/sync/kosync.c` make.
use mathlib.Core.Path.{subst}
use crossnook.Base.{
  ℕ, ◌≤◌, ◌≡◌, ◌⊎◌, inl, inr, refl, arith, Bool, true, false, not, ◌&&◌, ◌||◌, Option, none, some,
  [], ◌∷◌, ◌==◌, ltb, length, Text, codes, Bool-cases, if_both, some-injective, Option-cases, ◌>>=◌,
}
use crossnook.Sync.Types.{KosyncResult}
use crossnook.Utf8.Header.{header_text_ok, bounded_length}
use crossnook.Http.Fields.{host_max, parse_port, host_text_ok, path_text_ok, validate}
use crossnook.Http.Bounds.{validate_lem}
use crossnook.Server.Url.{
  Client, username_max, userkey_max, base_path_max, is_path_text, path_or_root, strip_slashes,
  client_of, client_from, client_init, connect_to, client_set_tls, scheme, authority, split_colon,
  host_and_port,
}

-- What a client must satisfy for its requests to be well formed.
pub record IsReady (client : Client) : Type 0 where
  pub port_value : ℕ
  pub good_host : host_text_ok (some client.host) ≡ true
  pub good_port : parse_port (some client.port) ≡ some port_value
  pub good_path : path_text_ok (path_or_root client.base_path) ≡ true
  pub short_path : length client.base_path ≤ base_path_max
  pub good_username : header_text_ok (some client.username) username_max false ≡ true
  pub good_userkey : header_text_ok (some client.userkey) userkey_max false ≡ true
  pub good_connect_host :
      (client.connect_host ≡ []) ⊎ (host_text_ok (some client.connect_host) ≡ true)

length-strip_slashes : (path : Text) → length (strip_slashes path) ≤ length path
unfolding strip_slashes
length-strip_slashes [] = omega arith
length-strip_slashes (c ∷ cs) = ground (arith, length-strip_slashes cs)

client_of-IsReady :
    (use_tls : Bool) (username userkey host port path : Text) (client : Client)
    → header_text_ok (some username) username_max false ≡ true
    → header_text_ok (some userkey) userkey_max false ≡ true
    → client_of use_tls username userkey (host, port) path ≡ some client
    → IsReady client
unfolding client_of
client_of-IsReady use_tls username userkey host port path client u k e =
    elim (Option-cases (parse_port (some port))) [
      | inl refused ↦ absurd (ground arith)
      | inr (value, read) ↦
          elim (Bool-cases (
            not (is_path_text path)
            || not (validate (some host) (some port) (some (path_or_root (strip_slashes path)))))) [
              | inl bad ↦ absurd (ground arith)
              | inr good ↦
                  let (value', host_ok, port_ok, path_ok) =
                    validate_lem host port (path_or_root (strip_slashes path)) (ground arith) in
                  let made = some-injective (rw (read, good, client_of) at e) in
                  subst IsReady made (record {
                    port_value = value;
                    good_host = host_ok;
                    good_port = read;
                    good_path = path_ok;
                    short_path = ground (arith, length-strip_slashes path);
                    good_username = u;
                    good_userkey = k;
                    good_connect_host = inl refl;
                  })
            ]
    ]

-- A step that gave something, apart from the step.
split_bind {ℓ κ} :
    {A : Type ℓ} {B : Type κ} (m : Option A) (f : A → Option B) (b : B)
    → (m >>= f) ≡ some b
    → (a : A) × (m ≡ some a) × (f a ≡ some b)
split_bind none f b h = absurd (ground arith)
split_bind (some a) f b h = (a, refl, h)

client_from-IsReady :
    (url username userkey : Text) (client : Client)
    → header_text_ok (some username) username_max false ≡ true
    → header_text_ok (some userkey) userkey_max false ≡ true
    → client_from url username userkey ≡ some client
    → IsReady client
unfolding client_from
client_from-IsReady url username userkey client u k h =
    let ((use_tls, behind), schemed, h1) = split_bind (scheme url) _ client h in
    let ((front, path), split, h2) = split_bind (authority behind) _ client h1 in
    let ((host, port), copied, h3) =
      split_bind (host_and_port use_tls (split_colon front)) _ client h2 in
    client_of-IsReady use_tls username userkey host port path client u k h3

-- The address that a connection is made to, and TLS.
bound_to :
    (client : Client) (connect_host : Text)
    → IsReady client
    → (connect_host ≡ []) ⊎ (host_text_ok (some connect_host) ≡ true)
    → IsReady (record client { connect_host = connect_host; tls = true })
bound_to client connect_host r h = record {
  port_value = r.port_value;
  good_host = r.good_host;
  good_port = r.good_port;
  good_path = r.good_path;
  short_path = r.short_path;
  good_username = r.good_username;
  good_userkey = r.good_userkey;
  good_connect_host = h;
}

-- Every client that is made is ready: its host, port, path and names pass the checks on requests.
pub client_init-IsReady :
    (url username userkey : Option Text) (client : Client)
    → client_init url username userkey ≡ some client
    → IsReady client
unfolding client_init
client_init-IsReady (some url) (some username) (some userkey) client h =
    elim (Bool-cases (header_text_ok (some username) username_max false)) [
      | inr bad ↦ absurd (ground arith)
      | inl u ↦ elim (Bool-cases (header_text_ok (some userkey) userkey_max false)) [
        | inr bad ↦ absurd (ground arith)
        | inl k ↦ client_from-IsReady url username userkey client u k (rw (u, k) at h)
      ]
    ]
client_init-IsReady url username userkey client h = absurd (ground arith)

connect_to-IsReady :
    (client : Client) (connect_host : Option Text)
    → IsReady client
    → IsReady (connect_to client connect_host).1
unfolding connect_to
connect_to-IsReady client none r = bound_to client client.connect_host r r.good_connect_host
connect_to-IsReady client (some host) r =
    if_both (λ (result : KosyncResult × Client). IsReady result.1)
      (bounded_length (some host) host_max == 0
        || (ltb host_max (bounded_length (some host) host_max)
            || not (validate (some host) (some client.port) (some (codes "/")))))
      (λ h. r)
      λ h.
        let (value, host_ok, port_ok, path_ok) =
          validate_lem host client.port (codes "/") (ground arith) in
        bound_to client host r (inr host_ok)

-- Setting TLS and the address to connect to keeps a client ready, whether it succeeds or not.
pub client_set_tls-IsReady :
    (client : Client) (ca_path : Option Bool) (connect_host : Option Text)
    → IsReady client
    → IsReady (client_set_tls client ca_path connect_host).1
unfolding client_set_tls
client_set_tls-IsReady client none connect_host r = r
client_set_tls-IsReady client (some ca_path) connect_host r =
    if_both (λ (result : KosyncResult × Client). IsReady result.1) (not (client.use_tls && ca_path))
      (λ h. r) λ h. connect_to-IsReady client connect_host r
