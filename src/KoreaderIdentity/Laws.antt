-- ===== src/KoreaderIdentity/Laws.antt =====
-- The text of an identity: 32 lower-case hexadecimal digits.
use mathlib.Core.Path.{ap₂}
use crossnook.Base.{
  ◌+◌, ◌-◌, ◌==◌, ==_iff, leb, if◌then◌else◌, Text, ◌∙◌, ℕ, zero, suc, ◌*◌, ◌/◌, ◌%◌, ◌<◌, ◌≡◌,
  refl, arith, true, ◌&&◌, some, List, [], ◌∷◌, ◌++◌, length, get_or, take-append_le, hex_digits,
  IsBytes, is_lower_hex, all, each_under, under-holds,
}
use crossnook.Md5.{Context, State, digest_of, write_u32le, final}
use crossnook.KoreaderIdentity.{hex_text, digest_to_text, document_id_text}

pub hex_digit-is_lower_hex : (n : ℕ) → n < 16 → is_lower_hex (get_or hex_digits n 0) ≡ true
unfolding each_under
hex_digit-is_lower_hex n h = under-holds 16 (λ k. is_lower_hex (get_or hex_digits k 0)) n refl h

pub hex_text-is_lower_hex :
    (bytes : List ℕ) → IsBytes bytes → all is_lower_hex (hex_text bytes) ≡ true
unfolding hex_text
hex_text-is_lower_hex [] h = refl
hex_text-is_lower_hex (x ∷ xs) h =
    ap₂ ◌&&◌ (hex_digit-is_lower_hex (x / 16) (omega arith))
      (ap₂ ◌&&◌ (hex_digit-is_lower_hex (x % 16) (omega arith)) (hex_text-is_lower_hex xs h.1))

pub length-hex_text : (bytes : List ℕ) → length (hex_text bytes) ≡ 2 * length bytes
unfolding hex_text
length-hex_text [] = omega arith
length-hex_text (x ∷ xs) = omega (arith, length-hex_text xs)

pub digest_of-IsBytes : (s : State) → IsBytes (digest_of s) × (length (digest_of s) ≡ 16)
unfolding digest_of write_u32le
digest_of-IsBytes s = omega arith

get_or-append : (n : ℕ) (xs : List ℕ) (y d : ℕ) → length xs ≡ n → get_or (xs ++ y ∷ []) n d ≡ y
get_or-append zero [] y d h = refl
get_or-append zero (x ∷ xs) y d h = absurd (omega arith)
get_or-append (suc n) [] y d h = absurd (omega arith)
get_or-append (suc n) (x ∷ xs) y d h = get_or-append n xs y d (omega arith)

-- The value of a lower-case hexadecimal digit.
abbrev pub digit_value : ℕ → ℕ
digit_value c = if leb c b'9' then c - b'0' else c - b'a' + 10

-- The bytes that pairs of digits stand for, the high one first.
abbrev pub read_hex : Text → List ℕ
read_hex (high ∷ low ∷ rest) = (16 * digit_value high + digit_value low) ∷ read_hex rest
read_hex _ = []

digit_value-hex_digit : (n : ℕ) → n < 16 → digit_value (get_or hex_digits n 0) ≡ n
unfolding each_under
digit_value-hex_digit n h =
    (==_iff _ _).0 (under-holds 16 (λ k. digit_value (get_or hex_digits k 0) == k) n refl h)

read_hex-hex_text : (bytes : List ℕ) → IsBytes bytes → read_hex (hex_text bytes) ≡ bytes
unfolding hex_text
read_hex-hex_text [] h = refl
read_hex-hex_text (x ∷ xs) h =
    ap₂ ◌∷◌
      (ap₂ (λ high low. 16 * high + low) (digit_value-hex_digit (x / 16) (omega arith))
          (digit_value-hex_digit (x % 16) (omega arith))
        ∙ omega arith)
      (read_hex-hex_text xs h.1)

pub identity_text :
    (digest : List ℕ)
    → IsBytes digest
    → length digest ≡ 16
    → document_id_text (some (digest_to_text digest)) ≡ some (hex_text digest)
unfolding document_id_text digest_to_text
identity_text digest h n =
    let size : length (hex_text digest) ≡ 32 = omega (arith, length-hex_text digest) in
    let front = take-append_le 32 (hex_text digest) (0 ∷ []) size in
    let end = get_or-append 32 (hex_text digest) 0 1 size in
    rw (end, front, hex_text-is_lower_hex digest h)

-- Every digest of 16 bytes gives an identity that has a text of lower-case hexadecimal digits,
-- and reading the digits in pairs, the high one first, gives the digest back
pub document_id_text-digest_to_text :
    (digest : List ℕ)
    → IsBytes digest
    → length digest ≡ 16
    → (text : Text) × (document_id_text (some (digest_to_text digest)) ≡ some text)
      × (all is_lower_hex text ≡ true)
      × (read_hex text ≡ digest)
document_id_text-digest_to_text digest h n = (
  hex_text digest,
  identity_text digest h n,
  hex_text-is_lower_hex digest h,
  read_hex-hex_text digest h,
)

pub final-IsBytes : (context : Context) → IsBytes (final context) × (length (final context) ≡ 16)
unfolding final
final-IsBytes context = digest_of-IsBytes _
