-- ===== src/Utf8/Header.antt =====
-- `header_text_ok` of `src/sync/kosync.c`, and what it makes of encoded text.
use mathlib.Core.Path.{ap₂}
use crossnook.Base.{
  IsBytes, ℕ, zero, suc, ◌+◌, ◌≤◌, ◌<◌, ◌≡◌, refl, ap, ◌∙◌, sym, arith, Bool, true, false, not,
  ◌&&◌, ◌||◌, Option, none, some, [], ◌∷◌, ◌++◌, ◌==◌, ltb, leb, if◌then◌else◌, length, Text, all,
  all-append, Bool-cases, inl, inr, ◌↔◌,
}
use crossnook.Utf8.Encode.{encode, encode-encode_sums, is_scalar}
use crossnook.Utf8.Scan.{IsEncoded, done, more}
use crossnook.Utf8.Agree.{any_value, utf8_valid-IsEncoded}
use crossnook.Utf8.Kosync
use crossnook.Utf8.DeviceName
use crossnook.Utf8.DeviceName.{is_printable}

-- `bounded_length(text, maximum)` of a text: the rounds of its loop, `maximum + 1` at most.
unfoldable pub bounded_count : ℕ → Text → ℕ
bounded_count zero text = 0
bounded_count (suc left) [] = 0
bounded_count (suc left) (c ∷ cs) = suc (bounded_count left cs)

abbrev pub bounded_length : Option Text → ℕ → ℕ
bounded_length none maximum = maximum + 1
bounded_length (some text) maximum = bounded_count (maximum + 1) text

abbrev pub is_header_byte : ℕ → Bool
is_header_byte c = not (ltb c 0x20 || c == 0x7f)

unfoldable pub header_text_ok : Option Text → ℕ → Bool → Bool
header_text_ok none maximum allow_empty = false
header_text_ok (some text) maximum allow_empty =
    let size = bounded_length (some text) maximum in
    if ltb maximum size || (not allow_empty && size == 0) then false else all is_header_byte text

pub bounded_count_fits :
    (left : ℕ) (text : Text) → length text ≤ left → bounded_count left text ≡ length text
unfolding bounded_count
bounded_count_fits zero [] h = refl
bounded_count_fits zero (c ∷ cs) h = absurd (omega arith)
bounded_count_fits (suc left) [] h = refl
bounded_count_fits (suc left) (c ∷ cs) h = ap suc (bounded_count_fits left cs (omega arith))

pub bounded_count_full :
    (left : ℕ) (text : Text) → left ≤ length text → bounded_count left text ≡ left
unfolding bounded_count
bounded_count_full zero text h = refl
bounded_count_full (suc left) [] h = absurd (omega arith)
bounded_count_full (suc left) (c ∷ cs) h = ap suc (bounded_count_full left cs (omega arith))

-- A text that may not be empty passes exactly when its length is from 1 to the maximum and it
-- holds no control byte.
pub header_text_ok_iff :
    (text : Text) (maximum : ℕ)
    → (header_text_ok (some text) maximum false ≡ true)
      ↔ ((0 < length text) × (length text ≤ maximum) × (all is_header_byte text ≡ true))
unfolding header_text_ok
header_text_ok_iff text maximum = elim (Bool-cases (leb (length text) maximum)) [
  | inl fits ↦
      let size = bounded_count_fits (maximum + 1) text (ground arith) in rw size (ground arith)
  | inr long ↦
      let size = bounded_count_full (maximum + 1) text (ground arith) in rw size (ground arith)
]

-- A control character is one byte of the text; the bytes of other values pass.
all-encode :
    (value : ℕ) → is_scalar value ≡ true → all is_header_byte (encode value) ≡ is_header_byte value
all-encode value h = rw (encode-encode_sums value (ground arith)) (ground arith)

all-stands :
    (value : ℕ) (rest : Text) {text : Text}
    → is_scalar value ≡ true
    → text ≡ encode value ++ rest
    → all is_header_byte text ≡ (is_header_byte value && all is_header_byte rest)
all-stands value rest scalar stands =
    ap (all is_header_byte) stands
    ∙ all-append is_header_byte (encode value) rest
    ∙ ap (λ b. b && all is_header_byte rest) (all-encode value scalar)

IsEncoded→bytes_pass :
    {text : Text}
    → IsEncoded is_header_byte text
    → IsEncoded any_value text × (all is_header_byte text ≡ true)
IsEncoded→bytes_pass done = (done, refl)
IsEncoded→bytes_pass (more value scalar passes stands rest) =
    let (enc, pass) = IsEncoded→bytes_pass rest in
    (more value scalar refl stands enc, all-stands value _ scalar stands ∙ ap₂ ◌&&◌ passes pass)

both : (a b : Bool) → (a && b) ≡ true → (a ≡ true) × (b ≡ true)
both a b h = ground arith

bytes_pass→IsEncoded :
    {text : Text}
    → IsEncoded any_value text
    → all is_header_byte text ≡ true
    → IsEncoded is_header_byte text
bytes_pass→IsEncoded done h = done
bytes_pass→IsEncoded (more value scalar passes stands rest) h =
    let (here, later) = both _ _ (sym (all-stands value _ scalar stands) ∙ h) in
    more value scalar here stands (bytes_pass→IsEncoded rest later)

-- A text of bytes passes the header rule and the UTF-8 validator together exactly when it is not
-- empty, within the maximum, and a concatenation of encoded scalar values none of which is an
-- ASCII control character.
pub header_and_utf8 :
    (text : Text) (maximum : ℕ)
    → IsBytes text
    → ((header_text_ok (some text) maximum false ≡ true) × (Kosync.utf8_valid text ≡ true))
      ↔ ((0 < length text) × (length text ≤ maximum) × IsEncoded is_header_byte text)
header_and_utf8 text maximum b = (
  λ (header, valid).
      let (some_byte, fits, pass) = (header_text_ok_iff text maximum).0 header in
      (some_byte, fits, bytes_pass→IsEncoded ((utf8_valid-IsEncoded text b).0 valid) pass),
  λ (some_byte, fits, enc).
      let (plain, pass) = IsEncoded→bytes_pass enc in
      (
        (header_text_ok_iff text maximum).1 (some_byte, fits, pass),
        (utf8_valid-IsEncoded text b).1 plain,
      ),
)

printable-header : {text : Text} → IsEncoded is_printable text → IsEncoded is_header_byte text
printable-header done = done
printable-header (more value scalar passes stands rest) =
    more value scalar (ground arith) stands (printable-header rest)

-- A device name of 1 to 255 bytes that the settings accept passes the header rule and the UTF-8
-- validator of the protocol code.
pub device_name-header_text_ok :
    (name : Text)
    → IsBytes name
    → 0 < length name
    → length name ≤ 255
    → DeviceName.device_name_valid name ≡ true
    → (header_text_ok (some name) 255 false ≡ true) × (Kosync.utf8_valid name ≡ true)
device_name-header_text_ok name b some_byte fits valid =
    (header_and_utf8 name 255 b).1
      (some_byte, fits, printable-header ((DeviceName.device_name_valid-IsEncoded name b).0 valid))
