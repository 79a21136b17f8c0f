-- ===== src/Utf8/Encode.antt =====
-- The encoder of `src/sync/kosync.c` (`append_codepoint`) against the decoding of one value.
use Prim.Native.Nat.{bit_and, bit_or}
use crossnook.Base.{
  IsBytes, ℕ, ◌+◌, ◌/◌, ◌%◌, ◌≤◌, ◌<◌, ◌≡◌, ap, ◌∙◌, sym, arith, Bool, true, false, not, ◌||◌,
  Option, none, some, List, [], ◌∷◌, ◌++◌, ◌==◌, ltb, if◌then◌else◌, ◌>>>◌, and_63,
}
use crossnook.Utf8.Bytes.{or_0x80, or_0xc0, or_0xe0, or_0xf0}
use crossnook.Utf8.Reference.{within, decode_two, decode_three, decode_four, decode}

-- `encoded[0..count)` for a value that the code accepts.
unfoldable pub encode : ℕ → List ℕ
encode value =
    if ltb value 0x80
    then value ∷ []
    else if ltb value 0x800
    then bit_or 0xc0 (value >>> 6) ∷ bit_or 0x80 (bit_and value 0x3f) ∷ []
    else if ltb value 0x10000
    then bit_or 0xe0 (value >>> 12)
      ∷ bit_or 0x80 (bit_and (value >>> 6) 0x3f)
      ∷ bit_or 0x80 (bit_and value 0x3f)
      ∷ []
    else bit_or 0xf0 (value >>> 18)
      ∷ bit_or 0x80 (bit_and (value >>> 12) 0x3f)
      ∷ bit_or 0x80 (bit_and (value >>> 6) 0x3f)
      ∷ bit_or 0x80 (bit_and value 0x3f)
      ∷ []

-- The test that `append_codepoint` makes first.
abbrev pub is_scalar : ℕ → Bool
is_scalar value = not (value == 0 || (ltb 0x10ffff value || within 0xd800 0xdfff value))

-- The encoding as sums.
abbrev pub encode_sums : ℕ → List ℕ
encode_sums value =
    if ltb value 0x80
    then value ∷ []
    else if ltb value 0x800
    then (0xc0 + value / 64) ∷ (0x80 + value % 64) ∷ []
    else if ltb value 0x10000
    then (0xe0 + value / 4096) ∷ (0x80 + value / 64 % 64) ∷ (0x80 + value % 64) ∷ []
    else (0xf0 + value / 262144)
      ∷ (0x80 + value / 4096 % 64)
      ∷ (0x80 + value / 64 % 64)
      ∷ (0x80 + value % 64)
      ∷ []

pub encode-encode_sums : (value : ℕ) → value ≤ 0x10ffff → encode value ≡ encode_sums value
unfolding encode
encode-encode_sums value h =
    rw
      (
        and_63 value,
        and_63 (value / 64),
        and_63 (value / 4096),
        or_0x80 (value % 64) (omega arith),
        or_0x80 (value / 64 % 64) (omega arith),
        or_0x80 (value / 4096 % 64) (omega arith),
      )
      (ground (arith, or_0xc0 (value / 64), or_0xe0 (value / 4096), or_0xf0 (value / 262144)))

-- The first value of a text that is not empty, with what follows it.
abbrev pub decode_front : List ℕ → Option (ℕ × List ℕ)
decode_front [] = none
decode_front (c ∷ text) = decode c text

read_one : (v : ℕ) (rest : List ℕ) → 0 < v → v < 0x80 → decode v rest ≡ some (v, rest)
unfolding decode
read_one v rest lo hi = ground arith

read_two :
    (v : ℕ) (rest : List ℕ)
    → 0x80 ≤ v
    → v < 0x800
    → decode (0xc0 + v / 64) ((0x80 + v % 64) ∷ rest) ≡ some (v, rest)
unfolding decode decode_two
read_two v rest lo hi = ground arith

read_three :
    (v : ℕ) (rest : List ℕ)
    → 0x800 ≤ v
    → v < 0x10000
    → within 0xd800 0xdfff v ≡ false
    → decode (0xe0 + v / 4096) ((0x80 + v / 64 % 64) ∷ (0x80 + v % 64) ∷ rest) ≡ some (v, rest)
unfolding decode decode_three
read_three v rest lo hi h = ground arith

read_four :
    (v : ℕ) (rest : List ℕ)
    → 0x10000 ≤ v
    → v ≤ 0x10ffff
    → decode
        (0xf0 + v / 262144)
        ((0x80 + v / 4096 % 64) ∷ (0x80 + v / 64 % 64) ∷ (0x80 + v % 64) ∷ rest)
      ≡ some (v, rest)
unfolding decode decode_four
read_four v rest lo hi = ground arith

-- A scalar value other than NUL that the protocol code encodes is read back from the front of the
-- text, whatever follows it.
pub decode_front-encode :
    (value : ℕ) (rest : List ℕ)
    → is_scalar value ≡ true
    → decode_front (encode value ++ rest) ≡ some (value, rest)
decode_front-encode value rest h = rw (encode-encode_sums value (ground arith)) (
    ground (
      arith,
      read_one value rest,
      read_two value rest,
      read_three value rest,
      read_four value rest,
    ))

abbrev Stands : ℕ → List ℕ → ℕ → List ℕ → Type 0
Stands c text value rest = (is_scalar value ≡ true) × (c ∷ text ≡ encode_sums value ++ rest)

found_two :
    (c : ℕ) (text : List ℕ) {value : ℕ} {rest : List ℕ}
    → 0xc2 ≤ c
    → c ≤ 0xdf
    → decode_two c text ≡ some (value, rest)
    → Stands c text value rest
unfolding decode_two
found_two c [] lo hi e = cc
found_two c (x ∷ text) lo hi e = ground arith

found_three :
    (c : ℕ) (text : List ℕ) {value : ℕ} {rest : List ℕ}
    → 0xe0 ≤ c
    → c ≤ 0xef
    → decode_three c text ≡ some (value, rest)
    → Stands c text value rest
unfolding decode_three
found_three c [] lo hi e = cc
found_three c (x ∷ []) lo hi e = cc
found_three c (x ∷ y ∷ text) lo hi e = ground arith

found_four :
    (c : ℕ) (text : List ℕ) {value : ℕ} {rest : List ℕ}
    → 0xf0 ≤ c
    → c ≤ 0xf4
    → decode_four c text ≡ some (value, rest)
    → Stands c text value rest
unfolding decode_four
found_four c [] lo hi e = cc
found_four c (x ∷ []) lo hi e = cc
found_four c (x ∷ y ∷ []) lo hi e = cc
found_four c (x ∷ y ∷ z ∷ text) lo hi e = ground arith

-- What is read is a scalar value other than NUL, and its encoding stood in front of the rest.
pub decode-encode :
    (c : ℕ) (text : List ℕ) {value : ℕ} {rest : List ℕ}
    → c < 256
    → IsBytes text
    → decode c text ≡ some (value, rest)
    → (is_scalar value ≡ true) × (c ∷ text ≡ encode value ++ rest)
decode-encode c text {value} {rest} h b e =
    let (ok, stands) = sums in
    (ok, stands ∙ ap (λ t. t ++ rest) (sym (encode-encode_sums value (ground arith))))
  where
    sums : Stands c text value rest
    sums =
        unfold decode in
        ground (
          arith,
          found_two c text {value = value} {rest = rest},
          found_three c text {value = value} {rest = rest},
          found_four c text {value = value} {rest = rest},
        )
