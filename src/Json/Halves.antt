-- ===== src/Json/Halves.antt =====
-- A code point that is written as `\u` and four digits, or as two halves, is read as it was.
use crossnook.Base.{
  ℕ, suc, ◌+◌, ◌-◌, ◌*◌, ◌/◌, ◌%◌, ◌≤◌, ◌<◌, ◌≡◌, refl, ap, ◌∙◌, arith, Bool, true, false, none,
  some, List, [], ◌∷◌, ◌++◌, ◌==◌, ltb, leb, ◌&&◌, if◌then◌else◌, length, get_or, hex_digits, Text,
  each_under, under-holds, Bool-cases, inl, inr, or_shifted, ltb→lt,
}
use crossnook.Utf8.Encode.{is_scalar}
use crossnook.Json.Reader.{
  first_is, hex_value, hex_digits_from, reader_hex4, low_half, escape_piece, string_piece,
  codepoint,
}

abbrev pub hex_digit : ℕ → ℕ
hex_digit n = get_or hex_digits n 0

-- Four digits, behind `\u`.
abbrev pub escape_unit : ℕ → Text
escape_unit n =
    0x5c
    ∷ b'u'
    ∷ hex_digit (n / 4096)
    ∷ hex_digit (n / 256 % 16)
    ∷ hex_digit (n / 16 % 16)
    ∷ hex_digit (n % 16)
    ∷ []

-- One escape, or the two halves of a pair.
unfoldable pub escape_point : ℕ → Text
escape_point value =
    if ltb value 0x10000
    then escape_unit value
    else escape_unit (0xd800 + (value - 0x10000) / 1024)
      ++ escape_unit (0xdc00 + (value - 0x10000) % 1024)

is_value : ℕ → Bool
is_value n = elim (hex_value (hex_digit n)) [ none ↦ false | some d ↦ d == n ]

all_values : each_under 16 is_value ≡ true
unfolding each_under is_value hex_value
all_values = refl

hex_value-hex_digit : (n : ℕ) → n < 16 → hex_value (hex_digit n) ≡ some n
unfolding is_value
hex_value-hex_digit n h = ground (arith, under-holds 16 is_value n all_values h)

-- A digit that is read.
digit_read :
    (left parsed d : ℕ) (input : List ℕ)
    → d < 16
    → hex_digits_from (suc left) parsed (hex_digit d ∷ input)
      ≡ hex_digits_from left (parsed * 16 + d) input
unfolding hex_digits_from
digit_read left parsed d input h =
    rw (hex_value-hex_digit d h)
      (ap (λ value. hex_digits_from left value input) (or_shifted 4 parsed d (omega arith)))

reader_hex4-digits :
    (a b c d : ℕ) (tail : List ℕ)
    → a < 16
    → b < 16
    → c < 16
    → d < 16
    → reader_hex4 (hex_digit a ∷ hex_digit b ∷ hex_digit c ∷ hex_digit d ∷ tail)
      ≡ some ((((0 * 16 + a) * 16 + b) * 16 + c) * 16 + d, tail)
unfolding reader_hex4
reader_hex4-digits a b c d tail ha hb hc hd =
    let fits : ltb (suc (suc (suc (suc (length tail))))) 4 ≡ false = ground arith in
    rw fits (
      digit_read 3 0 a (hex_digit b ∷ hex_digit c ∷ hex_digit d ∷ tail) ha
      ∙ digit_read 2 (0 * 16 + a) b (hex_digit c ∷ hex_digit d ∷ tail) hb
      ∙ digit_read 1 ((0 * 16 + a) * 16 + b) c (hex_digit d ∷ tail) hc
      ∙ digit_read 0 (((0 * 16 + a) * 16 + b) * 16 + c) d tail hd
      ∙ (unfold hex_digits_from in refl))

reader_hex4-unit :
    (n : ℕ) (tail : List ℕ)
    → n < 65536
    → reader_hex4 (
        hex_digit (n / 4096)
        ∷ hex_digit (n / 256 % 16)
        ∷ hex_digit (n / 16 % 16)
        ∷ hex_digit (n % 16)
        ∷ tail)
      ≡ some (n, tail)
reader_hex4-unit n tail h =
    reader_hex4-digits (n / 4096) (n / 256 % 16) (n / 16 % 16) (n % 16) tail (omega arith)
      (omega arith) (omega arith) (omega arith)
    ∙ ap (λ x. some (x, tail)) (omega arith)

low_half_read :
    (high low : ℕ) (tail : List ℕ)
    → 0xdc00 ≤ low
    → low ≤ 0xdfff
    → low_half high (escape_unit low ++ tail)
      ≡ some (codepoint (0x10000 + (high - 0xd800) * 1024 + (low - 0xdc00)), tail)
unfolding low_half first_is
low_half_read high low tail lo hi = rw (reader_hex4-unit low tail (omega arith)) (ground arith)

-- A round of the loop reads the escapes of a code point.
pub escape_point_read :
    (value : ℕ) (tail : List ℕ)
    → is_scalar value ≡ true
    → (rest : List ℕ) × (escape_point value ++ tail ≡ 0x5c ∷ rest)
      × (string_piece 0x5c rest ≡ some (codepoint value, tail))
unfolding escape_point string_piece escape_piece
escape_point_read value tail scalar = elim (Bool-cases (ltb value 0x10000)) [
  | inl short ↦
      rw short
        (_, refl, rw (reader_hex4-unit value tail (omega (arith, ltb→lt _ _ short))) (ground arith))
  | inr pair ↦ rw pair (
    _,
    refl,
    rw (reader_hex4-unit (0xd800 + (value - 0x10000) / 1024) _ (ground arith)) (
        let high : (leb 0xd800 (0xd800 + (value - 0x10000) / 1024)
              && leb (0xd800 + (value - 0x10000) / 1024) 0xdbff)
            ≡ true =
          ground arith in
        rw high (
          low_half_read (0xd800 + (value - 0x10000) / 1024) (0xdc00 + (value - 0x10000) % 1024) tail
            (omega arith) (omega arith)
          ∙ ap (λ x. some (codepoint x, tail)) (ground arith))),
  )
]
