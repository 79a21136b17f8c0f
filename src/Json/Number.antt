-- ===== src/Json/Number.antt =====
-- Numbers in the JSON reader of `src/sync/kosync.c`. A `double` that is finite has a sign and counts
-- units of 2 ^ -1074, the least one there is. `strtod`, `strtoll`, the conversion of a constant, and
-- the rounded product and sum of two values that are not below 0 are parameters.
use crossnook.Base.{
  codes, ltb, ◌/◌, ◌^◌, is_digit, ℕ, Bool, not, ◌&&◌, ◌||◌, Option, none, some, List, [], ◌∷◌, ◌++◌,
  ◌==◌, leb, if◌then◌else◌, length, Text, ◌>>=◌, ◌>>◌, require,
}
use crossnook.Json.Reader.{reader_space}

-- 1.0 in units.
abbrev pub unit : ℕ
unit = 2 ^ 1074

pub record Double : Type 0 where
  pub negative : Bool
  pub units : ℕ

-- `strtod` gives the value, and `strtoll` the value if it is not below 0; both give whether the
-- whole token was read with no error. `constant` is what the compiler makes of a constant.
pub record Libc : Type 0 where
  pub strtod : Text → Double × Bool
  pub constant : Text → ℕ
  pub product : ℕ → ℕ → ℕ
  pub sum : ℕ → ℕ → ℕ
  pub strtoll : Text → Option ℕ × Bool

-- `value < 0.0`
abbrev pub below_zero : Double → Bool
below_zero value = value.negative && not (value.units == 0)

-- `value > 1.0`
abbrev pub above_one : Double → Bool
above_one value = not value.negative && ltb unit value.units

-- The digits that stand first, and the rest.
unfoldable pub span_digits : List ℕ → Text × List ℕ
span_digits [] = ([], [])
span_digits (c ∷ input) =
    let (digits, rest) = span_digits input in
    if is_digit c then (c ∷ digits, rest) else ([], c ∷ input)

-- One digit at least.
unfoldable pub some_digits : List ℕ → Option (Text × List ℕ)
some_digits [] = none
some_digits (c ∷ input) = if is_digit c then some (span_digits (c ∷ input)) else none

unfoldable pub sign_part : List ℕ → Text × List ℕ
sign_part [] = ([], [])
sign_part (c ∷ input) = if c == b'-' then (c ∷ [], input) else ([], c ∷ input)

unfoldable pub integer_part : List ℕ → Option (Text × List ℕ)
integer_part [] = none
integer_part (c ∷ input) = if c == b'0' then some (c ∷ [], input) else some_digits (c ∷ input)

unfoldable pub fraction_part : List ℕ → Option (Text × List ℕ)
fraction_part [] = some ([], [])
fraction_part (c ∷ input) =
    if c == b'.'
    then (some_digits input >>= λ (digits, rest). some (c ∷ digits, rest))
    else some ([], c ∷ input)

unfoldable pub exponent_sign : List ℕ → Text × List ℕ
exponent_sign [] = ([], [])
exponent_sign (c ∷ input) = if c == b'+' || c == b'-' then (c ∷ [], input) else ([], c ∷ input)

unfoldable pub exponent_part : List ℕ → Option (Text × List ℕ)
exponent_part [] = some ([], [])
exponent_part (c ∷ input) =
    let (sign, digits_on) = exponent_sign input in
    if c == b'e' || c == b'E'
    then (some_digits digits_on >>= λ (digits, rest). some (c ∷ sign ++ digits, rest))
    else some ([], c ∷ input)

-- `number_token`: the token, if it fits, and what is left of the input.
unfoldable pub number_token : ℕ → List ℕ → Option (Text × List ℕ)
number_token cap input =
    let (sign, after_sign) = sign_part (reader_space input) in
    do
      (whole, after_whole) ← integer_part after_sign
      (fraction, after_fraction) ← fraction_part after_whole
      (exponent, rest) ← exponent_part after_fraction
      let token = sign ++ (whole ++ (fraction ++ exponent))
      require (not (leb cap (length token)))
      some (token, rest)

abbrev pub token_cap : ℕ
token_cap = 64

module _ (libc : Libc) where
  -- `(int)(value * 10000.0 + 0.000000001)` of a value that is not below 0.
  unfoldable pub scaled : ℕ → ℕ
  scaled value =
      libc.sum (libc.product value (libc.constant (codes "10000.0")))
        (libc.constant (codes "0.000000001"))
      / unit

  -- The checks of `reader_percentage` on the value. What is scaled is not below 0.
  unfoldable pub percentage_value : Text → Option ℕ
  percentage_value token =
      let (value, whole) = libc.strtod token in
      do
        require (whole && (not (below_zero value) && not (above_one value)))
        require (not (ltb 10000 (scaled value.units)))
        some (scaled value.units)

  unfoldable pub reader_percentage : List ℕ → Option (ℕ × List ℕ)
  reader_percentage input = do
    (token, rest) ← number_token token_cap input
    n ← percentage_value token
    some (n, rest)

  unfoldable pub reader_timestamp : List ℕ → Option (ℕ × List ℕ)
  reader_timestamp input = do
    (token, rest) ← number_token token_cap input
    let (value, whole) = libc.strtoll token
    require whole
    timestamp ← value
    some (timestamp, rest)
