-- ===== src/Json/Doubles.antt =====
-- The decimals of the ten-thousandths are read and scaled to the number they are of, with the
-- rounding of IEEE 754 doubles.
use crossnook.Base.{
  Bool-cases, inl, inr, ◌+◌, is_digit, ℕ, ◌-◌, ◌*◌, ◌/◌, ◌^◌, ◌≤◌, ◌≡◌, refl, ap, ◌∙◌, arith, Bool,
  true, false, not, ◌&&◌, some, [], ◌∷◌, ◌==◌, ltb, leb, if◌then◌else◌, length, Text, all, codes,
}
use crossnook.Json.Writer.{strip_zeros, four_digits, percentage_text}
use crossnook.Json.Percentages.{strip_zeros-all, some_left, length-strip_zeros, four_digits-all}
use crossnook.Json.Number.{unit, Libc, scaled, percentage_value}

-- The digits behind the point, the first of the given weight.
unfoldable pub decimal : ℕ → Text → ℕ
decimal weight [] = 0
decimal weight (d ∷ ds) = (d - b'0') * weight + decimal (weight / 10) ds

-- What a decimal of at most four places is in ten-thousandths.
abbrev pub decimal_value : Text → ℕ
decimal_value [] = 0
decimal_value (d ∷ []) = 10000 * (d - b'0')
decimal_value (d ∷ p ∷ ds) = 10000 * (d - b'0') + decimal 1000 ds

-- A digit, or a digit, a point, and one to four digits.
abbrev pub is_decimal : Text → Bool
is_decimal [] = false
is_decimal (d ∷ []) = is_digit d
is_decimal (d ∷ p ∷ ds) =
    is_digit d && (p == b'.' && (all is_digit ds && (not (length ds == 0) && leb (length ds) 4)))

-- Two numbers that differ by at most `error`.
abbrev pub IsWithin : ℕ → ℕ → ℕ → Type 0
IsWithin error m n = (m ≤ n + error) × (n ≤ m + error)

-- Rounding to the nearest double: the error is at most one part in 2 ^ 53, or half a unit. A
-- decimal counts ten-thousandths, so both sides are multiplied by 10000, and by 10 ^ 9 for the small
-- constant. 1.0 and 10000.0 are doubles themselves: rounding is exact on them and does not pass them.
pub record IsRounded (libc : Libc) : Type 0 where
  pub whole :
      (text : Text)
      → is_decimal text ≡ true
      → decimal_value text ≤ 10000
      → ((libc.strtod text).1 ≡ true)
        × ((libc.strtod text).0.negative ≡ false)
        × ((libc.strtod text).0.units ≤ unit)
  pub nearest :
      (text : Text)
      → is_decimal text ≡ true
      → decimal_value text ≤ 10000
      → IsWithin
          (decimal_value text * unit)
          ((libc.strtod text).0.units * 10000 * 2 ^ 53)
          (decimal_value text * unit * 2 ^ 53)
  pub ten_thousand : libc.constant (codes "10000.0") ≡ 10000 * unit
  pub billionth :
      IsWithin unit (libc.constant (codes "0.000000001") * 1000000000 * 2 ^ 53) (unit * 2 ^ 53)
  pub product_nearest :
      (m n : ℕ)
      → m ≤ unit
      → n ≤ 10000 * unit
      → IsWithin (m * n + unit * 2 ^ 52) (libc.product m n * unit * 2 ^ 53) (m * n * 2 ^ 53)
  pub sum_nearest :
      (m n : ℕ)
      → m ≤ 20000 * unit
      → n ≤ unit
      → IsWithin (m + n) (libc.sum m n * 2 ^ 53) ((m + n) * 2 ^ 53)

module _ (libc : Libc) (rounded : IsRounded libc) where
  product_scaled :
      (m : ℕ)
      → m ≤ unit
      → IsWithin
          (m * 10000 + 2 ^ 52)
          (libc.product m (libc.constant (codes "10000.0")) * 2 ^ 53)
          (m * 10000 * 2 ^ 53)
  product_scaled m h =
      let (above, below) = rounded.product_nearest m (10000 * unit) h (omega arith) in
      rw rounded.ten_thousand (omega (arith, above), omega (arith, below))

  scaled_nearest :
      (m n : ℕ)
      → n ≤ 10000
      → m ≤ unit
      → IsWithin (n * unit) (m * 10000 * 2 ^ 53) (n * unit * 2 ^ 53)
      → scaled libc m ≡ n
  unfolding scaled
  scaled_nearest m n h k near =
      let y = libc.product m (libc.constant (codes "10000.0")) in
      let small = libc.constant (codes "0.000000001") in
      let (y_above, y_below) = product_scaled m k in
      let (c_above, c_below) = rounded.billionth in
      let (z_above, z_below) =
        rounded.sum_nearest y small (omega (arith, y_above)) (omega (arith, c_above)) in
      omega (arith, y_above, y_below, c_above, c_below, z_above, z_below, near)

  -- With `strtod`, the constants, the product and the sum rounded to the nearest double, a
  -- decimal of a digit and at most four places that is at most 1 passes the checks of the reader
  -- and is scaled to exactly its number of ten-thousandths.
  pub percentage_value-decimal_value :
      (text : Text)
      → is_decimal text ≡ true
      → decimal_value text ≤ 10000
      → percentage_value libc text ≡ some (decimal_value text)
  unfolding percentage_value
  percentage_value-decimal_value text d h =
      let (whole, plus, low) = rounded.whole text d h in
      let value =
        scaled_nearest (libc.strtod text).0.units (decimal_value text) h low
          (rounded.nearest text d h) in
      let in_place : ltb unit (libc.strtod text).0.units ≡ false = ground arith in
      let in_range : ltb 10000 (decimal_value text) ≡ false = ground arith in
      rw (whole, plus, in_place, value, in_range) refl

decimal_digit :
    (weight d : ℕ) (ds es : Text)
    → decimal (weight / 10) es ≡ decimal (weight / 10) ds
    → decimal weight (elim es [ [] ↦ if d == b'0' then [] else d ∷ [] | e ∷ rest ↦ d ∷ e ∷ rest ])
      ≡ (d - b'0') * weight + decimal (weight / 10) ds
unfolding decimal
decimal_digit weight d ds [] h = rw⁻¹ h (ground arith)
decimal_digit weight d ds (e ∷ es) h = rw⁻¹ h refl

decimal-strip_zeros : (weight : ℕ) (ds : Text) → decimal weight (strip_zeros ds) ≡ decimal weight ds
unfolding decimal strip_zeros
decimal-strip_zeros weight [] = refl
decimal-strip_zeros weight (d ∷ ds) =
    decimal_digit weight d ds (strip_zeros ds) (decimal-strip_zeros (weight / 10) ds)

-- What is written of a number denotes that number.
pub decimal_value-percentage_text : (n : ℕ) → n ≤ 10000 → decimal_value (percentage_text n) ≡ n
unfolding percentage_text decimal
decimal_value-percentage_text n h = ground (arith, decimal-strip_zeros 1000 (four_digits n))

pub is_decimal-percentage_text : (n : ℕ) → n ≤ 10000 → is_decimal (percentage_text n) ≡ true
unfolding percentage_text
is_decimal-percentage_text n h = elim (Bool-cases (n == 10000)) [
  | inl one ↦ rw one refl
  | inr part ↦ elim (Bool-cases (n == 0)) [
    | inl none_read ↦ rw (part, none_read) refl
    | inr some_read ↦
        rw (part, some_read)
          (let digits = strip_zeros-all (four_digits n) (four_digits-all n) in
            let some_digit = some_left n (ground arith) (ground arith) in
            let few = length-strip_zeros (four_digits n) in
            let a : (length (strip_zeros (four_digits n)) == 0) ≡ false = ground arith in
            let b : leb (length (strip_zeros (four_digits n))) 4 ≡ true = ground arith in
            rw (digits, a, b) refl)
  ]
]

-- So it is read back.
pub percentage_value-percentage_text :
    (libc : Libc) (n : ℕ)
    → IsRounded libc
    → n ≤ 10000
    → percentage_value libc (percentage_text n) ≡ some n
percentage_value-percentage_text libc n rounded h =
    let value = decimal_value-percentage_text n h in
    percentage_value-decimal_value libc rounded (percentage_text n) (is_decimal-percentage_text n h)
      (omega (arith, value))
    ∙ ap some value
