-- ===== src/Json/Percentages.antt =====
-- A percentage that was written is read back as the same token.
use crossnook.Base.{
  is_digit, ◌⊎◌, ℕ, ◌≤◌, ◌<◌, ◌≡◌, refl, arith, Bool, true, false, not, ◌||◌, some, List, [], ◌∷◌,
  ◌++◌, append-nil, ◌==◌, leb, length, Text, all, Bool-cases, inl, inr,
}
use crossnook.Json.Writer.{strip_zeros, four_digits, percentage_text}
use crossnook.Json.Reader.{reader_space}
use crossnook.Json.Number.{
  span_digits, some_digits, sign_part, integer_part, fraction_part, exponent_part, number_token,
  token_cap,
}

pub strip_zeros-all : (ds : Text) → all is_digit ds ≡ true → all is_digit (strip_zeros ds) ≡ true
unfolding strip_zeros
strip_zeros-all [] h = refl
strip_zeros-all (d ∷ ds) h = ground (arith, strip_zeros-all ds)

pub length-strip_zeros : (ds : Text) → length (strip_zeros ds) ≤ length ds
unfolding strip_zeros
length-strip_zeros [] = omega arith
length-strip_zeros (d ∷ ds) = ground (arith, length-strip_zeros ds)

strip_zeros_nil :
    (d : ℕ) (ds : Text) → strip_zeros (d ∷ ds) ≡ [] → (d ≡ b'0') × (strip_zeros ds ≡ [])
unfolding strip_zeros
strip_zeros_nil d ds h = ground arith

four_digits_nil : (n : ℕ) → n < 10000 → strip_zeros (four_digits n) ≡ [] → n ≡ 0
four_digits_nil n small h =
    let (a, h1) = strip_zeros_nil _ _ h in
    let (b, h2) = strip_zeros_nil _ _ h1 in
    let (c, h3) = strip_zeros_nil _ _ h2 in let (d, h4) = strip_zeros_nil _ _ h3 in omega arith

pub four_digits-all : (n : ℕ) → all is_digit (four_digits n) ≡ true
four_digits-all n = ground arith

pub some_left : (n : ℕ) → 0 < n → n < 10000 → 0 < length (strip_zeros (four_digits n))
some_left n lo hi = split (strip_zeros (four_digits n)) refl
  where
    split : (ds : Text) → strip_zeros (four_digits n) ≡ ds → 0 < length ds
    split [] e = absurd (omega (arith, four_digits_nil n hi e))
    split (d ∷ ds) e = omega arith

span_digits-append :
    (ds : Text) (c : ℕ) (rest : List ℕ)
    → all is_digit ds ≡ true
    → is_digit c ≡ false
    → span_digits (ds ++ c ∷ rest) ≡ (ds, c ∷ rest)
unfolding span_digits
span_digits-append [] c rest h e = rw e
span_digits-append (d ∷ ds) c rest h e = ground (arith, span_digits-append ds c rest)

some_digits-append :
    (d : ℕ) (ds : Text) (c : ℕ) (rest : List ℕ)
    → all is_digit (d ∷ ds) ≡ true
    → is_digit c ≡ false
    → some_digits (d ∷ ds ++ c ∷ rest) ≡ some (d ∷ ds, c ∷ rest)
unfolding some_digits
some_digits-append d ds c rest h e = ground (arith, span_digits-append (d ∷ ds) c rest)

-- A character that ends a number.
abbrev pub ends_number : ℕ → Bool
ends_number c = not (is_digit c || (c == b'.' || (c == b'e' || c == b'E')))

fraction_part-append :
    (d : ℕ) (ds : Text) (c : ℕ) (rest : List ℕ)
    → all is_digit (d ∷ ds) ≡ true
    → ends_number c ≡ true
    → fraction_part (b'.' ∷ d ∷ (ds ++ c ∷ rest)) ≡ some (b'.' ∷ d ∷ ds, c ∷ rest)
unfolding fraction_part
fraction_part-append d ds c rest h e = rw (some_digits-append d ds c rest h (ground arith))

exponent_part_none :
    (c : ℕ) (rest : List ℕ) → ends_number c ≡ true → exponent_part (c ∷ rest) ≡ some ([], c ∷ rest)
unfolding exponent_part
exponent_part_none c rest e = ground arith

-- `0.` and the digits.
fraction_token :
    (ds : Text) (c : ℕ) (rest : List ℕ)
    → all is_digit ds ≡ true
    → 0 < length ds
    → length ds ≤ 4
    → ends_number c ≡ true
    → number_token token_cap (b'0' ∷ b'.' ∷ (ds ++ c ∷ rest)) ≡ some (b'0' ∷ b'.' ∷ ds, c ∷ rest)
unfolding number_token reader_space sign_part integer_part
fraction_token [] c rest h lo hi e = absurd (omega arith)
fraction_token (d ∷ ds) c rest h lo hi e =
    let fits : leb token_cap (length (b'0' ∷ b'.' ∷ d ∷ ds)) ≡ false = ground arith in
    rw (fraction_part-append d ds c rest h e, exponent_part_none c rest e)
      (rw (append-nil ds) (rw fits))

one_digit_token :
    (d c : ℕ) (rest : List ℕ)
    → (d ≡ b'0') ⊎ (d ≡ b'1')
    → ends_number c ≡ true
    → number_token token_cap (d ∷ c ∷ rest) ≡ some (d ∷ [], c ∷ rest)
unfolding number_token reader_space sign_part integer_part some_digits span_digits fraction_part
    exponent_part
one_digit_token d c rest (inl z) e = rw z (ground arith)
one_digit_token d c rest (inr z) e = rw z (ground arith)

-- The text of a percentage is a token, up to a character that ends it.
pub number_token-percentage_text :
    (n c : ℕ) (rest : List ℕ)
    → n ≤ 10000
    → ends_number c ≡ true
    → number_token token_cap (percentage_text n ++ c ∷ rest) ≡ some (percentage_text n, c ∷ rest)
unfolding percentage_text
number_token-percentage_text n c rest h e = elim (Bool-cases (n == 10000)) [
  | inl whole ↦ rw whole (one_digit_token b'1' c rest (inr refl) e)
  | inr part ↦ elim (Bool-cases (n == 0)) [
    | inl none_read ↦ rw (part, none_read) (one_digit_token b'0' c rest (inl refl) e)
    | inr some_read ↦
        rw (part, some_read)
          (fraction_token (strip_zeros (four_digits n)) c rest
            (strip_zeros-all (four_digits n) (four_digits-all n))
            (some_left n (ground arith) (ground arith)) (length-strip_zeros (four_digits n)) e)
  ]
]
