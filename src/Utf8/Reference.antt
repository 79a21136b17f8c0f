-- ===== src/Utf8/Reference.antt =====
-- One scalar value decoded by arithmetic on the ranges of its bytes: what the four loops of the
-- program are measured against.
use crossnook.Base.{
  ℕ, ◌+◌, ◌*◌, ◌%◌, Bool, ◌&&◌, ◌||◌, Option, none, some, List, [], ◌∷◌, ◌==◌, ltb, leb,
  if◌then◌else◌,
}

abbrev pub within : ℕ → ℕ → ℕ → Bool
within lo hi x = leb lo x && leb x hi

abbrev pub is_tail : ℕ → Bool
is_tail = within 0x80 0xbf

unfoldable pub decode_two : ℕ → List ℕ → Option (ℕ × List ℕ)
decode_two c [] = none
decode_two c (x ∷ rest) = if is_tail x then some (c % 32 * 64 + x % 64, rest) else none

unfoldable pub decode_three : ℕ → List ℕ → Option (ℕ × List ℕ)
decode_three c [] = none
decode_three c (x ∷ []) = none
decode_three c (x ∷ y ∷ rest) =
    let value = c % 16 * 4096 + x % 64 * 64 + y % 64 in
    if is_tail x && is_tail y
    then if ltb value 0x800 || within 0xd800 0xdfff value then none else some (value, rest)
    else none

unfoldable pub decode_four : ℕ → List ℕ → Option (ℕ × List ℕ)
decode_four c [] = none
decode_four c (x ∷ []) = none
decode_four c (x ∷ y ∷ []) = none
decode_four c (x ∷ y ∷ z ∷ rest) =
    let value = c % 8 * 262144 + x % 64 * 4096 + y % 64 * 64 + z % 64 in
    if is_tail x && (is_tail y && is_tail z)
    then if ltb value 0x10000 || ltb 0x10ffff value then none else some (value, rest)
    else none

-- The value at the front of `c ∷ rest` and what follows it; NUL is no value of a text.
unfoldable pub decode : ℕ → List ℕ → Option (ℕ × List ℕ)
decode c rest =
    if ltb c 0x80
    then if c == 0 then none else some (c, rest)
    else if within 0xc2 0xdf c
    then decode_two c rest
    else if within 0xe0 0xef c
    then decode_three c rest
    else if within 0xf0 0xf4 c
    then decode_four c rest
    else none
