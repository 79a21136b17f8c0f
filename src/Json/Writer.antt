-- ===== src/Json/Writer.antt =====
-- The JSON writer of `src/sync/kosync.c`: `writer_bytes`, `writer_text`, `writer_string` and
-- `writer_percentage`.
use crossnook.Base.{
  ℕ, ◌+◌, ◌-◌, ◌/◌, ◌%◌, Option, none, some, List, [], ◌∷◌, ◌++◌, ◌==◌, ltb, if◌then◌else◌, length,
  get_or, Text, hex_digits, ◌>>=◌, ◌>>>◌,
}

-- `json_writer`: `data` is what stands in front of `len`.
pub record Writer : Type 0 where
  pub cap : ℕ
  pub data_written : List ℕ

-- `writer_bytes`, and `writer_text` of the text.
unfoldable pub writer_bytes : Writer → List ℕ → Option Writer
writer_bytes writer bytes =
    if ltb (writer.cap - length writer.data_written) (length bytes)
    then none
    else some (record writer { data_written = writer.data_written ++ bytes })

-- The escapes of the `switch`.
unfoldable pub short_escape : ℕ → Option Text
short_escape c =
    if c == 0x22
    then some (0x5c ∷ 0x22 ∷ [])
    else if c == 0x5c
    then some (0x5c ∷ 0x5c ∷ [])
    else if c == 0x08
    then some (0x5c ∷ b'b' ∷ [])
    else if c == 0x0c
    then some (0x5c ∷ b'f' ∷ [])
    else if c == 0x0a
    then some (0x5c ∷ b'n' ∷ [])
    else if c == 0x0d
    then some (0x5c ∷ b'r' ∷ [])
    else if c == 0x09
    then some (0x5c ∷ b't' ∷ [])
    else none

-- `\u00XY`
abbrev pub encoded : ℕ → Text
encoded c =
    0x5c ∷ b'u' ∷ b'0' ∷ b'0' ∷ get_or hex_digits (c >>> 4) 0 ∷ get_or hex_digits (c % 16) 0 ∷ []

-- The body of the loop over the bytes of a string.
unfoldable pub writer_char : Writer → ℕ → Option Writer
writer_char writer c = elim (short_escape c) [
  | some escape ↦ writer_bytes writer escape
  | none ↦ if ltb c 0x20 then writer_bytes writer (encoded c) else writer_bytes writer (c ∷ [])
]

unfoldable pub writer_chars : Writer → Text → Option Writer
writer_chars writer [] = some writer
writer_chars writer (c ∷ cs) = writer_char writer c >>= λ next. writer_chars next cs

unfoldable pub writer_string : Writer → Text → Option Writer
writer_string writer text = do
  opened ← writer_bytes writer (0x22 ∷ [])
  filled ← writer_chars opened text
  writer_bytes filled (0x22 ∷ [])

-- The zeros that end a row of digits are cut off.
unfoldable pub strip_zeros : Text → Text
strip_zeros [] = []
strip_zeros (d ∷ ds) = elim (strip_zeros ds) [
  | [] ↦ if d == b'0' then [] else d ∷ []
  | e ∷ es ↦ d ∷ e ∷ es
]

abbrev pub digit : ℕ → ℕ
digit n = b'0' + n % 10

-- The four digits of `%04d`.
abbrev pub four_digits : ℕ → Text
four_digits n = digit (n / 1000) ∷ digit (n / 100) ∷ digit (n / 10) ∷ digit n ∷ []

-- What `writer_percentage` writes of a number from 0 to 10000.
unfoldable pub percentage_text : ℕ → Text
percentage_text n =
    if n == 10000
    then b'1' ∷ []
    else if n == 0
    then b'0' ∷ []
    else b'0' ∷ b'.' ∷ strip_zeros (four_digits n)

unfoldable pub writer_percentage : Writer → ℕ → Option Writer
writer_percentage writer n = writer_bytes writer (percentage_text n)
