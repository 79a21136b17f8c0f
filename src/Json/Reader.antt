-- ===== src/Json/Reader.antt =====
-- The JSON reader of `src/sync/kosync.c`: white space, single characters and strings.
use Prim.Native.Nat.{bit_or}
use crossnook.Base.{
  ℕ, zero, suc, ◌+◌, ◌-◌, Bool, not, ◌&&◌, ◌||◌, Option, none, some, List, [], ◌∷◌, ◌++◌, ◌==◌, ltb,
  leb, if◌then◌else◌, length, Text, ◌>>=◌, ◌>>◌, require, ◌<<<◌,
}
use crossnook.Utf8.Encode.{encode, is_scalar}
use crossnook.Utf8.Kosync.{utf8_valid}

abbrev pub is_space : ℕ → Bool
is_space c = c == 0x20 || (c == 0x09 || (c == 0x0d || c == 0x0a))

unfoldable pub reader_space : List ℕ → List ℕ
reader_space [] = []
reader_space (c ∷ input) = let rest = reader_space input in if is_space c then rest else c ∷ input

-- The character that stands first, if it is the one that is wanted.
unfoldable pub first_is : ℕ → List ℕ → Option (List ℕ)
first_is wanted [] = none
first_is wanted (c ∷ input) = if c == wanted then some input else none

abbrev pub reader_take : ℕ → List ℕ → Option (List ℕ)
reader_take wanted input = first_is wanted (reader_space input)

unfoldable pub hex_value : ℕ → Option ℕ
hex_value c =
    if leb b'0' c && leb c b'9'
    then some (c - b'0')
    else if leb b'a' c && leb c b'f'
    then some (c - b'a' + 10)
    else if leb b'A' c && leb c b'F'
    then some (c - b'A' + 10)
    else none

-- The loop over the digits that are left.
unfoldable pub hex_digits_from : ℕ → ℕ → List ℕ → Option (ℕ × List ℕ)
hex_digits_from zero parsed input = some (parsed, input)
hex_digits_from (suc left) parsed [] = none
hex_digits_from (suc left) parsed (c ∷ input) =
    hex_value c >>= λ d. hex_digits_from left (bit_or (parsed <<< 4) d) input

unfoldable pub reader_hex4 : List ℕ → Option (ℕ × List ℕ)
reader_hex4 input = if ltb (length input) 4 then none else hex_digits_from 4 0 input

-- What a character of a string stands for: itself, or a code point.
pub data Piece : Type 0 where
  byte codepoint : ℕ → Piece

-- The low half that must follow a high one.
unfoldable pub low_half : ℕ → List ℕ → Option (Piece × List ℕ)
low_half high input = do
  require (not (ltb (length input) 6))
  slash ← first_is 0x5c input
  u ← first_is b'u' slash
  (low, rest) ← reader_hex4 u
  require (leb 0xdc00 low && leb low 0xdfff)
  some (codepoint (0x10000 + ((high - 0xd800) <<< 10) + (low - 0xdc00)), rest)

abbrev pub unicode : Option (ℕ × List ℕ) → Option (Piece × List ℕ)
unicode none = none
unicode (some (value, input)) =
    let pair = low_half value input in
    if leb 0xd800 value && leb value 0xdbff then pair else some (codepoint value, input)

-- What follows a backslash.
unfoldable pub escape_piece : List ℕ → Option (Piece × List ℕ)
escape_piece [] = none
escape_piece (c ∷ input) =
    if c == 0x22
    then some (byte 0x22, input)
    else if c == 0x5c
    then some (byte 0x5c, input)
    else if c == b'/'
    then some (byte b'/', input)
    else if c == b'b'
    then some (byte 0x08, input)
    else if c == b'f'
    then some (byte 0x0c, input)
    else if c == b'n'
    then some (byte 0x0a, input)
    else if c == b'r'
    then some (byte 0x0d, input)
    else if c == b't'
    then some (byte 0x09, input)
    else if c == b'u'
    then unicode (reader_hex4 input)
    else none

unfoldable pub string_piece : ℕ → List ℕ → Option (Piece × List ℕ)
string_piece c input =
    if ltb c 0x20 || c == 0
    then none
    else if c == 0x5c
    then escape_piece input
    else some (byte c, input)

-- `append_codepoint`: the output afterwards.
unfoldable pub append_codepoint : ℕ → List ℕ → ℕ → Option (List ℕ)
append_codepoint cap output value =
    if not (is_scalar value)
    then none
    else if leb (cap - length output) (length (encode value))
    then none
    else some (output ++ encode value)

unfoldable pub store : ℕ → List ℕ → Piece → Option (List ℕ)
store cap output (byte c) = if leb cap (length output + 1) then none else some (output ++ c ∷ [])
store cap output (codepoint value) = append_codepoint cap output value

abbrev closed : List ℕ → List ℕ → Option (List ℕ × List ℕ)
closed output rest = if utf8_valid output then some (output, rest) else none

-- The loop of `reader_string`, on fuel: a round takes at least a byte of the input.
unfoldable pub string_chars : ℕ → ℕ → List ℕ → List ℕ → Option (List ℕ × List ℕ)
string_chars fuel cap output [] = none
string_chars zero cap output (c ∷ input) = none
string_chars (suc fuel) cap output (c ∷ input) = if c == 0x22 then closed output input else (do
  (piece, rest) ← string_piece c input
  longer ← store cap output piece
  string_chars fuel cap longer rest)

-- `reader_string`: the text, and what is left of the input.
unfoldable pub reader_string : ℕ → List ℕ → Option (Text × List ℕ)
reader_string cap input =
    if cap == 0
    then none
    else (do rest ← reader_take 0x22 input; string_chars (length rest) cap [] rest)
