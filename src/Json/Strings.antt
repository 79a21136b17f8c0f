-- ===== src/Json/Strings.antt =====
-- A string that was written is read back.
use Prim.Native.Nat.{bit_or}
use crossnook.Base.{
  ℕ, zero, suc, ◌+◌, ◌*◌, ◌/◌, ◌%◌, ◌^◌, ◌≤◌, ◌<◌, ◌≡◌, refl, ap, ◌∙◌, arith, Bool, true, false,
  Option, none, some, List, [], ◌∷◌, ◌++◌, append_assoc, append-nil, ◌==◌, ltb, leb, if◌then◌else◌,
  length, length-append, get_or, hex_digits, Text, each_under, under-holds, Bool-cases, inl, inr,
  ltb→lt,
}
use crossnook.Utf8.Encode.{encode}
use crossnook.Utf8.Kosync.{utf8_valid}
use crossnook.Json.Writer.{short_escape, encoded}
use crossnook.Json.Written.{escaped, escaped_text, quoted}
use crossnook.Json.Reader.{
  reader_space, first_is, hex_value, hex_digits_from, reader_hex4, escape_piece, string_piece,
  append_codepoint, store, string_chars, reader_string,
}

-- No byte of the text is NUL.
abbrev pub IsText : Text → Type 0
IsText [] = Unit
IsText (c ∷ cs) = (0 < c) × (c < 256) × IsText cs

reads_back : ℕ → Bool
reads_back c = elim (hex_value (get_or hex_digits (c / 2 ^ 4) 0)) [
  | none ↦ false
  | some x ↦ elim (hex_value (get_or hex_digits (c % 16) 0)) [
    | none ↦ false
    | some y ↦ bit_or (bit_or (bit_or (bit_or (0 * 2 ^ 4) 0 * 2 ^ 4) 0 * 2 ^ 4) x * 2 ^ 4) y == c
  ]
]

control_reads : (c : ℕ) → c < 0x20 → reads_back c ≡ true
unfolding reads_back each_under hex_value
control_reads c h = under-holds 0x20 reads_back c refl h

-- The digits of a control character.
reader_hex4-encoded :
    (c : ℕ) (tail : List ℕ)
    → c < 0x20
    → reader_hex4
        (b'0' ∷ b'0' ∷ get_or hex_digits (c / 2 ^ 4) 0 ∷ get_or hex_digits (c % 16) 0 ∷ tail)
      ≡ some (c, tail)
unfolding reader_hex4 hex_digits_from reads_back
reader_hex4-encoded c tail h =
    let zero_value : hex_value b'0' ≡ some 0 = unfold hex_value in refl in
    rw zero_value (ground (arith, control_reads c h))

append_one :
    (cap c : ℕ) (output : List ℕ)
    → 0 < c
    → c < 0x80
    → append_codepoint cap output c
      ≡ (if leb cap (length output + 1) then none else some (output ++ c ∷ []))
unfolding append_codepoint encode
append_one cap c output lo hi = ground arith

-- What a round of the loop does with a character that stands for the byte `c`.
abbrev after_byte : ℕ → ℕ → List ℕ → ℕ → List ℕ → Option (List ℕ × List ℕ)
after_byte fuel cap output c tail =
    let rest = string_chars fuel cap (output ++ c ∷ []) tail in
    if leb cap (length output + 1) then none else rest

short_escape_read :
    (fuel cap c : ℕ) (output tail : List ℕ) {escape : Text}
    → short_escape c ≡ some escape
    → string_chars (suc fuel) cap output (escape ++ tail) ≡ after_byte fuel cap output c tail
unfolding short_escape string_chars string_piece escape_piece store
short_escape_read fuel cap c output tail {escape} e = ground arith

control_read :
    (fuel cap c : ℕ) (output tail : List ℕ)
    → 0 < c
    → c < 0x20
    → string_chars (suc fuel) cap output (encoded c ++ tail) ≡ after_byte fuel cap output c tail
unfolding string_chars string_piece escape_piece store
control_read fuel cap c output tail lo hi =
    rw (reader_hex4-encoded c tail hi) (ground (arith, append_one cap c output lo))

plain_read :
    (fuel cap c : ℕ) (output tail : List ℕ)
    → short_escape c ≡ none
    → 0x20 ≤ c
    → string_chars (suc fuel) cap output (c ∷ tail) ≡ after_byte fuel cap output c tail
unfolding short_escape string_chars string_piece store
plain_read fuel cap c output tail e lo = ground arith

escaped_read :
    (fuel cap c : ℕ) (output tail : List ℕ)
    → 0 < c
    → string_chars (suc fuel) cap output (escaped c ++ tail) ≡ after_byte fuel cap output c tail
unfolding escaped
escaped_read fuel cap c output tail lo = split (short_escape c) refl
  where
    split :
        (o : Option Text)
        → short_escape c ≡ o
        → string_chars (suc fuel) cap output (
            (elim o [ some escape ↦ escape | none ↦ if ltb c 0x20 then encoded c else c ∷ [] ])
            ++ tail)
          ≡ after_byte fuel cap output c tail
    split (some escape) e = short_escape_read fuel cap c output tail e
    split none e = elim (Bool-cases (ltb c 0x20)) [
      | inl low ↦ rw low (control_read fuel cap c output tail lo (ltb→lt _ _ low))
      | inr high ↦ rw high (plain_read fuel cap c output tail e (ground arith))
    ]

-- The loop reads an escaped text and its closing quote, with fuel for each byte of the text and
-- for the quote, if the text fits.
string_chars-escaped_text :
    (fuel cap : ℕ) (output text rest : List ℕ)
    → IsText text
    → length text < fuel
    → length output + length text < cap
    → utf8_valid (output ++ text) ≡ true
    → string_chars fuel cap output (escaped_text text ++ 0x22 ∷ rest) ≡ some (output ++ text, rest)
unfolding escaped_text string_chars
string_chars-escaped_text zero cap output text rest t f h u = absurd (omega arith)
string_chars-escaped_text (suc fuel) cap output [] rest t f h u =
    let e = append-nil output in rw e (rw (rw e at u))
string_chars-escaped_text (suc fuel) cap output (c ∷ cs) rest t f h u =
    let regroup = append_assoc output (c ∷ []) cs in
    let room : leb cap (length output + 1) ≡ false = ground arith in
    let ih =
      string_chars-escaped_text fuel cap (output ++ c ∷ []) cs rest t.2 (omega arith)
        (omega (arith, length-append output (c ∷ []))) (ap utf8_valid regroup ∙ u) in
    ap (string_chars (suc fuel) cap output)
      (append_assoc (escaped c) (escaped_text cs) (0x22 ∷ rest))
    ∙ escaped_read fuel cap c output (escaped_text cs ++ 0x22 ∷ rest) t.0
    ∙ rw room (ih ∙ ap (λ o. some (o, rest)) regroup)

length-escaped_ge : (c : ℕ) → 1 ≤ length (escaped c)
unfolding escaped short_escape
length-escaped_ge c = ground arith

length-escaped_text_ge : (text : Text) → length text ≤ length (escaped_text text)
unfolding escaped_text
length-escaped_text_ge [] = omega arith
length-escaped_text_ge (c ∷ cs) = omega (
  arith,
  length-escaped_ge c,
  length-append (escaped c) (escaped_text cs),
  length-escaped_text_ge cs,
)

-- A text with no NUL that is valid UTF-8 and shorter than the buffer is read back from its
-- escaped and quoted form, and what follows is left to read.
pub reader_string-quoted :
    (cap : ℕ) (text rest : List ℕ)
    → IsText text
    → length text < cap
    → utf8_valid text ≡ true
    → reader_string cap (quoted text ++ rest) ≡ some (text, rest)
unfolding reader_string reader_space first_is
reader_string-quoted cap text rest t h u =
    let some_cap : (cap == 0) ≡ false = ground arith in
    let e = append_assoc (escaped_text text) (0x22 ∷ []) rest in
    let room : length {A = ℕ} [] + length text < cap = omega arith in
    let fuel : length text < length (escaped_text text ++ 0x22 ∷ rest) =
      omega (arith, length-append (escaped_text text) (0x22 ∷ rest), length-escaped_text_ge text) in
    rw some_cap (rw e (string_chars-escaped_text _ cap [] text rest t fuel room u))
