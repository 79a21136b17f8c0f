-- ===== src/Json/Written.antt =====
-- What the JSON writer writes, in one piece, and when it fits.
use crossnook.Base.{
  >>=_cong, ℕ, ◌*◌, ◌≤◌, ◌≡◌, ap, ◌∙◌, sym, arith, none, some, List, [], ◌∷◌, ◌++◌, append_assoc,
  append-nil, ltb, if◌then◌else◌, length, length-append, Text, ◌>>=◌,
}
use crossnook.Json.Writer.{
  Writer, writer_bytes, short_escape, encoded, writer_char, writer_chars, writer_string,
}

unfoldable pub escaped : ℕ → Text
escaped c = elim (short_escape c) [
  | some escape ↦ escape
  | none ↦ if ltb c 0x20 then encoded c else c ∷ []
]

unfoldable pub escaped_text : Text → Text
escaped_text [] = []
escaped_text (c ∷ cs) = escaped c ++ escaped_text cs

abbrev pub quoted : Text → Text
quoted text = 0x22 ∷ (escaped_text text ++ 0x22 ∷ [])

-- Two writes are one write of both.
pub writer_bytes-append :
    (writer : Writer) (xs ys : List ℕ)
    → (writer_bytes writer xs >>= λ next. writer_bytes next ys) ≡ writer_bytes writer (xs ++ ys)
unfolding writer_bytes
writer_bytes-append writer xs ys = ground (
  arith,
  length-append xs ys,
  length-append writer.data_written xs,
  append_assoc writer.data_written xs ys,
)

writer_char-escaped :
    (writer : Writer) (c : ℕ) → writer_char writer c ≡ writer_bytes writer (escaped c)
unfolding writer_char escaped
writer_char-escaped writer c = ground arith

writer_bytes-nil : (writer : Writer) → writer_bytes writer [] ≡ some writer
unfolding writer_bytes
writer_bytes-nil writer = ground (arith, append-nil writer.data_written)

writer_chars-escaped_text :
    (writer : Writer) (text : Text)
    → writer_chars writer text ≡ writer_bytes writer (escaped_text text)
unfolding writer_chars escaped_text
writer_chars-escaped_text writer [] = sym (writer_bytes-nil writer)
writer_chars-escaped_text writer (c ∷ cs) =
    ap (λ m. m >>= λ next. writer_chars next cs) (writer_char-escaped writer c)
    ∙ >>=_cong (writer_bytes writer (escaped c)) _ _ (λ next. writer_chars-escaped_text next cs)
    ∙ writer_bytes-append writer (escaped c) (escaped_text cs)

-- A string is written as its quoted text, if that fits.
pub writer_string-quoted :
    (writer : Writer) (text : Text) → writer_string writer text ≡ writer_bytes writer (quoted text)
unfolding writer_string
writer_string-quoted writer text =
    >>=_cong (writer_bytes writer (0x22 ∷ [])) _ _ (λ next.
      ap (λ m. m >>= λ filled. writer_bytes filled (0x22 ∷ []))
        (writer_chars-escaped_text next text)
      ∙ writer_bytes-append next (escaped_text text) (0x22 ∷ []))
    ∙ writer_bytes-append writer (0x22 ∷ []) (escaped_text text ++ 0x22 ∷ [])

-- A byte takes six at most.
pub length-escaped : (c : ℕ) → length (escaped c) ≤ 6
unfolding escaped short_escape
length-escaped c = ground arith

pub length-escaped_text : (text : Text) → length (escaped_text text) ≤ 6 * length text
unfolding escaped_text
length-escaped_text [] = omega arith
length-escaped_text (c ∷ cs) =
    omega
      (arith, length-append (escaped c) (escaped_text cs), length-escaped c, length-escaped_text cs)
