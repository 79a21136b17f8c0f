-- ===== src/Http/Framing.antt =====
-- Where `cn_netsimple_parse_status` of `src/net/netsimple.c` finds the code and the body of a response.
use mathlib.Core.Path.{subst}
use crossnook.Base.{
  ℕ, ◌+◌, ◌≤◌, ◌<◌, ◌≡◌, refl, ap, ◌∙◌, sym, arith, Bool, true, false, not, ◌||◌, Option, none,
  some, List, [], ◌∷◌, ◌++◌, ◌==◌, length, length-append, drop, drop-append_le, append_assoc, Text,
  codes, all, after_prefix,
}
use crossnook.Http.Status.{find, place_or, header_end, header_bytes_of}

-- A byte inside a line.
abbrev pub in_line : ℕ → Bool
in_line c = not (c == 0x0d || c == 0x0a)

-- A line of a head: not empty, and with no end inside.
abbrev pub IsLine : Text → Type 0
IsLine line = (0 < length line) × (all in_line line ≡ true)

abbrev pub AllLines : List Text → Type 0
AllLines [] = Unit
AllLines (line ∷ lines) = IsLine line × AllLines lines

-- A response: its lines, an empty one, and the body.
abbrev pub response_text : Text → List Text → List ℕ → List ℕ
response_text line [] body = line ++ (codes "\r\n\r\n" ++ body)
response_text line (next ∷ lines) body = line ++ (codes "\r\n" ++ response_text next lines body)

-- The place of the end of the last line.
abbrev pub end_of_lines : Text → List Text → ℕ
end_of_lines line [] = length line
end_of_lines line (next ∷ lines) = length line + (2 + end_of_lines next lines)

abbrev shift : ℕ → Option ℕ → Option ℕ
shift n none = none
shift n (some i) = some (i + n)

shift-shift : (m n : ℕ) (o : Option ℕ) → shift m (shift n o) ≡ shift (m + n) o
shift-shift m n none = refl
shift-shift m n (some i) = ap some (omega arith)

shift_zero : (o : Option ℕ) → shift 0 o ≡ o
shift_zero none = refl
shift_zero (some i) = ap some (omega arith)

-- A place where the pattern does not stand.
find_miss :
    (pattern : Text) (c : ℕ) (rest : List ℕ)
    → after_prefix pattern (c ∷ rest) ≡ none
    → find pattern (c ∷ rest) ≡ shift 1 (find pattern rest)
unfolding find
find_miss pattern c rest h =
    ap (λ o. elim o [ some behind ↦ some 0 | none ↦ shift 1 (find pattern rest) ]) h

-- No pattern that begins with the end of a line stands inside one.
find-line :
    (p : ℕ) (ps xs rest : Text)
    → in_line p ≡ false
    → all in_line xs ≡ true
    → find (p ∷ ps) (xs ++ rest) ≡ shift (length xs) (find (p ∷ ps) rest)
find-line p ps [] rest h k = sym (shift_zero (find (p ∷ ps) rest))
find-line p ps (c ∷ cs) rest h k =
    find_miss (p ∷ ps) c (cs ++ rest) (ground arith)
    ∙ ap (shift 1) (find-line p ps cs rest h (ground arith))
    ∙ shift-shift 1 (length cs) (find (p ∷ ps) rest)
    ∙ ap (λ n. shift n (find (p ∷ ps) rest)) (omega arith)

-- Nor across the end of a line, if the next is not empty.
find-next_crlf :
    (next rest : Text)
    → IsLine next
    → find (codes "\r\n\r\n") (codes "\r\n" ++ (next ++ rest))
      ≡ shift 2 (find (codes "\r\n\r\n") (next ++ rest))
find-next_crlf [] rest h = absurd (omega arith)
find-next_crlf (c ∷ cs) rest h =
    find_miss (codes "\r\n\r\n") 13 (10 ∷ c ∷ (cs ++ rest)) (ground arith)
    ∙ ap (shift 1) (find_miss (codes "\r\n\r\n") 10 (c ∷ (cs ++ rest)) refl)
    ∙ shift-shift 1 1 (find (codes "\r\n\r\n") (c ∷ (cs ++ rest)))

find-next_lf :
    (next rest : Text)
    → IsLine next
    → find (codes "\n\n") (codes "\r\n" ++ (next ++ rest))
      ≡ shift 2 (find (codes "\n\n") (next ++ rest))
find-next_lf [] rest h = absurd (omega arith)
find-next_lf (c ∷ cs) rest h =
    find_miss (codes "\n\n") 13 (10 ∷ c ∷ (cs ++ rest)) refl
    ∙ ap (shift 1) (find_miss (codes "\n\n") 10 (c ∷ (cs ++ rest)) (ground arith))
    ∙ shift-shift 1 1 (find (codes "\n\n") (c ∷ (cs ++ rest)))

-- The line itself is passed over.
find-response_line :
    (p : ℕ) (ps line rest : Text) (o : Option ℕ)
    → in_line p ≡ false
    → all in_line line ≡ true
    → find (p ∷ ps) rest ≡ o
    → find (p ∷ ps) (line ++ rest) ≡ shift (length line) o
find-response_line p ps line rest o h k e =
    find-line p ps line rest h k ∙ ap (shift (length line)) e

-- A response begins with its first line.
pub begins :
    (line : Text) (lines : List Text) (body : List ℕ)
    → (rest : List ℕ) × (response_text line lines body ≡ line ++ rest)
begins line [] body = (codes "\r\n\r\n" ++ body, refl)
begins line (next ∷ lines) body = (codes "\r\n" ++ response_text next lines body, refl)

crlf_found : (body : List ℕ) → find (codes "\r\n\r\n") (codes "\r\n\r\n" ++ body) ≡ some 0
unfolding find
crlf_found body = refl

find-response_crlf :
    (line : Text) (lines : List Text) (body : List ℕ)
    → IsLine line
    → AllLines lines
    → find (codes "\r\n\r\n") (response_text line lines body) ≡ some (end_of_lines line lines)
find-response_crlf line [] body h k =
    find-response_line 13 _ line (codes "\r\n\r\n" ++ body) (some 0) refl h.1 (crlf_found body)
    ∙ ap some (omega arith)
find-response_crlf line (next ∷ lines) body h k =
    let (rest, start) = begins next lines body in
    find-response_line 13 _ line (codes "\r\n" ++ response_text next lines body) _ refl h.1 (
      ap (λ text. find (codes "\r\n\r\n") (codes "\r\n" ++ text)) start
      ∙ find-next_crlf next rest k.0
      ∙ ap (λ text. shift 2 (find (codes "\r\n\r\n") text)) (sym start)
      ∙ ap (shift 2) (find-response_crlf next lines body k.0 k.1))
    ∙ ap some (omega arith)

-- No place, or one from the given on.
abbrev From : ℕ → Option ℕ → Type 0
From n none = Unit
From n (some i) = n ≤ i

shift-From : (k n : ℕ) (o : Option ℕ) → From n o → From (k + n) (shift k o)
shift-From k n none h = tt
shift-From k n (some i) h = omega (arith, h)

zero_From : (o : Option ℕ) → From 0 o
zero_From none = tt
zero_From (some i) = omega arith

find-response_lf :
    (line : Text) (lines : List Text) (body : List ℕ)
    → IsLine line
    → AllLines lines
    → From (end_of_lines line lines) (find (codes "\n\n") (response_text line lines body))
find-response_lf line [] body h k =
    subst (From (length line)) (sym (find-line 10 _ line (codes "\r\n\r\n" ++ body) refl h.1)) (
      subst (λ n. From n (shift (length line) (find (codes "\n\n") (codes "\r\n\r\n" ++ body))))
        (omega arith) (shift-From (length line) 0 _ (zero_From _)))
find-response_lf line (next ∷ lines) body h k =
    let (rest, start) = begins next lines body in
    let later : find (codes "\n\n") (codes "\r\n" ++ response_text next lines body)
        ≡ shift 2 (find (codes "\n\n") (response_text next lines body)) =
      ap (λ text. find (codes "\n\n") (codes "\r\n" ++ text)) start
      ∙ find-next_lf next rest k.0
      ∙ ap (λ text. shift 2 (find (codes "\n\n") text)) (sym start) in
    subst (From (end_of_lines line (next ∷ lines)))
      (sym (
        find-response_line 10 _ line (codes "\r\n" ++ response_text next lines body) _ refl h.1
          later))
      (shift-From (length line) _ _ (shift-From 2 _ _ (find-response_lf next lines body k.0 k.1)))

pub length-response_text :
    (line : Text) (lines : List Text) (body : List ℕ)
    → length (response_text line lines body) ≡ end_of_lines line lines + 4 + length body
length-response_text line [] body = omega (arith, length-append line (codes "\r\n\r\n" ++ body))
length-response_text line (next ∷ lines) body = omega (
  arith,
  length-append line (codes "\r\n" ++ response_text next lines body),
  length-response_text next lines body,
)

-- The head and the body.
head_of :
    (line : Text) (lines : List Text) (body : List ℕ)
    → (head : Text) × (response_text line lines body ≡ head ++ body)
      × (length head ≡ end_of_lines line lines + 4)
head_of line [] body = (
  line ++ codes "\r\n\r\n",
  sym (append_assoc line (codes "\r\n\r\n") body),
  omega (arith, length-append line (codes "\r\n\r\n")),
)
head_of line (next ∷ lines) body =
    let (head, parts, size) = head_of next lines body in
    (
      line ++ (codes "\r\n" ++ head),
      ap (λ text. line ++ (codes "\r\n" ++ text)) parts
          ∙ sym (append_assoc line (codes "\r\n" ++ head) body),
      omega (arith, length-append line (codes "\r\n" ++ head), size),
    )

pub drop-response_text :
    (line : Text) (lines : List Text) (body : List ℕ)
    → drop (end_of_lines line lines + 4) (response_text line lines body) ≡ body
drop-response_text line lines body =
    let (head, parts, size) = head_of line lines body in
    ap (drop (end_of_lines line lines + 4)) parts ∙ drop-append_le _ head body size

header_end_found :
    (len k : ℕ) (o : Option ℕ) → k + 4 ≤ len → From k o → header_end len k (place_or o len) ≡ k + 4
unfolding header_end
header_end_found len k none h f = ground arith
header_end_found len k (some i) h f = ground arith

-- The head of a response ends behind its empty line, whatever the body holds.
pub header_bytes_of-response_text :
    (line : Text) (lines : List Text) (body : List ℕ)
    → IsLine line
    → AllLines lines
    → header_bytes_of (response_text line lines body) ≡ end_of_lines line lines + 4
unfolding header_bytes_of
header_bytes_of-response_text line lines body h k = rw (find-response_crlf line lines body h k) (
    header_end_found _ _ _ (omega (arith, length-response_text line lines body))
      (find-response_lf line lines body h k))
