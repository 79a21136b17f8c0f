-- ===== src/Http/Parsed.antt =====
-- The code and the body that `cn_netsimple_parse_status` of `src/net/netsimple.c` reads in a response.
use crossnook.Base.{
  ℕ, ◌+◌, ◌-◌, ◌*◌, ◌≡◌, refl, ap, ◌∙◌, arith, true, false, some, List, ◌∷◌, ◌++◌, length, drop,
  Text, codes, all, is_digit,
}
use crossnook.Http.Status.{
  Response, version, one_digit, second_digit, end_of_version, skip_line_ends, skip_blanks,
  code_digits, parse_code, header_bytes_of, parse_status, is_blank, status_line,
}
use crossnook.Http.Framing.{
  in_line, IsLine, AllLines, response_text, begins, drop-response_text, length-response_text,
  header_bytes_of-response_text,
}

-- A status line with its code of three digits.
abbrev pub status_text_line : ℕ → ℕ → ℕ → ℕ → ℕ → Text → Text
status_text_line major minor d1 d2 d3 reason =
    codes "HTTP/" ++ (major ∷ b'.' ∷ minor ∷ 0x20 ∷ d1 ∷ d2 ∷ d3 ∷ reason)

abbrev pub code_of : ℕ → ℕ → ℕ → ℕ
code_of d1 d2 d3 = (d1 - b'0') * 100 + (d2 - b'0') * 10 + (d3 - b'0')

version-status_line :
    (major minor : ℕ) (rest : List ℕ)
    → is_digit major ≡ true
    → is_digit minor ≡ true
    → version (codes "HTTP/" ++ (major ∷ b'.' ∷ minor ∷ 0x20 ∷ rest)) ≡ some (0x20 ∷ rest)
unfolding version skip_line_ends one_digit second_digit end_of_version
version-status_line major minor rest h k = rw (h, k) refl

parse_code-digits :
    (d1 d2 d3 : ℕ) (rest : List ℕ)
    → is_digit d1 ≡ true
    → is_digit d2 ≡ true
    → is_digit d3 ≡ true
    → parse_code (0x20 ∷ d1 ∷ d2 ∷ d3 ∷ rest) ≡ some (code_of d1 d2 d3, skip_blanks rest)
unfolding parse_code skip_blanks code_digits
parse_code-digits d1 d2 d3 rest h1 h2 h3 =
    let begins : is_blank d1 ≡ false = ground arith in
    rw (begins, h1, h2, h3) (ap (λ code. some (code, skip_blanks rest)) (omega arith))

parse_status-parts :
    (buf after_version : List ℕ) (code : ℕ) (code_text : List ℕ)
    → version buf ≡ some after_version
    → parse_code after_version ≡ some (code, code_text)
    → parse_status buf
      ≡ some (record {
        status = code;
        header_bytes = header_bytes_of buf;
        body_bytes = length buf - header_bytes_of buf;
        total_bytes = length buf;
        status_text = status_line code_text;
      })
unfolding parse_status
parse_status-parts buf after_version code code_text h k = rw h (rw k refl)

-- In a response of a status line with a code of three digits, lines that are not empty, an empty
-- line and a body, the code is read and the body is all that follows the empty line, whatever it
-- holds.
pub parse_status-response_text :
    (major minor d1 d2 d3 : ℕ) (reason : Text) (lines : List Text) (body : List ℕ)
    → is_digit major ≡ true
    → is_digit minor ≡ true
    → is_digit d1 ≡ true
    → is_digit d2 ≡ true
    → is_digit d3 ≡ true
    → all in_line reason ≡ true
    → AllLines lines
    → (response : Response) × (parse_status
          (response_text (status_text_line major minor d1 d2 d3 reason) lines body)
        ≡ some response)
      × (response.status ≡ code_of d1 d2 d3)
      × (drop response.header_bytes
            (response_text (status_text_line major minor d1 d2 d3 reason) lines body)
          ≡ body)
      × (response.body_bytes ≡ length body)
parse_status-response_text major minor d1 d2 d3 reason lines body hM hm h1 h2 h3 hr hl =
    let line = status_text_line major minor d1 d2 d3 reason in
    let is_line : IsLine line = (omega arith, ground arith) in
    let (rest, start) = begins line lines body in
    let bytes = header_bytes_of-response_text line lines body is_line hl in
    (
      record {
        status = code_of d1 d2 d3;
        header_bytes = header_bytes_of (response_text line lines body);
        body_bytes =
            length (response_text line lines body)
            - header_bytes_of (response_text line lines body);
        total_bytes = length (response_text line lines body);
        status_text = status_line (skip_blanks (reason ++ rest));
      },
      parse_status-parts (response_text line lines body) _ _ _
          (ap version start ∙ version-status_line major minor _ hM hm)
          (parse_code-digits d1 d2 d3 (reason ++ rest) h1 h2 h3),
      refl,
      ap (λ n. drop n (response_text line lines body)) bytes ∙ drop-response_text line lines body,
      omega (arith, bytes, length-response_text line lines body),
    )
