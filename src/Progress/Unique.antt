-- ===== src/Progress/Unique.antt =====
-- A file that loads is, byte for byte, the record that a save of what was loaded writes.
use mathlib.Core.Path.{ap₂}
use crossnook.Base.{
  true, false, IsBytes, ℕ, zero, suc, ◌+◌, ◌-◌, ◌≤◌, ◌≡◌, refl, ap, ◌∙◌, sym, arith, Bool, not,
  ◌&&◌, ◌||◌, some, some-injective, passed, List, [], ◌∷◌, ◌++◌, append-nil, append_assoc, ◌==◌,
  ==_iff, ltb, leb, length, length-append, take, drop, take-append-drop, take-append_le, drop_all,
  length-take, length-drop, Text, text_eq, text_eq→eq,
}
use crossnook.Sync.Types.{ProgressResult, Position}
use crossnook.Progress.Record.{
  header_bytes, crc_bytes, token_bytes, position_max, format_version, unknown_progress, magic,
  read_u32be, write_u32be, progress_crc32, progress_word, progress_of, unchecked, record_of,
  read_position, read_lengths, read_record, starts_with_slash, within_range,
}
use crossnook.Utf8.Progress.{utf8_valid}
use crossnook.Progress.Canonical.{write_u32be-read, drop-drop}

IsBytes-drop : (n : ℕ) (bytes : List ℕ) → IsBytes bytes → IsBytes (drop n bytes)
IsBytes-drop zero bytes b = b
IsBytes-drop (suc n) [] b = tt
IsBytes-drop (suc n) (c ∷ cs) b = IsBytes-drop n cs b.1

module _ (bytes : List ℕ) (b : IsBytes bytes) where
  part_then : (n k m : ℕ) → m ≡ n + k → drop n bytes ≡ take k (drop n bytes) ++ drop m bytes
  part_then n k m h =
      sym (take-append-drop k (drop n bytes))
      ∙ ap (λ rest. take k (drop n bytes) ++ rest) (sym (drop-drop n k m bytes h))

  word_then :
      (n m value : ℕ)
      → m ≡ n + 4
      → m ≤ length bytes
      → read_u32be (drop n bytes) ≡ value
      → drop n bytes ≡ write_u32be value ++ drop m bytes
  word_then n m value h size read =
      part_then n 4 m h
      ∙ ap (λ front. front ++ drop m bytes)
          (sym (
              write_u32be-read (drop n bytes) (IsBytes-drop n bytes b)
                (omega (arith, length-drop n bytes)))
            ∙ ap write_u32be read)

  texts_then :
      (token : Text) (position : Position)
      → take (length token) (drop 24 bytes) ≡ token
      → take (length position.location) (drop (24 + length token) bytes) ≡ position.location
      → drop 24 bytes
        ≡ (token ++ position.location) ++ drop (24 + length token + length position.location) bytes
  texts_then token position t l =
      part_then 24 (length token) (24 + length token) refl
      ∙ ap₂ ◌++◌ t (
          part_then (24 + length token) (length position.location) _ refl
          ∙ ap (λ front. front ++ drop (24 + length token + length position.location) bytes) l)
      ∙ sym (
          append_assoc token position.location
            (drop (24 + length token + length position.location) bytes))

  -- The parts in front of the checksum.
  unchecked_bytes :
      (token : Text) (position : Position)
      → take 8 bytes ≡ magic
      → read_u32be (drop 8 bytes) ≡ format_version
      → read_u32be (drop 12 bytes) ≡ length token
      → read_u32be (drop 16 bytes) ≡ length position.location
      → read_u32be (drop 20 bytes) ≡ progress_word position.progress_10000
      → take (length token) (drop 24 bytes) ≡ token
      → take (length position.location) (drop (24 + length token) bytes) ≡ position.location
      → 24 ≤ length bytes
      → bytes
        ≡ unchecked token position ++ drop (24 + length token + length position.location) bytes
  unchecked_bytes token position m v il ll pr t l size =
      sym (take-append-drop 8 bytes)
      ∙ ap (λ front. front ++ drop 8 bytes) m
      ∙ ap (λ rest. magic ++ rest)
          (word_then 8 12 format_version refl (omega arith) v
            ∙ ap (λ rest. write_u32be format_version ++ rest)
                (word_then 12 16 (length token) refl (omega arith) il
                  ∙ ap (λ rest. write_u32be (length token) ++ rest)
                      (word_then 16 20 (length position.location) refl (omega arith) ll
                        ∙ ap (λ rest. write_u32be (length position.location) ++ rest)
                            (word_then 20 24 (progress_word position.progress_10000) refl size pr
                              ∙ ap
                                  (λ rest.
                                    write_u32be (progress_word position.progress_10000) ++ rest)
                                  (texts_then token position t l)))))

  -- The checksum is the rest.
  record_bytes :
      (token : Text) (position : Position)
      → bytes
        ≡ unchecked token position ++ drop (24 + length token + length position.location) bytes
      → 24 + length token + length position.location + 4 ≡ length bytes
      → read_u32be (drop (24 + length token + length position.location) bytes)
        ≡ progress_crc32 (take (24 + length token + length position.location) bytes)
      → bytes ≡ record_of token position
  unfolding record_of
  record_bytes token position parts size crc =
      let at = 24 + length token + length position.location in
      let front : take at bytes ≡ unchecked token position =
        ap (take at) parts
        ∙ take-append_le at (unchecked token position) (drop at bytes)
            (omega (arith, length-append token position.location)) in
      parts
      ∙ ap (λ rest. unchecked token position ++ rest)
          (word_then at (length bytes) _ (sym size) (omega arith) (crc ∙ ap progress_crc32 front)
            ∙ ap (λ rest. write_u32be (progress_crc32 (unchecked token position)) ++ rest)
                (drop_all (length bytes) bytes (omega arith))
            ∙ append-nil _)

within_range-progress_of :
    (n : ℕ)
    → (not (n == unknown_progress) && ltb 10000 n) ≡ false
    → within_range (progress_of n) ≡ true
within_range-progress_of n h = ground arith

-- What has passed when a position was read.
pub position_read :
    (malloc : ℕ → Bool) (token : Text) (il ll pr : ℕ) (bytes : List ℕ) (position : Position)
    → read_position malloc token il ll pr bytes ≡ (ProgressResult.ok, some position)
    → (il ≡ length token)
      × (take (length token) (drop header_bytes bytes) ≡ token)
      × (take ll (drop (header_bytes + il) bytes) ≡ position.location)
      × (progress_of pr ≡ position.progress_10000)
      × (starts_with_slash position.location ≡ true)
      × (utf8_valid position.location ≡ true)
      × (within_range position.progress_10000 ≡ true)
unfolding read_position
position_read malloc token il ll pr bytes position h =
    let (tokens, h1) =
      passed
        (not (il == length token)
          || not (text_eq (take (length token) (drop header_bytes bytes)) token))
        ProgressResult.corrupt _ position h in
    let (range, h2) =
      passed (not (pr == unknown_progress) && ltb 10000 pr) ProgressResult.corrupt _ position h1 in
    let (text, h3) =
      passed
        (not (starts_with_slash (take ll (drop (header_bytes + il) bytes)))
          || not (utf8_valid (take ll (drop (header_bytes + il) bytes))))
        ProgressResult.corrupt _ position h2 in
    let (memory, h4) = passed (not (malloc (ll + 1))) ProgressResult.no_memory _ position h3 in
    let found = some-injective (ap (λ r. r.1) h4) in
    let place = ap (λ p. p.location) found in
    let value = ap (λ p. p.progress_10000) found in
    (
      (==_iff il (length token)).0 (ground arith),
      text_eq→eq _ token (ground arith),
      place,
      value,
      ap starts_with_slash (sym place) ∙ ground arith,
      ap utf8_valid (sym place) ∙ ground arith,
      ap within_range (sym value) ∙ within_range-progress_of pr range,
    )

pub lengths_read :
    (malloc : ℕ → Bool) (token : Text) (il ll pr : ℕ) (bytes : List ℕ) (position : Position)
    → read_lengths malloc token il ll pr bytes ≡ (ProgressResult.ok, some position)
    → ((il == 0 || (leb token_bytes il || (ll == 0 || ltb position_max ll))) ≡ false)
      × (header_bytes + il + ll + crc_bytes ≡ length bytes)
      × (read_u32be (drop (header_bytes + il + ll + crc_bytes - crc_bytes) bytes)
          ≡ progress_crc32 (take (header_bytes + il + ll + crc_bytes - crc_bytes) bytes))
      × (read_position malloc token il ll pr bytes ≡ (ProgressResult.ok, some position))
unfolding read_lengths
lengths_read malloc token il ll pr bytes position h =
    let (sizes, h1) =
      passed (il == 0 || (leb token_bytes il || (ll == 0 || ltb position_max ll)))
        ProgressResult.corrupt _ position h in
    let (whole, h2) =
      passed (not (header_bytes + il + ll + crc_bytes == length bytes)) ProgressResult.corrupt _
        position h1 in
    let (checked, h3) =
      passed
        (not (
          read_u32be (drop (header_bytes + il + ll + crc_bytes - crc_bytes) bytes)
          == progress_crc32 (take (header_bytes + il + ll + crc_bytes - crc_bytes) bytes)))
        ProgressResult.corrupt _ position h2 in
    (sizes, (==_iff _ _).0 (ground arith), (==_iff _ _).0 (ground arith), h3)

pub header_read :
    (malloc : ℕ → Bool) (token : Text) (bytes : List ℕ) (position : Position)
    → read_record malloc token bytes ≡ (ProgressResult.ok, some position)
    → (take 8 bytes ≡ magic)
      × (read_u32be (drop 8 bytes) ≡ format_version)
      × (read_lengths malloc token
            (read_u32be (drop 12 bytes))
            (read_u32be (drop 16 bytes))
            (read_u32be (drop 20 bytes))
            bytes
          ≡ (ProgressResult.ok, some position))
unfolding read_record
header_read malloc token bytes position h =
    let (magical, h1) =
      passed (not (text_eq (take 8 bytes) magic)) ProgressResult.corrupt _ position h in
    let (versioned, h2) =
      passed (not (read_u32be (drop 8 bytes) == format_version)) ProgressResult.unsupported _
        position h1 in
    let (long, h3) =
      passed (ltb (length bytes) (header_bytes + crc_bytes)) ProgressResult.corrupt _ position h2 in
    (text_eq→eq _ magic (ground arith), (==_iff _ _).0 (ground arith), h3)

word-progress_of : (n : ℕ) → progress_word (progress_of n) ≡ n
word-progress_of n = ground arith

-- When the bytes of a file are read as a position under a token, they are, byte for byte, the
-- record of that position under that token.
pub read_record_unique :
    (malloc : ℕ → Bool) (token : Text) (bytes : List ℕ) (position : Position)
    → IsBytes bytes
    → read_record malloc token bytes ≡ (ProgressResult.ok, some position)
    → bytes ≡ record_of token position
read_record_unique malloc token bytes position b h =
    let (m, v, h1) = header_read malloc token bytes position h in
    let (sizes, whole, crc, h2) = lengths_read malloc token _ _ _ bytes position h1 in
    let (il, t, l, p, slash, utf8, range) = position_read malloc token _ _ _ bytes position h2 in
    let i = read_u32be (drop 12 bytes) in
    let k = read_u32be (drop 16 bytes) in
    let k_length : k ≡ length position.location =
      sym (length-take k (drop (24 + i) bytes) (omega (arith, whole, length-drop (24 + i) bytes)))
      ∙ ap length l in
    let place : 24 + i + k + 4 - 4 ≡ 24 + length token + length position.location =
      omega (arith, il, k_length) in
    record_bytes bytes b token position
      (unchecked_bytes bytes b token position m v il k_length
        (sym (word-progress_of (read_u32be (drop 20 bytes))) ∙ ap progress_word p) t
        (ap₂ (λ x y. take y (drop (24 + x) bytes)) (sym il) (sym k_length) ∙ l)
        (omega (arith, whole)))
      (omega (arith, whole, il, k_length))
      (ap (λ n. read_u32be (drop n bytes)) (sym place)
        ∙ crc
        ∙ ap (λ n. progress_crc32 (take n bytes)) place)
