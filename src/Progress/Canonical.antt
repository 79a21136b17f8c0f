-- ===== src/Progress/Canonical.antt =====
-- A record that was saved is loaded as it was, and nothing else loads as it.
use mathlib.Core.Path.{ap₂}
use Prim.Native.Nat.{bit_or}
use crossnook.Base.{
  IsBytes, ℕ, zero, suc, ◌+◌, ◌-◌, ◌*◌, ◌^◌, ◌≤◌, ◌<◌, ◌≡◌, refl, ap, ◌∙◌, sym, arith, Bool, true,
  false, not, ◌&&◌, ◌||◌, Option, none, some, List, [], ◌∷◌, ◌++◌, append-nil, append_assoc, ◌==◌,
  ==_iff, ltb, leb, if◌then◌else◌, length, length-append, take, drop, take-append_le,
  drop-append_le, Text, text_eq, text_eq_refl, scan_end_lem, ◌>>>◌, u8, or_shifted, Bool-cases, inl,
  inr,
}
use crossnook.Sync.Types.{ProgressResult, Position}
use crossnook.Utf8.Progress.{utf8_valid}
use crossnook.Progress.Record.{
  header_bytes, crc_bytes, token_bytes, position_max, format_version, unknown_progress, magic,
  read_u32be, write_u32be, progress_crc32, bounded_length, starts_with_slash, progress_word,
  progress_of, unchecked, record_of, within_range, position_ok, read_position, read_lengths,
  read_record,
}

-- Four bytes make a number.
read_u32be-bytes :
    (a b c d : ℕ) (rest : List ℕ)
    → a < 256
    → b < 256
    → c < 256
    → d < 256
    → read_u32be (a ∷ b ∷ c ∷ d ∷ rest) ≡ a * 16777216 + b * 65536 + c * 256 + d
unfolding read_u32be
read_u32be-bytes a b c d rest ha hb hc hd =
    let e1 : bit_or (a * 2 ^ 24) (b * 2 ^ 16) ≡ (a * 256 + b) * 2 ^ 16 =
      or_shifted 24 a (b * 2 ^ 16) (omega arith) ∙ omega arith in
    let e2 : bit_or ((a * 256 + b) * 2 ^ 16) (c * 2 ^ 8) ≡ ((a * 256 + b) * 256 + c) * 2 ^ 8 =
      or_shifted 16 (a * 256 + b) (c * 2 ^ 8) (omega arith) ∙ omega arith in
    let e3 : bit_or (((a * 256 + b) * 256 + c) * 2 ^ 8) d ≡ ((a * 256 + b) * 256 + c) * 2 ^ 8 + d =
      or_shifted 8 ((a * 256 + b) * 256 + c) d (omega arith) in
    ap (λ x. bit_or (bit_or x (c * 2 ^ 8)) d) e1 ∙ ap (λ x. bit_or x d) e2 ∙ e3 ∙ omega arith

read_u32be-write :
    (value : ℕ) (rest : List ℕ) → value < 2 ^ 32 → read_u32be (write_u32be value ++ rest) ≡ value
read_u32be-write value rest h =
    read_u32be-bytes _ _ _ _ rest (omega arith) (omega arith) (omega arith) (omega arith)
    ∙ omega arith

four_bytes :
    (w x y z : ℕ)
    → w < 256
    → x < 256
    → y < 256
    → z < 256
    → write_u32be (w * 16777216 + x * 65536 + y * 256 + z) ≡ w ∷ x ∷ y ∷ z ∷ []
four_bytes w x y z hw hx hy hz =
    let e1 : u8 ((w * 16777216 + x * 65536 + y * 256 + z) >>> 24) ≡ w = omega arith in
    let e2 : u8 ((w * 16777216 + x * 65536 + y * 256 + z) >>> 16) ≡ x = omega arith in
    let e3 : u8 ((w * 16777216 + x * 65536 + y * 256 + z) >>> 8) ≡ y = omega arith in
    let e4 : u8 (w * 16777216 + x * 65536 + y * 256 + z) ≡ z = omega arith in
    ap₂ ◌∷◌ e1 (ap₂ ◌∷◌ e2 (ap₂ ◌∷◌ e3 (ap (λ n. n ∷ []) e4)))

-- And the number makes the four bytes.
pub write_u32be-read :
    (bytes : List ℕ)
    → IsBytes bytes
    → 4 ≤ length bytes
    → write_u32be (read_u32be bytes) ≡ take 4 bytes
write_u32be-read [] b h = absurd (omega arith)
write_u32be-read (w ∷ []) b h = absurd (omega arith)
write_u32be-read (w ∷ x ∷ []) b h = absurd (omega arith)
write_u32be-read (w ∷ x ∷ y ∷ []) b h = absurd (omega arith)
write_u32be-read (w ∷ x ∷ y ∷ z ∷ rest) b h =
    ap write_u32be (read_u32be-bytes w x y z rest b.0 b.1.0 b.1.1.0 b.1.1.1.0)
    ∙ four_bytes w x y z b.0 b.1.0 b.1.1.0 b.1.1.1.0

drop_nil : (n : ℕ) → drop {A = ℕ} n [] ≡ []
drop_nil zero = refl
drop_nil (suc n) = refl

pub drop-drop : (m n k : ℕ) (xs : List ℕ) → k ≡ m + n → drop k xs ≡ drop n (drop m xs)
drop-drop zero n k xs h = ap (λ l. drop l xs) (h ∙ omega arith)
drop-drop (suc m) n zero xs h = absurd (omega arith)
drop-drop (suc m) n (suc k) [] h = sym (drop_nil n)
drop-drop (suc m) n (suc k) (x ∷ xs) h = drop-drop m n k xs (omega arith)

crc_below : (bytes : List ℕ) → progress_crc32 bytes < 2 ^ 32
unfolding progress_crc32
crc_below bytes = omega arith

progress_of-word : (p : Option ℕ) → within_range p ≡ true → progress_of (progress_word p) ≡ p
progress_of-word none h = refl
progress_of-word (some n) h = ground arith

pub range_passes :
    (p : Option ℕ)
    → within_range p ≡ true
    → (not (progress_word p == unknown_progress) && ltb 10000 (progress_word p)) ≡ false
range_passes none h = refl
range_passes (some n) h = ground arith

read_position-ok :
    (malloc : ℕ → Bool) (token : Text) (il ll pr : ℕ) (bytes location : List ℕ) (p : Option ℕ)
    → il ≡ length token
    → take (length token) (drop header_bytes bytes) ≡ token
    → pr ≡ progress_word p
    → within_range p ≡ true
    → take ll (drop (header_bytes + il) bytes) ≡ location
    → starts_with_slash location ≡ true
    → utf8_valid location ≡ true
    → malloc (ll + 1) ≡ true
    → read_position malloc token il ll pr bytes
      ≡ (ProgressResult.ok, some (record { location = location; progress_10000 = p }))
unfolding read_position
read_position-ok malloc token il ll pr bytes location p hi ht hp hr hl hs hu hm =
    let same : (il == length token) ≡ true = ground arith in
    let token_same : text_eq (take (length token) (drop header_bytes bytes)) token ≡ true =
      ap (λ t. text_eq t token) ht ∙ text_eq_refl token in
    let in_range : (not (pr == unknown_progress) && ltb 10000 pr) ≡ false =
      ap (λ n. not (n == unknown_progress) && ltb 10000 n) hp ∙ range_passes p hr in
    rw (same, token_same, in_range, hl, hs, hu, hm)
      (ap (λ q. (ProgressResult.ok, some (record { location = location; progress_10000 = q })))
        (ap progress_of hp ∙ progress_of-word p hr))

read_lengths-ok :
    (malloc : ℕ → Bool) (token : Text) (il ll pr : ℕ) (bytes : List ℕ)
    → 0 < il
    → il < token_bytes
    → 0 < ll
    → ll ≤ position_max
    → header_bytes + il + ll + crc_bytes ≡ length bytes
    → read_u32be (drop (header_bytes + il + ll + crc_bytes - crc_bytes) bytes)
      ≡ progress_crc32 (take (header_bytes + il + ll + crc_bytes - crc_bytes) bytes)
    → read_lengths malloc token il ll pr bytes ≡ read_position malloc token il ll pr bytes
unfolding read_lengths
read_lengths-ok malloc token il ll pr bytes i1 i2 l1 l2 size crc =
    let lengths : (il == 0 || (leb token_bytes il || (ll == 0 || ltb position_max ll))) ≡ false =
      ground arith in
    let whole : (header_bytes + il + ll + crc_bytes == length bytes) ≡ true = (==_iff _ _).1 size in
    let checked = (==_iff _ _).1 crc in rw (lengths, whole, checked) refl

read_record-ok :
    (malloc : ℕ → Bool) (token : Text) (il ll pr : ℕ) (bytes : List ℕ)
    → take 8 bytes ≡ magic
    → read_u32be (drop 8 bytes) ≡ format_version
    → header_bytes + crc_bytes ≤ length bytes
    → read_u32be (drop 12 bytes) ≡ il
    → read_u32be (drop 16 bytes) ≡ ll
    → read_u32be (drop 20 bytes) ≡ pr
    → read_record malloc token bytes ≡ read_lengths malloc token il ll pr bytes
unfolding read_record
read_record-ok malloc token il ll pr bytes m v size hi hl hp =
    let magical : text_eq (take 8 bytes) magic ≡ true =
      ap (λ t. text_eq t magic) m ∙ text_eq_refl magic in
    let versioned : (read_u32be (drop 8 bytes) == format_version) ≡ true = (==_iff _ _).1 v in
    let long : ltb (length bytes) (header_bytes + crc_bytes) ≡ false = ground arith in
    rw (magical, versioned, long) (rw (hi, hl, hp) refl)

word_below : (p : Option ℕ) → within_range p ≡ true → progress_word p < 2 ^ 32
word_below none h = omega arith
word_below (some n) h = ground arith

bounded_length_lem :
    (text : Text) (maximum : ℕ)
    → bounded_length (some text) maximum
      ≡ (if length text == 0 || ltb maximum (length text) then none else some (length text))
unfolding bounded_length
bounded_length_lem text maximum =
    ap (λ o. elim o [ none ↦ none | some n ↦ if n == 0 then none else some n ])
      (scan_end_lem (maximum + 1) 0 text)
    ∙ ground arith

pub position_ok-parts :
    (position : Position)
    → position_ok position ≡ true
    → (0 < length position.location)
      × (length position.location ≤ position_max)
      × (starts_with_slash position.location ≡ true)
      × (utf8_valid position.location ≡ true)
      × (within_range position.progress_10000 ≡ true)
unfolding position_ok
position_ok-parts position h =
    elim (Bool-cases
      (length position.location == 0 || ltb position_max (length position.location))) [
        | inl bad ↦
            let e : bounded_length (some position.location) position_max ≡ none =
              bounded_length_lem position.location position_max ∙ rw bad refl in
            absurd (ground arith)
        | inr good ↦
            let e : bounded_length (some position.location) position_max
                ≡ some (length position.location) =
              bounded_length_lem position.location position_max ∙ rw good refl in
            let parts = rw (e, position_ok) at h in
            (ground arith, ground arith, ground arith, ground arith, ground arith)
      ]

pub position_ok-checked :
    (position : Position)
    → 0 < length position.location
    → length position.location ≤ position_max
    → starts_with_slash position.location ≡ true
    → utf8_valid position.location ≡ true
    → within_range position.progress_10000 ≡ true
    → position_ok position ≡ true
unfolding position_ok
position_ok-checked position lo hi slash utf8 range =
    let fits : (length position.location == 0 || ltb position_max (length position.location))
        ≡ false =
      ground arith in
    let e : bounded_length (some position.location) position_max ≡ some (length position.location) =
      bounded_length_lem position.location position_max ∙ rw fits refl in
    rw (e, position_ok, slash, utf8, range) refl

module _ (token : Text) (position : Position) where
  abbrev body : List ℕ
  body = token ++ position.location

  length-unchecked :
      length (unchecked token position) ≡ 24 + length token + length position.location
  length-unchecked = omega (arith, length-append token position.location)

  pub length-record :
      length (record_of token position) ≡ 28 + length token + length position.location
  unfolding record_of
  length-record = omega (
    arith,
    length-unchecked,
    length-append (unchecked token position)
        (write_u32be (progress_crc32 (unchecked token position))),
  )

  checksum : List ℕ
  checksum = write_u32be (progress_crc32 (unchecked token position))

  -- What the reader finds at its places.
  behind_header :
      drop header_bytes (record_of token position) ≡ (token ++ position.location) ++ checksum
  unfolding record_of checksum
  behind_header = refl

  token_found : take (length token) (drop header_bytes (record_of token position)) ≡ token
  token_found =
      ap (take (length token)) (behind_header ∙ append_assoc token position.location checksum)
      ∙ take-append_le (length token) token (position.location ++ checksum) refl

  location_found :
      take
        (length position.location)
        (drop (header_bytes + length token) (record_of token position))
      ≡ position.location
  location_found =
      ap (take (length position.location)) (
        drop-drop header_bytes (length token) _ (record_of token position) refl
        ∙ ap (drop (length token)) (behind_header ∙ append_assoc token position.location checksum)
        ∙ drop-append_le (length token) token (position.location ++ checksum) refl)
      ∙ take-append_le (length position.location) position.location checksum refl

  checked_bytes :
      header_bytes + length token + length position.location + crc_bytes - crc_bytes
      ≡ length (unchecked token position)
  checked_bytes = omega (arith, length-unchecked)

  checksum_found :
      read_u32be (
        drop
          (header_bytes + length token + length position.location + crc_bytes - crc_bytes)
          (record_of token position))
      ≡ progress_crc32 (
          take
            (header_bytes + length token + length position.location + crc_bytes - crc_bytes)
            (record_of token position))
  unfolding record_of
  checksum_found =
      ap read_u32be (drop-append_le _ (unchecked token position) _ (sym checked_bytes))
      ∙ (ap read_u32be (sym (append-nil _))
          ∙ read_u32be-write (progress_crc32 (unchecked token position)) []
              (crc_below (unchecked token position)))
      ∙ ap progress_crc32 (sym (take-append_le _ (unchecked token position) _ (sym checked_bytes)))

  magic_found : take 8 (record_of token position) ≡ magic
  unfolding record_of
  magic_found = refl

  version_found : read_u32be (drop 8 (record_of token position)) ≡ format_version
  unfolding record_of
  version_found = read_u32be-write 1 _ (omega arith)

  token_length_found :
      length token < 2 ^ 32 → read_u32be (drop 12 (record_of token position)) ≡ length token
  unfolding record_of
  token_length_found h = read_u32be-write (length token) _ h

  location_length_found :
      length position.location < 2 ^ 32
      → read_u32be (drop 16 (record_of token position)) ≡ length position.location
  unfolding record_of
  location_length_found h = read_u32be-write (length position.location) _ h

  progress_found :
      progress_word position.progress_10000 < 2 ^ 32
      → read_u32be (drop 20 (record_of token position)) ≡ progress_word position.progress_10000
  unfolding record_of
  progress_found h = read_u32be-write (progress_word position.progress_10000) _ h

  pub read_record-record_of :
      (malloc : ℕ → Bool)
      → malloc (length position.location + 1) ≡ true
      → position_ok position ≡ true
      → 0 < length token
      → length token < token_bytes
      → read_record malloc token (record_of token position) ≡ (ProgressResult.ok, some position)
  read_record-record_of malloc room ok lo hi =
      let (l1, l2, slash, utf8, range) = position_ok-parts position ok in
      read_record-ok malloc token (length token) (length position.location)
        (progress_word position.progress_10000) (record_of token position) magic_found version_found
        (omega (arith, length-record)) (token_length_found (omega arith))
        (location_length_found (omega arith))
        (progress_found (word_below position.progress_10000 range))
      ∙ read_lengths-ok malloc token (length token) (length position.location)
          (progress_word position.progress_10000) (record_of token position) lo hi l1 l2
          (omega (arith, length-record)) checksum_found
      ∙ read_position-ok malloc token (length token) (length position.location)
          (progress_word position.progress_10000) (record_of token position) position.location
          position.progress_10000 refl token_found refl range location_found slash utf8 room
