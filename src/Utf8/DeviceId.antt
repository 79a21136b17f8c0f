-- ===== src/Utf8/DeviceId.antt =====
-- `cn_sync_valid_device_id_internal` of `src/sync/sync_controller.c`: the loop keeps the index `i` of
-- the next byte. The lead bytes are told apart as in `utf8_valid` of `src/sync/kosync.c`.
use Prim.Native.Nat.{bit_and, bit_or}
use mathlib.Core.Path.{subst}
use crossnook.Base.{
  IsBytes, ℕ, zero, suc, ◌+◌, ◌-◌, ◌≤◌, ◌<◌, ◌≡◌, refl, ap, ◌∙◌, sym, arith, Bool, true, false, not,
  ◌&&◌, ◌||◌, Option, none, some, List, [], ◌∷◌, ◌==◌, ltb, leb, if◌then◌else◌, length, Text,
  Bool-cases, inl, inr, ◌↔◌, leb→le, length-append, ltb→lt, ◌<<<◌,
}
use crossnook.Utf8.{scan_fuel}
use crossnook.Utf8.Reference.{decode}
use crossnook.Utf8.Kosync.{
  Lead, lead, tail_bytes, is_refused, sequence, follow, checked, sequence-decode, utf8_valid,
}
use crossnook.Utf8.Encode.{encode}
use crossnook.Utf8.Scan.{
  step_found, length-encode, IsBytes-append, keep, IsEncoded, scan_fuel→IsEncoded,
  IsEncoded→scan_fuel,
}
use crossnook.Utf8.Header.{is_header_byte, header_text_ok, header_and_utf8}

abbrev pub device_max : ℕ
device_max = 255

-- Where the loop stands: the value, the index of the next byte and what is left.
pub record Place : Type 0 where
  pub value : ℕ
  pub index : ℕ
  pub left : Text

-- `while (remaining-- > 0)`, from index `i` on; past the end stands the NUL.
unfoldable pub id_tail : ℕ → ℕ → ℕ → Text → Option Place
id_tail zero value i text = some (record { value = value; index = i; left = text })
id_tail (suc remaining) value i [] = none
id_tail (suc remaining) value i (next ∷ text) =
    let rest = id_tail remaining (bit_or (value <<< 6) (bit_and next 0x3f)) (i + 1) text in
    if leb device_max i then none else if not (bit_and next 0xc0 == 0x80) then none else rest

abbrev id_checked : ℕ → Option Place → Option Place
id_checked minimum none = none
id_checked minimum (some p) = if is_refused minimum p.value then none else some p

abbrev id_follow : Option Lead → ℕ → Text → Option Place
id_follow none i text = none
id_follow (some l) i text = id_checked l.minimum (id_tail l.remaining l.value i text)

-- The body of the loop; `i` is the index after `ch`.
unfoldable pub id_body : ℕ → ℕ → Text → Option Place
id_body i ch text =
    if ltb device_max i || (ltb ch 0x20 || ch == 0x7f)
    then none
    else if ltb ch 0x80
    then some (record { value = ch; index = i; left = text })
    else id_follow (lead ch) i text

-- `while (text[i])`, on fuel: a round takes at least a byte.
unfoldable pub id_scan : ℕ → ℕ → Text → Bool
id_scan n i [] = not (i == 0)
id_scan zero i (ch ∷ text) = false
id_scan (suc n) i (ch ∷ text) = elim (id_body (i + 1) ch text) [
  | none ↦ false
  | some p ↦ id_scan n p.index p.left
]

unfoldable pub device_id_valid : Option Text → Bool
device_id_valid none = false
device_id_valid (some text) = id_scan (length text) 0 text

-- The place behind a value that was read, where `total` bytes end the text.
abbrev place : ℕ → Option (ℕ × List ℕ) → Option Place
place total none = none
place total (some (value, rest)) =
    some (record { value = value; index = total - length rest; left = rest })

id_tail-tail_bytes :
    (remaining value i : ℕ) (text : Text) (total : ℕ)
    → i + length text ≡ total
    → total ≤ device_max
    → id_tail remaining value i text ≡ place total (tail_bytes remaining value text)
unfolding id_tail tail_bytes
id_tail-tail_bytes zero value i text total e h =
    ap (λ k. some (record { value = value; index = k; left = text })) (omega arith)
id_tail-tail_bytes (suc remaining) value i [] total e h = refl
id_tail-tail_bytes (suc remaining) value i (next ∷ text) total e h = ground (
  arith,
  id_tail-tail_bytes remaining (bit_or (value <<< 6) (bit_and next 0x3f)) (i + 1) text total,
)

-- A text that is too short for its lead fails in the loop as well.
tail_short :
    (remaining value : ℕ) (text : Text)
    → length text < remaining
    → tail_bytes remaining value text ≡ none
unfolding tail_bytes
tail_short zero value text h = absurd (omega arith)
tail_short (suc remaining) value [] h = refl
tail_short (suc remaining) value (next ∷ text) h =
    ground (arith, tail_short remaining (bit_or (value <<< 6) (bit_and next 0x3f)) text)

lead_minimum : (c : ℕ) {l : Lead} → lead c ≡ some l → 0x80 ≤ l.minimum
unfolding lead
lead_minimum c h = ground arith

id_checked-checked :
    (minimum total : ℕ) (o : Option (ℕ × List ℕ))
    → 0x80 ≤ minimum
    → id_checked minimum (place total o) ≡ place total (keep is_header_byte (checked minimum o))
unfolding is_refused
id_checked-checked minimum total none h = refl
id_checked-checked minimum total (some (v, rest)) h = ground arith

id_follow-follow :
    (o : Option Lead) (i : ℕ) (text : Text) (total : ℕ)
    → ((l : Lead) → o ≡ some l → 0x80 ≤ l.minimum)
    → i + length text ≡ total
    → total ≤ device_max
    → id_follow o i text ≡ place total (keep is_header_byte (follow o text))
id_follow-follow none i text total m e h = refl
id_follow-follow (some l) i text total m e h =
    ap (id_checked l.minimum) (id_tail-tail_bytes l.remaining l.value i text total e h)
    ∙ elim (Bool-cases (ltb (length text) l.remaining)) [
      | inl short ↦ rw (short, tail_short l.remaining l.value text (ltb→lt _ _ short))
      | inr enough ↦
          rw enough
            (id_checked-checked l.minimum total (tail_bytes l.remaining l.value text) (m l refl))
    ]

-- Within the limit the body reads as `utf8_valid` does, and refuses control characters.
id_body-sequence :
    (i c : ℕ) (text : Text) (total : ℕ)
    → i + length text ≡ total
    → total ≤ device_max
    → id_body i c text ≡ place total (keep is_header_byte (sequence c text))
unfolding id_body sequence
id_body-sequence i c text total e h = elim (Bool-cases (ltb c 0x80)) [
  | inl ascii ↦ rw ascii (ground arith)
  | inr more ↦
      let plain : (ltb device_max i || (ltb c 0x20 || c == 0x7f)) ≡ false = ground arith in
      rw (plain, more) (id_follow-follow (lead c) i text total (λ l. lead_minimum c) e h)
]

-- The two bodies side by side: header test and UTF-8 test in one.
abbrev header_body : ℕ → List ℕ → Option (ℕ × List ℕ)
header_body c text = keep is_header_byte (sequence c text)

header_body-decode :
    (c : ℕ) (text : List ℕ)
    → c < 256
    → IsBytes text
    → header_body c text ≡ keep is_header_byte (decode c text)
header_body-decode c text h b = ap (keep is_header_byte) (sequence-decode c text h b)

rest_stands :
    (c : ℕ) (text : Text) (v : ℕ) (rest : Text)
    → IsBytes (c ∷ text)
    → header_body c text ≡ some (v, rest)
    → IsBytes rest × (length rest ≤ length text)
rest_stands c text v rest b e =
    let (scalar, passes, stands) =
      step_found is_header_byte header_body header_body-decode c text b e in
    (
      IsBytes-append (encode v) rest (subst IsBytes stands b),
      omega (arith, ap length stands, length-append (encode v) rest, length-encode v),
    )

-- Within the limit, the loop from index `i` accepts what the loop of `utf8_valid` with the header
-- test accepts, if the whole text is not empty.
id_scan-scan_fuel :
    (n i : ℕ) (text : Text) (total : ℕ)
    → IsBytes text
    → i + length text ≡ total
    → total ≤ device_max
    → id_scan n i text ≡ (scan_fuel header_body n text && not (total == 0))
unfolding id_scan scan_fuel
id_scan-scan_fuel n i [] total b e h = let same : i ≡ total = omega arith in rw same
id_scan-scan_fuel zero i (c ∷ text) total b e h = refl
id_scan-scan_fuel (suc n) i (c ∷ text) total b e h =
    rw (id_body-sequence (i + 1) c text total (omega arith) h, id_scan)
      (next (header_body c text) refl (λ k t b' e'. id_scan-scan_fuel n k t total b' e' h))
  where
    next :
        (o : Option (ℕ × List ℕ))
        → header_body c text ≡ o
        → ((k : ℕ) (t : Text)
            → IsBytes t
            → k + length t ≡ total
            → id_scan n k t ≡ (scan_fuel header_body n t && not (total == 0)))
        → (elim (place total o) [ none ↦ false | some p ↦ id_scan n p.index p.left ]) ≡ (
            (elim o [ none ↦ false | some (v, rest) ↦ scan_fuel header_body n rest ])
            && not (total == 0))
    next none found ih = refl
    next (some (v, rest)) found ih =
        let (bytes, shorter) = rest_stands c text v rest b found in
        ih (total - length rest) rest bytes (omega arith)

-- The places that the body reaches lie within the limit, and no byte is lost.
id_tail_index :
    (remaining value i : ℕ) (text : Text) {p : Place}
    → i ≤ device_max
    → id_tail remaining value i text ≡ some p
    → (p.index ≤ device_max) × (p.index + length p.left ≡ i + length text)
unfolding id_tail
id_tail_index zero value i text h e = ground arith
id_tail_index (suc remaining) value i [] h e = cc
id_tail_index (suc remaining) value i (next ∷ text) {p} h e =
    ground (
      arith,
      id_tail_index remaining (bit_or (value <<< 6) (bit_and next 0x3f)) (i + 1) text {p = p},
    )

id_follow_index :
    (o : Option Lead) (i : ℕ) (text : Text) {p : Place}
    → i ≤ device_max
    → id_follow o i text ≡ some p
    → (p.index ≤ device_max) × (p.index + length p.left ≡ i + length text)
id_follow_index none i text h e = cc
id_follow_index (some l) i text {p} h e =
    id_tail_index l.remaining l.value i text h (unchecked l.minimum _ e)
  where
    unchecked : (minimum : ℕ) (o : Option Place) → id_checked minimum o ≡ some p → o ≡ some p
    unchecked minimum none e' = e'
    unchecked minimum (some q) e' = ground arith

id_body_index :
    (i c : ℕ) (text : Text) {p : Place}
    → id_body i c text ≡ some p
    → (p.index ≤ device_max) × (p.index + length p.left ≡ i + length text)
unfolding id_body
id_body_index i c text {p} e = ground (arith, id_follow_index (lead c) i text {p = p})

-- A text that ends beyond the limit is refused.
id_scan_long :
    (n i : ℕ) (text : Text)
    → i ≤ device_max
    → device_max < i + length text
    → id_scan n i text ≡ false
unfolding id_scan
id_scan_long n i [] h k = absurd (omega arith)
id_scan_long zero i (c ∷ text) h k = refl
id_scan_long (suc n) i (c ∷ text) h k = next (id_body (i + 1) c text) refl (id_scan_long n)
  where
    next :
        (o : Option Place)
        → id_body (i + 1) c text ≡ o
        → ((j : ℕ) (t : Text) → j ≤ device_max → device_max < j + length t → id_scan n j t ≡ false)
        → (elim o [ none ↦ false | some p ↦ id_scan n p.index p.left ]) ≡ false
    next none e ih = refl
    next (some p) e ih =
        let (low, sum) = id_body_index (i + 1) c text e in ih p.index p.left low (omega arith)

both_true : (x y : Bool) → (x && y) ≡ true → (x ≡ true) × (y ≡ true)
both_true x y h = ground arith

-- On a text of bytes the check of the device identifier before any network activity accepts
-- exactly what the header rule for 1 to 255 bytes and the UTF-8 validator of the protocol code
-- accept together.
pub device_id_valid-header :
    (text : Text)
    → IsBytes text
    → (device_id_valid (some text) ≡ true)
      ↔ ((header_text_ok (some text) device_max false ≡ true) × (utf8_valid text ≡ true))
unfolding device_id_valid
device_id_valid-header text b = (
  λ h. (header_and_utf8 text device_max b).1 (forth h),
  λ h. back ((header_and_utf8 text device_max b).0 h),
)
  where
    scan : IsEncoded is_header_byte text ↔ (scan_fuel header_body (length text) text ≡ true)
    scan = (
      λ enc.
          IsEncoded→scan_fuel is_header_byte header_body header_body-decode (length text) text enc b
            (omega arith),
      scan_fuel→IsEncoded is_header_byte header_body header_body-decode (length text) text b,
    )

    forth :
        id_scan (length text) 0 text ≡ true
        → (0 < length text) × (length text ≤ device_max) × IsEncoded is_header_byte text
    forth h = elim (Bool-cases (leb (length text) device_max)) [
      | inl fits ↦
          let within_limit : length text ≤ device_max = leb→le _ _ fits in
          let (scanned, some_byte) = both_true _ _ (
            sym (id_scan-scan_fuel (length text) 0 text (length text) b (omega arith) within_limit)
            ∙ h) in
          (ground arith, within_limit, scan.1 scanned)
      | inr long ↦ cc (id_scan_long (length text) 0 text (omega arith) (ground arith))
    ]

    back :
        (0 < length text) × (length text ≤ device_max) × IsEncoded is_header_byte text
        → id_scan (length text) 0 text ≡ true
    back (some_byte, fits, enc) =
        id_scan-scan_fuel (length text) 0 text (length text) b (omega arith) fits
        ∙ rw (scan.0 enc) (ground arith)
