-- ===== src/Json/Readable.antt =====
-- When the text that `cn_kosync_serialize_progress` of `src/sync/kosync.c` writes fits, and can be read.
use crossnook.Base.{
  IsShort, append-IsShort, text-IsShort, ℕ, ◌+◌, ◌-◌, ◌*◌, ◌≤◌, ◌<◌, ◌≡◌, refl, ap, ◌∙◌, arith,
  Bool, true, false, ◌&&◌, none, some, [], ◌∷◌, leb, length, length-append, Text, codes, all,
  is_lower_hex, Bool-cases, inl, inr,
}
use crossnook.Sync.Types.{KosyncProgress}
use crossnook.Sync.Upload.{document_id_ok, device_max}
use crossnook.Utf8.{scan_text, scan_fuel}
use crossnook.Utf8.Header.{
  bounded_count_fits, bounded_count_full, header_text_ok, header_text_ok_iff,
}
use crossnook.Utf8.Kosync.{utf8_valid, sequence}
use crossnook.Json.Writer.{percentage_text, four_digits}
use crossnook.Json.Percentages.{length-strip_zeros}
use crossnook.Json.Written.{quoted, length-escaped_text, escaped_text}
use crossnook.Json.Strings.{IsText}
use crossnook.Json.Object.{json_max}
use crossnook.Json.Serialize.{fields_ok, position_ok, json_text}

-- The texts of a progress can be written and read.
pub record IsReadable (progress : KosyncProgress) (position : Text) (n : ℕ) : Type 0 where
  pub id_text : IsText progress.document_id
  pub id_fits : length progress.document_id < 33
  pub id_valid : utf8_valid progress.document_id ≡ true
  pub id_ok : document_id_ok (some progress.document_id) ≡ true
  pub position_text : IsText position
  pub position_some : 0 < length position
  pub position_fits : length position ≤ 65536
  pub position_valid : utf8_valid position ≡ true
  pub small : n ≤ 10000
  pub device_text : IsText progress.device
  pub device_some : 0 < length progress.device
  pub device_fits : length progress.device < 256
  pub device_valid : utf8_valid progress.device ≡ true
  pub device_id_text : IsText progress.device_id
  pub device_id_fits : length progress.device_id < 256
  pub device_id_valid : utf8_valid progress.device_id ≡ true

length-quoted : (text : Text) → length (quoted text) ≤ 6 * length text + 2
length-quoted text =
    omega (arith, length-append (escaped_text text) (0x22 ∷ []), length-escaped_text text)

length-percentage_text : (n : ℕ) → length (percentage_text n) ≤ 6
unfolding percentage_text
length-percentage_text n = ground (arith, length-strip_zeros (four_digits n))

quoted-IsShort :
    (text : Text) (cap : ℕ) → length text < cap → IsShort (quoted text) (6 * (cap - 1) + 2)
quoted-IsShort text cap h = record { fits = omega (arith, length-quoted text) }

-- The text of a progress that can be written is no longer than `CN_KOSYNC_JSON_MAX`.
pub length-json_text :
    (progress : KosyncProgress) (position : Text) (n : ℕ)
    → IsReadable progress position n
    → length (json_text progress position n) ≤ json_max
length-json_text progress position n r =
    let short = append-IsShort (text-IsShort (codes "{\"document\":") 12 (omega arith)) (
      append-IsShort (quoted-IsShort progress.document_id 33 r.id_fits) (
        append-IsShort (text-IsShort (codes ",\"progress\":") 12 (omega arith)) (
          append-IsShort (quoted-IsShort position 65537 (omega (arith, r.position_fits))) (
            append-IsShort (text-IsShort (codes ",\"percentage\":") 14 (omega arith)) (
              append-IsShort (text-IsShort (percentage_text n) 6 (length-percentage_text n)) (
                append-IsShort (text-IsShort (codes ",\"device\":") 10 (omega arith)) (
                  append-IsShort (quoted-IsShort progress.device 256 r.device_fits) (
                    append-IsShort (text-IsShort (codes ",\"device_id\":") 13 (omega arith)) (
                      append-IsShort (quoted-IsShort progress.device_id 256 r.device_id_fits)
                        (text-IsShort (codes "}") 1 (omega arith))))))))))) in
    omega (arith, short.fits)

lower_hex-IsText : (text : Text) → all is_lower_hex text ≡ true → IsText text
lower_hex-IsText [] h = tt
lower_hex-IsText (c ∷ cs) h = (ground arith, ground arith, lower_hex-IsText cs (ground arith))

sequence_low : (c : ℕ) (cs : Text) → is_lower_hex c ≡ true → sequence c cs ≡ some (c, cs)
unfolding sequence
sequence_low c cs h = ground arith

lower_hex-scan : (text : Text) → all is_lower_hex text ≡ true → scan_text sequence text ≡ true
unfolding scan_fuel
lower_hex-scan [] h = refl
lower_hex-scan (c ∷ cs) h =
    ap (λ found. elim found [ none ↦ false | some (v, rest) ↦ scan_fuel sequence (length cs) rest ])
      (sequence_low c cs (ground arith))
    ∙ lower_hex-scan cs (ground arith)

pub document_id_ok-length :
    (id : Text) → document_id_ok (some id) ≡ true → (length id ≡ 32) × (all is_lower_hex id ≡ true)
unfolding document_id_ok
document_id_ok-length id h = elim (Bool-cases (leb (length id) 33)) [
  | inl fits ↦ let size = bounded_count_fits 33 id (ground arith) in (ground arith, ground arith)
  | inr long ↦ let size = bounded_count_full 33 id (ground arith) in (ground arith, ground arith)
]

position_ok-bounds :
    (position : Text)
    → position_ok position ≡ true
    → (0 < length position) × (length position ≤ 65536) × (utf8_valid position ≡ true)
unfolding position_ok
position_ok-bounds position h = elim (Bool-cases (leb (length position) 65537)) [
  | inl fits ↦
      let size = bounded_count_fits 65537 position (ground arith) in
      (ground arith, ground arith, ground arith)
  | inr long ↦
      let size = bounded_count_full 65537 position (ground arith) in
      (ground arith, ground arith, ground arith)
]

both : (a b : Bool) → (a && b) ≡ true → (a ≡ true) × (b ≡ true)
both a b h = ground arith

fields_ok-parts :
    (progress : KosyncProgress) (n : ℕ)
    → fields_ok progress n ≡ true
    → (document_id_ok (some progress.document_id) ≡ true)
      × (n ≤ 10000)
      × (header_text_ok (some progress.device) device_max false ≡ true)
      × (header_text_ok (some progress.device_id) device_max false ≡ true)
      × (utf8_valid progress.device ≡ true)
      × (utf8_valid progress.device_id ≡ true)
unfolding fields_ok
fields_ok-parts progress n h =
    (ground arith, ground arith, ground arith, ground arith, ground arith, ground arith)

-- A progress that passes the checks of the writer, of texts with no NUL, can be read.
pub fields_ok-IsReadable :
    (progress : KosyncProgress) (position : Text) (n : ℕ)
    → fields_ok progress n ≡ true
    → position_ok position ≡ true
    → IsText position
    → IsText progress.device
    → IsText progress.device_id
    → IsReadable progress position n
unfolding utf8_valid
fields_ok-IsReadable progress position n f p tp td ti =
    let (id, small, device, device_id, device_utf8, device_id_utf8) =
      fields_ok-parts progress n f in
    let (id_length, hex) = document_id_ok-length progress.document_id id in
    let (position_some, position_fits, position_utf8) = position_ok-bounds position p in
    let (device_some, device_fits, _) = (header_text_ok_iff progress.device device_max).0 device in
    let (_, device_id_fits, _) = (header_text_ok_iff progress.device_id device_max).0 device_id in
    record {
      id_text = lower_hex-IsText progress.document_id hex;
      id_fits = omega arith;
      id_valid = lower_hex-scan progress.document_id hex;
      id_ok = id;
      position_text = tp;
      position_some = position_some;
      position_fits = position_fits;
      position_valid = position_utf8;
      small = small;
      device_text = td;
      device_some = device_some;
      device_fits = omega arith;
      device_valid = device_utf8;
      device_id_text = ti;
      device_id_fits = omega arith;
      device_id_valid = device_id_utf8;
    }
