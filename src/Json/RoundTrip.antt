-- ===== src/Json/RoundTrip.antt =====
-- A progress that `cn_kosync_serialize_progress` of `src/sync/kosync.c` writes is read back by
-- `cn_kosync_parse_progress`.
use mathlib.Core.Path.{ap₂}
use crossnook.Base.{
  ℕ, suc, ◌+◌, ◌≤◌, ◌<◌, ◌≡◌, refl, ap, ◌∙◌, arith, Bool, true, false, none, some, ◌++◌, ◌==◌, ltb,
  if◌then◌else◌, length, Text, codes,
}
use crossnook.Sync.Types.{KosyncResult, KosyncProgress}
use crossnook.Sync.Upload.{progress_init}
use crossnook.Json.Writer.{percentage_text}
use crossnook.Json.Written.{quoted}
use crossnook.Json.Reader.{reader_space, first_is}
use crossnook.Json.Number.{Libc}
use crossnook.Json.Strings.{IsText}
use crossnook.Json.Object.{
  parsed, members, object_init, object_body, parse_object, json_max, required_progress,
  parse_progress,
}
use crossnook.Json.Readable.{IsReadable, length-json_text, fields_ok-IsReadable}
use crossnook.Json.Serialize.{
  fields_ok, position_ok, serialize_parts, serialize_progress, serialize_progress-json_text,
  json_text,
}
use crossnook.Json.Doubles.{IsRounded}
use crossnook.Json.Members.{
  key_document, key_progress, key_percentage, key_device, key_device_id, member_document,
  member_progress, member_percentage, member_device, member_device_id, members_comma, members_end,
}

-- What is read back: the timestamp is not written.
abbrev pub read_back : KosyncProgress → Text → ℕ → KosyncProgress
read_back progress position n = record {
  document_id = progress.document_id;
  logical_position = some position;
  progress_10000 = some n;
  device = progress.device;
  device_id = progress.device_id;
  timestamp = 0;
  has_timestamp = 0;
}

module _ (libc : Libc) (malloc : ℕ → Bool) (exact : IsRounded libc)
    (room : malloc 65537 ≡ true) where
  -- The loop over the five members.
  five_members :
      (fuel : ℕ) (progress : KosyncProgress) (position : Text) (n : ℕ)
      → IsReadable progress position n
      → members libc malloc (suc (suc (suc (suc (suc fuel))))) true object_init (
          codes "\"document\":"
          ++ (quoted progress.document_id
              ++ (codes ",\"progress\":"
                  ++ (quoted position
                      ++ (codes ",\"percentage\":"
                          ++ (percentage_text n
                              ++ (codes ",\"device\":"
                                  ++ (quoted progress.device
                                      ++ (codes ",\"device_id\":"
                                          ++ (quoted progress.device_id ++ codes "}"))))))))))
        ≡ parsed (record { progress = read_back progress position n; fields = 31 })
  unfolding progress_init
  five_members fuel progress position n r =
      members_comma libc malloc _ true _ _ _ _ _ _ _ (key_document libc malloc _)
        (member_document libc malloc _ _ _ r.id_text r.id_fits r.id_valid)
      ∙ members_comma libc malloc _ false _ _ _ _ _ _ _ (key_progress libc malloc _) (
          member_progress libc malloc _ _ _ r.position_text r.position_some r.position_fits
            r.position_valid room)
      ∙ members_comma libc malloc _ false _ _ _ _ _ _ _ (key_percentage libc malloc _)
          (member_percentage libc malloc _ _ _ _ exact r.small refl)
      ∙ members_comma libc malloc _ false _ _ _ _ _ _ _ (key_device libc malloc _)
          (member_device libc malloc _ _ _ r.device_text r.device_fits r.device_valid)
      ∙ members_end libc malloc _ false _ _ _ _ _ _ (key_device_id libc malloc _)
          (member_device_id libc malloc _ _ _ r.device_id_text r.device_id_fits r.device_id_valid)

  pub parse_object-json_text :
      (progress : KosyncProgress) (position : Text) (n : ℕ)
      → IsReadable progress position n
      → length (json_text progress position n) ≤ json_max
      → parse_object libc malloc (json_text progress position n)
        ≡ parsed (record { progress = read_back progress position n; fields = 31 })
  unfolding parse_object object_body reader_space first_is
  parse_object-json_text progress position n r fits =
      let short : ltb json_max (length (json_text progress position n)) ≡ false = ground arith in
      let some_byte : (length (json_text progress position n) == 0) ≡ false = ground arith in
      rw (short, some_byte) (five_members _ progress position n r)

required_read_back :
    (progress before : KosyncProgress) (position : Text) (n : ℕ)
    → IsReadable progress position n
    → required_progress
        (parsed (record { progress = read_back progress position n; fields = 31 }))
        before
      ≡ (KosyncResult.ok, read_back progress position n)
unfolding required_progress
required_read_back progress before position n r =
    let some_device : (length progress.device == 0) ≡ false = ground arith in
    rw (r.id_ok, some_device) refl

serialize_parts_fit :
    (progress : KosyncProgress) (position json : Text) (n json_cap : ℕ)
    → serialize_parts progress (some position) (some n) json_cap ≡ (
        if ltb (length json) json_cap
        then (KosyncResult.ok, some json)
        else (KosyncResult.invalid, none))
    → length json < json_cap
    → serialize_parts progress (some position) (some n) json_cap ≡ (KosyncResult.ok, some json)
serialize_parts_fit progress position json n json_cap e h = e ∙ ground arith

pub parse_progress-json_text :
    (libc : Libc) (malloc : ℕ → Bool) (progress before : KosyncProgress) (position : Text) (n : ℕ)
    → IsRounded libc
    → malloc 65537 ≡ true
    → IsReadable progress position n
    → parse_progress libc malloc (json_text progress position n) before
      ≡ (KosyncResult.ok, read_back progress position n)
unfolding parse_progress
parse_progress-json_text libc malloc progress before position n exact room r =
    ap (λ parse. required_progress parse before)
      (parse_object-json_text libc malloc exact room progress position n r
        (length-json_text progress position n r))
    ∙ required_read_back progress before position n r

-- A progress of texts with no NUL that passes the checks of the writer is serialised into a text
-- within `CN_KOSYNC_JSON_MAX`, and that text parses to the progress with no timestamp, where
-- `strtod`, the constants, the product and the sum round to the nearest double and there is
-- memory for the position.
pub parse_progress-serialize_progress :
    (libc : Libc) (malloc : ℕ → Bool) (progress before : KosyncProgress) (position : Text) (n : ℕ)
    → IsRounded libc
    → malloc 65537 ≡ true
    → progress.logical_position ≡ some position
    → progress.progress_10000 ≡ some n
    → IsText position
    → IsText progress.device
    → IsText progress.device_id
    → fields_ok progress n ≡ true
    → position_ok position ≡ true
    → (json : Text) × (serialize_progress progress (json_max + 1) ≡ (KosyncResult.ok, some json))
      × (length json ≤ json_max)
      × (parse_progress libc malloc json before ≡ (KosyncResult.ok, read_back progress position n))
unfolding serialize_progress
parse_progress-serialize_progress libc malloc progress before position n exact room l pn tp td ti f
      p =
    let r = fields_ok-IsReadable progress position n f p tp td ti in
    let fits = length-json_text progress position n r in
    (
      json_text progress position n,
      ap₂ (λ place number. serialize_parts progress place number (json_max + 1)) l pn
          ∙ serialize_parts_fit progress position (json_text progress position n) n (json_max + 1)
              (serialize_progress-json_text progress position n (json_max + 1) f p)
              (omega (arith, fits)),
      fits,
      parse_progress-json_text libc malloc progress before position n exact room r,
    )
