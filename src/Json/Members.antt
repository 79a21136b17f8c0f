-- ===== src/Json/Members.antt =====
-- The members of an object that was written are read back, one by one.
use crossnook.Base.{
  ℕ, suc, ◌≤◌, ◌<◌, ◌≡◌, refl, ap, ◌∙◌, arith, Bool, true, false, some, List, [], ◌∷◌, ◌++◌, length,
  Text, codes,
}
use crossnook.Sync.Types.{KosyncProgress}
use crossnook.Utf8.{scan_fuel}
use crossnook.Utf8.Kosync.{utf8_valid, sequence}
use crossnook.Json.Writer.{percentage_text}
use crossnook.Json.Written.{quoted}
use crossnook.Json.Reader.{reader_space, first_is, string_chars, string_piece, store, reader_string}
use crossnook.Json.Number.{Libc, reader_percentage}
use crossnook.Json.Strings.{IsText, reader_string-quoted}
use crossnook.Json.Doubles.{IsRounded, percentage_value-percentage_text}
use crossnook.Json.Percentages.{ends_number, number_token-percentage_text}
use crossnook.Json.Object.{
  ParsedObject, Step, next, parsed, set_once, read_into, some_position, member, member_key,
  member_at, after_member, members,
}

module _ (libc : Libc) (malloc : ℕ → Bool) where
  pub key_document :
      (tail : List ℕ)
      → member_key libc malloc true (codes "\"document\":" ++ tail) ≡ some (codes "document", tail)
  unfolding member_key reader_space first_is reader_string string_chars string_piece store
      utf8_valid scan_fuel sequence
  key_document tail = refl

  pub key_progress :
      (tail : List ℕ)
      → member_key libc malloc false (codes ",\"progress\":" ++ tail)
        ≡ some (codes "progress", tail)
  unfolding member_key reader_space first_is reader_string string_chars string_piece store
      utf8_valid scan_fuel sequence
  key_progress tail = refl

  pub key_percentage :
      (tail : List ℕ)
      → member_key libc malloc false (codes ",\"percentage\":" ++ tail)
        ≡ some (codes "percentage", tail)
  unfolding member_key reader_space first_is reader_string string_chars string_piece store
      utf8_valid scan_fuel sequence
  key_percentage tail = refl

  pub key_device :
      (tail : List ℕ)
      → member_key libc malloc false (codes ",\"device\":" ++ tail) ≡ some (codes "device", tail)
  unfolding member_key reader_space first_is reader_string string_chars string_piece store
      utf8_valid scan_fuel sequence
  key_device tail = refl

  pub key_device_id :
      (tail : List ℕ)
      → member_key libc malloc false (codes ",\"device_id\":" ++ tail)
        ≡ some (codes "device_id", tail)
  unfolding member_key reader_space first_is reader_string string_chars string_piece store
      utf8_valid scan_fuel sequence
  key_device_id tail = refl

  -- A text, whichever field it is for.
  read_text :
      (cap : ℕ) (text rest : List ℕ) (put : Text → KosyncProgress) (fields : ℕ)
      → IsText text
      → length text < cap
      → utf8_valid text ≡ true
      → read_into (reader_string cap (quoted text ++ rest)) put fields
        ≡ next (record { progress = put text; fields = fields }) rest
  read_text cap text rest put fields t h u = rw (reader_string-quoted cap text rest t h u)

  pub member_document :
      (progress : KosyncProgress) (text rest : List ℕ)
      → IsText text
      → length text < 33
      → utf8_valid text ≡ true
      → member libc malloc
          (codes "document")
          (record { progress = progress; fields = 0 })
          (quoted text ++ rest)
        ≡ next (record { progress = record progress { document_id = text }; fields = 1 }) rest
  unfolding member set_once
  member_document progress text rest t h u = read_text 33 text rest _ 1 t h u

  some_position_text :
      (text rest : List ℕ) → 0 < length text → some_position (some (text, rest)) ≡ some (text, rest)
  some_position_text [] rest h = absurd (omega arith)
  some_position_text (c ∷ cs) rest h = refl

  pub member_progress :
      (progress : KosyncProgress) (text rest : List ℕ)
      → IsText text
      → 0 < length text
      → length text ≤ 65536
      → utf8_valid text ≡ true
      → malloc 65537 ≡ true
      → member libc malloc
          (codes "progress")
          (record { progress = progress; fields = 1 })
          (quoted text ++ rest)
        ≡ next
            (record { progress = record progress { logical_position = some text }; fields = 3 })
            rest
  unfolding member set_once
  member_progress progress text rest t lo hi u room = rw (
    room,
    reader_string-quoted 65537 text rest t (omega arith) u,
    some_position_text text rest lo,
  )

  pub member_percentage :
      (progress : KosyncProgress) (n c : ℕ) (rest : List ℕ)
      → IsRounded libc
      → n ≤ 10000
      → ends_number c ≡ true
      → member libc malloc
          (codes "percentage")
          (record { progress = progress; fields = 3 })
          (percentage_text n ++ c ∷ rest)
        ≡ next
            (record { progress = record progress { progress_10000 = some n }; fields = 7 })
            (c ∷ rest)
  unfolding member set_once reader_percentage
  member_percentage progress n c rest rounded h e =
      rw (
        number_token-percentage_text n c rest h e,
        percentage_value-percentage_text libc n rounded h,
      )

  pub member_device :
      (progress : KosyncProgress) (text rest : List ℕ)
      → IsText text
      → length text < 256
      → utf8_valid text ≡ true
      → member libc malloc
          (codes "device")
          (record { progress = progress; fields = 7 })
          (quoted text ++ rest)
        ≡ next (record { progress = record progress { device = text }; fields = 15 }) rest
  unfolding member set_once
  member_device progress text rest t h u = read_text 256 text rest _ 15 t h u

  pub member_device_id :
      (progress : KosyncProgress) (text rest : List ℕ)
      → IsText text
      → length text < 256
      → utf8_valid text ≡ true
      → member libc malloc
          (codes "device_id")
          (record { progress = progress; fields = 15 })
          (quoted text ++ rest)
        ≡ next (record { progress = record progress { device_id = text }; fields = 31 }) rest
  unfolding member set_once
  member_device_id progress text rest t h u = read_text 256 text rest _ 31 t h u

  -- The key and the value of a member.
  member_step :
      (first : Bool) (object : ParsedObject) (input tail : List ℕ) (key : Text) (step : Step)
      → member_key libc malloc first input ≡ some (key, tail)
      → member libc malloc key object tail ≡ step
      → member_at libc malloc object (member_key libc malloc first input) ≡ step
  member_step first object input tail key step k m = ap (member_at libc malloc object) k ∙ m

  -- A round of the loop that a comma follows.
  pub members_comma :
      (fuel : ℕ) (first : Bool) (object object' : ParsedObject) (c : ℕ) (input tail rest : List ℕ)
      (key : Text)
      → member_key libc malloc first (c ∷ input) ≡ some (key, tail)
      → member libc malloc key object tail ≡ next object' (b',' ∷ rest)
      → members libc malloc (suc fuel) first object (c ∷ input)
        ≡ members libc malloc fuel false object' (b',' ∷ rest)
  unfolding members first_is reader_space
  members_comma fuel first object object' c input tail rest key k m =
      ap (after_member libc malloc (members libc malloc fuel false))
        (member_step first object (c ∷ input) tail key _ k m)

  -- The last round.
  pub members_end :
      (fuel : ℕ) (first : Bool) (object object' : ParsedObject) (c : ℕ) (input tail : List ℕ)
      (key : Text)
      → member_key libc malloc first (c ∷ input) ≡ some (key, tail)
      → member libc malloc key object tail ≡ next object' (b'}' ∷ [])
      → members libc malloc (suc fuel) first object (c ∷ input) ≡ parsed object'
  unfolding members first_is reader_space
  members_end fuel first object object' c input tail key k m =
      ap (after_member libc malloc (members libc malloc fuel false))
        (member_step first object (c ∷ input) tail key _ k m)
