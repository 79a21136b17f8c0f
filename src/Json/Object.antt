-- ===== src/Json/Object.antt =====
-- Objects in the JSON reader of `src/sync/kosync.c`: `parse_object` and
-- `cn_kosync_parse_progress`. Whether `malloc` gives the bytes is a parameter. What a failure
-- leaves in the object that is parsed is not read, and is left out.
use Prim.Native.Nat.{bit_and, bit_or}
use crossnook.Base.{
  ℕ, zero, suc, ◌+◌, ◌*◌, Bool, true, false, not, ◌||◌, Option, none, some, List, [], ◌∷◌, ◌==◌,
  ltb, if◌then◌else◌, length, Text, text_eq, codes, take, drop, ◌>>=◌, ◌>>◌, require,
}
use crossnook.Sync.Types.{KosyncResult, KosyncProgress}
use crossnook.Sync.Upload.{progress_init, document_id_ok}
use crossnook.Json.Reader.{reader_space, first_is, reader_take, reader_string}
use crossnook.Json.Number.{Libc, number_token, token_cap, reader_percentage, reader_timestamp}

-- `enum parsed_field`
abbrev pub field_document : ℕ
field_document = 1

abbrev pub field_progress : ℕ
field_progress = 2

abbrev pub field_percentage : ℕ
field_percentage = 4

abbrev pub field_device : ℕ
field_device = 8

abbrev pub field_device_id : ℕ
field_device_id = 16

abbrev pub field_timestamp : ℕ
field_timestamp = 32

abbrev pub json_max : ℕ
json_max = 65536 * 6 + 4096

-- `parsed_object`
pub record ParsedObject : Type 0 where
  pub progress : KosyncProgress
  pub fields : ℕ

unfoldable pub set_once : ℕ → ℕ → Option ℕ
set_once fields field = if not (bit_and fields field == 0) then none else some (bit_or fields field)

abbrev pub object_init : ParsedObject
object_init = record { progress = progress_init; fields = 0 }

-- What a member of the object leads to: an end with a failure, or the rest of the input.
pub data Step : Type 0 where
  stop : KosyncResult → Step
  next : ParsedObject → List ℕ → Step

-- What the parsing of an object gives.
pub data Parse : Type 0 where
  failed : KosyncResult → Parse
  parsed : ParsedObject → Parse

-- A value that is read into the progress.
abbrev pub read_into {ℓ} : {A : Type ℓ} → Option (A × List ℕ) → (A → KosyncProgress) → ℕ → Step
read_into none put fields = stop KosyncResult.bad_json
read_into (some (value, rest)) put fields =
    next (record { progress = put value; fields = fields }) rest

-- A field that may occur once.
abbrev pub once : Option ℕ → (ℕ → Step) → Step
once none read = stop KosyncResult.bad_json
once (some fields) read = read fields

-- An empty position is refused.
abbrev pub some_position : Option (Text × List ℕ) → Option (Text × List ℕ)
some_position none = none
some_position (some ([], rest)) = none
some_position (some (c ∷ cs, rest)) = some (c ∷ cs, rest)

abbrev pub skipped : Option (List ℕ) → ParsedObject → Step
skipped none object = stop KosyncResult.bad_json
skipped (some rest) object = next object rest

-- What stands behind the word, if the input begins with it.
unfoldable pub word : Text → List ℕ → Option (List ℕ)
word text input =
    if text_eq (take (length text) input) text then some (drop (length text) input) else none

-- The checks on the fields that a progress must have.
unfoldable pub required_progress : Parse → KosyncProgress → KosyncResult × KosyncProgress
required_progress (failed code) progress = (code, progress)
required_progress (parsed object) progress =
    if object.fields == 0
    then (KosyncResult.not_found, progress)
    else if not (bit_and object.fields 15 == 15)
        || (not (document_id_ok (some object.progress.document_id))
            || length object.progress.device == 0)
    then (KosyncResult.bad_protocol, progress)
    else (KosyncResult.ok, object.progress)

module _ (libc : Libc) (malloc : ℕ → Bool) where
  unfoldable pub skip_number : List ℕ → Option (List ℕ)
  skip_number input = do
    (token, rest) ← number_token token_cap input
    require (libc.strtod token).1
    some rest

  abbrev skip_string : List ℕ → Option (List ℕ)
  skip_string input =
      if not (malloc (length input + 1))
      then none
      else (do (text, rest) ← reader_string (length input + 1) input; some rest)

  -- The value of a key that is not known, from its first character on.
  unfoldable pub skip_from : List ℕ → Option (List ℕ)
  skip_from [] = none
  skip_from (c ∷ input) =
      if c == 0x22 then skip_string (c ∷ input) else elim (word (codes "null") (c ∷ input)) [
        | some rest ↦ some rest
        | none ↦ elim (word (codes "true") (c ∷ input)) [
          | some rest ↦ some rest
          | none ↦ elim (word (codes "false") (c ∷ input)) [
            | some rest ↦ some rest
            | none ↦ skip_number (c ∷ input)
          ]
        ]
      ]

  abbrev pub reader_skip_scalar : List ℕ → Option (List ℕ)
  reader_skip_scalar input = skip_from (reader_space input)

  -- The chain of `strcmp` on the key.
  unfoldable pub member : Text → ParsedObject → List ℕ → Step
  member key object input =
      let progress = object.progress in
      if text_eq key (codes "document")
      then once (set_once object.fields field_document)
          (read_into (reader_string 33 input) (λ text. record progress { document_id = text }))
      else if text_eq key (codes "progress")
      then once (set_once object.fields field_progress) (λ fields.
        if not (malloc 65537)
        then stop KosyncResult.no_memory
        else read_into (some_position (reader_string 65537 input))
            (λ text. record progress { logical_position = some text }) fields)
      else if text_eq key (codes "percentage")
      then once (set_once object.fields field_percentage) (
          read_into (reader_percentage libc input)
            (λ n. record progress { progress_10000 = some n }))
      else if text_eq key (codes "device")
      then once (set_once object.fields field_device)
          (read_into (reader_string 256 input) (λ text. record progress { device = text }))
      else if text_eq key (codes "device_id")
      then once (set_once object.fields field_device_id)
          (read_into (reader_string 256 input) (λ text. record progress { device_id = text }))
      else if text_eq key (codes "timestamp")
      then once (set_once object.fields field_timestamp) (
          read_into (reader_timestamp libc input)
            (λ n. record progress { timestamp = n; has_timestamp = 1 }))
      else skipped (reader_skip_scalar input) object

  -- The comma in front of a member that is not the first.
  abbrev pub separator : Bool → List ℕ → Option (List ℕ)
  separator true input = some input
  separator false input = reader_take b',' input

  -- The key and the colon.
  unfoldable pub member_key : Bool → List ℕ → Option (Text × List ℕ)
  member_key first input = do
    start ← separator first input
    (key, after_key) ← reader_string 32 start
    after_colon ← reader_take b':' after_key
    some (key, after_colon)

  abbrev pub member_at : ParsedObject → Option (Text × List ℕ) → Step
  member_at object none = stop KosyncResult.bad_json
  member_at object (some (key, input)) = member key object input

  -- Nothing may stand behind the object.
  abbrev pub at_end : List ℕ → ParsedObject → Parse
  at_end [] object = parsed object
  at_end (c ∷ rest) object = failed KosyncResult.bad_json

  -- What follows the value of a member: the end of the object, or the next member.
  abbrev pub after_member : (ParsedObject → List ℕ → Parse) → Step → Parse
  after_member more (stop code) = failed code
  after_member more (next object rest) = elim (first_is b'}' (reader_space rest)) [
    | some behind ↦ at_end (reader_space behind) object
    | none ↦ more object (reader_space rest)
  ]

  -- The loop over the members, on fuel: a member takes at least a byte of the input.
  unfoldable pub members : ℕ → Bool → ParsedObject → List ℕ → Parse
  members zero first object input = failed KosyncResult.bad_json
  members (suc fuel) first object [] = failed KosyncResult.bad_json
  members (suc fuel) first object (c ∷ input) =
      after_member (members fuel false) (member_at object (member_key first (c ∷ input)))

  -- What follows the opening brace.
  unfoldable pub object_body : List ℕ → Parse
  object_body input = elim (first_is b'}' input) [
    | some behind ↦ at_end (reader_space behind) object_init
    | none ↦ members (length input) true object_init input
  ]

  abbrev pub opened : Option (List ℕ) → Parse
  opened none = failed KosyncResult.bad_json
  opened (some input) = object_body (reader_space input)

  unfoldable pub parse_object : List ℕ → Parse
  parse_object json =
      if length json == 0 || ltb json_max (length json)
      then failed KosyncResult.bad_json
      else opened (reader_take b'{' json)

  -- `cn_kosync_parse_progress`, with what stands behind the pointer to the progress afterwards.
  unfoldable pub parse_progress : List ℕ → KosyncProgress → KosyncResult × KosyncProgress
  parse_progress json progress = required_progress (parse_object json) progress
