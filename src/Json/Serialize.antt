-- ===== src/Json/Serialize.antt =====
-- `cn_kosync_serialize_progress` of `src/sync/kosync.c`, and the text that it writes.
use crossnook.Base.{
  put_then, ℕ, ◌-◌, ◌≡◌, refl, ap, ◌∙◌, arith, Bool, true, false, not, ◌&&◌, ◌||◌, Option, none,
  some, [], ◌++◌, ◌==◌, ltb, leb, if◌then◌else◌, length, Text, codes, ◌>>=◌,
}
use crossnook.Sync.Types.{KosyncResult, KosyncProgress}
use crossnook.Sync.Upload.{document_id_ok, device_max, position_max}
use crossnook.Utf8.Header.{bounded_length, header_text_ok}
use crossnook.Utf8.Kosync.{utf8_valid}
use crossnook.Json.Written.{quoted, writer_bytes-append, writer_string-quoted}
use crossnook.Json.Writer.{Writer, writer_bytes, writer_string, writer_percentage, percentage_text}

-- The writes of the body, with the position and the percentage.
unfoldable pub write_progress : Writer → KosyncProgress → Text → ℕ → Option Writer
write_progress writer progress position n = do
  w1 ← writer_bytes writer (codes "{\"document\":")
  w2 ← writer_string w1 progress.document_id
  w3 ← writer_bytes w2 (codes ",\"progress\":")
  w4 ← writer_string w3 position
  w5 ← writer_bytes w4 (codes ",\"percentage\":")
  w6 ← writer_percentage w5 n
  w7 ← writer_bytes w6 (codes ",\"device\":")
  w8 ← writer_string w7 progress.device
  w9 ← writer_bytes w8 (codes ",\"device_id\":")
  w10 ← writer_string w9 progress.device_id
  writer_bytes w10 (codes "}")

-- The checks on the texts and the percentage.
unfoldable pub fields_ok : KosyncProgress → ℕ → Bool
fields_ok progress n =
    document_id_ok (some progress.document_id)
    && (leb n 10000
        && (header_text_ok (some progress.device) device_max false
            && (header_text_ok (some progress.device_id) device_max false
                && (utf8_valid progress.device && utf8_valid progress.device_id))))

unfoldable pub position_ok : Text → Bool
position_ok position =
    let size = bounded_length (some position) position_max in
    not (size == 0 || ltb position_max size) && utf8_valid position

abbrev pub written : Option Writer → KosyncResult × Option Text
written none = (KosyncResult.invalid, none)
written (some writer) = (KosyncResult.ok, some writer.data_written)

-- The progress that is below 0 or above 10000, and the position that is NULL.
unfoldable pub serialize_parts :
    KosyncProgress → Option Text → Option ℕ → ℕ → KosyncResult × Option Text
serialize_parts progress none n json_cap = (KosyncResult.invalid, none)
serialize_parts progress (some position) none json_cap = (KosyncResult.invalid, none)
serialize_parts progress (some position) (some n) json_cap =
    if json_cap == 0 || (not (fields_ok progress n) || not (position_ok position))
    then (KosyncResult.invalid, none)
    else written
        (write_progress (record { cap = json_cap - 1; data_written = [] }) progress position n)

-- `cn_kosync_serialize_progress`: what it returns and, if it is ok, the text that it wrote.
unfoldable pub serialize_progress : KosyncProgress → ℕ → KosyncResult × Option Text
serialize_progress progress json_cap =
    serialize_parts progress progress.logical_position progress.progress_10000 json_cap

-- The text of a progress.
abbrev pub json_text : KosyncProgress → Text → ℕ → Text
json_text progress position n =
    codes "{\"document\":"
    ++ (quoted progress.document_id
        ++ (codes ",\"progress\":"
            ++ (quoted position
                ++ (codes ",\"percentage\":"
                    ++ (percentage_text n
                        ++ (codes ",\"device\":"
                            ++ (quoted progress.device
                                ++ (codes ",\"device_id\":"
                                    ++ (quoted progress.device_id ++ codes "}")))))))))

bytes_then :
    (writer : Writer) (xs ys : Text) (f : Writer → Option Writer)
    → ((next : Writer) → f next ≡ writer_bytes next ys)
    → (writer_bytes writer xs >>= f) ≡ writer_bytes writer (xs ++ ys)
bytes_then = put_then writer_bytes writer_bytes-append

string_then :
    (writer : Writer) (text ys : Text) (f : Writer → Option Writer)
    → ((next : Writer) → f next ≡ writer_bytes next ys)
    → (writer_string writer text >>= f) ≡ writer_bytes writer (quoted text ++ ys)
string_then writer text ys f h =
    ap (λ m. m >>= f) (writer_string-quoted writer text) ∙ bytes_then writer (quoted text) ys f h

pub write_progress-json_text :
    (writer : Writer) (progress : KosyncProgress) (position : Text) (n : ℕ)
    → write_progress writer progress position n
      ≡ writer_bytes writer (json_text progress position n)
unfolding write_progress writer_percentage
write_progress-json_text writer progress position n = bytes_then _ _ _ _ λ w1.
    string_then w1 _ _ _ λ w2. bytes_then w2 _ _ _ λ w3. string_then w3 _ _ _ λ w4.
      bytes_then w4 _ _ _ λ w5. bytes_then w5 _ _ _ λ w6.
        bytes_then w6 _ _ _ λ w7.
          string_then w7 _ _ _ λ w8. bytes_then w8 _ _ _ λ w9. string_then w9 _ _ _ λ w10. refl

-- A progress that passes the checks of the writer is written into a buffer exactly when its text
-- and the NUL fit, whole, and otherwise the call returns invalid.
pub serialize_progress-json_text :
    (progress : KosyncProgress) (position : Text) (n json_cap : ℕ)
    → fields_ok progress n ≡ true
    → position_ok position ≡ true
    → serialize_parts progress (some position) (some n) json_cap ≡ (
        if ltb (length (json_text progress position n)) json_cap
        then (KosyncResult.ok, some (json_text progress position n))
        else (KosyncResult.invalid, none))
unfolding serialize_parts
serialize_progress-json_text progress position n json_cap fields place =
    rw
      (
        fields,
        place,
        write_progress-json_text (record { cap = json_cap - 1; data_written = [] }) progress
            position n,
      )
      (fits (json_text progress position n))
  where
    fits :
        (text : Text)
        → (if json_cap == 0 || false
            then (KosyncResult.invalid, none)
            else written (writer_bytes (record { cap = json_cap - 1; data_written = [] }) text))
          ≡ (if ltb (length text) json_cap
              then (KosyncResult.ok, some text)
              else (KosyncResult.invalid, none))
    fits text = unfold writer_bytes in ground arith
