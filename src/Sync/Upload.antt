-- ===== src/Sync/Upload.antt =====
-- The records of progress of `src/sync/kosync.c`: `cn_kosync_progress_init`, `document_id_ok` and
-- `cn_kosync_progress_set`. A progress is `none` where the code has a negative number. Whether
-- `malloc` gives the bytes is a parameter.
use crossnook.Base.{
  ℕ, ◌+◌, Bool, false, not, ◌||◌, Option, none, some, [], ◌==◌, ltb, if◌then◌else◌, length, Text,
  all, is_lower_hex,
}
use crossnook.Utf8.Header.{bounded_length, header_text_ok}
use crossnook.Utf8.Kosync.{utf8_valid}
use crossnook.Sync.Types.{KosyncResult, KosyncProgress}

abbrev pub document_id_bytes : ℕ
document_id_bytes = 32

abbrev pub position_max : ℕ
position_max = 65536

abbrev pub device_max : ℕ
device_max = 255

unfoldable pub progress_init : KosyncProgress
progress_init = record {
  document_id = [];
  logical_position = none;
  progress_10000 = none;
  device = [];
  device_id = [];
  timestamp = 0;
  has_timestamp = 0;
}

unfoldable pub document_id_ok : Option Text → Bool
document_id_ok none = false
document_id_ok (some id) =
    if not (bounded_length (some id) document_id_bytes == document_id_bytes)
    then false
    else all is_lower_hex id

-- The copy that replaces the progress, if there is memory for the position.
unfoldable pub replace :
    (ℕ → Bool) → KosyncProgress → Text → Text → ℕ → Text → Text → KosyncResult × KosyncProgress
replace malloc progress id position n device device_id =
    if not (malloc (length position + 1)) then (KosyncResult.no_memory, progress) else (
      KosyncResult.ok,
      record progress_init {
        logical_position = some position;
        document_id = id;
        device = device;
        device_id = device_id;
        progress_10000 = some n;
      },
    )

-- `cn_kosync_progress_set` for texts that are not NULL: what it returns, and what then stands
-- behind the pointer to the progress.
unfoldable pub progress_set :
    (ℕ → Bool)
    → KosyncProgress
    → Text
    → Text
    → Option ℕ
    → Text
    → Text
    → KosyncResult × KosyncProgress
progress_set malloc progress id position none device device_id = (KosyncResult.invalid, progress)
progress_set malloc progress id position (some n) device device_id =
    let size = bounded_length (some position) position_max in
    let replaced = replace malloc progress id position n device device_id in
    if not (document_id_ok (some id))
      || (ltb 10000 n
          || (not (header_text_ok (some device) device_max false)
              || not (header_text_ok (some device_id) device_max false)))
    then (KosyncResult.invalid, progress)
    else if size == 0
        || (ltb position_max size
            || (not (utf8_valid position)
                || (not (utf8_valid device) || not (utf8_valid device_id))))
    then (KosyncResult.invalid, progress)
    else replaced
