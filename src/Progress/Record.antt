-- ===== src/Progress/Record.antt =====
-- The record of a position in `src/progress/progress_store.c`: the bytes that
-- `cn_progress_store_save` writes, and how `cn_progress_store_load` reads them. A file is what
-- opening, measuring, reading and closing it give; those calls and `malloc` are parameters.
use Prim.Native.Nat.{bit_and, bit_or, bit_xor}
use crossnook.Base.{
  ℕ, ◌+◌, ◌-◌, Bool, true, false, not, ◌&&◌, ◌||◌, Option, none, some, List, [], ◌∷◌, ◌++◌, ◌==◌,
  ltb, leb, if◌then◌else◌, length, take, drop, get_or, Text, text_eq, codes, scan_end, ◌<<<◌, ◌>>>◌,
  u8,
}
use crossnook.Sync.Types.{ProgressResult, Position}
use crossnook.Utf8.Progress.{utf8_valid}

abbrev pub header_bytes : ℕ
header_bytes = 24

abbrev pub crc_bytes : ℕ
crc_bytes = 4

abbrev pub token_bytes : ℕ
token_bytes = 25

abbrev pub position_max : ℕ
position_max = 65536

abbrev pub format_version : ℕ
format_version = 1

abbrev pub unknown_progress : ℕ
unknown_progress = 0xffffffff

abbrev pub magic : List ℕ
magic = codes "CNPROG\r\n"

-- The first four bytes, as a number.
unfoldable pub read_u32be : List ℕ → ℕ
read_u32be p =
    bit_or (bit_or (bit_or (get_or p 0 0 <<< 24) (get_or p 1 0 <<< 16)) (get_or p 2 0 <<< 8))
      (get_or p 3 0)

abbrev pub write_u32be : ℕ → List ℕ
write_u32be value = u8 (value >>> 24) ∷ u8 (value >>> 16) ∷ u8 (value >>> 8) ∷ u8 value ∷ []

abbrev pub crc_bit : ℕ → ℕ
crc_bit crc =
    bit_xor (crc >>> 1) (bit_and 0xedb88320 (if bit_and crc 1 == 0 then 0 else 0xffffffff))

abbrev pub crc_byte : ℕ → ℕ
crc_byte crc = crc_bit (crc_bit (crc_bit (crc_bit (crc_bit (crc_bit (crc_bit (crc_bit crc)))))))

unfoldable pub crc_from : ℕ → List ℕ → ℕ
crc_from crc [] = crc
crc_from crc (c ∷ cs) = crc_from (crc_byte (bit_xor crc c)) cs

-- `~crc` is what is left to 2 ^ 32 - 1.
unfoldable pub progress_crc32 : List ℕ → ℕ
progress_crc32 bytes = 0xffffffff - crc_from 0xffffffff bytes

-- The length of a text that is not empty, if it is within the maximum.
unfoldable pub bounded_length : Option Text → ℕ → Option ℕ
bounded_length none maximum = none
bounded_length (some text) maximum = elim (scan_end (maximum + 1) 0 text) [
  | none ↦ none
  | some n ↦ if n == 0 then none else some n
]

abbrev pub starts_with_slash : Text → Bool
starts_with_slash location = get_or location 0 0 == b'/'

abbrev pub progress_word : Option ℕ → ℕ
progress_word none = unknown_progress
progress_word (some n) = n

abbrev pub progress_of : ℕ → Option ℕ
progress_of n = if n == unknown_progress then none else some n

-- What stands in front of the checksum.
abbrev pub unchecked : Text → Position → List ℕ
unchecked token position =
    magic
    ++ (write_u32be format_version
        ++ (write_u32be (length token)
            ++ (write_u32be (length position.location)
                ++ (write_u32be (progress_word position.progress_10000)
                    ++ (token ++ position.location)))))

-- The record of a position.
unfoldable pub record_of : Text → Position → List ℕ
record_of token position =
    unchecked token position ++ write_u32be (progress_crc32 (unchecked token position))

abbrev pub within_range : Option ℕ → Bool
within_range none = true
within_range (some n) = not (ltb 10000 n)

-- The checks on the position that is saved.
unfoldable pub position_ok : Position → Bool
position_ok position = elim (bounded_length (some position.location) position_max) [
  | none ↦ false
  | some n ↦
      starts_with_slash position.location
      && (utf8_valid position.location && within_range position.progress_10000)
]

-- The end of `cn_progress_store_load`, from the identity in the record on.
unfoldable pub read_position :
    (ℕ → Bool) → Text → ℕ → ℕ → ℕ → List ℕ → ProgressResult × Option Position
read_position malloc token identity_length location_length progress bytes =
    let location = take location_length (drop (header_bytes + identity_length) bytes) in
    if not (identity_length == length token)
      || not (text_eq (take (length token) (drop header_bytes bytes)) token)
    then (ProgressResult.corrupt, none)
    else if not (progress == unknown_progress) && ltb 10000 progress
    then (ProgressResult.corrupt, none)
    else if not (starts_with_slash location) || not (utf8_valid location)
    then (ProgressResult.corrupt, none)
    else if not (malloc (location_length + 1))
    then (ProgressResult.no_memory, none)
    else (
      ProgressResult.ok,
      some (record { location = location; progress_10000 = progress_of progress }),
    )

-- The lengths and the checksum.
unfoldable pub read_lengths :
    (ℕ → Bool) → Text → ℕ → ℕ → ℕ → List ℕ → ProgressResult × Option Position
read_lengths malloc token identity_length location_length progress bytes =
    let expected = header_bytes + identity_length + location_length + crc_bytes in
    let read = read_position malloc token identity_length location_length progress bytes in
    if identity_length == 0
      || (leb token_bytes identity_length
          || (location_length == 0 || ltb position_max location_length))
    then (ProgressResult.corrupt, none)
    else if not (expected == length bytes)
    then (ProgressResult.corrupt, none)
    else if not (
        read_u32be (drop (expected - crc_bytes) bytes)
        == progress_crc32 (take (expected - crc_bytes) bytes))
    then (ProgressResult.corrupt, none)
    else read

-- The bytes of a file that was read.
unfoldable pub read_record : (ℕ → Bool) → Text → List ℕ → ProgressResult × Option Position
read_record malloc token bytes =
    if not (text_eq (take 8 bytes) magic)
    then (ProgressResult.corrupt, none)
    else if not (read_u32be (drop 8 bytes) == format_version)
    then (ProgressResult.unsupported, none)
    else if ltb (length bytes) (header_bytes + crc_bytes)
    then (ProgressResult.corrupt, none)
    else read_lengths malloc token (read_u32be (drop 12 bytes)) (read_u32be (drop 16 bytes))
        (read_u32be (drop 20 bytes)) bytes

-- What comes of opening the record: no memory for its path, no file (ENOENT), a failure, something
-- that is not a regular file, or a file with its size, its bytes (as many) if they can be read,
-- and whether it closes.
pub data Opened : Type 0 where
  no_path absent failed irregular : Opened
  regular : ℕ → Option (List ℕ) → Bool → Opened

unfoldable pub read_file :
    (ℕ → Bool) → Text → ℕ → Option (List ℕ) → Bool → ProgressResult × Option Position
read_file malloc token size none closes =
    if ltb size 12 || ltb (header_bytes + token_bytes + position_max + crc_bytes) size
    then (ProgressResult.corrupt, none)
    else if not (malloc size)
    then (ProgressResult.no_memory, none)
    else (ProgressResult.corrupt, none)
read_file malloc token size (some bytes) closes =
    let read = read_record malloc token bytes in
    if ltb size 12 || ltb (header_bytes + token_bytes + position_max + crc_bytes) size
    then (ProgressResult.corrupt, none)
    else if not (malloc size)
    then (ProgressResult.no_memory, none)
    else if not closes
    then (ProgressResult.io_error, none)
    else read

-- `cn_progress_store_load` for pointers that are not NULL.
unfoldable pub load : (ℕ → Bool) → Text → Opened → ProgressResult × Option Position
load malloc token no_path = (ProgressResult.no_memory, none)
load malloc token absent = (ProgressResult.missing, none)
load malloc token failed = (ProgressResult.io_error, none)
load malloc token irregular = (ProgressResult.io_error, none)
load malloc token (regular size bytes closes) = read_file malloc token size bytes closes

-- What the calls of a save answer, in their order: whether there is memory and each file call
-- succeeds. That there was no temporary file to remove counts as success.
pub record Disk : Type 0 where
  pub data_made : Bool
  pub path_made : Bool
  pub temporary_made : Bool
  pub unlinked : Bool
  pub created : Bool
  pub written : Bool
  pub synced : Bool
  pub closed : Bool
  pub renamed : Bool

-- `cn_progress_store_save` for pointers that are not NULL: what it returns, and the bytes that took the place of the record, if
-- they did.
unfoldable pub save : Disk → Text → Position → ProgressResult × Option (List ℕ)
save disk token position =
    if not (position_ok position)
    then (ProgressResult.invalid, none)
    else if not disk.data_made || (not disk.path_made || not disk.temporary_made)
    then (ProgressResult.no_memory, none)
    else if not disk.unlinked
        || (not disk.created
            || (not disk.written || (not disk.synced || (not disk.closed || not disk.renamed))))
    then (ProgressResult.io_error, none)
    else (ProgressResult.ok, some (record_of token position))
