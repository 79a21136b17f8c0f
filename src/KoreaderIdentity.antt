-- ===== src/KoreaderIdentity.antt =====
-- `src/book/koreader_identity.c`: the KOReader document identities. What stdio does with the file is
-- a parameter, and so are the bytes that the stack holds where the MD5 context is placed.
pub mod Laws
pub mod Binary
pub mod FileName
use crossnook.Base.{
  ℕ, suc, ◌+◌, ◌/◌, ◌%◌, Bool, true, false, not, ◌&&◌, ◌||◌, Option, none, some, List, [], ◌∷◌,
  ◌++◌, ◌==◌, leb, if◌then◌else◌, length, get_or, take, drop, replicate, Text, scan_end, strrchr,
  hex_digits, is_lower_hex, all, ◌>>>◌,
}
use crossnook.Md5.{Context, init, update, final}

pub data IdentityResult : Type 0 where
  ok invalid io_error : IdentityResult

-- `cn_koreader_document_id`: the 33 bytes of `hex`.
pub record DocumentId : Type 0 where
  pub hex : List ℕ

-- What `fopen`, `fseek`, `fread`, `ferror` and `fclose` do for a path, and an offset in its file.
pub record SampledFile : Type 0 where
  pub opens : Text → Bool
  pub seeks : Text → ℕ → Bool
  pub reads : Text → ℕ → List ℕ
  pub errs : Text → ℕ → Bool
  pub closes : Text → Bool

abbrev pub path_max_bytes : ℕ
path_max_bytes = 4096

abbrev pub sample_offsets : List ℕ
sample_offsets =
    0 ∷ 1024 ∷ 4096 ∷ 16384 ∷ 65536 ∷ 262144 ∷ 1048576 ∷ 4194304 ∷ 16777216 ∷ 67108864 ∷ 268435456
    ∷ 1073741824 ∷ []

abbrev pub bounded_length : Option Text → Option ℕ
bounded_length none = none
bounded_length (some text) = scan_end (path_max_bytes + 1) 0 text

-- `hex[digest[i] >> 4]` and `hex[digest[i] & 0x0f]` for each byte.
unfoldable pub hex_text : List ℕ → Text
hex_text [] = []
hex_text (x ∷ xs) = get_or hex_digits (x >>> 4) 0 ∷ get_or hex_digits (x % 16) 0 ∷ hex_text xs

unfoldable pub digest_to_text : List ℕ → DocumentId
digest_to_text digest = record { hex = hex_text digest ++ 0 ∷ [] }

unfoldable pub document_id_init : DocumentId
document_id_init = record { hex = replicate 33 0 }

pub md5_text : Context → List ℕ → DocumentId
md5_text stack bytes = digest_to_text (final (update (init stack) bytes))

-- The loop over the sample offsets; `none` is the early return with an I/O error.
unfoldable pub sample_all : SampledFile → Text → List ℕ → Context → Option Context
sample_all file path [] context = some context
sample_all file path (offset ∷ offsets) context =
    let sample = file.reads path offset in
    let rest = sample_all file path offsets (update context sample) in
    if not (file.seeks path offset)
    then none
    else if file.errs path offset
    then none
    else if length sample == 0
    then some context
    else rest

-- A failed loop closes the file; otherwise the outcome of `fclose` decides.
unfoldable pub finish_binary : Bool → Option Context → IdentityResult × DocumentId
finish_binary closes none = (io_error, document_id_init)
finish_binary closes (some context) =
    if not closes then (io_error, document_id_init) else (ok, digest_to_text (final context))

unfoldable pub open_binary : SampledFile → Context → Text → IdentityResult × DocumentId
unfolding finish_binary
open_binary file stack path =
    if not (file.opens path)
    then (io_error, document_id_init)
    else finish_binary (file.closes path) (sample_all file path sample_offsets (init stack))

-- A NULL path, one that is too long and an empty one are refused; otherwise the file is opened.
unfoldable pub check_path :
    SampledFile → Context → Option Text → Option ℕ → IdentityResult × DocumentId
unfolding open_binary
check_path file stack none n = (invalid, document_id_init)
check_path file stack (some path) none = (invalid, document_id_init)
check_path file stack (some path) (some n) =
    if n == 0 then (invalid, document_id_init) else open_binary file stack path

-- The identity is written through a pointer: NULL is `none`, and the result holds what stands
-- behind the pointer afterwards.
unfoldable pub koreader_binary :
    SampledFile → Context → Option Text → Option DocumentId → IdentityResult × Option DocumentId
unfolding check_path
koreader_binary file stack path none = (invalid, none)
koreader_binary file stack path (some identity) =
    let (result, written) = check_path file stack path (bounded_length path) in
    (result, some written)

abbrev pub file_name : Text → Text
file_name path = elim (strrchr path b'/') [ none ↦ path | some rest ↦ drop 1 rest ]

name_of : Context → Option Text → Option ℕ → IdentityResult × DocumentId
name_of stack none n = (invalid, document_id_init)
name_of stack (some path) none = (invalid, document_id_init)
name_of stack (some path) (some n) = (ok, md5_text stack (file_name path))

pub koreader_filename :
    Context → Option Text → Option DocumentId → IdentityResult × Option DocumentId
unfolding name_of
koreader_filename stack path none = (invalid, none)
koreader_filename stack path (some identity) =
    let (result, written) = name_of stack path (bounded_length path) in (result, some written)

-- The text behind `hex`, if the 33 bytes have the form of an identity.
unfoldable pub document_id_text : Option DocumentId → Option Text
document_id_text none = none
document_id_text (some identity) =
    if not (get_or identity.hex 32 1 == 0)
    then none
    else if all is_lower_hex (take 32 identity.hex)
    then some (take 32 identity.hex)
    else none
