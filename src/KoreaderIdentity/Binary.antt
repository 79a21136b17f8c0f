-- ===== src/KoreaderIdentity/Binary.antt =====
-- The identities as hashes of an explicit byte sequence, and their form.
use mathlib.Core.Option
use crossnook.Base.{
  ℕ, zero, suc, ◌+◌, ◌≤◌, ◌<◌, ◌≡◌, refl, ◌∙◌, sym, arith, Bool, true, false, not, Option, none,
  some, List, [], ◌∷◌, ◌==◌, if◌then◌else◌, length, is_lower_hex, all, Text, scan_end_lem,
}
use crossnook.Md5.{Context, init, update, final}
use crossnook.Md5.Digest.{update_each, join, reference_digest, final-reference_digest}
use crossnook.KoreaderIdentity.{
  IdentityResult, ok, invalid, io_error, DocumentId, SampledFile, path_max_bytes, sample_offsets,
  bounded_length, hex_text, digest_to_text, document_id_init, sample_all, finish_binary,
  open_binary, check_path, koreader_binary, document_id_text,
}
use crossnook.KoreaderIdentity.Laws.{
  hex_text-is_lower_hex, length-hex_text, identity_text, final-IsBytes,
}

-- The samples that are hashed: up to the first empty one, and none at all after an error.
pub sampled_pieces : SampledFile → Text → List ℕ → Option (List (List ℕ))
sampled_pieces file path [] = some []
sampled_pieces file path (offset ∷ offsets) =
    let rest =
      Option.map (λ pieces. file.reads path offset ∷ pieces) (sampled_pieces file path offsets) in
    if not (file.seeks path offset)
    then none
    else if file.errs path offset
    then none
    else if length (file.reads path offset) == 0
    then some []
    else rest

map-update_each :
    (context : Context) (piece : List ℕ) (rest : Option (List (List ℕ)))
    → Option.map (update_each context) (Option.map (λ pieces. piece ∷ pieces) rest)
      ≡ Option.map (update_each (update context piece)) rest
unfolding update_each
map-update_each context piece none = refl
map-update_each context piece (some pieces) = refl

sample_all-pieces :
    (file : SampledFile) (path : Text) (offsets : List ℕ) (context : Context)
    → sample_all file path offsets context
      ≡ Option.map (update_each context) (sampled_pieces file path offsets)
unfolding sample_all sampled_pieces update_each
sample_all-pieces file path [] context = refl
sample_all-pieces file path (offset ∷ offsets) context =
    let ih = sample_all-pieces file path offsets (update context (file.reads path offset)) in
    let step =
      map-update_each context (file.reads path offset) (sampled_pieces file path offsets) in
    branches (not (file.seeks path offset)) (file.errs path offset)
      (length (file.reads path offset) == 0) _ _ (ih ∙ sym step)
  where
    branches :
        (a b c : Bool) (x : Option Context) (y : Option (List (List ℕ)))
        → x ≡ Option.map (update_each context) y
        → (if a then none else if b then none else if c then some context else x)
          ≡ Option.map
              (update_each context)
              (if a then none else if b then none else if c then some [] else y)
    branches true b c x y e = refl
    branches false true c x y e = refl
    branches false false true x y e = refl
    branches false false false x y e = e

pub bounded_length_lem :
    (path : Text) → length path ≤ path_max_bytes → bounded_length (some path) ≡ some (length path)
bounded_length_lem path h = scan_end_lem (path_max_bytes + 1) 0 path ∙ ground arith

-- With a 64-byte buffer and a path of 1 to 4096 bytes, the binary identity of a file is the
-- hexadecimal byte-at-a-time digest of its samples up to the first empty one; a file that does
-- not open, fails before that sample or fails to close gives an I/O error and the zeroed
-- identity.
pub koreader_binary-reference_digest :
    (file : SampledFile) (stack : Context) (path : Text) (identity : DocumentId)
    → length stack.buffer ≡ 64
    → 0 < length path
    → length path ≤ path_max_bytes
    → koreader_binary file stack (some path) (some identity) ≡ (
        if not (file.opens path)
        then (io_error, some document_id_init)
        else elim (sampled_pieces file path sample_offsets) [
          | none ↦ (io_error, some document_id_init)
          | some pieces ↦
              if not (file.closes path)
              then (io_error, some document_id_init)
              else (ok, some (digest_to_text (reference_digest (join pieces))))
        ])
unfolding koreader_binary check_path open_binary finish_binary
koreader_binary-reference_digest file stack path identity size pos fits =
    let measured = bounded_length_lem path fits in
    let more : (length path == 0) ≡ false = ground arith in
    rw (measured, more, sample_all-pieces file path sample_offsets (init stack))
      (closed (file.opens path) (file.closes path) (sampled_pieces file path sample_offsets))
  where
    closed :
        (opens closes : Bool) (pieces : Option (List (List ℕ)))
        → let (result, written) =
            if not opens
            then (io_error, document_id_init)
            else finish_binary closes (Option.map (update_each (init stack)) pieces) in
          ◌≡◌ {A = IdentityResult × Option DocumentId}
            (result, some written)
            (if not opens then (io_error, some document_id_init) else elim pieces [
              | none ↦ (io_error, some document_id_init)
              | some pieces' ↦
                  if not closes
                  then (io_error, some document_id_init)
                  else (ok, some (digest_to_text (reference_digest (join pieces'))))
            ])
    closed false closes pieces = refl
    closed true closes none = refl
    closed true false (some pieces) = refl
    closed true true (some pieces) = rw (final-reference_digest stack pieces size)

zeroed_text : document_id_text (some document_id_init) ≡ none
unfolding document_id_text document_id_init
zeroed_text = refl

-- A text of an identity that the code accepts.
abbrev pub IsIdentityText : Text → Type 0
IsIdentityText text = (length text ≡ 32) × (all is_lower_hex text ≡ true)

hashed_text :
    (context : Context)
    → (text : Text) × (document_id_text (some (digest_to_text (final context))) ≡ some text)
      × IsIdentityText text
hashed_text context =
    let (bytes, size) = final-IsBytes context in
    (
      hex_text (final context),
      identity_text (final context) bytes size,
      (omega (arith, length-hex_text (final context)), hex_text-is_lower_hex (final context) bytes),
    )

-- What a result says of the identity that was written with it.
abbrev pub Named : IdentityResult → Option DocumentId → Type 0
Named ok written = (text : Text) × (document_id_text written ≡ some text) × IsIdentityText text
Named invalid written = document_id_text written ≡ none
Named io_error written = document_id_text written ≡ none

finish_binary-Named :
    (closes : Bool) (context : Option Context)
    → let (result, written) = finish_binary closes context in Named result (some written)
unfolding finish_binary
finish_binary-Named closes none = zeroed_text
finish_binary-Named false (some context) = zeroed_text
finish_binary-Named true (some context) = hashed_text context

open_binary-Named :
    (file : SampledFile) (stack : Context) (path : Text)
    → let (result, written) = open_binary file stack path in Named result (some written)
unfolding open_binary
open_binary-Named file stack path = branches (file.opens path)
  where
    tail : IdentityResult × DocumentId
    tail = finish_binary (file.closes path) (sample_all file path sample_offsets (init stack))

    branches :
        (opens : Bool)
        → let (result, written) = if not opens then (io_error, document_id_init) else tail in
          Named result (some written)
    branches false = zeroed_text
    branches true = finish_binary-Named (file.closes path) _

-- Whatever the path and the file do, the identity written has a text exactly when the result is
-- ok, and the text is then 32 lower-case hexadecimal digits.
pub koreader_binary-Named :
    (file : SampledFile) (stack : Context) (path : Option Text) (identity : DocumentId)
    → let (result, written) = koreader_binary file stack path (some identity) in
      Named result written
unfolding koreader_binary check_path
koreader_binary-Named file stack none identity = zeroed_text
koreader_binary-Named file stack (some path) identity = measured (bounded_length (some path))
  where
    measured :
        (n : Option ℕ)
        → let (result, written) = check_path file stack (some path) n in Named result (some written)
    measured none = zeroed_text
    measured (some zero) = zeroed_text
    measured (some (suc n)) =
        let more : (suc n == 0) ≡ false = ground arith in
        rw more (open_binary-Named file stack path)
