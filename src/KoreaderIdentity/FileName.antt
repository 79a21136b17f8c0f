-- ===== src/KoreaderIdentity/FileName.antt =====
-- The file name identity depends on the last path component only.
use crossnook.Base.{
  ℕ, ◌≤◌, ◌≡◌, refl, ap, ◌∙◌, arith, Bool, true, not, Option, none, some, List, [], ◌∷◌, ◌++◌, ◌==◌,
  length, length-append, Text, strrchr, all,
}
use crossnook.Md5.{Context}
use crossnook.Md5.Digest.{reference_digest, final-update-reference_digest}
use crossnook.KoreaderIdentity.{
  IdentityResult, ok, DocumentId, path_max_bytes, digest_to_text, file_name, koreader_filename,
  md5_text,
}
use crossnook.KoreaderIdentity.Binary.{bounded_length_lem}

abbrev pub no_slash : Text → Bool
no_slash = all (λ c. not (c == b'/'))

strrchr_absent : (name : Text) → no_slash name ≡ true → strrchr name b'/' ≡ none
strrchr_absent [] h = refl
strrchr_absent (c ∷ cs) h = ground (arith, strrchr_absent cs)

strrchr_last :
    (folder name : Text)
    → no_slash name ≡ true
    → strrchr (folder ++ b'/' ∷ name) b'/' ≡ some (b'/' ∷ name)
strrchr_last [] name h = ground (arith, strrchr_absent name h)
strrchr_last (c ∷ cs) name h = ground (arith, strrchr_last cs name h)

file_name_last :
    (folder name : Text) → no_slash name ≡ true → file_name (folder ++ b'/' ∷ name) ≡ name
file_name_last folder name h = rw (strrchr_last folder name h, file_name)

file_name_plain : (name : Text) → no_slash name ≡ true → file_name name ≡ name
file_name_plain name h = rw (strrchr_absent name h, file_name)

md5_text-reference_digest :
    (stack : Context) (bytes : List ℕ)
    → length stack.buffer ≡ 64
    → md5_text stack bytes ≡ digest_to_text (reference_digest bytes)
unfolding md5_text
md5_text-reference_digest stack bytes h =
    ap digest_to_text (final-update-reference_digest stack bytes h)

-- With a 64-byte buffer and a path within the limit whose file name has no slash, the file-name
-- identity is the digest of the file name, and it does not depend on the folder.
pub koreader_filename-folder :
    (stack : Context) (folder name : Text) (identity : DocumentId)
    → length stack.buffer ≡ 64
    → no_slash name ≡ true
    → length (folder ++ b'/' ∷ name) ≤ path_max_bytes
    → (koreader_filename stack (some (folder ++ b'/' ∷ name)) (some identity)
        ≡ (ok, some (digest_to_text (reference_digest name))))
      × (koreader_filename stack (some name) (some identity)
          ≡ (ok, some (digest_to_text (reference_digest name))))
unfolding koreader_filename
koreader_filename-folder stack folder name identity size plain fits = (
  rw (bounded_length_lem (folder ++ b'/' ∷ name) fits)
      (ap named (file_name_last folder name plain) ∙ digest),
  rw (bounded_length_lem name (omega (arith, length-append folder (b'/' ∷ name))))
      (ap named (file_name_plain name plain) ∙ digest),
)
  where
    named : Text → IdentityResult × Option DocumentId
    named text = (ok, some (md5_text stack text))

    digest : named name ≡ (ok, some (digest_to_text (reference_digest name)))
    digest = ap (λ d. (ok, some d)) (md5_text-reference_digest stack name size)
