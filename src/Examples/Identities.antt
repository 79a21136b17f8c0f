-- ===== src/Examples/Identities.antt =====
-- Runs of `src/book/koreader_identity.c`.
use crossnook.Base.{
  all, is_lower_hex, Text, true, ◌≡◌, refl, arith, true, false, not, none, some, [], ◌∷◌, ◌++◌,
  ◌==◌, if◌then◌else◌, replicate, Text, codes,
}
use crossnook.Md5.{Context, initial}
use crossnook.Md5.Digest.{reference_digest, join}
use crossnook.KoreaderIdentity.{
  ok, io_error, SampledFile, document_id_init, document_id_text, digest_to_text, koreader_binary,
  koreader_filename, sample_offsets,
}
use crossnook.KoreaderIdentity.Binary.{
  Named, sampled_pieces, koreader_binary-reference_digest, koreader_binary-Named,
}
use crossnook.KoreaderIdentity.FileName.{koreader_filename-folder}
use crossnook.KoreaderIdentity.Laws.{read_hex, document_id_text-digest_to_text}

abbrev stack : Context
stack = record { state = initial; byte_count = 3; buffer = replicate 64 170; buffer_length = 12 }

-- A file of three bytes.
abbrev three_bytes : SampledFile
three_bytes = record {
  opens = λ path. true;
  seeks = λ path offset. true;
  reads = λ path offset. if offset == 0 then 65 ∷ 66 ∷ 67 ∷ [] else [];
  errs = λ path offset. false;
  closes = λ path. true;
}

-- The path that the book is read from.
abbrev path : Text
path = codes "/b"

koreader_binary-reference_digest_example :
    koreader_binary three_bytes stack (some path) (some document_id_init) ≡ (
      if not (three_bytes.opens path)
      then (io_error, some document_id_init)
      else elim (sampled_pieces three_bytes path sample_offsets) [
        | none ↦ (io_error, some document_id_init)
        | some pieces ↦
            if not (three_bytes.closes path)
            then (io_error, some document_id_init)
            else (ok, some (digest_to_text (reference_digest (join pieces))))
      ])
koreader_binary-reference_digest_example =
    koreader_binary-reference_digest three_bytes stack path document_id_init refl (omega arith)
      (omega arith)

koreader_binary-Named_example :
    let (result, written) = koreader_binary three_bytes stack (some path) (some document_id_init) in
    Named result written
koreader_binary-Named_example = koreader_binary-Named three_bytes stack (some path) document_id_init

koreader_filename-folder_example :
    (koreader_filename stack (some (codes "/d" ++ b'/' ∷ codes "a.b")) (some document_id_init)
      ≡ (ok, some (digest_to_text (reference_digest (codes "a.b")))))
    × (koreader_filename stack (some (codes "a.b")) (some document_id_init)
        ≡ (ok, some (digest_to_text (reference_digest (codes "a.b")))))
koreader_filename-folder_example =
    koreader_filename-folder stack (codes "/d") (codes "a.b") document_id_init refl refl
      (omega arith)

document_id_text-digest_to_text_example :
    (text : Text) × (document_id_text (some (digest_to_text (replicate 16 171))) ≡ some text)
    × (all is_lower_hex text ≡ true)
    × (read_hex text ≡ replicate 16 171)
document_id_text-digest_to_text_example =
    document_id_text-digest_to_text (replicate 16 171) (omega arith) refl
