-- ===== src/Examples/Hashes.antt =====
-- Runs of `src/book/md5.c`.
use crossnook.Base.{◌%◌, ◌≡◌, refl, [], ◌∷◌, ◌++◌, length, replicate, u64, codes}
use crossnook.Md5.Absorb.{Absorbed, absorb}
use crossnook.Md5.Fill.{IsValid, absorbed}
use crossnook.Md5.Stream.{update-absorb}
use crossnook.Md5.Digest.{
  trailer, join, update_each, init-IsValid, final-update_each, final-update-init,
}
use crossnook.Md5.{
  Context, initial, init, update, final, transform, length_bytes, padding_length, digest_of,
  write_u32le,
}

abbrev fresh_context : Context
fresh_context = record {
  state = initial;
  byte_count = 7;
  buffer = replicate 64 9;
  buffer_length = 5;
}

md5_abc :
    final (update (init fresh_context) (codes "abc"))
    ≡ 0x90 ∷ 0x01 ∷ 0x50 ∷ 0x98 ∷ 0x3c ∷ 0xd2 ∷ 0x4f ∷ 0xb0 ∷ 0xd6 ∷ 0x96 ∷ 0x3f ∷ 0x7d ∷ 0x28
      ∷ 0xe1 ∷ 0x7f ∷ 0x72 ∷ []
unfolding final update transform init length_bytes padding_length digest_of write_u32le
md5_abc = refl

-- A run of the two-block kind: a partial buffer is filled, and a whole block stands in the input.
update-absorb_example :
    (absorbed (update (init fresh_context) (replicate 70 1))
      ≡ absorb (absorbed (init fresh_context)) (replicate 70 1))
    × IsValid (update (init fresh_context) (replicate 70 1))
update-absorb_example =
    update-absorb (init fresh_context) (replicate 70 1) (init-IsValid fresh_context refl).0

final-update_each_example :
    final (update_each (init fresh_context) (codes "a" ∷ replicate 66 7 ∷ codes "bc" ∷ []))
    ≡ final (update (init fresh_context) (join (codes "a" ∷ replicate 66 7 ∷ codes "bc" ∷ [])))
final-update_each_example =
    final-update_each (init fresh_context) (codes "a" ∷ replicate 66 7 ∷ codes "bc" ∷ [])
      (init-IsValid fresh_context refl).0

final-update-init_example :
    let start : Absorbed = record { chain = initial; pending = [] } in
    let used = length (codes "abc") % 64 in
    let end = absorb start (codes "abc" ++ trailer used (u64 (length (codes "abc")))) in
    (final (update (init fresh_context) (codes "abc")) ≡ digest_of end.chain) × (end.pending ≡ [])
final-update-init_example = final-update-init fresh_context (codes "abc") refl
