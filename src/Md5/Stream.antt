-- ===== src/Md5/Stream.antt =====
-- The buffered update against absorbing byte by byte, and what follows for the digest.
use crossnook.Base.{
  ℕ, ◌+◌, ◌<◌, ◌≡◌, refl, ap, ◌∙◌, sym, arith, List, [], ◌∷◌, ◌==◌, inl, inr, length, take, u64,
  false, memcpy, length-memcpy, take-memcpy_zero, take_all, ◌⊎◌,
}
use crossnook.Md5.{Context, update, fill_buffer, whole_blocks, keep_tail}
use crossnook.Md5.Absorb.{absorb, absorb_short, absorb-nil}
use crossnook.Md5.Fill.{IsValid, absorbed, whole_blocks-absorb, fill_buffer-absorb}

keep_some :
    (context : Context) (input : List ℕ)
    → 0 < length input
    → keep_tail context input ≡ record context {
      buffer = memcpy context.buffer 0 input (length input);
      buffer_length = length input;
    }
unfolding keep_tail
keep_some context input h = let more : (length input == 0) ≡ false = ground arith in rw more

-- The tail of the input that the update keeps.
keep_tail-absorb :
    (context : Context) (input : List ℕ)
    → IsValid context
    → (context.buffer_length ≡ 0) ⊎ (input ≡ [])
    → length input < 64
    → (absorbed (keep_tail context input) ≡ absorb (absorbed context) input)
      × IsValid (keep_tail context input)
keep_tail-absorb context [] v h k = unfold keep_tail in (sym (absorb-nil _), v)
keep_tail-absorb context (x ∷ xs) v (inr e) k = cc
keep_tail-absorb context (x ∷ xs) v (inl e) k = rw (keep_some context (x ∷ xs) (omega arith)) (
  ap (λ t. record { chain = context.state; pending = t })
        (take-memcpy_zero context.buffer (x ∷ xs) (omega arith)
          ∙ take_all (length (x ∷ xs)) (x ∷ xs) refl)
      ∙ sym (absorb_short (record { chain = context.state; pending = [] }) (x ∷ xs) (omega arith))
      ∙ ap
          (λ n. absorb (record { chain = context.state; pending = take n context.buffer }) (x ∷ xs))
          (sym e),
  record {
    buffer_size =
        length-memcpy context.buffer 0 (x ∷ xs) (length (x ∷ xs)) (omega arith) (omega arith)
        ∙ v.buffer_size;
    not_full = k;
    counted = v.counted;
  },
)

-- What the block loop leaves of the input, when there may be bytes in the buffer.
blocks-absorb :
    (context : Context) (input : List ℕ)
    → IsValid context
    → (context.buffer_length ≡ 0) ⊎ (input ≡ [])
    → let (s, tail) = whole_blocks (length input) context.state input in
      (absorb (absorbed (record context { state = s })) tail ≡ absorb (absorbed context) input)
      × ((context.buffer_length ≡ 0) ⊎ (tail ≡ []))
      × (length tail < 64)
unfolding whole_blocks
blocks-absorb context [] v h = (refl, inr refl, omega arith)
blocks-absorb context (x ∷ xs) v (inr e) = cc
blocks-absorb context (x ∷ xs) v (inl e) =
    let pend : take context.buffer_length context.buffer ≡ [] = ap (λ n. take n context.buffer) e in
    let (same, short) =
      whole_blocks-absorb (length (x ∷ xs)) context.state (x ∷ xs) (omega arith) in
    rw pend (sym same, inl e, short)

-- From a valid context an update absorbs its input byte by byte, in the order of the message, and
-- leaves a valid context.
pub update-absorb :
    (context : Context) (input : List ℕ)
    → IsValid context
    → (absorbed (update context input) ≡ absorb (absorbed context) input)
      × IsValid (update context input)
unfolding update
update-absorb context input v =
    let counted : Context = record context {
      byte_count = u64 (context.byte_count + length input);
    } in
    let valid : IsValid counted = record {
      buffer_size = v.buffer_size;
      not_full = v.not_full;
      counted = omega arith;
    } in
    let (e1, v1, h1) = fill_buffer-absorb counted input valid in
    let filled = fill_buffer counted input in
    let (e2, h2, k2) = blocks-absorb filled.0 filled.1 v1 h1 in
    let s' = (whole_blocks (length filled.1) filled.0.state filled.1).0 in
    let after : IsValid (record (filled.0) { state = s' }) = record {
      buffer_size = v1.buffer_size;
      not_full = v1.not_full;
      counted = v1.counted;
    } in
    let (e3, v3) = keep_tail-absorb _ _ after h2 k2 in (e3 ∙ e2 ∙ sym e1, v3)

-- Every update adds its length to the byte count, modulo 2 ^ 64.
pub byte_count-update :
    (context : Context) (input : List ℕ)
    → (update context input).byte_count ≡ u64 (context.byte_count + length input)
unfolding update fill_buffer keep_tail
byte_count-update context input = ground arith
