-- ===== src/Md5/Digest.antt =====
-- What the final call computes, and that the cuts of the message do not matter to it.
use mathlib.Core.Path.{ap₂}
use crossnook.Base.{
  ℕ, zero, suc, ◌+◌, ◌-◌, ◌*◌, ◌%◌, ◌≤◌, ◌<◌, ◌≡◌, refl, ap, ◌∙◌, sym, arith, List, [], ◌∷◌, ◌++◌,
  ltb, if◌then◌else◌, length, length-append, take, length-take, replicate, length-replicate, u64,
}
use crossnook.Md5.{
  Context, init, initial, padding, length_bytes, padding_length, digest_of, update, final,
}
use crossnook.Md5.Absorb.{Absorbed, absorb, absorb-append, absorb-nil, absorb-pending}
use crossnook.Md5.Fill.{IsValid, absorbed}
use crossnook.Md5.Stream.{update-absorb, byte_count-update}

-- The end of a message of RFC 1321: a bit, zeros to 56 bytes past a multiple of 64, the bit count.
abbrev pub trailer : ℕ → ℕ → List ℕ
trailer used count =
    (0x80 ∷ replicate (if ltb used 56 then 55 - used else 119 - used) 0)
    ++ length_bytes (u64 (count * 8))

take-replicate : (n m : ℕ) → n ≤ m → take {A = ℕ} n (replicate m 0) ≡ replicate n 0
take-replicate zero m h = refl
take-replicate (suc n) zero h = absurd (omega arith)
take-replicate (suc n) (suc m) h = ap (◌∷◌ 0) (take-replicate n m (omega arith))

padding_length_lem :
    (used : ℕ)
    → used < 64
    → padding_length used ≡ suc (if ltb used 56 then 55 - used else 119 - used)
unfolding padding_length
padding_length_lem used h = ground arith

take-padding :
    (used : ℕ)
    → used < 64
    → take (padding_length used) padding
      ≡ 0x80 ∷ replicate (if ltb used 56 then 55 - used else 119 - used) 0
take-padding used h =
    rw (padding_length_lem used h) (ap (◌∷◌ 0x80) (take-replicate _ 63 (ground arith)))

length-length_bytes : (bits : ℕ) → length (length_bytes bits) ≡ 8
unfolding length_bytes
length-length_bytes bits = refl

-- The trailer ends a block.
trailer_fills : (used count : ℕ) → used < 64 → (used + length (trailer used count)) % 64 ≡ 0
trailer_fills used count h = ground (
  arith,
  length-append (0x80 ∷ replicate (if ltb used 56 then 55 - used else 119 - used) 0)
      (length_bytes (u64 (count * 8))),
  length-replicate {A = ℕ} (if ltb used 56 then 55 - used else 119 - used) 0,
  length-length_bytes (u64 (count * 8)),
)

eq_nil : (xs : List ℕ) → length xs ≡ 0 → xs ≡ []
eq_nil [] h = refl
eq_nil (x ∷ xs) h = absurd (omega arith)

-- What the final call of a valid context gives: the trailer is absorbed like the message.
pub final-absorb :
    (context : Context)
    → IsValid context
    → let s = absorbed context in
      let end = absorb s (trailer (length s.pending) context.byte_count) in
      (final context ≡ digest_of end.chain) × (end.pending ≡ [])
unfolding final
final-absorb context v = (ap (λ s. digest_of s.chain) reached, nothing_left)
  where
    used : length (absorbed context).pending ≡ context.buffer_length
    used = length-take context.buffer_length context.buffer (omega arith)

    bytes : List ℕ
    bytes = length_bytes (u64 (context.byte_count * 8))

    pad : List ℕ
    pad = take (padding_length context.buffer_length) padding

    first :
        (absorbed (update context pad) ≡ absorb (absorbed context) pad)
        × IsValid (update context pad)
    first = update-absorb context pad v

    reached :
        absorbed (update (update context pad) bytes)
        ≡ absorb (absorbed context) (trailer (length (absorbed context).pending) context.byte_count)
    reached =
        (update-absorb (update context pad) bytes first.1).0
        ∙ ap (λ s. absorb s bytes) first.0
        ∙ sym (absorb-append (absorbed context) pad bytes)
        ∙ ap (λ t. absorb (absorbed context) (t ++ bytes))
            (take-padding context.buffer_length v.not_full)
        ∙ ap (λ n. absorb (absorbed context) (trailer n context.byte_count)) (sym used)

    nothing_left :
        (absorb
          (absorbed context)
          (trailer (length (absorbed context).pending) context.byte_count)).pending
        ≡ []
    nothing_left = eq_nil _ (
        absorb-pending (absorbed context) _ (omega (arith, used))
        ∙ trailer_fills (length (absorbed context).pending) context.byte_count
            (omega (arith, used)))

-- The digest is a function of what was absorbed and of the byte count.
pub final_ext :
    (c d : Context)
    → IsValid c
    → IsValid d
    → absorbed c ≡ absorbed d
    → c.byte_count ≡ d.byte_count
    → final c ≡ final d
final_ext c d v w e n =
    (final-absorb c v).0
    ∙ ap₂ (λ s count. digest_of (absorb s (trailer (length s.pending) count)).chain) e n
    ∙ sym (final-absorb d w).0

-- A message fed in pieces.
unfoldable pub update_each : Context → List (List ℕ) → Context
update_each context [] = context
update_each context (piece ∷ pieces) = update_each (update context piece) pieces

abbrev pub join : List (List ℕ) → List ℕ
join [] = []
join (piece ∷ pieces) = piece ++ join pieces

update_each-join :
    (context : Context) (pieces : List (List ℕ))
    → IsValid context
    → (absorbed (update_each context pieces) ≡ absorb (absorbed context) (join pieces))
      × IsValid (update_each context pieces)
      × ((update_each context pieces).byte_count ≡ u64 (context.byte_count + length (join pieces)))
unfolding update_each
update_each-join context [] v = (sym (absorb-nil _), v, omega arith)
update_each-join context (piece ∷ pieces) v =
    let (e, w) = update-absorb context piece v in
    let (e', w', n) = update_each-join (update context piece) pieces w in
    (
      e' ∙ ap (λ s. absorb s (join pieces)) e ∙ sym (absorb-append _ piece (join pieces)),
      w',
      omega (arith, n, byte_count-update context piece, length-append piece (join pieces)),
    )

-- From every valid context, feeding pieces one by one and closing gives the same digest as
-- feeding their concatenation in one call and closing.
pub final-update_each :
    (context : Context) (pieces : List (List ℕ))
    → IsValid context
    → final (update_each context pieces) ≡ final (update context (join pieces))
final-update_each context pieces v =
    let (e, w, n) = update_each-join context pieces v in
    let (e', w') = update-absorb context (join pieces) v in
    final_ext _ _ w w' (e ∙ sym e') (n ∙ sym (byte_count-update context (join pieces)))

-- A context that was just initialised is valid, whatever the struct held, if the buffer has its
-- 64 bytes, and nothing is pending in it.
pub init-IsValid :
    (context : Context)
    → length context.buffer ≡ 64
    → IsValid (init context) × (absorbed (init context) ≡ record { chain = initial; pending = [] })
unfolding init
init-IsValid context h =
    (record { buffer_size = h; not_full = omega arith; counted = omega arith }, refl)

init-byte_count : (context : Context) → (init context).byte_count ≡ 0
unfolding init
init-byte_count context = refl

-- The digest of RFC 1321 read one byte at a time: the message and its trailer from the start.
pub reference_digest : List ℕ → List ℕ
reference_digest message =
    let start : Absorbed = record { chain = initial; pending = [] } in
    let end = trailer (length message % 64) (u64 (length message)) in
    digest_of (absorb start (message ++ end)).chain

-- With a 64-byte buffer, initialising, updating with a whole message and closing gives the state
-- of a machine that reads one byte at a time over the message and its RFC 1321 trailer, where the
-- trailer ends a block.
pub final-update-init :
    (context : Context) (message : List ℕ)
    → length context.buffer ≡ 64
    → let start : Absorbed = record { chain = initial; pending = [] } in
      let used = length message % 64 in
      let end = absorb start (message ++ trailer used (u64 (length message))) in
      (final (update (init context) message) ≡ digest_of end.chain) × (end.pending ≡ [])
final-update-init context message h =
    (closed.0 ∙ ap (λ s. digest_of s.chain) same, ap (λ s. s.pending) (sym same) ∙ closed.1)
  where
    start : Absorbed
    start = record { chain = initial; pending = [] }

    fresh : IsValid (init context) × (absorbed (init context) ≡ start)
    fresh = init-IsValid context h

    fed :
        (absorbed (update (init context) message) ≡ absorb (absorbed (init context)) message)
        × IsValid (update (init context) message)
    fed = update-absorb (init context) message fresh.0

    read : absorbed (update (init context) message) ≡ absorb start message
    read = fed.0 ∙ ap (λ s. absorb s message) fresh.1

    counted : (update (init context) message).byte_count ≡ u64 (length message)
    counted = omega (arith, byte_count-update (init context) message, init-byte_count context)

    used : length (absorb start message).pending ≡ length message % 64
    used = omega (arith, absorb-pending start message (omega arith))

    closed :
        let s = absorbed (update (init context) message) in
        let end =
          absorb s (trailer (length s.pending) (update (init context) message).byte_count) in
        (final (update (init context) message) ≡ digest_of end.chain) × (end.pending ≡ [])
    closed = final-absorb (update (init context) message) fed.1

    same :
        absorb (absorbed (update (init context) message)) (
          trailer
            (length (absorbed (update (init context) message)).pending)
            (update (init context) message).byte_count)
        ≡ absorb start (message ++ trailer (length message % 64) (u64 (length message)))
    same =
        ap₂ (λ s count. absorb s (trailer (length s.pending) count)) read counted
        ∙ ap (λ n. absorb (absorb start message) (trailer n (u64 (length message)))) used
        ∙ sym (absorb-append start message _)

pub final-reference_digest :
    (context : Context) (pieces : List (List ℕ))
    → length context.buffer ≡ 64
    → final (update_each (init context) pieces) ≡ reference_digest (join pieces)
unfolding reference_digest
final-reference_digest context pieces h =
    final-update_each (init context) pieces (init-IsValid context h).0
    ∙ (final-update-init context (join pieces) h).0

pub final-update-reference_digest :
    (context : Context) (message : List ℕ)
    → length context.buffer ≡ 64
    → final (update (init context) message) ≡ reference_digest message
unfolding reference_digest
final-update-reference_digest context message h = (final-update-init context message h).0
