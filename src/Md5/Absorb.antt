-- ===== src/Md5/Absorb.antt =====
-- MD5 read one byte at a time: the independent description of what the buffering computes.
use crossnook.Base.{
  ℕ, ◌%◌, ◌+◌, ◌<◌, ◌≡◌, refl, ◌∙◌, arith, List, [], ◌∷◌, ◌++◌, ◌==◌, if◌then◌else◌, length,
  length-append, append-nil, append_assoc, ==_iff,
}
use crossnook.Md5.{State, transform}

-- A chaining state and the bytes of the block that is not complete.
pub record Absorbed : Type 0 where
  pub chain : State
  pub pending : List ℕ

abbrev pub absorb_byte : Absorbed → ℕ → Absorbed
absorb_byte s x =
    if length s.pending == 63
    then record { chain = transform s.chain (s.pending ++ x ∷ []); pending = [] }
    else record s { pending = s.pending ++ x ∷ [] }

pub absorb : Absorbed → List ℕ → Absorbed
absorb s [] = s
absorb s (x ∷ xs) = absorb (absorb_byte s x) xs

pub absorb-nil : (s : Absorbed) → absorb s [] ≡ s
unfolding absorb
absorb-nil s = refl

pub absorb-append : (s : Absorbed) (xs ys : List ℕ) → absorb s (xs ++ ys) ≡ absorb (absorb s xs) ys
unfolding absorb
absorb-append s [] ys = refl
absorb-append s (x ∷ xs) ys = absorb-append (absorb_byte s x) xs ys

absorb_byte_short :
    (s : Absorbed) (x : ℕ)
    → length s.pending + 1 < 64
    → absorb_byte s x ≡ record s { pending = s.pending ++ x ∷ [] }
absorb_byte_short s x h = ground arith

-- Bytes that do not complete a block are kept.
pub absorb_short :
    (s : Absorbed) (xs : List ℕ)
    → length s.pending + length xs < 64
    → absorb s xs ≡ record s { pending = s.pending ++ xs }
unfolding absorb
absorb_short s [] h = rw append-nil
absorb_short s (x ∷ xs) h = rw (absorb_byte_short s x (omega arith)) (
    absorb_short (record s { pending = s.pending ++ x ∷ [] }) xs
      (omega (arith, length-append s.pending (x ∷ [])))
    ∙ rw append_assoc)

-- The bytes that complete a block are compressed with it, and nothing stays pending.
pub absorb_block :
    (s : Absorbed) (xs : List ℕ)
    → length s.pending + length xs ≡ 64
    → length s.pending < 64
    → absorb s xs ≡ record { chain = transform s.chain (s.pending ++ xs); pending = [] }
unfolding absorb
absorb_block s [] h k = absurd (omega arith)
absorb_block s (x ∷ []) h k = rw ((==_iff (length s.pending) 63).1 (omega arith))
absorb_block s (x ∷ y ∷ ys) h k = rw (absorb_byte_short s x (omega arith)) (
    absorb_block (record s { pending = s.pending ++ x ∷ [] }) (y ∷ ys)
      (omega (arith, length-append s.pending (x ∷ [])))
      (omega (arith, length-append s.pending (x ∷ [])))
    ∙ rw append_assoc)

-- Absorbing keeps fewer than 64 bytes pending, and their number is that of all bytes, modulo 64.
pub absorb-pending-lt :
    (s : Absorbed) (xs : List ℕ) → length s.pending < 64 → length (absorb s xs).pending < 64
unfolding absorb
absorb-pending-lt s [] h = h
absorb-pending-lt s (x ∷ xs) h =
    absorb-pending-lt (absorb_byte s x) xs (ground (arith, length-append s.pending (x ∷ [])))

pub absorb-pending :
    (s : Absorbed) (xs : List ℕ)
    → length s.pending < 64
    → length (absorb s xs).pending ≡ (length s.pending + length xs) % 64
unfolding absorb
absorb-pending s [] h = omega arith
absorb-pending s (x ∷ xs) h = ground (
  arith,
  absorb-pending (absorb_byte s x) xs (ground (arith, length-append s.pending (x ∷ []))),
  length-append s.pending (x ∷ []),
)
