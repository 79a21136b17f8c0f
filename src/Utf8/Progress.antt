-- ===== src/Utf8/Progress.antt =====
-- `utf8_valid` of `src/progress/progress_store.c`, which checks the ranges of the bytes and computes
-- no value: its body hands back the lead byte in the place of one.
use crossnook.Base.{
  IsBytes, ℕ, zero, suc, ◌-◌, ◌<◌, ◌≡◌, arith, Bool, true, false, ◌||◌, Option, none, some, List,
  [], ◌∷◌, ◌==◌, ltb, leb, if◌then◌else◌, length, Bool-cases, inl, inr,
}
use crossnook.Utf8.{scan_text}
use crossnook.Utf8.Reference.{within, decode_two, decode_three, decode_four, decode}

-- What a lead byte from 0x80 on says of the bytes that follow.
pub record Lead : Type 0 where
  pub continuation : ℕ
  pub min_second : ℕ
  pub max_second : ℕ

abbrev lead_of : ℕ → ℕ → ℕ → Lead
lead_of continuation lo hi = record {
  continuation = continuation;
  min_second = lo;
  max_second = hi;
}

unfoldable pub lead : ℕ → Option Lead
lead c =
    if within 0xc2 0xdf c
    then some (lead_of 1 0x80 0xbf)
    else if within 0xe0 0xef c
    then some (
        if c == 0xe0
        then lead_of 2 0xa0 0xbf
        else if c == 0xed
        then lead_of 2 0x80 0x9f
        else lead_of 2 0x80 0xbf)
    else if within 0xf0 0xf4 c
    then some (
        if c == 0xf0
        then lead_of 3 0x90 0xbf
        else if c == 0xf4
        then lead_of 3 0x80 0x8f
        else lead_of 3 0x80 0xbf)
    else none

-- `while (--continuation > 0)`, over the count of rounds.
unfoldable pub later_bytes : ℕ → ℕ → List ℕ → Option (ℕ × List ℕ)
later_bytes zero c text = some (c, text)
later_bytes (suc n) c [] = none
later_bytes (suc n) c (x ∷ text) =
    let rest = later_bytes n c text in if ltb x 0x80 || ltb 0xbf x then none else rest

abbrev second_byte : Lead → ℕ → List ℕ → Option (ℕ × List ℕ)
second_byte l c [] = none
second_byte l c (x ∷ text) =
    if ltb x l.min_second || ltb l.max_second x
    then none
    else later_bytes (l.continuation - 1) c text

abbrev follow : Option Lead → ℕ → List ℕ → Option (ℕ × List ℕ)
follow none c text = none
follow (some l) c text = if ltb (length text) l.continuation then none else second_byte l c text

-- The body of the loop.
unfoldable pub sequence : ℕ → List ℕ → Option (ℕ × List ℕ)
sequence c text =
    if c == 0 then none else if leb c 0x7f then some (c, text) else follow (lead c) c text

unfoldable pub utf8_valid : List ℕ → Bool
utf8_valid = scan_text sequence

abbrev pub rest_of : Option (ℕ × List ℕ) → Option (List ℕ)
rest_of none = none
rest_of (some (value, rest)) = some rest

sequence_two :
    (c : ℕ) (text : List ℕ)
    → within 0xc2 0xdf c ≡ true
    → rest_of (sequence c text) ≡ rest_of (decode_two c text)
unfolding sequence lead decode_two later_bytes
sequence_two c [] h = ground arith
sequence_two c (x ∷ text) h = ground arith

sequence_three :
    (c : ℕ) (text : List ℕ)
    → within 0xe0 0xef c ≡ true
    → IsBytes text
    → rest_of (sequence c text) ≡ rest_of (decode_three c text)
unfolding sequence lead decode_three later_bytes
sequence_three c [] h b = ground arith
sequence_three c (x ∷ []) h b = ground arith
sequence_three c (x ∷ y ∷ text) h b = ground arith

sequence_four :
    (c : ℕ) (text : List ℕ)
    → within 0xf0 0xf4 c ≡ true
    → IsBytes text
    → rest_of (sequence c text) ≡ rest_of (decode_four c text)
unfolding sequence lead decode_four later_bytes
sequence_four c [] h b = ground arith
sequence_four c (x ∷ []) h b = ground arith
sequence_four c (x ∷ y ∷ []) h b = ground arith
sequence_four c (x ∷ y ∷ z ∷ text) h b = ground arith

sequence_other :
    (c : ℕ) (text : List ℕ)
    → within 0xc2 0xdf c ≡ false
    → within 0xe0 0xef c ≡ false
    → within 0xf0 0xf4 c ≡ false
    → rest_of (sequence c text) ≡ rest_of (decode c text)
unfolding sequence lead decode
sequence_other c text h k l = ground arith

decode_by_lead :
    (c : ℕ) (text : List ℕ)
    → (within 0xc2 0xdf c ≡ true → decode c text ≡ decode_two c text)
      × (within 0xe0 0xef c ≡ true → decode c text ≡ decode_three c text)
      × (within 0xf0 0xf4 c ≡ true → decode c text ≡ decode_four c text)
unfolding decode
decode_by_lead c text = (λ h. ground arith, λ h. ground arith, λ h. ground arith)

-- On bytes, the body leaves what the reference leaves, and refuses what it refuses.
pub sequence-decode :
    (c : ℕ) (text : List ℕ)
    → c < 256
    → IsBytes text
    → rest_of (sequence c text) ≡ rest_of (decode c text)
sequence-decode c text h b = elim (Bool-cases (within 0xc2 0xdf c)) [
  | inl two ↦ rw ((decode_by_lead c text).0 two) (sequence_two c text two)
  | inr a ↦ elim (Bool-cases (within 0xe0 0xef c)) [
    | inl three ↦ rw ((decode_by_lead c text).1 three) (sequence_three c text three b)
    | inr k ↦ elim (Bool-cases (within 0xf0 0xf4 c)) [
      | inl four ↦ rw ((decode_by_lead c text).2 four) (sequence_four c text four b)
      | inr l ↦ sequence_other c text a k l
    ]
  ]
]
