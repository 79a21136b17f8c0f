-- ===== src/Utf8/Kosync.antt =====
-- `utf8_valid` of `src/sync/kosync.c`.
use Prim.Native.Nat.{bit_and, bit_or}
use crossnook.Base.{
  IsBytes, ℕ, zero, suc, ◌+◌, ◌*◌, ◌%◌, ◌≤◌, ◌<◌, ◌≡◌, refl, ◌∙◌, arith, Bool, not, ◌&&◌, ◌||◌,
  Option, none, some, List, [], ◌∷◌, ◌==◌, ltb, if◌then◌else◌, length, ◌<<<◌, and_7, and_15, and_31,
  and_63, or_shifted_6,
}
use crossnook.Utf8.{scan_text}
use crossnook.Utf8.Bytes.{is_continuation}
use crossnook.Utf8.Reference.{within, is_tail, decode_two, decode_three, decode_four, decode}

-- What a lead byte from 0x80 on says: the bits it gives, the least value that its length may
-- have, and how many bytes follow.
pub record Lead : Type 0 where
  pub value : ℕ
  pub minimum : ℕ
  pub remaining : ℕ

unfoldable pub lead : ℕ → Option Lead
lead c =
    if within 0xc2 0xdf c
    then some (record { value = bit_and c 0x1f; minimum = 0x80; remaining = 1 })
    else if within 0xe0 0xef c
    then some (record { value = bit_and c 0x0f; minimum = 0x800; remaining = 2 })
    else if within 0xf0 0xf4 c
    then some (record { value = bit_and c 0x07; minimum = 0x10000; remaining = 3 })
    else none

-- `while (remaining-- > 0)`: the value and what is left.
unfoldable pub tail_bytes : ℕ → ℕ → List ℕ → Option (ℕ × List ℕ)
tail_bytes zero value text = some (value, text)
tail_bytes (suc remaining) value [] = none
tail_bytes (suc remaining) value (next ∷ text) =
    let rest = tail_bytes remaining (bit_or (value <<< 6) (bit_and next 0x3f)) text in
    if not (bit_and next 0xc0 == 0x80) then none else rest

unfoldable pub is_refused : ℕ → ℕ → Bool
is_refused minimum value = ltb value minimum || (ltb 0x10ffff value || within 0xd800 0xdfff value)

-- The end of the body: the value is checked.
abbrev pub checked : ℕ → Option (ℕ × List ℕ) → Option (ℕ × List ℕ)
checked minimum none = none
checked minimum (some (value, rest)) = if is_refused minimum value then none else some (value, rest)

abbrev pub follow : Option Lead → List ℕ → Option (ℕ × List ℕ)
follow none text = none
follow (some l) text =
    if ltb (length text) l.remaining
    then none
    else checked l.minimum (tail_bytes l.remaining l.value text)

-- The body of the loop.
unfoldable pub sequence : ℕ → List ℕ → Option (ℕ × List ℕ)
sequence c text =
    if ltb c 0x80 then if c == 0 then none else some (c, text) else follow (lead c) text

unfoldable pub utf8_valid : List ℕ → Bool
utf8_valid = scan_text sequence

-- A byte shifted into the value.
shift_in : (value next : ℕ) → bit_or (value * 64) (bit_and next 0x3f) ≡ value * 64 + next % 64
shift_in value next = rw (and_63 next) (or_shifted_6 value (next % 64) (omega arith))

tail_step :
    (remaining value next : ℕ) (text : List ℕ)
    → next < 256
    → tail_bytes (suc remaining) value (next ∷ text)
      ≡ (if is_tail next then tail_bytes remaining (value * 64 + next % 64) text else none)
unfolding tail_bytes
tail_step remaining value next text h =
    rw (is_continuation next h, shift_in value next) (ground arith)

pub tails_one :
    (v x : ℕ) (text : List ℕ)
    → x < 256
    → tail_bytes 1 v (x ∷ text) ≡ (if is_tail x then some (v * 64 + x % 64, text) else none)
tails_one v x text h = tail_step 0 v x text h ∙ unfold tail_bytes in refl

pub tails_two :
    (v x y : ℕ) (text : List ℕ)
    → x < 256
    → y < 256
    → tail_bytes 2 v (x ∷ y ∷ text)
      ≡ (if is_tail x && is_tail y then some (v * 4096 + x % 64 * 64 + y % 64, text) else none)
tails_two v x y text h k =
    tail_step 1 v x (y ∷ text) h ∙ rw (tails_one (v * 64 + x % 64) y text k) (ground arith)

pub tails_three :
    (v x y z : ℕ) (text : List ℕ)
    → x < 256
    → y < 256
    → z < 256
    → tail_bytes 3 v (x ∷ y ∷ z ∷ text) ≡ (
        if is_tail x && (is_tail y && is_tail z)
        then some (v * 262144 + x % 64 * 4096 + y % 64 * 64 + z % 64, text)
        else none)
tails_three v x y z text h k l =
    tail_step 2 v x (y ∷ z ∷ text) h ∙ rw (tails_two (v * 64 + x % 64) y z text k l) (ground arith)

-- What the lead of a sequence of two, three and four bytes makes of the rest.
follow_two :
    (c : ℕ) (text : List ℕ)
    → IsBytes text
    → 0xc2 ≤ c
    → c ≤ 0xdf
    → follow (some (record { value = c % 32; minimum = 0x80; remaining = 1 })) text
      ≡ decode_two c text
unfolding decode_two is_refused
follow_two c [] b lo hi = ground arith
follow_two c (x ∷ rest) b lo hi = ground (arith, tails_one (c % 32) x rest)

follow_three :
    (c : ℕ) (text : List ℕ)
    → IsBytes text
    → 0xe0 ≤ c
    → c ≤ 0xef
    → follow (some (record { value = c % 16; minimum = 0x800; remaining = 2 })) text
      ≡ decode_three c text
unfolding decode_three is_refused
follow_three c [] b lo hi = ground arith
follow_three c (x ∷ []) b lo hi = ground arith
follow_three c (x ∷ y ∷ rest) b lo hi = ground (arith, tails_two (c % 16) x y rest)

follow_four :
    (c : ℕ) (text : List ℕ)
    → IsBytes text
    → 0xf0 ≤ c
    → c ≤ 0xf4
    → follow (some (record { value = c % 8; minimum = 0x10000; remaining = 3 })) text
      ≡ decode_four c text
unfolding decode_four is_refused
follow_four c [] b lo hi = ground arith
follow_four c (x ∷ []) b lo hi = ground arith
follow_four c (x ∷ y ∷ []) b lo hi = ground arith
follow_four c (x ∷ y ∷ z ∷ rest) b lo hi = ground (arith, tails_three (c % 8) x y z rest)

lead_masks :
    (c : ℕ)
    → lead c ≡ (
        if within 0xc2 0xdf c
        then some (record { value = c % 32; minimum = 0x80; remaining = 1 })
        else if within 0xe0 0xef c
        then some (record { value = c % 16; minimum = 0x800; remaining = 2 })
        else if within 0xf0 0xf4 c
        then some (record { value = c % 8; minimum = 0x10000; remaining = 3 })
        else none)
unfolding lead
lead_masks c = rw (and_31 c, and_15 c, and_7 c)

-- On bytes, the body of the loop reads a scalar value exactly as the reference does.
pub sequence-decode :
    (c : ℕ) (text : List ℕ) → c < 256 → IsBytes text → sequence c text ≡ decode c text
unfolding sequence decode
sequence-decode c text h b =
    rw (lead_masks c)
      (ground (arith, follow_two c text b, follow_three c text b, follow_four c text b))
