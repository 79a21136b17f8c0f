-- ===== src/Utf8/DeviceName.antt =====
-- `utf8_device_name_valid` of `src/settings/settings_store.c`. Its loop over the continuation bytes is
-- the one of `utf8_valid` in `src/sync/kosync.c`.
use Prim.Native.Nat.{bit_and}
use crossnook.Base.{
  IsBytes, ℕ, ◌%◌, ◌<◌, ◌≡◌, arith, Bool, true, false, not, ◌||◌, Option, none, some, List, [], ◌∷◌,
  ◌==◌, ltb, if◌then◌else◌, length, and_7, and_15, and_31, Bool-cases, inl, inr, ◌↔◌, ltb→lt,
}
use crossnook.Utf8.{scan_text}
use crossnook.Utf8.Bytes.{is_lead_two, is_lead_three, is_lead_four}
use crossnook.Utf8.Reference.{within, decode_two, decode_three, decode_four, decode}
use crossnook.Utf8.Kosync.{Lead, tail_bytes, tails_one, tails_two, tails_three}
use crossnook.Utf8.Scan.{keep, IsEncoded, scan_text-IsEncoded}

unfoldable pub lead : ℕ → Option Lead
lead first =
    if ltb first 0x80
    then some (record { value = first; minimum = 0; remaining = 0 })
    else if bit_and first 0xe0 == 0xc0
    then some (record { value = bit_and first 0x1f; minimum = 0x80; remaining = 1 })
    else if bit_and first 0xf0 == 0xe0
    then some (record { value = bit_and first 0x0f; minimum = 0x800; remaining = 2 })
    else if bit_and first 0xf8 == 0xf0
    then some (record { value = bit_and first 0x07; minimum = 0x10000; remaining = 3 })
    else none

unfoldable pub is_refused : ℕ → ℕ → Bool
is_refused minimum codepoint =
    ltb codepoint minimum
    || (ltb 0x10ffff codepoint
        || (within 0xd800 0xdfff codepoint || (ltb codepoint 0x20 || within 0x7f 0x9f codepoint)))

abbrev checked : ℕ → Option (ℕ × List ℕ) → Option (ℕ × List ℕ)
checked minimum none = none
checked minimum (some (value, rest)) = if is_refused minimum value then none else some (value, rest)

abbrev follow : Option Lead → List ℕ → Option (ℕ × List ℕ)
follow none text = none
follow (some l) text =
    if ltb (length text) l.remaining
    then none
    else checked l.minimum (tail_bytes l.remaining l.value text)

-- The body of the loop.
unfoldable pub sequence : ℕ → List ℕ → Option (ℕ × List ℕ)
sequence first text = follow (lead first) text

unfoldable pub device_name_valid : List ℕ → Bool
device_name_valid = scan_text sequence

-- No control character: neither below 0x20 nor from 0x7f to 0x9f.
abbrev pub is_printable : ℕ → Bool
is_printable value = not (ltb value 0x20 || within 0x7f 0x9f value)

lead_masks :
    (c : ℕ)
    → c < 256
    → lead c ≡ (
        if ltb c 0x80
        then some (record { value = c; minimum = 0; remaining = 0 })
        else if within 0xc0 0xdf c
        then some (record { value = c % 32; minimum = 0x80; remaining = 1 })
        else if within 0xe0 0xef c
        then some (record { value = c % 16; minimum = 0x800; remaining = 2 })
        else if within 0xf0 0xf7 c
        then some (record { value = c % 8; minimum = 0x10000; remaining = 3 })
        else none)
unfolding lead
lead_masks c h =
    rw (is_lead_two c h, is_lead_three c h, is_lead_four c h, and_31 c, and_15 c, and_7 c)

abbrev Agrees : ℕ → List ℕ → Option Lead → Type 0
Agrees c text l = follow l text ≡ keep is_printable (decode c text)

Agrees-one :
    (c : ℕ) (text : List ℕ)
    → c < 0x80
    → Agrees c text (some (record { value = c; minimum = 0; remaining = 0 }))
unfolding decode is_refused tail_bytes
Agrees-one c text h = ground arith

Agrees-two :
    (c : ℕ) (text : List ℕ)
    → IsBytes text
    → within 0xc0 0xdf c ≡ true
    → Agrees c text (some (record { value = c % 32; minimum = 0x80; remaining = 1 }))
unfolding decode decode_two is_refused
Agrees-two c [] b h = ground arith
Agrees-two c (x ∷ rest) b h = ground (arith, tails_one (c % 32) x rest)

Agrees-three :
    (c : ℕ) (text : List ℕ)
    → IsBytes text
    → within 0xe0 0xef c ≡ true
    → Agrees c text (some (record { value = c % 16; minimum = 0x800; remaining = 2 }))
unfolding decode decode_three is_refused
Agrees-three c [] b h = ground arith
Agrees-three c (x ∷ []) b h = ground arith
Agrees-three c (x ∷ y ∷ rest) b h = ground (arith, tails_two (c % 16) x y rest)

Agrees-four :
    (c : ℕ) (text : List ℕ)
    → IsBytes text
    → within 0xf0 0xf7 c ≡ true
    → Agrees c text (some (record { value = c % 8; minimum = 0x10000; remaining = 3 }))
unfolding decode decode_four is_refused
Agrees-four c [] b h = ground arith
Agrees-four c (x ∷ []) b h = ground arith
Agrees-four c (x ∷ y ∷ []) b h = ground arith
Agrees-four c (x ∷ y ∷ z ∷ rest) b h = ground (arith, tails_three (c % 8) x y z rest)

Agrees-none :
    (c : ℕ) (text : List ℕ)
    → ltb c 0x80 ≡ false
    → within 0xc0 0xdf c ≡ false
    → within 0xe0 0xef c ≡ false
    → within 0xf0 0xf7 c ≡ false
    → Agrees c text none
unfolding decode
Agrees-none c text h k l m = ground arith

sequence-decode :
    (c : ℕ) (text : List ℕ)
    → c < 256
    → IsBytes text
    → sequence c text ≡ keep is_printable (decode c text)
unfolding sequence
sequence-decode c text h b = rw (lead_masks c h) (elim (Bool-cases (ltb c 0x80)) [
  | inl one ↦ rw one (Agrees-one c text (ltb→lt _ _ one))
  | inr a ↦ rw a (elim (Bool-cases (within 0xc0 0xdf c)) [
    | inl two ↦ rw two (Agrees-two c text b two)
    | inr k ↦ rw k (elim (Bool-cases (within 0xe0 0xef c)) [
      | inl three ↦ rw three (Agrees-three c text b three)
      | inr l ↦ rw l (elim (Bool-cases (within 0xf0 0xf7 c)) [
        | inl four ↦ rw four (Agrees-four c text b four)
        | inr m ↦ rw m (Agrees-none c text a k l m)
      ])
    ])
  ])
])

-- On a text of bytes the settings accept a device name exactly when it is a concatenation of
-- encoded scalar values none of which is a control character.
pub device_name_valid-IsEncoded :
    (text : List ℕ) → IsBytes text → (device_name_valid text ≡ true) ↔ IsEncoded is_printable text
unfolding device_name_valid
device_name_valid-IsEncoded = scan_text-IsEncoded is_printable sequence sequence-decode
