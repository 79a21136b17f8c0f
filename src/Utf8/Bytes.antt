-- ===== src/Utf8/Bytes.antt =====
-- The bit tests and masks of the UTF-8 code, on bytes, as arithmetic.
use Prim.Native.Nat.{bit_and, bit_or}
use crossnook.Base.{
  ℕ, ◌+◌, ◌<◌, ◌≡◌, refl, arith, Bool, true, ◌&&◌, ◌||◌, not, ◌==◌, leb, ==_iff, each_under,
  under-holds,
}

abbrev same : Bool → Bool → Bool
same a b = (a && b) || (not a && not b)

same→eq : (a b : Bool) → same a b ≡ true → a ≡ b
same→eq a b h = ground arith

-- `(x & 0xc0) == 0x80`
pub is_continuation : (x : ℕ) → x < 256 → (bit_and x 0xc0 == 0x80) ≡ (leb 0x80 x && leb x 0xbf)
unfolding each_under
is_continuation x h =
    same→eq _ _
      (under-holds 256 (λ y. same (bit_and y 0xc0 == 0x80) (leb 0x80 y && leb y 0xbf)) x refl h)

pub is_lead_two : (x : ℕ) → x < 256 → (bit_and x 0xe0 == 0xc0) ≡ (leb 0xc0 x && leb x 0xdf)
unfolding each_under
is_lead_two x h =
    same→eq _ _
      (under-holds 256 (λ y. same (bit_and y 0xe0 == 0xc0) (leb 0xc0 y && leb y 0xdf)) x refl h)

pub is_lead_three : (x : ℕ) → x < 256 → (bit_and x 0xf0 == 0xe0) ≡ (leb 0xe0 x && leb x 0xef)
unfolding each_under
is_lead_three x h =
    same→eq _ _
      (under-holds 256 (λ y. same (bit_and y 0xf0 == 0xe0) (leb 0xe0 y && leb y 0xef)) x refl h)

pub is_lead_four : (x : ℕ) → x < 256 → (bit_and x 0xf8 == 0xf0) ≡ (leb 0xf0 x && leb x 0xf7)
unfolding each_under
is_lead_four x h =
    same→eq _ _
      (under-holds 256 (λ y. same (bit_and y 0xf8 == 0xf0) (leb 0xf0 y && leb y 0xf7)) x refl h)

pub or_0x80 : (x : ℕ) → x < 64 → bit_or 0x80 x ≡ 0x80 + x
unfolding each_under
or_0x80 x h = (==_iff _ _).0 (under-holds 64 (λ y. bit_or 0x80 y == 0x80 + y) x refl h)

pub or_0xc0 : (x : ℕ) → x < 32 → bit_or 0xc0 x ≡ 0xc0 + x
unfolding each_under
or_0xc0 x h = (==_iff _ _).0 (under-holds 32 (λ y. bit_or 0xc0 y == 0xc0 + y) x refl h)

pub or_0xe0 : (x : ℕ) → x < 16 → bit_or 0xe0 x ≡ 0xe0 + x
unfolding each_under
or_0xe0 x h = (==_iff _ _).0 (under-holds 16 (λ y. bit_or 0xe0 y == 0xe0 + y) x refl h)

pub or_0xf0 : (x : ℕ) → x < 8 → bit_or 0xf0 x ≡ 0xf0 + x
unfolding each_under
or_0xf0 x h = (==_iff _ _).0 (under-holds 8 (λ y. bit_or 0xf0 y == 0xf0 + y) x refl h)
