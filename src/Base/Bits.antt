-- ===== src/Base/Bits.antt =====
-- The bit operations of the UTF-8 and hexadecimal code, as arithmetic.
use Prim.Native.Nat.{
  ℕ, zero, suc, ◌+◌, ◌-◌, ◌*◌, ◌/◌, ◌%◌, ◌≤◌, ◌<◌, min, max, bit_and, bit_or, digits, bitwise,
  bit_and-bitwise, bit_or-bitwise, ◌^◌,
}
use mathlib.Core.Path.{◌≡◌, refl, ap, ◌∙◌}
use mathlib.Core.Bool.{Bool, true, false}
use native.Mathlib.Omega.{arith}
use crossnook.Base.Tests.{if◌then◌else◌}

module _ (z : ℕ → ℕ) (f : ℕ → ℕ → ℕ) where
  -- One more digit to go changes nothing, if there were enough.
  spare_digit : (n a b : ℕ) → a ≤ n → digits z f (suc n) a b ≡ digits z f n a b
  spare_digit zero zero b h = refl
  spare_digit zero (suc a) b h = absurd (omega arith)
  spare_digit (suc n) zero b h = refl
  spare_digit (suc n) (suc a) b h =
      ap (λ t. t * 2 + f (suc a % 2) (b % 2)) (spare_digit n (suc a / 2) (b / 2) (omega arith))

  spare_digits : (k n m a b : ℕ) → k + n ≡ m → a ≤ n → digits z f m a b ≡ digits z f n a b
  spare_digits zero n m a b e h = let e' : m ≡ n = omega arith in rw e'
  spare_digits (suc k) n zero a b e h = absurd (omega arith)
  spare_digits (suc k) n (suc m) a b e h =
      spare_digit m a b (omega arith) ∙ spare_digits k n m a b (omega arith) h

  lowest_digit :
      (a b : ℕ)
      → bitwise z f (suc a) b ≡ bitwise z f (suc a / 2) (b / 2) * 2 + f (suc a % 2) (b % 2)
  lowest_digit a b =
      ap (λ t. t * 2 + f (suc a % 2) (b % 2))
        (spare_digits (a - suc a / 2) (suc a / 2) a (suc a / 2) (b / 2) (omega arith) (omega arith))

and_step : (a b : ℕ) → bit_and a b ≡ bit_and (a / 2) (b / 2) * 2 + min (a % 2) (b % 2)
and_step zero b = simp bit_and-bitwise (omega arith)
and_step (suc a) b = simp bit_and-bitwise (lowest_digit (λ _. 0) min a b)

or_step : (a b : ℕ) → bit_or a b ≡ bit_or (a / 2) (b / 2) * 2 + max (a % 2) (b % 2)
or_step zero b = simp bit_or-bitwise (omega arith)
or_step (suc a) b = simp bit_or-bitwise (lowest_digit (λ y. y) max a b)

and_zero : (n a : ℕ) → a ≤ n → bit_and a 0 ≡ 0
and_zero zero a h = let e : a ≡ 0 = omega arith in rw e
and_zero (suc n) zero h = refl
and_zero (suc n) (suc a) h = omega (arith, and_step (suc a) 0, and_zero n (suc a / 2) (omega arith))

or_zero : (n a : ℕ) → a ≤ n → bit_or a 0 ≡ a
or_zero zero a h = let e : a ≡ 0 = omega arith in rw e
or_zero (suc n) zero h = refl
or_zero (suc n) (suc a) h = omega (arith, or_step (suc a) 0, or_zero n (suc a / 2) (omega arith))

-- `a & 1`, `a & 7`, `a & 15`, `a & 31` and `a & 63` are remainders.
and_1 : (a : ℕ) → bit_and a 1 ≡ a % 2
and_1 a = omega (arith, and_step a 1, and_zero (a / 2) (a / 2) (omega arith))

and_3 : (a : ℕ) → bit_and a 3 ≡ a % 4
and_3 a = omega (arith, and_step a 3, and_1 (a / 2))

pub and_7 : (a : ℕ) → bit_and a 7 ≡ a % 8
and_7 a = omega (arith, and_step a 7, and_3 (a / 2))

pub and_15 : (a : ℕ) → bit_and a 15 ≡ a % 16
and_15 a = omega (arith, and_step a 15, and_7 (a / 2))

pub and_31 : (a : ℕ) → bit_and a 31 ≡ a % 32
and_31 a = omega (arith, and_step a 31, and_15 (a / 2))

pub and_63 : (a : ℕ) → bit_and a 63 ≡ a % 64
and_63 a = omega (arith, and_step a 63, and_31 (a / 2))

or_double : (a r : ℕ) → bit_or (2 * a) r ≡ 2 * bit_or a (r / 2) + r % 2
or_double a r =
    let half : 2 * a / 2 ≡ a = omega arith in omega (arith, rw half at (or_step (2 * a) r))

gone : (r : ℕ) → r < 64 → r / 2 / 2 / 2 / 2 / 2 / 2 ≡ 0
gone r h = omega arith

-- `(value << 6) | low` for six low bits.
pub or_shifted_6 : (a r : ℕ) → r < 64 → bit_or (a * 64) r ≡ a * 64 + r
or_shifted_6 a r h =
    let doubled : a * 64 ≡ 2 * (2 * (2 * (2 * (2 * (2 * a))))) = omega arith in
    rw doubled (
      omega (
        arith,
        or_double (2 * (2 * (2 * (2 * (2 * a))))) r,
        or_double (2 * (2 * (2 * (2 * a)))) (r / 2),
        or_double (2 * (2 * (2 * a))) (r / 2 / 2),
        or_double (2 * (2 * a)) (r / 2 / 2 / 2),
        or_double (2 * a) (r / 2 / 2 / 2 / 2),
        or_double a (r / 2 / 2 / 2 / 2 / 2),
        ap (bit_or a) (gone r h),
        or_zero a a (omega arith),
      ))

shifted_twice : (a m r : ℕ) → bit_or m (r / 2) ≡ m + r / 2 → a ≡ 2 * m → bit_or a r ≡ a + r
shifted_twice a m r e d = rw d (omega (arith, or_double m r))

double_inside : (a m : ℕ) → a * (2 * m) ≡ 2 * (a * m)
double_inside a m = omega arith

-- `(a << k) | r` for `k` low bits.
pub or_shifted : (k a r : ℕ) → r < 2 ^ k → bit_or (a * 2 ^ k) r ≡ a * 2 ^ k + r
or_shifted zero a r h =
    let e : r ≡ 0 = omega arith in
    rw e (omega (arith, or_zero (a * 2 ^ 0) (a * 2 ^ 0) (omega arith)))
or_shifted (suc k) a r h =
    let twice : 2 ^ suc k ≡ 2 * 2 ^ k = omega arith in
    shifted_twice (a * 2 ^ suc k) (a * 2 ^ k) r (or_shifted k a (r / 2) (omega arith))
      (ap (λ t. a * t) twice ∙ double_inside a (2 ^ k))

-- A test that holds of every number under a bound, found by running it from the top down.
unfoldable pub each_under : ℕ → (ℕ → Bool) → Bool
each_under zero test = true
each_under (suc bound) test = if test bound then each_under bound test else false

pub under-holds :
    (bound : ℕ) (test : ℕ → Bool) (k : ℕ) → each_under bound test ≡ true → k < bound → test k ≡ true
unfolding each_under
under-holds zero test k all_hold inside = absurd (omega arith)
under-holds (suc bound) test k all_hold inside =
    let earlier = under-holds bound test k in ground arith
