-- ===== src/Base/Words.antt =====
-- Unsigned machine words, and `memcpy` between arrays.
use Prim.Native.Nat.{ℕ, ◌+◌, ◌-◌, ◌*◌, ◌/◌, ◌%◌, ◌^◌, ◌≤◌}
use mathlib.Core.Path.{◌≡◌, ap, sym, ◌∙◌}
use mathlib.Core.List.{List, ◌++◌, append_assoc}
use native.Mathlib.Nat.{zero-add}
use native.Mathlib.Omega.{arith}
use crossnook.Base.Lists.{
  length, take, drop, length-take, length-drop, length-append, take-append_le,
}

abbrev pub u8 : ℕ → ℕ
u8 n = n % 2 ^ 8

abbrev pub u32 : ℕ → ℕ
u32 n = n % 2 ^ 32

abbrev pub u64 : ℕ → ℕ
u64 n = n % 2 ^ 64

infixl 55 ◌<<<◌ ◌>>>◌
abbrev pub ◌<<<◌ : ℕ → ℕ → ℕ
x <<< k = x * 2 ^ k

abbrev pub ◌>>>◌ : ℕ → ℕ → ℕ
x >>> k = x / 2 ^ k

-- `a - b` on `size_t` and `uint64_t`.
abbrev pub sub64 : ℕ → ℕ → ℕ
sub64 a b = u64 (a + 2 ^ 64 - b)

-- `memcpy(to + at, from, n)`: the array `to` afterwards.
abbrev pub memcpy : List ℕ → ℕ → List ℕ → ℕ → List ℕ
memcpy to at from n = take at to ++ (take n from ++ drop (at + n) to)

pub length-memcpy :
    (to : List ℕ) (at : ℕ) (from : List ℕ) (n : ℕ)
    → n ≤ length from
    → at + n ≤ length to
    → length (memcpy to at from n) ≡ length to
length-memcpy to at from n h k = omega (
  arith,
  length-append (take at to) (take n from ++ drop (at + n) to),
  length-append (take n from) (drop (at + n) to),
  length-take at to (omega arith),
  length-take n from h,
  length-drop (at + n) to,
)

pub take-memcpy :
    (to : List ℕ) (at : ℕ) (from : List ℕ) (n : ℕ)
    → n ≤ length from
    → at ≤ length to
    → take (at + n) (memcpy to at from n) ≡ take at to ++ take n from
take-memcpy to at from n h k =
    ap (take (at + n)) (sym (append_assoc (take at to) (take n from) (drop (at + n) to)))
    ∙ take-append_le (at + n) (take at to ++ take n from) (drop (at + n) to) (
        omega (
          arith,
          length-append (take at to) (take n from),
          length-take at to k,
          length-take n from h,
        ))

pub take-memcpy_zero :
    (to : List ℕ) (from : List ℕ)
    → length from ≤ length to
    → take (length from) (memcpy to 0 from (length from)) ≡ take (length from) from
take-memcpy_zero to from h =
    ap (λ n. take n (memcpy to 0 from (length from))) (sym (zero-add (length from)))
    ∙ take-memcpy to 0 from (length from) (omega arith) (omega arith)
