-- ===== src/Base/Strings.antt =====
-- C strings: the bytes in front of the terminating NUL. A `char *` that may be NULL is an `Option`.
use Prim.Native.Char.{code}
use Prim.Native.String.{String}
use Prim.Native.Nat.{ℕ, zero, suc, ◌+◌, ◌<◌, ◌≤◌}
use mathlib.Core.Path.{◌≡◌, refl}
use mathlib.Core.Bool.{Bool, true, false, ◌&&◌, ◌||◌}
use mathlib.Core.Option.{Option, none, some}
use mathlib.Core.List.{List, [], ◌∷◌, ◌++◌}
use native.Mathlib.Omega.{arith}
use crossnook.Base.Tests.{leb, ◌==◌, if◌then◌else◌}
use crossnook.Base.Lists.{length, length-append}

abbrev pub Text : Type 0
Text = List ℕ

-- `for (n = 0; n <= maximum; ++n) if (text[n] == '\0') return n;` from the byte `n` on.
unfoldable pub scan_end : ℕ → ℕ → Text → Option ℕ
scan_end zero n text = none
scan_end (suc left) n [] = some n
scan_end (suc left) n (c ∷ cs) = scan_end left (n + 1) cs

pub scan_end_lem :
    (left n : ℕ) (text : Text)
    → scan_end left n text ≡ (if leb (suc (length text)) left then some (n + length text) else none)
unfolding scan_end
scan_end_lem zero n text = ground arith
scan_end_lem (suc left) n [] = ground arith
scan_end_lem (suc left) n (c ∷ cs) = ground (arith, scan_end_lem left (n + 1) cs)

-- `strrchr`: what stands from the last `c` on.
abbrev pub strrchr : Text → ℕ → Option Text
strrchr [] c = none
strrchr (x ∷ xs) c = elim (strrchr xs c) [
  | some rest ↦ some rest
  | none ↦ if x == c then some (x ∷ xs) else none
]

-- `strcmp(a, b) == 0`.
abbrev pub text_eq : Text → Text → Bool
text_eq [] [] = true
text_eq (x ∷ xs) (y ∷ ys) = x == y && text_eq xs ys
text_eq _ _ = false

pub text_eq→eq : (a b : Text) → text_eq a b ≡ true → a ≡ b
text_eq→eq [] [] h = refl
text_eq→eq (x ∷ xs) (y ∷ ys) h = ground (arith, text_eq→eq xs ys)
text_eq→eq _ _ h = ground arith

pub text_eq_refl : (a : Text) → text_eq a a ≡ true
text_eq_refl [] = refl
text_eq_refl (x ∷ xs) = ground (arith, text_eq_refl xs)

-- A decimal digit.
abbrev pub is_digit : ℕ → Bool
is_digit c = leb b'0' c && leb c b'9'

-- `c` is one of "0123456789abcdef".
abbrev pub is_lower_hex : ℕ → Bool
is_lower_hex c = (leb b'0' c && leb c b'9') || (leb b'a' c && leb c b'f')

abbrev pub hex_digits : Text
hex_digits =
    b'0' ∷ b'1' ∷ b'2' ∷ b'3' ∷ b'4' ∷ b'5' ∷ b'6' ∷ b'7' ∷ b'8' ∷ b'9' ∷ b'a' ∷ b'b' ∷ b'c' ∷ b'd'
    ∷ b'e' ∷ b'f' ∷ []

module _ {ℓ} {A : Type ℓ} where
  abbrev pub all : (A → Bool) → List A → Bool
  all p [] = true
  all p (x ∷ xs) = p x && all p xs

  pub all-append : (p : A → Bool) (xs ys : List A) → all p (xs ++ ys) ≡ (all p xs && all p ys)
  all-append p [] ys = refl
  all-append p (x ∷ xs) ys = ground (arith, all-append p xs ys)

  pub all_weaken :
      (p q : A → Bool)
      → ((a : A) → p a ≡ true → q a ≡ true)
      → (xs : List A) → all p xs ≡ true
      → all q xs ≡ true
  all_weaken p q weaker [] h = refl
  all_weaken p q weaker (x ∷ xs) h =
      let here : q x ≡ true = weaker x (ground arith) in
      ground (arith, all_weaken p q weaker xs (ground arith))

-- The bytes of a text whose characters are ASCII.
abbrev pub codes : String → List ℕ
codes String.[] = []
codes (String.◌∷◌ c s) = code c ∷ codes s

-- Every byte of the list is one.
abbrev pub IsBytes : List ℕ → Type 0
IsBytes [] = Unit
IsBytes (x ∷ xs) = (x < 256) × IsBytes xs

-- What stands behind the prefix, if the text begins with it.
abbrev pub after_prefix : Text → Text → Option Text
after_prefix [] text = some text
after_prefix (p ∷ ps) [] = none
after_prefix (p ∷ ps) (c ∷ cs) = if c == p then after_prefix ps cs else none

pub after_prefix-append : (ps text : Text) → after_prefix ps (ps ++ text) ≡ some text
after_prefix-append [] text = refl
after_prefix-append (p ∷ ps) text = ground (arith, after_prefix-append ps text)

-- A text of a number of bytes at most.
pub record IsShort (text : Text) (n : ℕ) : Type 0 where
  pub fits : length text ≤ n

pub append-IsShort :
    {xs ys : Text} {m n : ℕ} → IsShort xs m → IsShort ys n → IsShort (xs ++ ys) (m + n)
append-IsShort {xs} {ys} h k = record { fits = omega (arith, length-append xs ys, h.fits, k.fits) }

pub text-IsShort : (text : Text) (n : ℕ) → length text ≤ n → IsShort text n
text-IsShort text n h = record { fits = h }
