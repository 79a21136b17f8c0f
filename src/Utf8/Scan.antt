-- ===== src/Utf8/Scan.antt =====
-- A loop whose body reads a value as the reference does, and keeps it if it passes a test, accepts
-- exactly the encoded sequences of values that pass.
use mathlib.Core.Path.{subst}
use crossnook.Base.{
  IsBytes, ℕ, zero, suc, ◌≤◌, ◌<◌, ◌≡◌, refl, ap, ◌∙◌, sym, arith, Bool, true, false, Option, none,
  some, List, [], ◌∷◌, ◌++◌, if◌then◌else◌, length, length-append, ◌↔◌,
}
use crossnook.Utf8.{scan_fuel, scan_text}
use crossnook.Utf8.Reference.{decode}
use crossnook.Utf8.Encode.{encode, is_scalar, decode_front, decode_front-encode, decode-encode}

abbrev pub keep : (ℕ → Bool) → Option (ℕ × List ℕ) → Option (ℕ × List ℕ)
keep p none = none
keep p (some (value, rest)) = if p value then some (value, rest) else none

-- The text is the concatenation of encoded scalar values, none of them NUL, that pass `p`.
pub data IsEncoded (p : ℕ → Bool) : List ℕ → Type 0 where
  done : IsEncoded p []
  more :
      {text rest : List ℕ} (value : ℕ)
      → is_scalar value ≡ true
      → p value ≡ true
      → text ≡ encode value ++ rest
      → IsEncoded p rest
      → IsEncoded p text

pub IsBytes-append : (xs ys : List ℕ) → IsBytes (xs ++ ys) → IsBytes ys
IsBytes-append [] ys h = h
IsBytes-append (x ∷ xs) ys h = IsBytes-append xs ys h.1

pub length-encode : (value : ℕ) → 1 ≤ length (encode value)
unfolding encode
length-encode value = ground arith

keep_found :
    (p : ℕ → Bool) (o : Option (ℕ × List ℕ)) {value : ℕ} {rest : List ℕ}
    → keep p o ≡ some (value, rest)
    → (o ≡ some (value, rest)) × (p value ≡ true)
keep_found p none e = cc
keep_found p (some (v, r)) e = ground arith

keep_passes :
    (p : ℕ → Bool) (value : ℕ) (rest : List ℕ)
    → p value ≡ true
    → keep p (some (value, rest)) ≡ some (value, rest)
keep_passes p value rest h = rw h

module _ (p : ℕ → Bool) (body : ℕ → List ℕ → Option (ℕ × List ℕ))
    (agree : (c : ℕ) (text : List ℕ)
      → c < 256
      → IsBytes text
      → body c text ≡ keep p (decode c text)) where
  pub step_found :
      (c : ℕ) (text : List ℕ) {value : ℕ} {rest : List ℕ}
      → IsBytes (c ∷ text)
      → body c text ≡ some (value, rest)
      → (is_scalar value ≡ true) × (p value ≡ true) × (c ∷ text ≡ encode value ++ rest)
  step_found c text b e =
      let (read, passes) = keep_found p (decode c text) (sym (agree c text b.0 b.1) ∙ e) in
      let (scalar, stands) = decode-encode c text b.0 b.1 read in (scalar, passes, stands)

  pub scan_fuel→IsEncoded :
      (n : ℕ) (text : List ℕ) → IsBytes text → scan_fuel body n text ≡ true → IsEncoded p text
  unfolding scan_fuel
  scan_fuel→IsEncoded n [] b e = done
  scan_fuel→IsEncoded zero (c ∷ text) b e = cc
  scan_fuel→IsEncoded (suc n) (c ∷ text) b e = split (body c text) refl e (scan_fuel→IsEncoded n)
    where
      split :
          (o : Option (ℕ × List ℕ))
          → body c text ≡ o
          → (elim o [ none ↦ false | some (v, rest) ↦ scan_fuel body n rest ]) ≡ true
          → ((rest : List ℕ) → IsBytes rest → scan_fuel body n rest ≡ true → IsEncoded p rest)
          → IsEncoded p (c ∷ text)
      split none found e' ih = cc
      split (some (value, rest)) found e' ih =
          let (scalar, passes, stands) = step_found c text b found in
          let bytes : IsBytes rest = IsBytes-append (encode value) rest (subst IsBytes stands b) in
          more value scalar passes stands (ih rest bytes e')

  pub IsEncoded→scan_fuel :
      (n : ℕ) (text : List ℕ)
      → IsEncoded p text
      → IsBytes text
      → length text ≤ n
      → scan_fuel body n text ≡ true
  unfolding scan_fuel
  IsEncoded→scan_fuel n [] enc b h = refl
  IsEncoded→scan_fuel zero (c ∷ text) enc b h = absurd (omega arith)
  IsEncoded→scan_fuel (suc n) (c ∷ text) (more {rest = rest} value scalar passes stands enc) b h =
      rw (found, scan_fuel) (IsEncoded→scan_fuel n rest enc bytes shorter)
    where
      found : body c text ≡ some (value, rest)
      found =
          agree c text b.0 b.1
          ∙ ap (keep p) (ap decode_front stands ∙ decode_front-encode value rest scalar)
          ∙ keep_passes p value rest passes

      bytes : IsBytes rest
      bytes = IsBytes-append (encode value) rest (subst IsBytes stands b)

      shorter : length rest ≤ n
      shorter =
          omega (arith, ap length stands, length-append (encode value) rest, length-encode value)

  -- The loop over a text of bytes accepts exactly the encoded sequences.
  pub scan_text-IsEncoded :
      (text : List ℕ) → IsBytes text → (scan_text body text ≡ true) ↔ IsEncoded p text
  scan_text-IsEncoded text b = (
    scan_fuel→IsEncoded (length text) text b,
    λ enc. IsEncoded→scan_fuel (length text) text enc b (omega arith),
  )
