-- ===== src/Utf8/Agree.antt =====
-- What the validators accept, and that the two stores of reading positions agree on it.
use mathlib.Core.Path.{subst}
use crossnook.Base.{
  IsBytes, ℕ, zero, suc, ◌≡◌, refl, ap, ◌∙◌, sym, Bool, true, false, Option, none, some, List, [],
  ◌∷◌, length, ◌↔◌,
}
use crossnook.Utf8.{scan_fuel}
use crossnook.Utf8.Reference.{decode}
use crossnook.Utf8.Encode.{encode, decode-encode}
use crossnook.Utf8.Scan.{IsEncoded, scan_text-IsEncoded, keep, IsBytes-append}
use crossnook.Utf8.Kosync
use crossnook.Utf8.Progress
use crossnook.Utf8.Progress.{rest_of}

abbrev pub any_value : ℕ → Bool
any_value value = true

keep_any : (o : Option (ℕ × List ℕ)) → o ≡ keep any_value o
keep_any none = refl
keep_any (some (value, rest)) = refl

-- The protocol code's UTF-8 validator accepts a text of bytes exactly when the text is a
-- concatenation of encodings, by the protocol code's own encoder, of scalar values other than
-- NUL.
pub utf8_valid-IsEncoded :
    (text : List ℕ) → IsBytes text → (Kosync.utf8_valid text ≡ true) ↔ IsEncoded any_value text
unfolding Kosync.utf8_valid
utf8_valid-IsEncoded =
    scan_text-IsEncoded any_value Kosync.sequence
      λ c text h b. Kosync.sequence-decode c text h b ∙ keep_any (decode c text)

-- Bodies that leave the same rest make the same loop.
scan_fuel_cong :
    (n : ℕ) (text : List ℕ)
    → IsBytes text
    → scan_fuel Progress.sequence n text ≡ scan_fuel decode n text
unfolding scan_fuel
scan_fuel_cong n [] b = refl
scan_fuel_cong zero (c ∷ text) b = refl
scan_fuel_cong (suc n) (c ∷ text) b =
    split (Progress.sequence c text) (decode c text) refl (Progress.sequence-decode c text b.0 b.1)
      (scan_fuel_cong n)
  where
    next : Option (ℕ × List ℕ) → (List ℕ → Bool) → Bool
    next o k = elim o [ none ↦ false | some (v, rest) ↦ k rest ]

    split :
        (o r : Option (ℕ × List ℕ))
        → decode c text ≡ r
        → rest_of o ≡ rest_of r
        → ((rest : List ℕ)
            → IsBytes rest
            → scan_fuel Progress.sequence n rest ≡ scan_fuel decode n rest)
        → next o (scan_fuel Progress.sequence n) ≡ next r (scan_fuel decode n)
    split none none d e ih = refl
    split none (some r) d e ih = cc
    split (some o) none d e ih = cc
    split (some (v, rest)) (some (w, rest')) d e ih =
        let same : rest ≡ rest' = cc in
        let bytes : IsBytes rest' =
          IsBytes-append (encode w) rest' (subst IsBytes (decode-encode c text b.0 b.1 d).1 b) in
        ap (scan_fuel Progress.sequence n) same ∙ ih rest' bytes

kosync_scan :
    (n : ℕ) (text : List ℕ)
    → IsBytes text
    → scan_fuel Kosync.sequence n text ≡ scan_fuel decode n text
unfolding scan_fuel
kosync_scan n [] b = refl
kosync_scan zero (c ∷ text) b = refl
kosync_scan (suc n) (c ∷ text) b =
    rw (Kosync.sequence-decode c text b.0 b.1, scan_fuel)
      (tail (decode c text) refl (kosync_scan n))
  where
    tail :
        (o : Option (ℕ × List ℕ))
        → decode c text ≡ o
        → ((rest : List ℕ)
            → IsBytes rest
            → scan_fuel Kosync.sequence n rest ≡ scan_fuel decode n rest)
        → (elim o [ none ↦ false | some (v, rest) ↦ scan_fuel Kosync.sequence n rest ])
          ≡ (elim o [ none ↦ false | some (v, rest) ↦ scan_fuel decode n rest ])
    tail none d ih = refl
    tail (some (v, rest)) d ih =
        ih rest
          (IsBytes-append (encode v) rest (subst IsBytes (decode-encode c text b.0 b.1 d).1 b))

-- The UTF-8 validators of the progress store and of the protocol code give the same answer on
-- every text of bytes.
pub utf8_valid-agree :
    (text : List ℕ) → IsBytes text → Progress.utf8_valid text ≡ Kosync.utf8_valid text
unfolding Progress.utf8_valid Kosync.utf8_valid
utf8_valid-agree text b =
    scan_fuel_cong (length text) text b ∙ sym (kosync_scan (length text) text b)
