-- ===== src/Names/Distinct.antt =====
-- The names tell the codes of an enumeration apart.
use crossnook.Base.{
  ℕ, zero, suc, ◌≡◌, refl, ◌∙◌, arith, Bool, true, false, not, ◌&&◌, ◌||◌, List, [], ◌∷◌, Text,
  text_eq, ◌==◌, leb, length,
}
use crossnook.Names.{
  unknown, name_at, identity_result_name, sync_status_name, sync_decision_name,
  product_outcome_name, retry_policy_name, mutation_state_name, time_result_name, dns_result_name,
  kosync_result_name, netsimple_result_name, identity_result_names, sync_status_names,
  sync_decision_names, product_outcome_names, retry_policy_names, mutation_state_names,
  time_result_names, dns_result_names, kosync_result_names, netsimple_result_names,
}

-- The name is none of the names, and not `unknown`.
unfoldable pub is_absent : Text → List Text → Bool
is_absent name [] = not (text_eq name unknown)
is_absent name (other ∷ names) = not (text_eq name other) && is_absent name names

unfoldable pub is_distinct : List Text → Bool
is_distinct [] = true
is_distinct (name ∷ names) = is_absent name names && is_distinct names

text_eq_refl : (a : Text) → text_eq a a ≡ true
text_eq_refl [] = refl
text_eq_refl (x ∷ xs) = ground (arith, text_eq_refl xs)

text_eq_comm : (a b : Text) → text_eq a b ≡ text_eq b a
text_eq_comm [] [] = refl
text_eq_comm [] (y ∷ ys) = refl
text_eq_comm (x ∷ xs) [] = refl
text_eq_comm (x ∷ xs) (y ∷ ys) = ground (arith, text_eq_comm xs ys)

absent-name_at :
    (name : Text) (names : List Text) (value : ℕ)
    → is_absent name names ≡ true
    → text_eq name (name_at names value) ≡ false
unfolding is_absent name_at
absent-name_at name [] value h = ground arith
absent-name_at name (other ∷ names) zero h = ground arith
absent-name_at name (other ∷ names) (suc value) h = ground (arith, absent-name_at name names value)

-- Two values past the end have the same name, and otherwise only equal values have.
name_at-eq :
    (names : List Text) (a b : ℕ)
    → is_distinct names ≡ true
    → text_eq (name_at names a) (name_at names b)
      ≡ ((a == b) || (leb (length names) a && leb (length names) b))
unfolding is_distinct name_at
name_at-eq [] a b h = text_eq_refl unknown ∙ ground arith
name_at-eq (name ∷ names) zero zero h = text_eq_refl name
name_at-eq (name ∷ names) zero (suc b) h = absent-name_at name names b (ground arith) ∙ ground arith
name_at-eq (name ∷ names) (suc a) zero h =
    text_eq_comm (name_at names a) name ∙ absent-name_at name names a (ground arith) ∙ ground arith
name_at-eq (name ∷ names) (suc a) (suc b) h = name_at-eq names a b (ground arith) ∙ ground arith

-- The names of a table tell its values apart: two have the same name exactly when they are equal
-- or both past the end.
unfoldable pub IsTelling : (ℕ → Text) → ℕ → ℕ → ℕ → Type 0
IsTelling name count a b = text_eq (name a) (name b) ≡ ((a == b) || (leb count a && leb count b))

-- In each of the ten tables of names, two codes have the same name exactly when they are equal or
-- both outside the enumeration.
pub names-IsTelling :
    (a b : ℕ)
    → IsTelling identity_result_name 3 a b
      × IsTelling sync_status_name 11 a b
      × IsTelling sync_decision_name 6 a b
      × IsTelling product_outcome_name 15 a b
      × IsTelling retry_policy_name 3 a b
      × IsTelling mutation_state_name 3 a b
      × IsTelling time_result_name 20 a b
      × IsTelling dns_result_name 14 a b
      × IsTelling kosync_result_name 9 a b
      × IsTelling netsimple_result_name 25 a b
unfolding IsTelling is_distinct is_absent
names-IsTelling a b = (
  name_at-eq identity_result_names a b refl,
  name_at-eq sync_status_names a b refl,
  name_at-eq sync_decision_names a b refl,
  name_at-eq product_outcome_names a b refl,
  name_at-eq retry_policy_names a b refl,
  name_at-eq mutation_state_names a b refl,
  name_at-eq time_result_names a b refl,
  name_at-eq dns_result_names a b refl,
  name_at-eq kosync_result_names a b refl,
  name_at-eq netsimple_result_names a b refl,
)
