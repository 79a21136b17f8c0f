-- ===== src/Base/Options.antt =====
-- Chains of steps that can fail, without a reason.
use mathlib.Core.Path.{◌≡◌, refl, ap, ◌∙◌}
use mathlib.Core.Bool.{Bool, true, false}
use mathlib.Core.Option.{Option, none, some}
use native.Mathlib.Omega.{arith}
use crossnook.Base.Tests.{if◌then◌else◌}
use mathlib.Core.List.{List, ◌++◌}

infixl 5 ◌>>=◌ ◌>>◌
abbrev pub ◌>>=◌ {ℓ κ} : {A : Type ℓ} {B : Type κ} → Option A → (A → Option B) → Option B
none >>= f = none
some a >>= f = f a

abbrev pub ◌>>◌ {ℓ} : {B : Type ℓ} → Option (Unit {0}) → Option B → Option B
m >> k = m >>= λ _. k

-- `if (!test) return 0;`
abbrev pub require : Bool → Option (Unit {0})
require true = some tt
require false = none

pub >>=_assoc {ℓ κ μ} :
    {A : Type ℓ} {B : Type κ} {C : Type μ} (m : Option A) (f : A → Option B) (g : B → Option C)
    → ((m >>= f) >>= g) ≡ (m >>= λ a. f a >>= g)
>>=_assoc none f g = refl
>>=_assoc (some a) f g = refl

-- A step after each outcome of another.
pub >>=_cong {ℓ κ} :
    {A : Type ℓ} {B : Type κ} (m : Option A) (f g : A → Option B)
    → ((a : A) → f a ≡ g a)
    → (m >>= f) ≡ (m >>= g)
>>=_cong none f g h = refl
>>=_cong (some a) f g h = h a

pub bind_some {ℓ κ} :
    {A : Type ℓ} {B : Type κ} {m : Option A} {a : A}
    → m ≡ some a
    → (f : A → Option B) → (m >>= f) ≡ f a
bind_some h f = ap (λ o. o >>= f) h

-- A sink: two writes in a row are a write of both texts.
module _ {ℓ κ} {W : Type ℓ} {A : Type κ} (put : W → List A → Option W)
    (put-put : (w : W) (xs ys : List A) → (put w xs >>= λ v. put v ys) ≡ put w (xs ++ ys)) where
  -- A write and what follows it, if that is a write too.
  pub put_then :
      (w : W) (xs ys : List A) (f : W → Option W)
      → ((v : W) → f v ≡ put v ys)
      → (put w xs >>= f) ≡ put w (xs ++ ys)
  put_then w xs ys f h = >>=_cong (put w xs) f (λ v. put v ys) h ∙ put-put w xs ys

pub some-injective {ℓ} : {A : Type ℓ} {a b : A} → some a ≡ some b → a ≡ b
some-injective {a = a} e = ap (λ o. elim o [ none ↦ a | some c ↦ c ]) e

-- A check that a result has passed.
pub passed {ℓ κ} :
    {C : Type ℓ} {A : Type κ} (b : Bool) (code : C) (rest : C × Option A) {ok : C} (a : A)
    → ◌≡◌ {A = C × Option A} (if b then (code, none) else rest) (ok, some a)
    → (b ≡ false) × (rest ≡ (ok, some a))
passed true code rest a h = let e : none ≡ some a = ap (λ r. r.1) h in absurd (ground arith)
passed false code rest a h = (refl, h)
