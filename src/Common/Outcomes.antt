-- ===== src/Common/Outcomes.antt =====
-- How a call in the tracer thread ends: with a result, in a panic, or, in the model alone, with its
-- fuel spent.
use mathlib.Core.Path.{◌≡◌, refl, subst}

pub data Outcome {ℓ} (A : Type ℓ) : Type ℓ where
  done : A → Outcome A
  panic : Outcome A
  out_of_fuel : Outcome A

infixl 5 ◌>>=◌
abbrev pub ◌>>=◌ {ℓ κ} : {A : Type ℓ} {B : Type κ} → Outcome A → (A → Outcome B) → Outcome B
done a >>= f = f a
panic >>= f = panic
out_of_fuel >>= f = out_of_fuel

-- Inversion of a bind that ends with a result.
pub >>=-eq-done {ℓ κ} :
    {A : Type ℓ} {B : Type κ} (m : Outcome A) (f : A → Outcome B) {b : B}
    → (m >>= f) ≡ done b
    → (a : A) × (m ≡ done a) × (f a ≡ done b)
>>=-eq-done (done a) f h = (a, refl, h)
>>=-eq-done panic f h = cc
>>=-eq-done out_of_fuel f h = cc

-- A statement of the result, where there is one.
abbrev pub Ensures {ℓ κ} : {A : Type ℓ} → (A → Type κ) → Outcome A → Type κ
Ensures P (done a) = P a
Ensures P panic = Unit
Ensures P out_of_fuel = Unit

pub Ensures-bind {ℓ κ ℓ' κ'} :
    {A : Type ℓ} {B : Type κ} (P : A → Type ℓ') (Q : B → Type κ') (m : Outcome A)
    (f : A → Outcome B)
    → Ensures P m
    → ((a : A) → P a → Ensures Q (f a))
    → Ensures Q (m >>= f)
Ensures-bind P Q (done a) f h k = k a h
Ensures-bind P Q panic f h k = tt
Ensures-bind P Q out_of_fuel f h k = tt

pub Ensures-mono {ℓ ℓ' κ'} :
    {A : Type ℓ} (P : A → Type ℓ') (Q : A → Type κ') (m : Outcome A)
    → Ensures P m
    → ((a : A) → P a → Q a)
    → Ensures Q m
Ensures-mono P Q (done a) h k = k a h
Ensures-mono P Q panic h k = tt
Ensures-mono P Q out_of_fuel h k = tt

pub Ensures-done {ℓ ℓ'} :
    {A : Type ℓ} (P : A → Type ℓ') (m : Outcome A) {a : A} → Ensures P m → m ≡ done a → P a
Ensures-done P (done b) h e = subst P (cc) h
Ensures-done P panic h e = cc
Ensures-done P out_of_fuel h e = cc

pub Ensures-any {ℓ} : {A : Type ℓ} (m : Outcome A) → Ensures (λ _. Unit {0}) m
Ensures-any (done a) = tt
Ensures-any panic = tt
Ensures-any out_of_fuel = tt

-- The model's own failure does not occur.
abbrev pub Finishes {ℓ} : {A : Type ℓ} → Outcome A → Type 0
Finishes (done a) = Unit
Finishes panic = Unit
Finishes out_of_fuel = ⊥

-- A call that finishes, with a statement of the result where there is one.
abbrev pub Total {ℓ κ} : {A : Type ℓ} → (A → Type κ) → Outcome A → Type κ
Total P m = Ensures P m × Finishes m

pub Total-bind {ℓ κ ℓ' κ'} :
    {A : Type ℓ} {B : Type κ} (P : A → Type ℓ') (Q : B → Type κ') (m : Outcome A)
    (f : A → Outcome B)
    → Total P m
    → ((a : A) → P a → Total Q (f a))
    → Total Q (m >>= f)
Total-bind P Q (done a) f h k = k a h.0
Total-bind P Q panic f h k = (tt, tt)
Total-bind P Q out_of_fuel f h k = absurd h.1
