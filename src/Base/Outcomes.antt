-- ===== src/Base/Outcomes.antt =====
-- What code that may fail comes to: a value, an exception, a read outside its array, which C++ leaves
-- undefined, or a loop that has not ended when its fuel has.
use mathlib.Core.Path.{◌≡◌, refl}

pub data Outcome {ℓ} (E : Type 0) (A : Type ℓ) : Type ℓ where
  done : A → Outcome E A
  throws : E → Outcome E A
  wild endless : Outcome E A

infixl 5 ◌>>=◌
abbrev pub ◌>>=◌ {ℓ κ} :
    {E : Type 0} {A : Type ℓ} {B : Type κ} → Outcome E A → (A → Outcome E B) → Outcome E B
done a >>= f = f a
throws e >>= f = throws e
wild >>= f = wild
endless >>= f = endless

pub done_lem {ℓ} :
    {E : Type 0} {A : Type ℓ} {a b : A} → ◌≡◌ {A = Outcome E A} (done a) (done b) → a ≡ b
done_lem h = cc

-- A chain that is done is done with its first part.
pub bind-done {ℓ κ} :
    {E : Type 0} {A : Type ℓ} {B : Type κ} (o : Outcome E A) (f : A → Outcome E B) {b : B}
    → (o >>= f) ≡ done b
    → (a : A) × (o ≡ done a) × (f a ≡ done b)
bind-done (done a) f h = (a, refl, h)
bind-done (throws e) f h = absurd cc
bind-done wild f h = absurd cc
bind-done endless f h = absurd cc
