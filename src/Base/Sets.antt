-- ===== src/Base/Sets.antt =====
-- std::set of numbers: its elements in ascending order, each once.
use Prim.Native.Nat.{ℕ, ◌<◌}
use mathlib.Core.Path.{◌≡◌, refl}
use mathlib.Core.Logic.{◌⊎◌, inl, inr}
use mathlib.Core.Bool.{Bool, true, false, ◌||◌}
use mathlib.Core.List.{List, [], ◌∷◌, ◌++◌}
use mathlib.Core.Option.{Option, none, some}
use native.Mathlib.Omega.{arith}
use psprism.Base.Tests.{ltb, ◌==◌, if◌then◌else◌, Bool-cases}

unfoldable pub insert : ℕ → List ℕ → List ℕ
insert x [] = x ∷ []
insert x (y ∷ ys) =
    let rest = insert x ys in if ltb x y then x ∷ y ∷ ys else if ltb y x then y ∷ rest else y ∷ ys

unfoldable pub has : ℕ → List ℕ → Bool
has x [] = false
has x (y ∷ ys) = x == y || has x ys

-- Strictly ascending, all above the first argument's elements.
abbrev pub Above : ℕ → List ℕ → Type 0
Above low [] = Unit
Above low (x ∷ xs) = (low < x) × Above x xs

-- Strictly ascending.
abbrev pub IsAscending : List ℕ → Type 0
IsAscending [] = Unit
IsAscending (x ∷ xs) = Above x xs

pub has-insert : (x y : ℕ) (ys : List ℕ) → has x (insert y ys) ≡ (x == y || has x ys)
unfolding has insert
has-insert x y [] = refl
has-insert x y (z ∷ zs) = ground (arith, has-insert x y zs)

Above-insert : (low x : ℕ) (ys : List ℕ) → low < x → Above low ys → Above low (insert x ys)
unfolding insert
Above-insert low x [] h a = (h, tt)
Above-insert low x (y ∷ ys) h a = ground (arith, Above-insert y x ys)

pub IsAscending-insert : (x : ℕ) (ys : List ℕ) → IsAscending ys → IsAscending (insert x ys)
unfolding insert
IsAscending-insert x [] a = tt
IsAscending-insert x (y ∷ ys) a = ground (arith, Above-insert y x ys)

pub has-append : (x : ℕ) (ys zs : List ℕ) → has x (ys ++ zs) ≡ (has x ys || has x zs)
unfolding has
has-append x [] zs = refl
has-append x (y ∷ ys) zs = ground (arith, has-append x ys zs)

-- Insertion of the numbers that pass a test.
unfoldable pub admit : (ℕ → Bool) → ℕ → List ℕ → List ℕ
unfolding insert
admit p x s = if p x then insert x s else s

-- From the first set to the second, by insertions that pass the test.
pub record Grows (p : ℕ → Bool) (s s' : List ℕ) : Type 0 where
  pub kept : (x : ℕ) → has x s ≡ true → has x s' ≡ true
  pub fresh : (x : ℕ) → has x s' ≡ true → (has x s ≡ true) ⊎ (p x ≡ true)
  pub ordered : IsAscending s → IsAscending s'

module _ (p : ℕ → Bool) where
  pub Grows-refl : (s : List ℕ) → Grows p s s
  Grows-refl s = record { kept = λ x h. h; fresh = λ x h. inl h; ordered = λ a. a }

  pub Grows-trans : {s t u : List ℕ} → Grows p s t → Grows p t u → Grows p s u
  Grows-trans g h = record {
    kept = λ x e. h.kept x (g.kept x e);
    fresh = λ x e. elim (h.fresh x e) [ inl f ↦ g.fresh x f | inr f ↦ inr f ];
    ordered = λ a. h.ordered (g.ordered a);
  }

  pub Grows-admit : (x : ℕ) (s : List ℕ) → Grows p s (admit p x s)
  unfolding admit
  Grows-admit x s = elim (Bool-cases (p x)) [
    | inl e ↦ rw e (record {
      kept = λ y h. ground (arith, has-insert y x s, h);
      fresh = λ y h. ground (arith, has-insert y x s, h, e);
      ordered = IsAscending-insert x s;
    })
    | inr e ↦ rw e (Grows-refl s)
  ]

  pub has-admit : (x : ℕ) (s : List ℕ) → p x ≡ true → has x (admit p x s) ≡ true
  unfolding admit
  has-admit x s h = ground (arith, has-insert x x s, h)

  pub Grows-if :
      (b : Bool) {s t u : List ℕ} → Grows p s t → Grows p s u → Grows p s (if b then t else u)
  Grows-if true g h = g
  Grows-if false g h = h

  pub Grows-elim {ℓ} :
      {A : Type ℓ} (o : Option A) {s t : List ℕ} {f : A → List ℕ}
      → Grows p s t
      → ((a : A) → Grows p s (f a))
      → Grows p s (elim o [ none ↦ t | some a ↦ f a ])
  Grows-elim none g h = g
  Grows-elim (some a) g h = h a
