-- ===== src/Base/Sorting.antt =====
-- std::sort by a number of each element. What it does with equal keys is left open, so the sorting
-- function is a parameter: any that gives the same elements, as often, in ascending order.
use Prim.Native.Nat.{ℕ, ◌+◌, ◌≤◌}
use mathlib.Core.Path.{◌≡◌, refl, ◌∙◌}
use mathlib.Core.Bool.{Bool, false, ◌||◌}
use mathlib.Core.List.{List, [], ◌∷◌, ◌++◌}
use native.Mathlib.Omega.{arith}
use psprism.Base.Tests.{ltb, leb, if◌then◌else◌}

module _ {ℓ} {A : Type ℓ} where
  -- Ascending from a bound on.
  abbrev pub SortedFrom : (A → ℕ) → ℕ → List A → Type 0
  SortedFrom key low [] = Unit
  SortedFrom key low (x ∷ xs) = (low ≤ key x) × SortedFrom key (key x) xs

  abbrev pub IsSorted : (A → ℕ) → List A → Type 0
  IsSorted key = SortedFrom key 0

  unfoldable pub count : (A → Bool) → List A → ℕ
  count p [] = 0
  count p (x ∷ xs) = (if p x then 1 else 0) + count p xs

  unfoldable pub any : (A → Bool) → List A → Bool
  any p [] = false
  any p (x ∷ xs) = p x || any p xs

  pub any-count : (p : A → Bool) (xs : List A) → any p xs ≡ ltb 0 (count p xs)
  unfolding any count
  any-count p [] = refl
  any-count p (x ∷ xs) = ground (arith, any-count p xs)

  pub count-append : (p : A → Bool) (xs ys : List A) → count p (xs ++ ys) ≡ count p xs + count p ys
  unfolding count
  count-append p [] ys = omega arith
  count-append p (x ∷ xs) ys = omega (arith, count-append p xs ys)

  -- Equal counts decide the same tests.
  pub any-eq_of_count :
      (p : A → Bool) (xs ys : List A) → count p xs ≡ count p ys → any p xs ≡ any p ys
  any-eq_of_count p xs ys h = ground (arith, any-count p xs, any-count p ys)

pub record Sorting : Type 1 where
  pub sort : (A : Type 0) → (A → ℕ) → List A → List A
  pub sorted : (A : Type 0) (key : A → ℕ) (xs : List A) → IsSorted key (sort A key xs)
  pub same :
      (A : Type 0) (key : A → ℕ) (xs : List A) (p : A → Bool) → count p (sort A key xs) ≡ count p xs

module _ {ℓ} {A : Type ℓ} (key : A → ℕ) where
  unfoldable insert : A → List A → List A
  insert x [] = x ∷ []
  insert x (y ∷ ys) = let rest = insert x ys in if leb (key x) (key y) then x ∷ y ∷ ys else y ∷ rest

  unfoldable pub insertion_sort : List A → List A
  unfolding insert
  insertion_sort [] = []
  insertion_sort (x ∷ xs) = insert x (insertion_sort xs)

  SortedFrom-insert :
      (x : A) (ys : List A) (low : ℕ)
      → low ≤ key x
      → SortedFrom key low ys
      → SortedFrom key low (insert x ys)
  unfolding insert
  SortedFrom-insert x [] low h s = ground arith
  SortedFrom-insert x (y ∷ ys) low h s = ground (arith, SortedFrom-insert x ys (key y))

  pub insertion_sort-IsSorted : (xs : List A) → IsSorted key (insertion_sort xs)
  unfolding insertion_sort
  insertion_sort-IsSorted [] = tt
  insertion_sort-IsSorted (x ∷ xs) =
      SortedFrom-insert x (insertion_sort xs) 0 (omega arith) (insertion_sort-IsSorted xs)

  count-insert : (p : A → Bool) (x : A) (ys : List A) → count p (insert x ys) ≡ count p (x ∷ ys)
  unfolding insert count
  count-insert p x [] = refl
  count-insert p x (y ∷ ys) = ground (arith, count-insert p x ys)

  pub count-insertion_sort : (p : A → Bool) (xs : List A) → count p (insertion_sort xs) ≡ count p xs
  unfolding insertion_sort count
  count-insertion_sort p [] = refl
  count-insertion_sort p (x ∷ xs) =
      count-insert p x (insertion_sort xs) ∙ omega (arith, count-insertion_sort p xs)

-- A sorting function as the parameter asks for.
abbrev pub stable : Sorting
stable = record {
  sort = λ A key. insertion_sort key;
  sorted = λ A key. insertion_sort-IsSorted key;
  same = λ A key xs p. count-insertion_sort key p xs;
}
