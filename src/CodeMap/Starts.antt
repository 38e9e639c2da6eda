-- ===== src/CodeMap/Starts.antt =====
-- The lists of addresses after loading: in order and without repeats.
use psprism.Base.{ℕ, ◌<◌, ◌≡◌, refl, ◌∙◌, arith, Bool, ◌||◌, ◌==◌}
use psprism.Base.{List, [], ◌∷◌, Bool-cases, inl, inr}
use psprism.Base.Sorting.{Sorting, SortedFrom, any, any-eq_of_count}
use psprism.CodeMap.Types.{CodeMap, ok}
use psprism.CodeMap.Normalise.{unique_after, unique, sort_addresses, normalise}

-- Strictly ascending, above a bound.
abbrev pub AscendsFrom : ℕ → List ℕ → Type 0
AscendsFrom low [] = Unit
AscendsFrom low (x ∷ xs) = (low < x) × AscendsFrom x xs

abbrev pub IsAscending : List ℕ → Type 0
IsAscending [] = Unit
IsAscending (x ∷ xs) = AscendsFrom x xs

unique_after-AscendsFrom :
    (previous : ℕ) (xs : List ℕ)
    → SortedFrom (λ x. x) previous xs
    → AscendsFrom previous (unique_after previous xs)
unfolding unique_after
unique_after-AscendsFrom previous [] sorted = tt
unique_after-AscendsFrom previous (x ∷ xs) sorted = elim (Bool-cases (x == previous)) [
  | inl e ↦
      let same : previous ≡ x = ground arith in
      rw (e, same) (unique_after-AscendsFrom x xs sorted.1)
  | inr e ↦ rw e (ground arith, unique_after-AscendsFrom x xs sorted.1)
]

unique-IsAscending : (xs : List ℕ) → SortedFrom (λ x. x) 0 xs → IsAscending (unique xs)
unfolding unique
unique-IsAscending [] sorted = tt
unique-IsAscending (x ∷ xs) sorted = unique_after-AscendsFrom x xs sorted.1

unique_after-any :
    (p : ℕ → Bool) (previous : ℕ) (xs : List ℕ)
    → (p previous || any p (unique_after previous xs)) ≡ (p previous || any p xs)
unfolding unique_after any
unique_after-any p previous [] = refl
unique_after-any p previous (x ∷ xs) = elim (Bool-cases (x == previous)) [
  | inl e ↦
      let same : previous ≡ x = ground arith in
      rw (e, same) (ground (arith, unique_after-any p x xs))
  | inr e ↦ rw e (ground (arith, unique_after-any p x xs))
]

unique-any : (p : ℕ → Bool) (xs : List ℕ) → any p (unique xs) ≡ any p xs
unfolding unique any
unique-any p [] = refl
unique-any p (x ∷ xs) = unique_after-any p x xs

-- The list in order, without repeats, and with the same elements as another.
abbrev pub IsIndexOf : List ℕ → List ℕ → Type 0
IsIndexOf xs raw = IsAscending xs × ((p : ℕ → Bool) → any p xs ≡ any p raw)

index-IsIndexOf :
    (sorting : Sorting) (raw : List ℕ) → IsIndexOf (unique (sort_addresses sorting raw)) raw
index-IsIndexOf sorting raw = (
  unique-IsAscending (sort_addresses sorting raw) (sorting.sorted ℕ (λ x. x) raw),
  λ p.
      unique-any p (sort_addresses sorting raw)
      ∙ any-eq_of_count p (sort_addresses sorting raw) raw (sorting.same ℕ (λ x. x) raw p),
)

-- In a loaded map the function starts, the block entries and the overlay starts are strictly
-- ascending, and each list has the same addresses as the lines gave.
pub normalise-IsIndexOf :
    (sorting : Sorting) (raw : CodeMap) {map : CodeMap}
    → normalise sorting raw ≡ ok map
    → IsIndexOf map.function_starts raw.function_starts
      × IsIndexOf map.block_entries raw.block_entries
      × IsIndexOf map.overlay_starts raw.overlay_starts
unfolding normalise
normalise-IsIndexOf sorting raw {map = map} h =
    let starts : map.function_starts ≡ unique (sort_addresses sorting raw.function_starts) =
      ground arith in
    let blocks : map.block_entries ≡ unique (sort_addresses sorting raw.block_entries) =
      ground arith in
    let overlays : map.overlay_starts ≡ unique (sort_addresses sorting raw.overlay_starts) =
      ground arith in
    (
      rw starts (index-IsIndexOf sorting raw.function_starts),
      rw blocks (index-IsIndexOf sorting raw.block_entries),
      rw overlays (index-IsIndexOf sorting raw.overlay_starts),
    )
