-- ===== src/CodeMap/Lookup.antt =====
-- src/elf/image.cpp: the look-ups in a code map. The ranges are partitioned at every address, so
-- std::upper_bound and std::lower_bound are the first elements at which their test turns.
use psprism.Base.{ℕ, Bool, true, ◌||◌, ltb, leb, ◌==◌, if◌then◌else◌, List, [], ◌∷◌, Option}
use psprism.Base.{none, some}
use psprism.CodeMap.Types.{AddressRange, FunctionSymbol, FunctionRange, CodeMap}

-- The element before std::upper_bound, if it has one; `before` is the one in front of the list.
unfoldable pub last_from {ℓ} : {A : Type ℓ} → (A → ℕ) → ℕ → Option A → List A → Option A
last_from key address before [] = before
last_from key address before (x ∷ xs) =
    let rest = last_from key address (some x) xs in if ltb address (key x) then before else rest

-- std::lower_bound.
unfoldable pub first_from {ℓ} : {A : Type ℓ} → (A → ℕ) → ℕ → List A → Option A
first_from key address [] = none
first_from key address (x ∷ xs) =
    let rest = first_from key address xs in if ltb (key x) address then rest else some x

unfoldable pub contains : CodeMap → ℕ → Bool
contains map address =
    elim (last_from (λ (r : AddressRange). r.begin) address none map.excluded_ranges) [
      | none ↦ true
      | some candidate ↦ ltb address candidate.begin || leb candidate.end address
    ]

unfoldable pub symbol_at : CodeMap → ℕ → Option (List ℕ)
symbol_at map address =
    elim (first_from (λ (s : FunctionSymbol). s.address) address map.function_symbols) [
      | none ↦ none
      | some found ↦ if found.address == address then some found.name else none
    ]

unfoldable pub function_containing : CodeMap → ℕ → Option FunctionRange
function_containing map address =
    elim (last_from (λ (r : FunctionRange). r.begin) address none map.function_ranges) [
      | none ↦ none
      | some candidate ↦ if ltb address candidate.end then some candidate else none
    ]
