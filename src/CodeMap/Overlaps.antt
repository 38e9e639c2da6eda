-- ===== src/CodeMap/Overlaps.antt =====
-- Function ranges: which lists are refused, and what `function_containing` finds.
use psprism.Base.{◌↔◌, ℕ, ◌≤◌, ◌≡◌, refl, sym, ap, ◌∙◌, arith, Bool, true, false, ltb}
use psprism.Base.{List, [], ◌∷◌, Option, none, some, Bool-cases, Option-cases, inl, inr}
use psprism.Base.Sorting.{Sorting, SortedFrom, any, any-count, count, any-eq_of_count}
use psprism.CodeMap.Types.{FunctionRange, CodeMap, ok, err, overlapping_ranges}
use psprism.CodeMap.Normalise.{overlaps_after, has_overlap, sort_functions, normalise}
use psprism.CodeMap.Lookup.{function_containing, last_from}
use psprism.CodeMap.Ranges.{
  covers, ApartFrom, hits, last_from-any, last_from-begin, last_from-mem, count-ApartFrom,
}
use psprism.CodeMap.Parsed.{IsParsed, is_void_function}

abbrev begin : FunctionRange → ℕ
begin r = r.begin

abbrev end : FunctionRange → ℕ
end r = r.end

-- Does a function hold an address?
abbrev pub holds : ℕ → FunctionRange → Bool
holds = covers begin end

overlaps_after-false :
    (back : FunctionRange) (ranges : List FunctionRange)
    → count is_void_function ranges ≡ 0
    → overlaps_after back ranges ≡ false
    → ApartFrom begin end back.end ranges
unfolding overlaps_after count
overlaps_after-false back [] solid h = tt
overlaps_after-false back (r ∷ rs) solid h =
    (ground arith, ground arith, overlaps_after-false r rs (ground arith) (ground arith))

has_overlap-false :
    (ranges : List FunctionRange)
    → count is_void_function ranges ≡ 0
    → has_overlap ranges ≡ false
    → ApartFrom begin end 0 ranges
unfolding has_overlap count
has_overlap-false [] solid h = tt
has_overlap-false (r ∷ rs) solid h =
    (omega arith, ground arith, overlaps_after-false r rs (ground arith) h)

-- Some address is in two of the ranges.
overlaps_after-true :
    (back : FunctionRange) (ranges : List FunctionRange)
    → SortedFrom begin back.begin ranges
    → count is_void_function ranges ≡ 0
    → overlaps_after back ranges ≡ true
    → (address : ℕ) × (2 ≤ count (holds address) (back ∷ ranges))
unfolding overlaps_after count
overlaps_after-true back [] sorted solid h = absurd (ground arith)
overlaps_after-true back (r ∷ rs) sorted solid h = elim (Bool-cases (ltb r.begin back.end)) [
  | inl e ↦ (r.begin, ground arith)
  | inr e ↦
      let (address, twice) = overlaps_after-true r rs sorted.1 (ground arith) (ground arith) in
      (address, ground arith)
]

has_overlap-true :
    (ranges : List FunctionRange)
    → SortedFrom begin 0 ranges
    → count is_void_function ranges ≡ 0
    → has_overlap ranges ≡ true
    → (address : ℕ) × (2 ≤ count (holds address) ranges)
unfolding has_overlap count
has_overlap-true [] sorted solid h = absurd (ground arith)
has_overlap-true (r ∷ rs) sorted solid h = overlaps_after-true r rs sorted.1 (ground arith) h

-- What a look-up at an address must give, in the map of some lines.
abbrev pub Finds : CodeMap → ℕ → Option FunctionRange → Type 0
Finds raw address none = any (holds address) raw.function_ranges ≡ false
Finds raw address (some r) =
    (holds address r ≡ true)
    × (count (holds address) raw.function_ranges ≡ 1)
    × ((p : FunctionRange → Bool) → p r ≡ true → any p raw.function_ranges ≡ true)

module _ (sorting : Sorting) (raw : CodeMap) (parsed : IsParsed raw) where
  sorted_count :
      (p : FunctionRange → Bool)
      → count p (sort_functions sorting raw.function_ranges) ≡ count p raw.function_ranges
  sorted_count p = sorting.same FunctionRange begin raw.function_ranges p

  solid : count is_void_function (sort_functions sorting raw.function_ranges) ≡ 0
  solid = sorted_count is_void_function ∙ parsed.functions

  apart :
      has_overlap (sort_functions sorting raw.function_ranges) ≡ false
      → ApartFrom begin end 0 (sort_functions sorting raw.function_ranges)
  apart e = has_overlap-false (sort_functions sorting raw.function_ranges) solid e

  -- After the lines are read, the map is refused exactly if some address is in two of its functions.
  -- The lines leave no void range.
  pub normalise-overlap :
      (normalise sorting raw ≡ err overlapping_ranges)
      ↔ ((address : ℕ) × (2 ≤ count (holds address) raw.function_ranges))
  unfolding normalise
  normalise-overlap = elim (Bool-cases (has_overlap (sort_functions sorting raw.function_ranges))) [
    | inl e ↦ (
      λ _.
          (let (address, twice) =
              has_overlap-true (sort_functions sorting raw.function_ranges)
                (sorting.sorted FunctionRange begin raw.function_ranges) solid e in
            (address, omega (arith, sorted_count (holds address)))),
      λ _. rw (e, normalise) refl,
    )
    | inr e ↦ (
      λ refused. absurd (ground (arith, refused, e)),
      λ (address, twice). absurd (
          omega (
            arith,
            sorted_count (holds address),
            count-ApartFrom begin end address 0 (sort_functions sorting raw.function_ranges)
                (apart e),
          )),
    )
  ]

  module _ {map : CodeMap} (done : normalise sorting raw ≡ ok map) where
    function_ranges-sort : map.function_ranges ≡ sort_functions sorting raw.function_ranges
    unfolding normalise
    function_ranges-sort = ground arith

    no_overlap : has_overlap (sort_functions sorting raw.function_ranges) ≡ false
    unfolding normalise
    no_overlap = ground arith

    function_containing-hits :
        (address : ℕ) {r : FunctionRange}
        → function_containing map address ≡ some r
        → (last_from begin address none map.function_ranges ≡ some r) × (holds address r ≡ true)
    unfolding function_containing
    function_containing-hits address h =
        elim (Option-cases (last_from begin address none map.function_ranges)) [
          | inl e ↦ absurd (ground (arith, e, h))
          | inr (r', e) ↦
              let low = last_from-begin begin end address map.function_ranges e in
              (ground (arith, e, h, low), ground (arith, e, h, low))
        ]

    loaded_any : (p : FunctionRange → Bool) → any p map.function_ranges ≡ any p raw.function_ranges
    loaded_any p =
        ap (any p) function_ranges-sort
        ∙ any-eq_of_count p (sort_functions sorting raw.function_ranges) raw.function_ranges
            (sorted_count p)

    loaded_apart : ApartFrom begin end 0 map.function_ranges
    loaded_apart = rw function_ranges-sort (apart no_overlap)

    nothing_hit :
        (address : ℕ)
        → function_containing map address ≡ none
        → hits begin end address (last_from begin address none map.function_ranges) ≡ false
    unfolding function_containing
    nothing_hit address h = elim (Option-cases (last_from begin address none map.function_ranges)) [
      | inl e ↦ rw e refl
      | inr (r, e) ↦ rw e (ground (arith, e, h))
    ]

    once :
        (address : ℕ)
        → any (holds address) raw.function_ranges ≡ true
        → count (holds address) raw.function_ranges ≡ 1
    once address h = ground (
      arith,
      sorted_count (holds address),
      any-count (holds address) raw.function_ranges,
      count-ApartFrom begin end address 0 (sort_functions sorting raw.function_ranges)
          (apart no_overlap),
    )

    -- In a map that was not refused, a look-up finds nothing if no function of the text holds the
    -- address; else it finds a function of the text that holds it, and no other does.
    pub function_containing-Finds :
        (address : ℕ) → Finds raw address (function_containing map address)
    unfolding function_containing
    function_containing-Finds address = elim (Option-cases (function_containing map address)) [
      | inl e ↦ rw e (
          sym (loaded_any (holds address))
          ∙ sym (last_from-any begin end address 0 map.function_ranges loaded_apart)
          ∙ nothing_hit address e)
      | inr (r, e) ↦
          let (found, inside) = function_containing-hits address e in
          let listed = λ (p : FunctionRange → Bool) (h : p r ≡ true).
            sym (loaded_any p) ∙ last_from-mem begin end address p map.function_ranges found h in
          rw e (inside, once address (listed (holds address) inside), listed)
    ]
