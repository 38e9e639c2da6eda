-- ===== src/CodeMap/Merged.antt =====
-- The excluded ranges after loading, against the ranges of the text.
use psprism.Base.{ℕ, ◌≤◌, ◌<◌, ◌≡◌, refl, subst, ap, ◌∙◌, arith, Bool, not, ◌||◌}
use psprism.Base.{leb, List, [], ◌∷◌, none, Bool-cases, inl, inr, max}
use psprism.Base.{Option-cases}
use psprism.Base.Sorting.{Sorting, SortedFrom, any, count, any-eq_of_count}
use psprism.CodeMap.Types.{AddressRange, CodeMap, empty_map, ok}
use psprism.CodeMap.Lines.{parse_lines}
use psprism.CodeMap.Normalise.{merge_after, merge, sort_exclusions, normalise}
use psprism.CodeMap.Load.{whole, lines_of, load_code_map}
use psprism.CodeMap.Lookup.{contains, last_from}
use psprism.CodeMap.Ranges.{covers, ApartFrom, hits, last_from-any}
use psprism.CodeMap.Parsed.{IsParsed, is_void_range, load_code_map-ok}

abbrev pub begin : AddressRange → ℕ
begin r = r.begin

abbrev pub end : AddressRange → ℕ
end r = r.end

-- Does an excluded range hold an address?
abbrev pub excludes : ℕ → AddressRange → Bool
excludes = covers begin end

-- Ranges none of which is void, each strictly after the end of the one before.
abbrev pub GapsFrom : ℕ → List AddressRange → Type 0
GapsFrom low [] = Unit
GapsFrom low (r ∷ rs) = (low < r.begin) × (r.begin < r.end) × GapsFrom r.end rs

abbrev pub HasGaps : List AddressRange → Type 0
HasGaps [] = Unit
HasGaps (r ∷ rs) = (r.begin < r.end) × GapsFrom r.end rs

SortedFrom-weaken :
    (low low' : ℕ) (rs : List AddressRange)
    → low' ≤ low
    → SortedFrom begin low rs
    → SortedFrom begin low' rs
SortedFrom-weaken low low' [] h sorted = tt
SortedFrom-weaken low low' (r ∷ rs) h sorted = (omega arith, sorted.1)

merge_after-any :
    (address : ℕ) (back : AddressRange) (ranges : List AddressRange)
    → SortedFrom begin back.begin ranges
    → any (excludes address) (merge_after back ranges)
      ≡ (excludes address back || any (excludes address) ranges)
unfolding merge_after any
merge_after-any address back [] sorted = refl
merge_after-any address back (r ∷ rs) sorted = elim (Bool-cases (leb r.begin back.end)) [
  | inl e ↦ rw e (
      ground (
        arith,
        merge_after-any address (record back { end = max back.end r.end }) rs
            (SortedFrom-weaken r.begin back.begin rs sorted.0 sorted.1),
      ))
  | inr e ↦ rw e (ground (arith, merge_after-any address r rs sorted.1))
]

merge-any :
    (address : ℕ) (ranges : List AddressRange)
    → SortedFrom begin 0 ranges
    → any (excludes address) (merge ranges) ≡ any (excludes address) ranges
unfolding merge any
merge-any address [] sorted = refl
merge-any address (r ∷ rs) sorted = merge_after-any address r rs sorted.1

merge_after-GapsFrom :
    (low : ℕ) (back : AddressRange) (ranges : List AddressRange)
    → low < back.begin
    → back.begin < back.end
    → SortedFrom begin back.begin ranges
    → count is_void_range ranges ≡ 0
    → GapsFrom low (merge_after back ranges)
unfolding merge_after count
merge_after-GapsFrom low back [] above h sorted solid = (above, h, tt)
merge_after-GapsFrom low back (r ∷ rs) above h sorted solid =
    elim (Bool-cases (leb r.begin back.end)) [
      | inl e ↦ rw e (
          merge_after-GapsFrom low (record back { end = max back.end r.end }) rs above
            (ground (arith)) (SortedFrom-weaken r.begin back.begin rs sorted.0 sorted.1)
            (ground arith))
      | inr e ↦ rw e (
        above,
        h,
        merge_after-GapsFrom back.end r rs (ground arith) (ground arith) sorted.1 (ground arith),
      )
    ]

merge_after-HasGaps :
    (back : AddressRange) (ranges : List AddressRange)
    → back.begin < back.end
    → SortedFrom begin back.begin ranges
    → count is_void_range ranges ≡ 0
    → HasGaps (merge_after back ranges)
unfolding merge_after count
merge_after-HasGaps back [] h sorted solid = (h, tt)
merge_after-HasGaps back (r ∷ rs) h sorted solid = elim (Bool-cases (leb r.begin back.end)) [
  | inl e ↦ rw e (
      merge_after-HasGaps (record back { end = max back.end r.end }) rs (ground (arith))
        (SortedFrom-weaken r.begin back.begin rs sorted.0 sorted.1) (ground arith))
  | inr e ↦
      rw e (
        h,
        merge_after-GapsFrom back.end r rs (ground arith) (ground arith) sorted.1 (ground arith),
      )
]

merge-HasGaps :
    (ranges : List AddressRange)
    → SortedFrom begin 0 ranges
    → count is_void_range ranges ≡ 0
    → HasGaps (merge ranges)
unfolding merge count
merge-HasGaps [] sorted solid = tt
merge-HasGaps (r ∷ rs) sorted solid =
    merge_after-HasGaps r rs (ground arith) sorted.1 (ground arith)

ApartFrom-of_GapsFrom :
    (low : ℕ) (rs : List AddressRange) → GapsFrom low rs → ApartFrom begin end low rs
ApartFrom-of_GapsFrom low [] gaps = tt
ApartFrom-of_GapsFrom low (r ∷ rs) gaps =
    (omega arith, omega arith, ApartFrom-of_GapsFrom r.end rs gaps.2)

ApartFrom-of_HasGaps : (rs : List AddressRange) → HasGaps rs → ApartFrom begin end 0 rs
ApartFrom-of_HasGaps [] gaps = tt
ApartFrom-of_HasGaps (r ∷ rs) gaps =
    (omega arith, omega arith, ApartFrom-of_GapsFrom r.end rs gaps.1)

contains-hits :
    (map : CodeMap) (address : ℕ)
    → contains map address
      ≡ not (hits begin end address (last_from begin address none map.excluded_ranges))
unfolding contains
contains-hits map address = elim (Option-cases (last_from begin address none map.excluded_ranges)) [
  | inl e ↦ rw (e, contains) refl
  | inr (r, e) ↦ rw (e, contains) (ground arith)
]

module _ (sorting : Sorting) (raw : CodeMap) (parsed : IsParsed raw) {map : CodeMap}
    (done : normalise sorting raw ≡ ok map) where
  excluded_ranges-merge : map.excluded_ranges ≡ merge (sort_exclusions sorting raw.excluded_ranges)
  unfolding normalise
  excluded_ranges-merge = ground arith

  normalise-HasGaps : HasGaps map.excluded_ranges
  normalise-HasGaps = rw excluded_ranges-merge (
      merge-HasGaps (sort_exclusions sorting raw.excluded_ranges)
        (sorting.sorted AddressRange begin raw.excluded_ranges)
        (sorting.same AddressRange begin raw.excluded_ranges is_void_range ∙ parsed.exclusions))

  normalise-contains :
      (address : ℕ) → contains map address ≡ not (any (excludes address) raw.excluded_ranges)
  normalise-contains address =
      contains-hits map address
      ∙ ap not (
          last_from-any begin end address 0 map.excluded_ranges
            (ApartFrom-of_HasGaps map.excluded_ranges normalise-HasGaps)
          ∙ ap (any (excludes address)) excluded_ranges-merge
          ∙ merge-any address (sort_exclusions sorting raw.excluded_ranges)
              (sorting.sorted AddressRange begin raw.excluded_ranges)
          ∙ any-eq_of_count (excludes address) (sort_exclusions sorting raw.excluded_ranges)
              raw.excluded_ranges
              (sorting.same AddressRange begin raw.excluded_ranges (excludes address)))

module _ (sorting : Sorting) (bytes : List ℕ) (raw map : CodeMap)
    (parsed : parse_lines 0 empty_map (lines_of bytes) ≡ ok raw)
    (loaded : load_code_map sorting (whole bytes) ≡ ok map) where
  loaded_normalise : IsParsed raw × (normalise sorting raw ≡ ok map)
  loaded_normalise =
      let (raw', e, valid, done) = load_code_map-ok sorting bytes loaded in
      let same : raw' ≡ raw = cc in
      (subst IsParsed same valid, subst (λ r. normalise sorting r ≡ ok map) same done)

  -- An address is in a loaded map exactly if none of the text's `exclude` lines covers it, however
  -- the lines are ordered and overlap.
  pub load-contains :
      (address : ℕ) → contains map address ≡ not (any (excludes address) raw.excluded_ranges)
  load-contains address =
      let (valid, done) = loaded_normalise in normalise-contains sorting raw valid done address

  -- The excluded ranges of a loaded map are in order, none is void, and no two overlap or touch.
  pub load-HasGaps : HasGaps map.excluded_ranges
  load-HasGaps = let (valid, done) = loaded_normalise in normalise-HasGaps sorting raw valid done
