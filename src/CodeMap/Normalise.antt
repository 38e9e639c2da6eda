-- ===== src/CodeMap/Normalise.antt =====
-- src/elf/code_map.cpp, load_code_map: after the loop the lists are sorted, repeats are dropped,
-- overlapping functions are refused, and excluded ranges that touch are merged.
use psprism.Base.{ℕ, Bool, true, false, ltb, leb, ◌==◌, if◌then◌else◌, List, [], ◌∷◌, max}
use psprism.Base.Sorting.{Sorting}
use psprism.CodeMap.Types.{AddressRange, FunctionSymbol, FunctionRange, CodeMap, Result}
use psprism.CodeMap.Types.{ok, err, overlapping_ranges}

-- std::unique and erase, after an element that is kept.
unfoldable pub unique_after : ℕ → List ℕ → List ℕ
unique_after previous [] = []
unique_after previous (x ∷ xs) =
    let rest = unique_after x xs in if x == previous then rest else x ∷ rest

unfoldable pub unique : List ℕ → List ℕ
unfolding unique_after
unique [] = []
unique (x ∷ xs) = x ∷ unique_after x xs

-- Does a range begin before the one in front of it ends?
unfoldable pub overlaps_after : FunctionRange → List FunctionRange → Bool
overlaps_after previous [] = false
overlaps_after previous (range ∷ ranges) =
    let rest = overlaps_after range ranges in if ltb range.begin previous.end then true else rest

unfoldable pub has_overlap : List FunctionRange → Bool
unfolding overlaps_after
has_overlap [] = false
has_overlap (range ∷ ranges) = overlaps_after range ranges

-- `merged_exclusions`, whose last range is `back`.
unfoldable pub merge_after : AddressRange → List AddressRange → List AddressRange
merge_after back [] = back ∷ []
merge_after back (range ∷ ranges) =
    let joined = merge_after (record back { end = max back.end range.end }) ranges in
    let apart = back ∷ merge_after range ranges in
    if leb range.begin back.end then joined else apart

unfoldable pub merge : List AddressRange → List AddressRange
unfolding merge_after
merge [] = []
merge (range ∷ ranges) = merge_after range ranges

module _ (sorting : Sorting) where
  abbrev pub sort_addresses : List ℕ → List ℕ
  sort_addresses = sorting.sort ℕ (λ x. x)

  abbrev pub sort_functions : List FunctionRange → List FunctionRange
  sort_functions = sorting.sort FunctionRange (λ r. r.begin)

  abbrev pub sort_symbols : List FunctionSymbol → List FunctionSymbol
  sort_symbols = sorting.sort FunctionSymbol (λ s. s.address)

  abbrev pub sort_exclusions : List AddressRange → List AddressRange
  sort_exclusions = sorting.sort AddressRange (λ r. r.begin)

  unfoldable pub normalise : CodeMap → Result CodeMap
  normalise map =
      let ranges = sort_functions map.function_ranges in
      if has_overlap ranges
      then err overlapping_ranges
      else ok (record map {
        function_starts = unique (sort_addresses map.function_starts);
        function_ranges = ranges;
        block_entries = unique (sort_addresses map.block_entries);
        overlay_starts = unique (sort_addresses map.overlay_starts);
        function_symbols = sort_symbols map.function_symbols;
        excluded_ranges = merge (sort_exclusions map.excluded_ranges);
      })
