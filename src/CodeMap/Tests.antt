-- ===== src/CodeMap/Tests.antt =====
-- A small code map, and the theorems at it.
use psprism.Base.{ℕ, ◌≤◌, ◌≡◌, ◌↔◌, refl, not, List, [], ◌∷◌}
use psprism.Base.{some}
use psprism.Base.Sorting.{stable, insertion_sort, any, count}
use psprism.Base.Text.{codes, same_text}
use psprism.CodeMap.Types.{CodeMap, empty_map, ok, err, overlapping_ranges}
use psprism.CodeMap.Types.{invalid_address}
use psprism.CodeMap.Tokens.{next_token, skip_space, split_token, from_chars, digit, parse_u32}
use psprism.CodeMap.Lines.{
  parse_lines, parse_line, add_line, add_exclusion, add_range, add_symbol, parse_address, add_entry,
}
use psprism.CodeMap.Normalise.{normalise, has_overlap, merge, unique}
use psprism.CodeMap.Load.{load_code_map, whole, lines_of}
use psprism.CodeMap.Lookup.{contains, function_containing}
use psprism.CodeMap.Parsed.{IsParsed}
use psprism.CodeMap.Overlaps.{holds, normalise-overlap, Finds, function_containing-Finds}
use psprism.CodeMap.Errors.{StopsAt, parse_lines-StopsAt}
use psprism.CodeMap.Merged.{excludes, load-contains}

-- Two ranges that touch, out of order, and a function.
abbrev text : List ℕ
text = codes "exclude 0x20 0x30\n# comment\nfunction_range 16 32 f\nexclude 0x10 0x20\n"

abbrev raw : CodeMap
raw = record empty_map {
  function_starts = 16 ∷ [];
  function_ranges = record { begin = 16; end = 32; name = codes "f" } ∷ [];
  function_symbols = record { address = 16; name = codes "f" } ∷ [];
  excluded_ranges = record { begin = 0x20; end = 0x30 } ∷ record { begin = 0x10; end = 0x20 } ∷ [];
}

abbrev loaded : CodeMap
loaded = record raw { excluded_ranges = record { begin = 0x10; end = 0x30 } ∷ [] }

text_parses : parse_lines 0 empty_map (lines_of text) ≡ ok raw
unfolding parse_lines parse_line add_line add_exclusion add_range add_symbol parse_address parse_u32
    next_token skip_space split_token from_chars digit same_text lines_of
text_parses = refl

raw_normalises : normalise stable raw ≡ ok loaded
unfolding normalise insertion_sort has_overlap merge unique
raw_normalises = refl

text_loads : load_code_map stable (whole text) ≡ ok loaded
unfolding load_code_map
text_loads = rw text_parses raw_normalises

load-contains_example : contains loaded 0x18 ≡ not (any (excludes 0x18) raw.excluded_ranges)
load-contains_example = load-contains stable text raw loaded text_parses text_loads 0x18

raw-IsParsed : IsParsed raw
unfolding count
raw-IsParsed = record { functions = refl; exclusions = refl }

normalise-overlap_example :
    (normalise stable raw ≡ err overlapping_ranges)
    ↔ ((address : ℕ) × (2 ≤ count (holds address) raw.function_ranges))
normalise-overlap_example = normalise-overlap stable raw raw-IsParsed

function_containing-Finds_example : Finds raw 20 (function_containing loaded 20)
function_containing-Finds_example =
    function_containing-Finds stable raw raw-IsParsed raw_normalises 20

bad_line :
    parse_lines 0 empty_map (codes "entry 4" ∷ codes "entry x" ∷ []) ≡ err (invalid_address 2)
unfolding parse_lines parse_line add_line add_entry parse_address parse_u32 next_token skip_space
    split_token from_chars digit same_text
bad_line = refl

parse_lines-StopsAt_example :
    StopsAt 0 empty_map (codes "entry 4" ∷ codes "entry x" ∷ []) (invalid_address 2)
parse_lines-StopsAt_example =
    parse_lines-StopsAt 0 empty_map (codes "entry 4" ∷ codes "entry x" ∷ []) bad_line

hexadecimal : parse_u32 (codes "0xfF") ≡ some 255
unfolding parse_u32 from_chars digit
hexadecimal = refl
