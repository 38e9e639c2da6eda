-- ===== src/CodeMap/Parsed.antt =====
-- What the lines of a code map leave behind: ranges of one byte or more, whatever the text.
use psprism.Base.{ℕ, ◌+◌, ◌≡◌, refl, ◌∙◌, arith, Bool, true, false}
use psprism.Base.{leb, List, [], ◌∷◌, ◌++◌}
use psprism.Base.{inl, inr}
use psprism.Base.Sorting.{Sorting, count, count-append}
use psprism.CodeMap.Types.{AddressRange, FunctionRange, CodeMap, empty_map, ok}
use psprism.CodeMap.Types.{Result-cases}
use psprism.CodeMap.Tokens.{next_token, skip_space}
use psprism.CodeMap.Normalise.{normalise}
use psprism.CodeMap.Load.{load_code_map, whole, lines_of}
use psprism.CodeMap.Lines.{add_symbol, add_entry, add_version, add_function}
use psprism.CodeMap.Lines.{add_range, add_block, add_register, add_overlay, add_exclusion, add_line}
use psprism.CodeMap.Lines.{parse_line, parse_lines}

-- Tests for a range that holds no address.
abbrev pub is_void_function : FunctionRange → Bool
is_void_function r = leb r.end r.begin

abbrev pub is_void_range : AddressRange → Bool
is_void_range r = leb r.end r.begin

-- No range is void.
pub record IsParsed (map : CodeMap) : Type 0 where
  pub functions : count is_void_function map.function_ranges ≡ 0
  pub exclusions : count is_void_range map.excluded_ranges ≡ 0

count-push {ℓ} :
    {A : Type ℓ} (p : A → Bool) (xs : List A) (x : A)
    → count p xs ≡ 0
    → p x ≡ false
    → count p (xs ++ x ∷ []) ≡ 0
unfolding count
count-push p xs x h e = count-append p xs (x ∷ []) ∙ rw (h, e) refl

add_symbol-IsParsed :
    (map : CodeMap) (address : ℕ) (name : List ℕ)
    → IsParsed map
    → IsParsed (add_symbol map address name)
unfolding add_symbol
add_symbol-IsParsed map address [] parsed = parsed
add_symbol-IsParsed map address (c ∷ name) parsed = record {
  functions = parsed.functions;
  exclusions = parsed.exclusions;
}

module _ (line_number : ℕ) (map : CodeMap) {result : CodeMap} (parsed : IsParsed map) where
  add_entry-IsParsed :
      (first : List ℕ) → add_entry line_number map first ≡ ok result → IsParsed result
  unfolding add_entry
  add_entry-IsParsed first h = ground (arith)

  add_version-IsParsed :
      (first : List ℕ) → add_version line_number map first ≡ ok result → IsParsed result
  unfolding add_version
  add_version-IsParsed first h = ground (arith)

  add_block-IsParsed :
      (first : List ℕ) → add_block line_number map first ≡ ok result → IsParsed result
  unfolding add_block
  add_block-IsParsed first h = ground (arith)

  add_overlay-IsParsed :
      (first : List ℕ) → add_overlay line_number map first ≡ ok result → IsParsed result
  unfolding add_overlay
  add_overlay-IsParsed first h = ground (arith)

  add_register-IsParsed :
      (is_gp : Bool) (first rest : List ℕ)
      → add_register line_number map is_gp first rest ≡ ok result
      → IsParsed result
  unfolding add_register
  add_register-IsParsed is_gp first rest h = ground (arith)

  add_function-IsParsed :
      (first rest : List ℕ) → add_function line_number map first rest ≡ ok result → IsParsed result
  unfolding add_function add_symbol
  add_function-IsParsed first rest h = ground arith

  add_exclusion-IsParsed :
      (first rest : List ℕ) → add_exclusion line_number map first rest ≡ ok result → IsParsed result
  unfolding add_exclusion
  add_exclusion-IsParsed first rest h = grind (arith, count-push is_void_range map.excluded_ranges)

  add_range-IsParsed :
      (first rest : List ℕ) → add_range line_number map first rest ≡ ok result → IsParsed result
  unfolding add_range add_symbol
  add_range-IsParsed first rest h = grind (arith, count-push is_void_function map.function_ranges)

  add_line-IsParsed :
      (kind first rest : List ℕ)
      → add_line line_number map kind first rest ≡ ok result
      → IsParsed result
  unfolding add_line
  add_line-IsParsed kind first rest h = ground (
    arith,
    add_entry-IsParsed first,
    add_version-IsParsed first,
    add_function-IsParsed first rest,
    add_range-IsParsed first rest,
    add_block-IsParsed first,
    add_register-IsParsed true first rest,
    add_register-IsParsed false first rest,
    add_overlay-IsParsed first,
    add_exclusion-IsParsed first rest,
  )

  parse_line-IsParsed :
      (line : List ℕ) → parse_line line_number map line ≡ ok result → IsParsed result
  unfolding parse_line
  parse_line-IsParsed line h =
      let (kind, rest) = next_token (skip_space line) in
      ground (arith, add_line-IsParsed kind (next_token rest).0 (next_token rest).1)

-- Every map that the loop returns is free of void ranges, if the one it starts from is.
pub parse_lines-IsParsed :
    (read : ℕ) (map : CodeMap) (lines : List (List ℕ)) {result : CodeMap}
    → IsParsed map
    → parse_lines read map lines ≡ ok result
    → IsParsed result
unfolding parse_lines
parse_lines-IsParsed read map [] parsed h = ground arith
parse_lines-IsParsed read map (line ∷ lines) {result = result} parsed h =
    elim (Result-cases (parse_line (read + 1) map line)) [
      | inl (map', e) ↦
          parse_lines-IsParsed (read + 1) map' lines
            (parse_line-IsParsed (read + 1) map parsed line e) (rw e at h)
      | inr (why, e) ↦ absurd (ground (arith, e, h))
    ]

pub empty_map-IsParsed : IsParsed empty_map
unfolding count
empty_map-IsParsed = record { functions = refl; exclusions = refl }

-- A loaded map is what the lines left, normalised.
pub load_code_map-ok :
    (sorting : Sorting) (bytes : List ℕ) {map : CodeMap}
    → load_code_map sorting (whole bytes) ≡ ok map
    → (raw : CodeMap) × (parse_lines 0 empty_map (lines_of bytes) ≡ ok raw)
      × IsParsed raw
      × (normalise sorting raw ≡ ok map)
unfolding load_code_map
load_code_map-ok sorting bytes h = elim (Result-cases (parse_lines 0 empty_map (lines_of bytes))) [
  | inl (raw, e) ↦
      (raw, e, parse_lines-IsParsed 0 empty_map (lines_of bytes) empty_map-IsParsed e, rw e at h)
  | inr (why, e) ↦ absurd (ground (arith, e, h))
]
