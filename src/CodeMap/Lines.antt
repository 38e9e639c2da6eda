-- ===== src/CodeMap/Lines.antt =====
-- src/elf/code_map.cpp, load_code_map: the loop over the lines.
use psprism.Base.{ℕ, ◌+◌, Bool, true, false, not, ◌&&◌, ◌||◌, leb, ◌==◌, if◌then◌else◌, bit_and}
use psprism.Base.{List, [], ◌∷◌, ◌++◌, none, some}
use psprism.Base.Text.{spells}
use psprism.CodeMap.Types.{RegisterMetadata, CodeMap}
use psprism.CodeMap.Types.{Result, ok, err, ◌>>=◌, invalid_address, unsupported_version}
use psprism.CodeMap.Types.{invalid_line, invalid_function_range, invalid_excluded_range}
use psprism.CodeMap.Tokens.{skip_space, next_token, parse_u32}

abbrev pub is_empty {ℓ} : {A : Type ℓ} → List A → Bool
is_empty [] = true
is_empty (x ∷ xs) = false

-- The lambda `parse_address`.
unfoldable pub parse_address : ℕ → List ℕ → Result ℕ
parse_address line_number value = elim (parse_u32 value) [
  | some address ↦ ok address
  | none ↦ err (invalid_address line_number)
]

-- A range that is empty, or not of whole words.
abbrev pub is_bad_range : ℕ → ℕ → Bool
is_bad_range begin end = leb end begin || not (bit_and begin 3 == 0) || not (bit_and end 3 == 0)

-- A function's symbol is noted if it has a name.
unfoldable pub add_symbol : CodeMap → ℕ → List ℕ → CodeMap
add_symbol map address [] = map
add_symbol map address (c ∷ name) = record map {
  function_symbols = map.function_symbols ++ record { address = address; name = c ∷ name } ∷ [];
}

module _ (line_number : ℕ) (map : CodeMap) where
  unfoldable pub add_entry : List ℕ → Result CodeMap
  add_entry first = do
    address ← parse_address line_number first
    ok (record map { entry = address })

  unfoldable pub add_version : List ℕ → Result CodeMap
  add_version first = do
    version ← parse_address line_number first
    if not (version == 1) && not (version == 2)
        then err (unsupported_version line_number)
        else ok (record map { version = version })

  unfoldable pub add_function : List ℕ → List ℕ → Result CodeMap
  add_function first rest = do
    address ← parse_address line_number first
    ok (
        add_symbol (record map { function_starts = map.function_starts ++ address ∷ [] }) address
          (next_token rest).0)

  unfoldable pub add_range : List ℕ → List ℕ → Result CodeMap
  add_range first rest =
      let (second, rest') = next_token rest in
      let name = (next_token rest').0 in
      if is_empty second then err (invalid_line line_number) else (do
        begin ← parse_address line_number first
        end ← parse_address line_number second
        if is_bad_range begin end
            then err (invalid_function_range line_number)
            else ok (
                add_symbol
                  (record map {
                    function_ranges =
                        map.function_ranges
                        ++ record { begin = begin; end = end; name = name } ∷ [];
                    function_starts = map.function_starts ++ begin ∷ [];
                  })
                  begin name))

  unfoldable pub add_block : List ℕ → Result CodeMap
  add_block first = do
    address ← parse_address line_number first
    ok (record map { block_entries = map.block_entries ++ address ∷ [] })

  -- `gp` and `t9`.
  unfoldable pub add_register : Bool → List ℕ → List ℕ → Result CodeMap
  add_register is_gp first rest =
      let (second, rest') = next_token rest in
      if is_empty second then err (invalid_line line_number) else (do
        address ← parse_address line_number first
        value ← parse_address line_number second
        let metadata : RegisterMetadata = record { address = address; value = value }
        if is_gp
            then ok (record map { gp_values = map.gp_values ++ metadata ∷ [] })
            else ok (record map { t9_values = map.t9_values ++ metadata ∷ [] }))

  unfoldable pub add_overlay : List ℕ → Result CodeMap
  add_overlay first = do
    address ← parse_address line_number first
    ok (record map { overlay_starts = map.overlay_starts ++ address ∷ [] })

  unfoldable pub add_exclusion : List ℕ → List ℕ → Result CodeMap
  add_exclusion first rest =
      let (second, rest') = next_token rest in
      if is_empty second then err (invalid_line line_number) else (do
        begin ← parse_address line_number first
        end ← parse_address line_number second
        if is_bad_range begin end
            then err (invalid_excluded_range line_number)
            else ok (record map {
              excluded_ranges = map.excluded_ranges ++ record { begin = begin; end = end } ∷ [];
            }))

  -- The `if` chain on the first token. Every case but the last needs a second token.
  unfoldable pub add_line : List ℕ → List ℕ → List ℕ → Result CodeMap
  add_line kind first rest =
      if is_empty first
      then err (invalid_line line_number)
      else if spells kind "entry"
      then add_entry first
      else if spells kind "version"
      then add_version first
      else if spells kind "function"
      then add_function first rest
      else if spells kind "function_range"
      then add_range first rest
      else if spells kind "block"
      then add_block first
      else if spells kind "gp"
      then add_register true first rest
      else if spells kind "t9"
      then add_register false first rest
      else if spells kind "overlay"
      then add_overlay first
      else if spells kind "exclude"
      then add_exclusion first rest
      else err (invalid_line line_number)

-- One round of the loop: empty lines and comments are passed over.
unfoldable pub parse_line : ℕ → CodeMap → List ℕ → Result CodeMap
parse_line line_number map line =
    let view = skip_space line in
    let (kind, rest) = next_token view in
    let (first, rest') = next_token rest in
    elim view [
      | [] ↦ ok map
      | c ∷ _ ↦ if c == b'#' then ok map else add_line line_number map kind first rest'
    ]

-- The loop, from a number of lines read on.
unfoldable pub parse_lines : ℕ → CodeMap → List (List ℕ) → Result CodeMap
parse_lines read map [] = ok map
parse_lines read map (line ∷ lines) =
    parse_line (read + 1) map line >>= λ map'. parse_lines (read + 1) map' lines
