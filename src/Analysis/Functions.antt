-- ===== src/Analysis/Functions.antt =====
-- analysis.cpp, discover_functions: a function per loop, each on the set so far.
use psprism.Base.Outcomes.{done, wild, ◌>>=◌}
use psprism.Base.{ℕ, ◌+◌, bit_and, Bool, not, ◌&&◌, ltb, leb, ◌==◌, if◌then◌else◌}
use psprism.Base.{List, [], ◌∷◌, ◌++◌, map, Option, none, some, u32, shr, length}
use psprism.Base.Sets.{insert, has, admit}
use psprism.Base.Text.{codes}
use psprism.Relocation.Encode.{Relocation}
use psprism.Relocation.Records.{word_of}
use psprism.Elf.Types.{ElfImage, ExecutableSection, Import}
use psprism.Elf.Bytes.{is_truncated}
use psprism.Elf.Modules.{find_program}
use psprism.Elf.Image.{memory_image}
use psprism.CodeMap.Types.{CodeMap, FunctionRange, FunctionSymbol}
use psprism.CodeMap.Lookup.{symbol_at, function_containing}
use psprism.Analysis.Types.{Outcome, from_result, DiscoveredFunction}
use psprism.Analysis.Text.{hex_word, identifier}
use psprism.Analysis.Control.{
  find_load_segment, jump_relocation_bases, direct_control_target, displacement, is_executable_word,
}
use psprism.Analysis.Entries.{word_at}

-- The set `import_stubs`.
unfoldable pub stubs_from : List ℕ → List Import → List ℕ
unfolding insert
stubs_from result [] = result
stubs_from result (x ∷ imports) = stubs_from (insert x.stub_address result) imports

abbrev pub import_stubs : ElfImage → List ℕ
import_stubs image = stubs_from [] image.imports

-- A symbol for a start: the map's, or the name of the range that holds it.
unfoldable pub function_symbol : Option CodeMap → ℕ → List ℕ
unfolding symbol_at function_containing
function_symbol none start = []
function_symbol (some map) start = elim (symbol_at map start) [
  | some name ↦ name
  | none ↦ elim (function_containing map start) [ some range ↦ range.name | none ↦ [] ]
]

-- The text after the address in a file name.
unfoldable pub file_suffix : List ℕ → List ℕ
unfolding identifier
file_suffix [] = codes ".cpp"
file_suffix (c ∷ cs) = codes "_" ++ identifier (c ∷ cs) ++ codes ".cpp"

unfoldable pub function_at : Option CodeMap → ℕ → DiscoveredFunction
unfolding hex_word function_symbol file_suffix
function_at code_map start = record {
  start = start;
  symbol = function_symbol code_map start;
  filename = codes "func_" ++ hex_word start ++ file_suffix (function_symbol code_map start);
}

module _ (image : ElfImage) where
  -- The test of the lambda `add`.
  unfoldable pub is_start : ℕ → Bool
  unfolding is_executable_word has stubs_from
  is_start address = is_executable_word image address && not (has address (import_stubs image))

  -- The lambda `add`.
  unfoldable pub add_start : ℕ → List ℕ → List ℕ
  unfolding admit is_start
  add_start = admit is_start

  -- A loop that adds each address of a list.
  unfoldable pub add_starts : List ℕ → List ℕ → List ℕ
  unfolding add_start
  add_starts [] starts = starts
  add_starts (address ∷ addresses) starts = add_starts addresses (add_start address starts)

  -- What a code map without function starts gives.
  unfoldable pub add_hints : Option CodeMap → List ℕ → List ℕ
  unfolding add_starts
  add_hints none starts = starts
  add_hints (some m) starts =
      let entered = if m.entry == 0 then starts else add_start m.entry starts in
      add_starts (map (λ (s : FunctionSymbol). s.address) m.function_symbols)
        (add_starts (map (λ (r : FunctionRange). r.begin) m.function_ranges) entered)

  -- The calls.
  unfoldable pub add_call : (ℕ → Option ℕ) → ℕ → ℕ → List ℕ → List ℕ
  unfolding add_start direct_control_target
  add_call jump_bases pc instruction starts =
      let op = shr instruction 26 in
      let rt = bit_and (shr instruction 16) 31 in
      if op == 0x03
      then elim (direct_control_target pc instruction jump_bases image.preferred_base) [
        | none ↦ starts
        | some target ↦ add_start target starts
      ]
      else if op == 0x01 && leb 0x10 rt && leb rt 0x13
      then add_start (u32 (u32 (pc + 4) + displacement instruction)) starts
      else starts

  -- The body of the loop over the words of a section; `left` is what follows the word in the section.
  unfoldable pub add_word : (ℕ → Option ℕ) → ℕ → ℕ → ℕ → List ℕ → List ℕ
  unfolding add_call add_start
  add_word jump_bases pc instruction left starts =
      let called = add_call jump_bases pc instruction starts in
      let opened =
        if bit_and instruction 0xffff8000 == 0x27bd8000 then add_start pc called else called in
      if instruction == 0x03e00008 && ltb 4 left then add_start (u32 (pc + 8)) opened else opened

  -- The loop over the words of a section, from an address on.
  unfoldable pub scan_words : (ℕ → Option ℕ) → ℕ → List ℕ → List ℕ → Outcome (List ℕ)
  unfolding add_word
  scan_words jump_bases pc [] starts = done starts
  scan_words jump_bases pc (a ∷ b ∷ c ∷ d ∷ bytes) starts =
      scan_words jump_bases (u32 (pc + 4)) bytes
        (add_word jump_bases pc (word_of a b c d) (length bytes) starts)
  scan_words jump_bases pc _ starts = wild

  unfoldable pub scan_sections : (ℕ → Option ℕ) → List ExecutableSection → List ℕ → Outcome (List ℕ)
  unfolding scan_words
  scan_sections jump_bases [] starts = done starts
  scan_sections jump_bases (section ∷ sections) starts =
      scan_words jump_bases section.address section.bytes starts
      >>= scan_sections jump_bases sections

  -- The body of the loop for the function pointers. The bounds test adds in 32 bits.
  unfoldable pub read_pointer : List ℕ → Relocation → List ℕ → Outcome (List ℕ)
  unfolding find_program add_start
  read_pointer memory relocation starts =
      if relocation.type == 2
      then elim (find_load_segment image relocation.patch_segment) [
        | none ↦ done starts
        | some patch ↦ elim (find_load_segment image relocation.target_segment) [
          | none ↦ done starts
          | some target ↦
              let address = u32 (patch.address + relocation.offset) in
              if leb (u32 (address + 4)) (length memory)
              then (if is_truncated memory address 4
                  then wild
                  else done (add_start (u32 (word_at memory address + target.address)) starts))
              else done starts
        ]
      ]
      else done starts

  unfoldable pub read_pointers : List ℕ → List Relocation → List ℕ → Outcome (List ℕ)
  unfolding read_pointer
  read_pointers memory [] starts = done starts
  read_pointers memory (relocation ∷ relocations) starts =
      read_pointer memory relocation starts >>= read_pointers memory relocations

  -- The starts without function starts in a code map.
  unfoldable pub search_starts : Option CodeMap → Outcome (List ℕ)
  unfolding add_start add_hints add_starts jump_relocation_bases scan_sections memory_image
      read_pointers
  search_starts code_map = do
    let hinted = add_hints code_map (add_start image.entry [])
    let opened =
        add_starts (map (λ (s : ExecutableSection). s.address) image.executable_sections) hinted
    scanned ← scan_sections (jump_relocation_bases image) image.executable_sections opened
    memory ← from_result (memory_image image.load_segments)
    read_pointers memory image.relocations scanned

  unfoldable pub find_starts : Option CodeMap → Outcome (List ℕ)
  unfolding search_starts add_starts
  find_starts none = search_starts none
  find_starts (some m) = elim m.function_starts [
    | [] ↦ search_starts (some m)
    | start ∷ starts ↦ done (add_starts (start ∷ starts) [])
  ]

  unfoldable pub discover_functions : Option CodeMap → Outcome (List DiscoveredFunction)
  unfolding find_starts function_at
  discover_functions code_map = do
    starts ← find_starts code_map
    done (map (function_at code_map) starts)
