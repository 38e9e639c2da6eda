-- ===== src/Analysis/Entries.antt =====
-- analysis.cpp, potential_block_entries: a function per loop, each on the set so far.
use psprism.Base.Outcomes.{done, wild, endless, ◌>>=◌}
use psprism.Base.{ℕ, zero, suc, ◌+◌, ◌-◌, ◌^◌, bit_and, true, false, not, ◌&&◌, ◌||◌}
use psprism.Base.{
  ltb, leb, ◌==◌, if◌then◌else◌, List, [], ◌∷◌, Option, none, some, u32, shl, length,
}
use psprism.Base.{sign_extend16}
use psprism.Base.Sets.{admit}
use psprism.Relocation.Encode.{Relocation}
use psprism.Relocation.Records.{word_of}
use psprism.Elf.Types.{ElfImage, ExecutableSection, LoadSegment}
use psprism.Elf.Bytes.{byte_at, is_truncated}
use psprism.Elf.Modules.{find_program}
use psprism.Elf.Image.{memory_image}
use psprism.CodeMap.Types.{CodeMap}
use psprism.Analysis.Types.{Outcome, from_result}
use psprism.Analysis.Text.{starts_delayed_branch, needs_post_delay_entry}
use psprism.Analysis.Control.{
  find_load_segment, jump_relocation_bases, direct_control_target, is_executable_word,
}

-- `word_at` where the four bytes are there, also of the memory image.
abbrev pub word_at : List ℕ → ℕ → ℕ
word_at bytes offset =
    word_of (byte_at bytes offset) (byte_at bytes (offset + 1)) (byte_at bytes (offset + 2))
      (byte_at bytes (offset + 3))

-- The first shard boundary from an address on.
abbrev pub first_boundary : ℕ → ℕ → ℕ
first_boundary shard_size address =
    bit_and (u32 (address + shard_size + 2 ^ 32 - 1)) (2 ^ 32 - 1 - u32 (shard_size + 2 ^ 32 - 1))

-- The first lo16 relocation of a list for a target.
unfoldable pub low_for : ℕ → List Relocation → Option Relocation
low_for target_segment [] = none
low_for target_segment (relocation ∷ relocations) =
    let rest = low_for target_segment relocations in
    if relocation.type == 6 && relocation.target_segment == target_segment
    then some relocation
    else rest

-- The address that a pair of relocated words makes.
abbrev pub pair_value : ℕ → ℕ → ℕ
pair_value high_word low_word =
    u32 (u32 (shl (bit_and high_word 0xffff) 16) + sign_extend16 (bit_and low_word 0xffff))

module _ (image : ElfImage) where
  -- The lambda `add`.
  unfoldable pub add : ℕ → List ℕ → List ℕ
  unfolding admit is_executable_word
  add = admit (is_executable_word image)

  -- A loop that adds each address of a list.
  unfoldable pub add_all : List ℕ → List ℕ → List ℕ
  unfolding add
  add_all [] result = result
  add_all (address ∷ addresses) result = add_all addresses (add address result)

  -- The `while` over the boundaries; `endless` is that the fuel ends before it.
  unfoldable pub boundaries_from : ℕ → ℕ → ℕ → ℕ → List ℕ → Outcome (List ℕ)
  unfolding add
  boundaries_from zero shard_size section_end boundary result =
      if ltb boundary section_end then endless else done result
  boundaries_from (suc fuel) shard_size section_end boundary result =
      elim (ltb boundary section_end) [
        | true ↦
            boundaries_from fuel shard_size section_end (u32 (boundary + shard_size))
              (add boundary result)
        | false ↦ done result
      ]

  -- The loop over the sections: their starts and the boundaries in them.
  unfoldable pub sections_from : ℕ → List ExecutableSection → List ℕ → Outcome (List ℕ)
  unfolding add boundaries_from
  sections_from shard_size [] result = done result
  sections_from shard_size (section ∷ sections) result =
      let section_end = section.address + length section.bytes in
      boundaries_from section_end shard_size section_end (first_boundary shard_size section.address)
        (add section.address result)
      >>= sections_from shard_size sections

  unfoldable pub add_map : Option CodeMap → List ℕ → List ℕ
  unfolding add_all
  add_map none result = result
  add_map (some map) result = add_all map.block_entries (add_all map.function_starts result)

  abbrev pub add_optional : Option ℕ → List ℕ → List ℕ
  add_optional none result = result
  add_optional (some target) result = add target result

  -- The body of the loop over the words of a section.
  unfoldable pub add_targets : (ℕ → Option ℕ) → ℕ → ℕ → List ℕ → List ℕ
  unfolding add direct_control_target starts_delayed_branch
  add_targets jump_bases pc instruction result =
      if starts_delayed_branch instruction
      then add_optional (direct_control_target pc instruction jump_bases image.preferred_base)
          (if needs_post_delay_entry instruction then add (u32 (pc + 8)) result else result)
      else result

  -- The loop over the words of a section, from an address on.
  unfoldable pub words_from : (ℕ → Option ℕ) → ℕ → List ℕ → List ℕ → Outcome (List ℕ)
  unfolding add_targets
  words_from jump_bases pc [] result = done result
  words_from jump_bases pc (a ∷ b ∷ c ∷ d ∷ bytes) result =
      words_from jump_bases (u32 (pc + 4)) bytes
        (add_targets jump_bases pc (word_of a b c d) result)
  words_from jump_bases pc _ result = wild

  unfoldable pub section_words : (ℕ → Option ℕ) → List ExecutableSection → List ℕ → Outcome (List ℕ)
  unfolding words_from
  section_words jump_bases [] result = done result
  section_words jump_bases (section ∷ sections) result =
      words_from jump_bases section.address section.bytes result
      >>= section_words jump_bases sections

  -- A word of the memory image of a fixed-address ELF.
  abbrev pub raw_target : ℕ → ℕ
  raw_target value =
      if not (image.preferred_base == 0) && leb image.preferred_base value
      then value - image.preferred_base
      else value

  -- The loop over the words of the memory image.
  unfoldable pub raw_words : List ℕ → List ℕ → List ℕ
  unfolding add
  raw_words (a ∷ b ∷ c ∷ d ∷ memory) result =
      raw_words memory (add (raw_target (word_of a b c d)) result)
  raw_words _ result = result

  unfoldable pub add_raw : List ℕ → List ℕ → List ℕ
  unfolding raw_words
  add_raw memory result = elim image.relocations [ [] ↦ raw_words memory result | _ ∷ _ ↦ result ]

  -- What the two patched segments and the target segment of a pair give.
  unfoldable pub add_pair_at :
      List ℕ → LoadSegment → Relocation → LoadSegment → Relocation → LoadSegment → List ℕ → List ℕ
  unfolding add
  add_pair_at memory high_patch high low_patch low target result =
      let high_address = u32 (high_patch.address + high.offset) in
      let low_address = u32 (low_patch.address + low.offset) in
      if is_truncated memory high_address 4 || is_truncated memory low_address 4
      then result
      else add
          (u32 (
            pair_value (word_at memory high_address) (word_at memory low_address) + target.address))
          result

  -- The body of the loop for the address pairs.
  unfoldable pub add_pair : List ℕ → Relocation → List Relocation → List ℕ → List ℕ
  unfolding find_program low_for add_pair_at
  add_pair memory high later result =
      if high.type == 5
      then elim (low_for high.target_segment later) [
        | none ↦ result
        | some low ↦ elim (find_load_segment image high.patch_segment) [
          | none ↦ result
          | some high_patch ↦ elim (find_load_segment image low.patch_segment) [
            | none ↦ result
            | some low_patch ↦ elim (find_load_segment image high.target_segment) [
              | none ↦ result
              | some target ↦ add_pair_at memory high_patch high low_patch low target result
            ]
          ]
        ]
      ]
      else result

  unfoldable pub pairs_from : List ℕ → List Relocation → List ℕ → List ℕ
  unfolding add_pair
  pairs_from memory [] result = result
  pairs_from memory (relocation ∷ relocations) result =
      pairs_from memory relocations (add_pair memory relocation relocations result)

  -- The body of the loop for the data pointers.
  unfoldable pub add_pointer : List ℕ → Relocation → List ℕ → List ℕ
  unfolding find_program add is_executable_word
  add_pointer memory relocation result =
      if relocation.type == 2
      then elim (find_load_segment image relocation.patch_segment) [
        | none ↦ result
        | some patch ↦ elim (find_load_segment image relocation.target_segment) [
          | none ↦ result
          | some target ↦
              let address = u32 (patch.address + relocation.offset) in
              if is_executable_word image address || is_truncated memory address 4
              then result
              else add (u32 (word_at memory address + target.address)) result
        ]
      ]
      else result

  unfoldable pub pointers_from : List ℕ → List Relocation → List ℕ → List ℕ
  unfolding add_pointer
  pointers_from memory [] result = result
  pointers_from memory (relocation ∷ relocations) result =
      pointers_from memory relocations (add_pointer memory relocation result)

  unfoldable pub potential_block_entries : Option CodeMap → ℕ → ℕ → Outcome (List ℕ)
  unfolding add sections_from add_map section_words memory_image add_raw pairs_from pointers_from
      jump_relocation_bases
  potential_block_entries code_map entry shard_size = do
    bounded ← sections_from shard_size image.executable_sections (add entry [])
    let mapped = add_map code_map bounded
    reached ← section_words (jump_relocation_bases image) image.executable_sections mapped
    memory ← from_result (memory_image image.load_segments)
    let pointed = pairs_from memory image.relocations (add_raw memory reached)
    done (pointers_from memory image.relocations pointed)
