-- ===== src/Analysis/Control.antt =====
-- analysis.cpp: the segments and the relocations of an image, the direct targets, and the words that
-- are code. A std::map is the function that looks a key up.
use psprism.Base.{ℕ, ◌+◌, ◌-◌, ◌*◌, ◌^◌, bit_and, bit_or, Bool, ◌&&◌, ◌||◌, leb, ◌==◌}
use psprism.Base.{if◌then◌else◌, List, [], ◌∷◌, Option, none, some, u16, u32, shl, shr, length}
use psprism.Base.{sign_extend16}
use psprism.Base.Sorting.{any}
use psprism.Base.Sets.{insert}
use psprism.Relocation.Encode.{Relocation}
use psprism.Elf.Types.{ElfImage, ExecutableSection}
use psprism.Elf.Types.{LoadSegment}
use psprism.Elf.Modules.{find_program}
use psprism.Analysis.Text.{starts_delayed_branch}

abbrev pub find_load_segment : ElfImage → ℕ → Option LoadSegment
find_load_segment image program_index = find_program program_index image.load_segments

-- The loop of `relocated_words`, at a set.
unfoldable pub relocated_from : ElfImage → List ℕ → List Relocation → List ℕ
unfolding find_program insert
relocated_from image result [] = result
relocated_from image result (relocation ∷ relocations) =
    elim (find_load_segment image relocation.patch_segment) [
      | none ↦ relocated_from image result relocations
      | some segment ↦
          relocated_from image
            (if leb relocation.offset segment.memory_size
                && leb 4 (segment.memory_size - relocation.offset)
              then insert (u32 (segment.address + relocation.offset)) result
              else result)
            relocations
    ]

unfoldable pub relocated_words : ElfImage → List ℕ
unfolding relocated_from
relocated_words image = relocated_from image [] image.relocations

-- Assignment to an entry of a map.
abbrev pub assign : ℕ → ℕ → (ℕ → Option ℕ) → ℕ → Option ℕ
assign key value map at = if at == key then some value else map at

-- The loop of `jump_relocation_bases`, at a map.
unfoldable pub bases_from : ElfImage → (ℕ → Option ℕ) → List Relocation → ℕ → Option ℕ
unfolding find_program
bases_from image result [] = result
bases_from image result (relocation ∷ relocations) =
    bases_from image
      (if relocation.type == 4
        then elim (find_load_segment image relocation.patch_segment) [
          | none ↦ result
          | some patch ↦ elim (find_load_segment image relocation.target_segment) [
            | none ↦ result
            | some target ↦ assign (u32 (patch.address + relocation.offset)) target.address result
          ]
        ]
        else result)
      relocations

unfoldable pub jump_relocation_bases : ElfImage → ℕ → Option ℕ
unfolding bases_from
jump_relocation_bases image = bases_from image (λ at. none) image.relocations

-- A jump's 26-bit field, with its relocation.
abbrev pub target_field : ℕ → ℕ → (ℕ → Option ℕ) → ℕ
target_field pc instruction jump_bases =
    let field = bit_and instruction 0x03ffffff in
    elim (jump_bases pc) [
      | none ↦ field
      | some base ↦ bit_and (u32 (field + shr base 2)) 0x03ffffff
    ]

-- The displacement of a branch.
abbrev pub displacement : ℕ → ℕ
displacement instruction = u32 (sign_extend16 (u16 instruction) * 4)

unfoldable pub direct_control_target : ℕ → ℕ → (ℕ → Option ℕ) → ℕ → Option ℕ
unfolding starts_delayed_branch
direct_control_target pc instruction jump_bases preferred_base =
    let op = shr instruction 26 in
    let original_pc = u32 (pc + preferred_base) in
    let absolute_target =
      bit_or (bit_and (u32 (original_pc + 4)) 0xf0000000)
        (u32 (shl (target_field pc instruction jump_bases) 2)) in
    if starts_delayed_branch instruction
    then (if op == 0
        then none
        else if op == 0x02 || op == 0x03
        then some (u32 (absolute_target + 2 ^ 32 - preferred_base))
        else some (u32 (u32 (pc + 4) + displacement instruction)))
    else none

-- Does a section hold the word at an address? The sums are of 64 bits.
abbrev pub holds_word : ℕ → ExecutableSection → Bool
holds_word address section =
    leb section.address address && leb (address + 4) (section.address + length section.bytes)

unfoldable pub is_executable_word : ElfImage → ℕ → Bool
unfolding any
is_executable_word image address =
    bit_and address 3 == 0 && any (holds_word address) image.executable_sections
