-- ===== src/Relocation/Apply.antt =====
-- include/psprecomp/relocation.hpp, apply_psp_relocations: the relocation of one word, and the loop
-- over the eight-byte records.
use psprism.Base.{ℕ, ◌+◌, bit_and, bit_or, Bool, not, ◌||◌}
use psprism.Base.{List, [], ◌∷◌, Option, none, some, ◌==◌, if◌then◌else◌, length}
use psprism.Base.{u32, shl, shr, sign_extend16}
use psprism.Relocation.Records.{PspRelocationRecord, PspLoadSegment, RelocationResult}
use psprism.Relocation.Records.{success, invalid_segment, invalid_patch, missing_lo16}
use psprism.Relocation.Records.{
  unsupported_type, Span, null, array, Step, ok, stop, wild, ◌>>=◌, or_stop, access,
}
use psprism.Relocation.Records.{find_segment, relocation_word_offset, read_u32, write_u32}

-- What a call leaves behind: its result with the image, or an access outside the image.
pub data Outcome : Type 0 where
  returned : RelocationResult → List ℕ → Outcome
  fault : Outcome

-- R_MIPS_26
unfoldable pub relocate_26 : ℕ → ℕ → ℕ
relocate_26 word relocate_to =
    let target_field = bit_and (u32 (bit_and word 0x03ffffff + shr relocate_to 2)) 0x03ffffff in
    bit_or (bit_and word 0xfc000000) target_field

-- R_MIPS_HI16, with the LO16 word that it is paired with
unfoldable pub relocate_hi16 : ℕ → ℕ → ℕ → ℕ
relocate_hi16 word low_word relocate_to =
    let full = u32 (shl (bit_and word 0xffff) 16) in
    let full' = u32 (full + sign_extend16 (bit_and low_word 0xffff)) in
    let full'' = u32 (full' + relocate_to) in
    bit_or (bit_and word 0xffff0000) (shr (u32 (full'' + 0x8000)) 16)

-- R_MIPS_LO16
unfoldable pub relocate_lo16 : ℕ → ℕ → ℕ
relocate_lo16 word relocate_to =
    bit_or (bit_and word 0xffff0000)
      (bit_and (u32 (sign_extend16 (bit_and word 0xffff) + relocate_to)) 0xffff)

-- The `switch` on the type. `low` is what the search for the paired LO16 comes to.
unfoldable pub patch_word : ℕ → ℕ → ℕ → Step ℕ → Step ℕ
patch_word type word relocate_to low =
    if type == 0
    then ok word
    else if type == 2
    then ok (u32 (word + relocate_to))
    else if type == 4
    then ok (relocate_26 word relocate_to)
    else if type == 5
    then (do low_word ← low; ok (relocate_hi16 word low_word relocate_to))
    else if type == 6
    then ok (relocate_lo16 word relocate_to)
    else stop unsupported_type

-- Does a record hold the LO16 half for this target segment?
abbrev pub is_low_for : ℕ → PspRelocationRecord → Bool
is_low_for target_segment r = not (not (r.type == 6) || not (r.target_segment == target_segment))

-- The word at the place of a paired LO16 record.
unfoldable pub low_word_at : List PspLoadSegment → List ℕ → PspRelocationRecord → Step ℕ
low_word_at segments memory low = do
  low_offset ← or_stop (relocation_word_offset low segments (length memory)) invalid_patch
  access (read_u32 memory low_offset)

-- The search for the paired LO16 among the records that follow.
unfoldable pub find_low : List PspLoadSegment → ℕ → List PspRelocationRecord → List ℕ → Step ℕ
find_low segments target_segment [] memory = stop missing_lo16
find_low segments target_segment (r ∷ rest) memory =
    if is_low_for target_segment r
    then low_word_at segments memory r
    else find_low segments target_segment rest memory

-- The body of the loop, less the search for a LO16, which the two entry points do differently.
unfoldable pub relocate_one :
    List PspLoadSegment → ℕ → PspRelocationRecord → Step ℕ → List ℕ → Step (List ℕ)
relocate_one segments guest_base r low memory = do
  target ← or_stop (find_segment segments r.target_segment) invalid_segment
  patch_offset ← or_stop (relocation_word_offset r segments (length memory)) invalid_patch
  word ← access (read_u32 memory patch_offset)
  word' ← patch_word r.type word (u32 (guest_base + target.address)) low
  access (write_u32 memory patch_offset word')

unfoldable pub apply_loop : List PspLoadSegment → ℕ → List PspRelocationRecord → List ℕ → Outcome
apply_loop segments guest_base [] memory = returned success memory
apply_loop segments guest_base (r ∷ rest) memory =
    elim (relocate_one segments guest_base r (find_low segments r.target_segment rest memory)
      memory) [
        | ok memory' ↦ apply_loop segments guest_base rest memory'
        | stop e ↦ returned e memory
        | wild ↦ fault
      ]

-- The memory and the segments may be null (`none`); an image that is not there is left so.
unfoldable pub apply_psp_relocations :
    Option (List ℕ) → ℕ → Option (List PspLoadSegment) → Span PspRelocationRecord → Outcome
apply_psp_relocations none guest_base segments relocations = returned invalid_patch []
apply_psp_relocations (some memory) guest_base none relocations = returned invalid_patch memory
apply_psp_relocations (some memory) guest_base (some segments) (null relocation_count) =
    if relocation_count == 0 then returned success memory else returned invalid_patch memory
apply_psp_relocations (some memory) guest_base (some segments) (array relocations) =
    apply_loop segments guest_base relocations memory
