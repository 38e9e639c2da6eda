-- ===== src/Relocation/Tests.antt =====
-- Runs of the relocation code on small inputs, and its theorems at such inputs.
use psprism.Base.{ℕ, ◌/◌, ◌≡◌, refl, arith, true, List, [], ◌∷◌, map}
use psprism.Base.{some, length, get_elem?, All}
use psprism.Relocation.Records.{PspLoadSegment, RelocationResult, success}
use psprism.Relocation.Records.{array, read_u32, write_u32, find_segment, relocation_word_offset}
use psprism.Relocation.Apply.{returned, apply_psp_relocations, relocate_hi16, relocate_lo16}
use psprism.Relocation.Apply.{apply_loop, relocate_one, find_low, patch_word, low_word_at}
use psprism.Relocation.Compact.{Decoder, decoder, consumed, apply_compact_psp_relocations}
use psprism.Relocation.Encode.{Relocation, compact_relocations, compact_from, emit}
use psprism.Relocation.Encode.{can_use_short, type_code, short_byte}
use psprism.Relocation.RoundTrip.Short.{IsRelocation, psp_record}
use psprism.Relocation.RoundTrip.Stream.{read_all, read_all-compact_relocations}
use psprism.Relocation.Refinement.{apply_compact-apply}
use psprism.Relocation.Values.{pair_address, relocate_pair}
use psprism.Relocation.Bounds.{IsOutside, apply_returns, apply_frame}

-- lui $4, 1; addiu $4, $4, -4; and a word that is not relocated
abbrev image : List ℕ
image = 1 ∷ 0 ∷ 4 ∷ 0x3c ∷ 0xfc ∷ 0xff ∷ 0x84 ∷ 0x24 ∷ 9 ∷ 9 ∷ 9 ∷ 9 ∷ []

abbrev segments : List PspLoadSegment
segments = record { address = 0; memory_size = 12; program_index = 0 } ∷ []

abbrev pair : List Relocation
pair =
    record { offset = 0; type = 5; patch_segment = 0; target_segment = 0 }
    ∷ record { offset = 4; type = 6; patch_segment = 0; target_segment = 0 }
    ∷ []

-- The pair loads 0xfffc, and after a move by 0x08804000 it loads 0x08813ffc.
abbrev relocated : List ℕ
relocated = 0x81 ∷ 8 ∷ 4 ∷ 0x3c ∷ 0xfc ∷ 0x3f ∷ 0x84 ∷ 0x24 ∷ 9 ∷ 9 ∷ 9 ∷ 9 ∷ []

pair_runs :
    apply_psp_relocations (some image) 0x08804000 (some segments) (array (map psp_record pair))
    ≡ returned success relocated
unfolding apply_psp_relocations apply_loop relocate_one find_low low_word_at patch_word
    relocate_hi16 relocate_lo16 read_u32 write_u32 find_segment relocation_word_offset
pair_runs = refl

pair_bytes : compact_relocations pair ≡ 0x03 ∷ 0x24 ∷ []
unfolding compact_relocations compact_from emit can_use_short type_code short_byte
pair_bytes = refl

pair-IsRelocation : All IsRelocation pair
pair-IsRelocation = omega arith

read_all-compact_relocations_example :
    (end : Decoder) × (read_all 2 (decoder (compact_relocations pair))
      ≡ some (map psp_record pair, end))
    × (consumed end 2 ≡ true)
read_all-compact_relocations_example = read_all-compact_relocations pair pair-IsRelocation

apply_compact-apply_example :
    apply_compact_psp_relocations
      (some image)
      0x08804000
      (some segments)
      (array (compact_relocations pair))
      2
    ≡ apply_psp_relocations (some image) 0x08804000 (some segments) (array (map psp_record pair))
apply_compact-apply_example =
    apply_compact-apply (some image) 0x08804000 (some segments) pair pair-IsRelocation

apply_returns_example :
    (result : RelocationResult) × (after : List ℕ) × (apply_psp_relocations
        (some image)
        0x08804000
        (some segments)
        (array (map psp_record pair))
      ≡ returned result after)
    × (length after ≡ 12)
apply_returns_example = apply_returns image 0x08804000 segments (array (map psp_record pair))

byte_8-IsOutside : All (IsOutside segments 12 8) (map psp_record pair)
unfolding IsOutside relocation_word_offset
byte_8-IsOutside = omega arith

apply_frame_example : get_elem? relocated 8 ≡ some 9
apply_frame_example =
    apply_frame image 0x08804000 segments (map psp_record pair) success relocated 8 byte_8-IsOutside
      pair_runs

relocate_pair_example :
    (pair_address
        (relocate_hi16 0x3c040001 0x2484fffc 0x08804000)
        (relocate_lo16 0x2484fffc 0x08804000)
      ≡ 0x08813ffc)
    × (relocate_hi16 0x3c040001 0x2484fffc 0x08804000 / 65536 ≡ 0x3c04)
    × (relocate_lo16 0x2484fffc 0x08804000 / 65536 ≡ 0x2484)
relocate_pair_example =
    relocate_pair 0x3c040001 0x2484fffc 0x08804000 (omega arith) (omega arith) (omega arith)

abbrev written : List ℕ
written = 0x78 ∷ 0x56 ∷ 0x34 ∷ 0x12 ∷ 0 ∷ []

write_runs : write_u32 (0 ∷ 0 ∷ 0 ∷ 0 ∷ 0 ∷ []) 0 0x12345678 ≡ some written
unfolding write_u32
write_runs = refl
