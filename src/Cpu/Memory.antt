-- ===== src/Cpu/Memory.antt =====
-- include/psprecomp/runtime.hpp: guest addresses, the four regions, and the loads and stores. A read or
-- write outside a region, which C++ leaves undefined, is `none`.
use psprism.Base.{ℕ, zero, suc, ◌+◌, ◌-◌, ◌*◌, ◌/◌, ◌%◌, ◌^◌, bit_and, Bool, false, ◌&&◌}
use psprism.Base.{not, List, Option, none, some, ltb, leb, ◌==◌, if◌then◌else◌, length}
use psprism.Base.{get_elem?, set, u8, u32, u64, shr}
use psprism.Cpu.State.{memory_fault, State}

pub data Region : Type 0 where
  main scratch video volatile : Region

abbrev pub bytes_of : State → Region → Option (List ℕ)
bytes_of s main = s.memory
bytes_of s scratch = s.scratchpad
bytes_of s video = s.video_memory
bytes_of s volatile = s.volatile_memory

-- A host pointer: a region and an offset.
pub record Pointer : Type 0 where
  pub region : Region
  pub at : ℕ

unfoldable pub canonical_address : ℕ → ℕ
canonical_address address = bit_and address 0x1fffffff

-- `canon - state.memory_base`, in 32 bits.
abbrev pub main_offset : State → ℕ → ℕ
main_offset s address = u32 (bit_and address 0x1fffffff + 2 ^ 32 - s.memory_base)

unfoldable pub region_address : Option (List ℕ) → Region → ℕ → ℕ → ℕ → Option Pointer
region_address none region region_base address width = none
region_address (some host) region region_base address width =
    let offset = address - region_base in
    if ltb address region_base
    then none
    else if leb offset (length host) && leb width (length host - offset)
    then some (record { region = region; at = offset })
    else none

-- The `switch` on the top byte of the canonical address.
unfoldable pub other_address : State → ℕ → ℕ → Option Pointer
unfolding region_address
other_address s canon width =
    if shr canon 24 == 0x00
    then region_address s.scratchpad scratch 0x00010000 canon width
    else if shr canon 24 == 0x04
    then region_address s.video_memory video 0x04000000 canon width
    else if shr canon 24 == 0x08
    then region_address s.volatile_memory volatile 0x08400000 canon width
    else none

abbrev pub in_main : Option (List ℕ) → ℕ → ℕ → Bool
in_main none offset width = false
in_main (some memory) offset width =
    leb offset (length memory) && leb width (length memory - offset)

unfoldable pub mapped_address : State → ℕ → ℕ → Option Pointer
mapped_address s address width =
    if in_main s.memory (main_offset s address) width
    then some (record { region = main; at = main_offset s address })
    else other_address s (bit_and address 0x1fffffff) width

unfoldable pub note_memory_fault : State → ℕ → State
note_memory_fault s address = record s {
  stop_reason = memory_fault;
  fault_address = address;
  fault_pc = if s.fault_pc == 0 then s.pc else s.fault_pc;
}

-- memcpy from a list of bytes, as a little-endian number.
unfoldable pub read_bytes : ℕ → List ℕ → ℕ → Option ℕ
read_bytes zero bytes at = some 0
read_bytes (suc width) bytes at = elim (get_elem? bytes at) [
  | none ↦ none
  | some b ↦ elim (read_bytes width bytes (at + 1)) [
    | none ↦ none
    | some rest ↦ some (b + 256 * rest)
  ]
]

-- memcpy of the low `width` bytes of a number to a list of bytes.
unfoldable pub write_bytes : ℕ → List ℕ → ℕ → ℕ → Option (List ℕ)
write_bytes zero bytes at value = some bytes
write_bytes (suc width) bytes at value =
    if ltb at (length bytes)
    then write_bytes width (set bytes at (u8 value)) (at + 1) (shr value 8)
    else none

unfoldable pub read_at : State → Pointer → ℕ → Option ℕ
unfolding read_bytes
read_at s p width = elim (bytes_of s p.region) [
  | none ↦ none
  | some bytes ↦ read_bytes width bytes p.at
]

abbrev pub put_region : State → Region → List ℕ → State
put_region s main bytes = record s { memory = some bytes }
put_region s scratch bytes = record s { scratchpad = some bytes }
put_region s video bytes = record s { video_memory = some bytes }
put_region s volatile bytes = record s { volatile_memory = some bytes }

unfoldable pub write_at : State → Pointer → ℕ → ℕ → Option State
unfolding write_bytes
write_at s p width value = elim (bytes_of s p.region) [
  | none ↦ none
  | some bytes ↦ elim (write_bytes width bytes p.at value) [
    | none ↦ none
    | some bytes' ↦ some (put_region s p.region bytes')
  ]
]

-- `offset <= memory_size - width`, in the 64 bits of a size_t, or `offset < memory_size` for a byte.
abbrev pub fast_test : Option (List ℕ) → ℕ → ℕ → Bool
fast_test none offset width = false
fast_test (some memory) offset width =
    if width == 1
    then ltb offset (length memory)
    else leb offset (u64 (length memory + 2 ^ 64 - width))

abbrev pub is_aligned : ℕ → ℕ → Bool
is_aligned address width = bit_and address (width - 1) == 0

-- The common part of load8, load16 and load32 for `width` 1, 2 and 4.
unfoldable pub load : ℕ → State → ℕ → Option (ℕ × State)
load width s address =
    if fast_test s.memory (main_offset s address) width && is_aligned address width
    then elim (read_at s (record { region = main; at = main_offset s address }) width) [
      | none ↦ none
      | some value ↦ some (value, s)
    ]
    else if not (is_aligned address width)
    then some (0, note_memory_fault s address)
    else elim (mapped_address s address width) [
      | some p ↦ elim (read_at s p width) [ none ↦ none | some value ↦ some (value, s) ]
      | none ↦ some (0, note_memory_fault s address)
    ]

abbrev pub load8 : State → ℕ → Option (ℕ × State)
load8 = load 1

abbrev pub load16 : State → ℕ → Option (ℕ × State)
load16 = load 2

abbrev pub load32 : State → ℕ → Option (ℕ × State)
load32 = load 4

-- The common part of store8, store16 and store32.
unfoldable pub store : ℕ → State → ℕ → ℕ → Option State
store width s address value =
    if fast_test s.memory (main_offset s address) width && is_aligned address width
    then write_at s (record { region = main; at = main_offset s address }) width value
    else if not (is_aligned address width)
    then some (note_memory_fault s address)
    else elim (mapped_address s address width) [
      | some p ↦ write_at s p width value
      | none ↦ some (note_memory_fault s address)
    ]

abbrev pub store8 : State → ℕ → ℕ → Option State
store8 = store 1

abbrev pub store16 : State → ℕ → ℕ → Option State
store16 = store 2

abbrev pub store32 : State → ℕ → ℕ → Option State
store32 = store 4

-- The low `count` bytes of a word replaced, and the high ones.
abbrev replace_low : ℕ → ℕ → ℕ → ℕ
replace_low count value part = value / 2 ^ (8 * count) * 2 ^ (8 * count) + part

abbrev replace_high : ℕ → ℕ → ℕ → ℕ
replace_high count value part = value % 2 ^ (32 - 8 * count) + part * 2 ^ (32 - 8 * count)

unfoldable pub load_word_left : State → ℕ → ℕ → Option (ℕ × State)
load_word_left s address value =
    let count = bit_and address 3 + 1 in
    let aligned = bit_and address 0xfffffffc in
    elim (mapped_address s aligned count) [
      | some p ↦ elim (read_at s p count) [
        | none ↦ none
        | some part ↦ some (replace_high count value part, s)
      ]
      | none ↦ some (value, note_memory_fault s aligned)
    ]

unfoldable pub load_word_right : State → ℕ → ℕ → Option (ℕ × State)
load_word_right s address value =
    let count = 4 - bit_and address 3 in
    elim (mapped_address s address count) [
      | some p ↦ elim (read_at s p count) [
        | none ↦ none
        | some part ↦ some (replace_low count value part, s)
      ]
      | none ↦ some (value, note_memory_fault s address)
    ]

unfoldable pub store_word_left : State → ℕ → ℕ → Option State
store_word_left s address value =
    let count = bit_and address 3 + 1 in
    let aligned = bit_and address 0xfffffffc in
    elim (mapped_address s aligned count) [
      | some p ↦ write_at s p count (value / 2 ^ (32 - 8 * count))
      | none ↦ some (note_memory_fault s aligned)
    ]

unfoldable pub store_word_right : State → ℕ → ℕ → Option State
store_word_right s address value =
    let count = 4 - bit_and address 3 in
    elim (mapped_address s address count) [
      | some p ↦ write_at s p count value
      | none ↦ some (note_memory_fault s address)
    ]
