-- ===== src/Cpu/Laws/FastPath.antt =====
-- Loads and stores: the quick test agrees with the search of the regions.
use psprism.Base.{ℕ, ◌^◌, ◌≤◌, ◌<◌, ◌≡◌, refl}
use psprism.Base.{arith, Option, none, some}
use psprism.Base.{Bool-cases, inl, inr, ◌⊎◌, if◌then◌else◌, List}
use psprism.Base.{length}
use psprism.Cpu.State.{State}
use psprism.Cpu.Memory.{main_offset}
use psprism.Cpu.Memory.{mapped_address, note_memory_fault, in_main}
use psprism.Cpu.Memory.{read_at, write_at, fast_test, is_aligned, load, store}

-- Main memory, where it is there, holds a word, and its size is a size_t.
abbrev pub IsMainSized : Option (List ℕ) → Type 0
IsMainSized none = Unit
IsMainSized (some memory) = (4 ≤ length memory) × (length memory < 2 ^ 64)

abbrev pub IsWidth : ℕ → Type 0
IsWidth width = (width ≡ 1) ⊎ (width ≡ 2) ⊎ (width ≡ 4)

-- A load without the quick test.
unfoldable pub load_mapped : ℕ → State → ℕ → Option (ℕ × State)
load_mapped width s address =
    if is_aligned address width
    then elim (mapped_address s address width) [
      | some p ↦ elim (read_at s p width) [ none ↦ none | some value ↦ some (value, s) ]
      | none ↦ some (0, note_memory_fault s address)
    ]
    else some (0, note_memory_fault s address)

-- A store without the quick test.
unfoldable pub store_mapped : ℕ → State → ℕ → ℕ → Option State
store_mapped width s address value =
    if is_aligned address width
    then elim (mapped_address s address width) [
      | some p ↦ write_at s p width value
      | none ↦ some (note_memory_fault s address)
    ]
    else some (note_memory_fault s address)

fast_test-in_main :
    (memory : Option (List ℕ)) (offset width : ℕ)
    → IsMainSized memory
    → IsWidth width
    → fast_test memory offset width ≡ in_main memory offset width
fast_test-in_main none offset width sized h = refl
fast_test-in_main (some memory) offset width sized (inl e) = rw e (ground arith)
fast_test-in_main (some memory) offset width sized (inr (inl e)) = rw e (ground arith)
fast_test-in_main (some memory) offset width sized (inr (inr e)) = rw e (ground arith)

module _ (s : State) (address width : ℕ) (sized : IsMainSized s.memory)
    (known : IsWidth width) where
  -- The quick path of a load gives what the search of the regions gives.
  pub load-load_mapped : load width s address ≡ load_mapped width s address
  unfolding load load_mapped mapped_address
  load-load_mapped =
      rw (fast_test-in_main s.memory (main_offset s address) width sized known)
        (elim (Bool-cases (in_main s.memory (main_offset s address) width)) [
          | inl e ↦ elim (Bool-cases (is_aligned address width)) [
            | inl a ↦ rw (e, a, load_mapped, mapped_address) refl
            | inr a ↦ rw (e, a, load_mapped) refl
          ]
          | inr e ↦ elim (Bool-cases (is_aligned address width)) [
            | inl a ↦ rw (e, a, load_mapped, mapped_address) refl
            | inr a ↦ rw (e, a, load_mapped) refl
          ]
        ])

  -- The quick path of a store does what the search of the regions does.
  pub store-store_mapped :
      (value : ℕ) → store width s address value ≡ store_mapped width s address value
  unfolding store store_mapped mapped_address
  store-store_mapped value =
      rw (fast_test-in_main s.memory (main_offset s address) width sized known)
        (elim (Bool-cases (in_main s.memory (main_offset s address) width)) [
          | inl e ↦ elim (Bool-cases (is_aligned address width)) [
            | inl a ↦ rw (e, a, store_mapped, mapped_address) refl
            | inr a ↦ rw (e, a, store_mapped) refl
          ]
          | inr e ↦ elim (Bool-cases (is_aligned address width)) [
            | inl a ↦ rw (e, a, store_mapped, mapped_address) refl
            | inr a ↦ rw (e, a, store_mapped) refl
          ]
        ])
