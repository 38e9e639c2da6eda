-- ===== src/Cpu/Laws/Access.antt =====
-- Guest memory: accesses stay inside a region, and what was stored is loaded.
use psprism.Base.{
  some_lem, ℕ, zero, suc, ◌+◌, ◌*◌, ◌%◌, ◌^◌, ◌≤◌, ◌<◌, ◌≡◌, refl, subst, sym, ap, ◌∙◌,
}
use psprism.Base.{arith, bit_and, true, Option, none, some, Option-cases}
use psprism.Base.{Bool-cases, inl, inr, ◌⊎◌, ◌==◌, shr, List}
use psprism.Base.{length, get_elem?, set, u8, length-set, get_elem?-set_self, get_elem?-set_ne}
use psprism.Base.{get_elem?-lt}
use psprism.Cpu.State.{State}
use psprism.Cpu.Memory.{Region, main, scratch, video, volatile, bytes_of, Pointer, main_offset}
use psprism.Cpu.Memory.{region_address, other_address, mapped_address, read_bytes}
use psprism.Cpu.Memory.{write_bytes, in_main}

-- The bytes that a pointer with a width covers are bytes of its region.
abbrev pub IsInside : State → Pointer → ℕ → Type 0
IsInside s p width =
    (bytes : List ℕ) × (bytes_of s p.region ≡ some bytes) × (p.at + width ≤ length bytes)

region_address_bound :
    (host : Option (List ℕ)) (region : Region) (base address width : ℕ) {p : Pointer}
    → region_address host region base address width ≡ some p
    → (bytes : List ℕ) × (host ≡ some bytes) × (p.region ≡ region) × (p.at + width ≤ length bytes)
unfolding region_address
region_address_bound none region base address width h = absurd (ground arith)
region_address_bound (some host) region base address width h =
    (host, refl, ground arith, ground arith)

region_address-IsInside :
    (s : State) (region : Region) (base address width : ℕ) {p : Pointer}
    → region_address (bytes_of s region) region base address width ≡ some p
    → IsInside s p width
region_address-IsInside s region base address width h =
    let (bytes, e, same, bound) =
      region_address_bound (bytes_of s region) region base address width h in
    (bytes, ap (bytes_of s) same ∙ e, bound)

-- A pointer of `other_address` covers bytes of one of the three small regions.
other_address-IsInside :
    (s : State) (canon width : ℕ) {p : Pointer}
    → other_address s canon width ≡ some p
    → IsInside s p width
unfolding other_address region_address
other_address-IsInside s canon width h = elim (Bool-cases (shr canon 24 == 0x00)) [
  | inl e ↦
      region_address-IsInside s scratch 0x00010000 canon width
        (sym (rw (e, other_address) refl) ∙ h)
  | inr e ↦ elim (Bool-cases (shr canon 24 == 0x04)) [
    | inl f ↦
        region_address-IsInside s video 0x04000000 canon width
          (sym (rw (e, f, other_address) refl) ∙ h)
    | inr f ↦ elim (Bool-cases (shr canon 24 == 0x08)) [
      | inl g ↦
          region_address-IsInside s volatile 0x08400000 canon width
            (sym (rw (e, f, g, other_address) refl) ∙ h)
      | inr g ↦ absurd (ground (arith, h, e, f, g, other_address))
    ]
  ]
]

in_main-IsInside :
    (s : State) (offset width : ℕ)
    → in_main s.memory offset width ≡ true
    → IsInside s (record { region = main; at = offset }) width
in_main-IsInside s offset width h = elim (Option-cases s.memory) [
  | inl e ↦ absurd (ground (arith, e, h))
  | inr (bytes, e) ↦ (bytes, e, ground (arith, e, h))
]

pub mapped_address-IsInside :
    (s : State) (address width : ℕ) {p : Pointer}
    → mapped_address s address width ≡ some p
    → IsInside s p width
unfolding mapped_address
mapped_address-IsInside s address width h =
    elim (Bool-cases (in_main s.memory (main_offset s address) width)) [
      | inl e ↦
          subst (λ q. IsInside s q width) {x = record { region = main; at = main_offset s address }}
            (some_lem (sym (rw (e, mapped_address) refl) ∙ h))
            (in_main-IsInside s (main_offset s address) width e)
      | inr e ↦
          other_address-IsInside s (bit_and address 0x1fffffff) width
            (sym (rw (e, mapped_address) refl) ∙ h)
    ]

-- Bytes in range can be read.
pub read_bytes_total :
    (width : ℕ) (bytes : List ℕ) (at : ℕ)
    → at + width ≤ length bytes
    → (value : ℕ) × (read_bytes width bytes at ≡ some value)
unfolding read_bytes
read_bytes_total zero bytes at h = (0, refl)
read_bytes_total (suc width) bytes at h =
    let (b, e) = get_elem?-lt bytes at (omega arith) in
    let (rest, f) = read_bytes_total width bytes (at + 1) (omega arith) in
    (b + 256 * rest, ground (arith, e, f))

-- The low bytes of a number, lowest first.
unfoldable pub low_bytes : ℕ → ℕ → ℕ
low_bytes zero value = 0
low_bytes (suc width) value = u8 value + 256 * low_bytes width (shr value 8)

-- A write in range keeps the other bytes, and a read gives the number back.
pub write_bytes_lem :
    (width : ℕ) (bytes : List ℕ) (at value : ℕ)
    → at + width ≤ length bytes
    → (bytes' : List ℕ) × (write_bytes width bytes at value ≡ some bytes')
      × (length bytes' ≡ length bytes)
      × ((j : ℕ) → (j < at) ⊎ (at + width ≤ j) → get_elem? bytes' j ≡ get_elem? bytes j)
      × (read_bytes width bytes' at ≡ some (low_bytes width value))
unfolding read_bytes write_bytes low_bytes
write_bytes_lem zero bytes at value h = (bytes, refl, refl, λ j out. refl, refl)
write_bytes_lem (suc width) bytes at value h =
    let size = length-set bytes at (u8 value) in
    let (bytes', e, same, frame, reads) =
      write_bytes_lem width (set bytes at (u8 value)) (at + 1) (shr value 8)
        (omega (arith, size)) in
    let first : get_elem? bytes' at ≡ some (u8 value) =
      frame at (inl (omega arith)) ∙ get_elem?-set_self bytes at (u8 value) (omega arith) in
    (
      bytes',
      ground (arith, e),
      same ∙ size,
      λ j out.
          frame j (ground (arith, out))
          ∙ get_elem?-set_ne bytes at j (u8 value) (ground (arith, out)),
      ground (arith, first, reads),
    )

pub low_bytes-4 : (value : ℕ) → low_bytes 4 value ≡ value % 2 ^ 32
unfolding low_bytes
low_bytes-4 value = omega arith

pub low_bytes-2 : (value : ℕ) → low_bytes 2 value ≡ value % 2 ^ 16
unfolding low_bytes
low_bytes-2 value = omega arith

pub low_bytes-1 : (value : ℕ) → low_bytes 1 value ≡ value % 2 ^ 8
unfolding low_bytes
low_bytes-1 value = omega arith
