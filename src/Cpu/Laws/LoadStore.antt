-- ===== src/Cpu/Laws/LoadStore.antt =====
-- Loads and stores: they stay in bounds, and what is stored is loaded.
use psprism.Base.{ℕ, ◌+◌, ◌*◌, ◌%◌, ◌^◌, ◌≤◌, ◌<◌, ◌≡◌, refl, subst, ap, ◌∙◌}
use psprism.Base.{true, some, Option-cases}
use psprism.Base.{Bool-cases, inl, inr, ◌⊎◌, List}
use psprism.Base.{length, get_elem?}
use psprism.Cpu.State.{State}
use psprism.Cpu.Memory.{Region, main, scratch, video, volatile, bytes_of, Pointer}
use psprism.Cpu.Memory.{region_address, other_address, mapped_address, note_memory_fault}
use psprism.Cpu.Memory.{read_at, write_at, put_region, is_aligned, load, store}
use psprism.Cpu.Laws.Access.{IsInside, mapped_address-IsInside, write_bytes_lem, read_bytes_total}
use psprism.Cpu.Laws.Access.{low_bytes, low_bytes-1, low_bytes-2, low_bytes-4}
use psprism.Cpu.Laws.FastPath.{
  IsMainSized, IsWidth, load_mapped, store_mapped, load-load_mapped, store-store_mapped,
}

read_at_total :
    (s : State) (p : Pointer) (width : ℕ)
    → IsInside s p width
    → (value : ℕ) × (read_at s p width ≡ some value)
unfolding read_at
read_at_total s p width (bytes, e, bound) =
    let (value, f) = read_bytes_total width bytes p.at bound in (value, rw (e, read_at) f)

bytes_of-put_region :
    (s : State) (region : Region) (bytes : List ℕ)
    → bytes_of (put_region s region bytes) region ≡ some bytes
bytes_of-put_region s main bytes = refl
bytes_of-put_region s scratch bytes = refl
bytes_of-put_region s video bytes = refl
bytes_of-put_region s volatile bytes = refl

-- A write in range, and the read of the same place in the new state.
read_at-write_at :
    (s : State) (p : Pointer) (width value : ℕ) (bytes : List ℕ)
    → bytes_of s p.region ≡ some bytes
    → p.at + width ≤ length bytes
    → (bytes' : List ℕ) × (write_at s p width value ≡ some (put_region s p.region bytes'))
      × (read_at (put_region s p.region bytes') p width ≡ some (low_bytes width value))
      × (length bytes' ≡ length bytes)
unfolding read_at write_at
read_at-write_at s p width value bytes e bound =
    let (bytes', f, same, frame, reads) = write_bytes_lem width bytes p.at value bound in
    (
      bytes',
      rw (e, write_at) (rw f refl),
      rw (bytes_of-put_region s p.region bytes', read_at) reads,
      same,
    )

-- The map of guest addresses depends on the sizes of the regions only.
mapped_address-put_region :
    (s : State) (region : Region) (bytes bytes' : List ℕ) (address width : ℕ)
    → bytes_of s region ≡ some bytes
    → length bytes' ≡ length bytes
    → mapped_address (put_region s region bytes') address width ≡ mapped_address s address width
unfolding mapped_address other_address region_address
mapped_address-put_region s main bytes bytes' address width e same = rw (e, same) refl
mapped_address-put_region s scratch bytes bytes' address width e same = rw (e, same) refl
mapped_address-put_region s video bytes bytes' address width e same = rw (e, same) refl
mapped_address-put_region s volatile bytes bytes' address width e same = rw (e, same) refl

mapped_size :
    (s : State) (region : Region) (bytes bytes' : List ℕ)
    → bytes_of s region ≡ some bytes
    → length bytes' ≡ length bytes
    → IsMainSized s.memory
    → IsMainSized (put_region s region bytes').memory
mapped_size s main bytes bytes' e same sized =
    let at_bytes : IsMainSized (some bytes) = subst IsMainSized e sized in rw same at_bytes
mapped_size s scratch bytes bytes' e same sized = sized
mapped_size s video bytes bytes' e same sized = sized
mapped_size s volatile bytes bytes' e same sized = sized

low_bytes-width :
    (width value : ℕ) → IsWidth width → low_bytes width value ≡ value % 2 ^ (8 * width)
low_bytes-width width value (inl e) = rw e (low_bytes-1 value)
low_bytes-width width value (inr (inl e)) = rw e (low_bytes-2 value)
low_bytes-width width value (inr (inr e)) = rw e (low_bytes-4 value)

module _ (s : State) (address width : ℕ) (sized : IsMainSized s.memory)
    (known : IsWidth width) where
  -- A load of one, two or four bytes never reads outside the regions, where main memory holds at least
  -- a word: it returns a value, and the state is the old one, or that with a fault noted.
  pub load_total :
      (value : ℕ) × (s' : State) × (load width s address ≡ some (value, s'))
      × ((s' ≡ s) ⊎ (s' ≡ note_memory_fault s address))
  unfolding load_mapped
  load_total = elim (Bool-cases (is_aligned address width)) [
    | inl a ↦ elim (Option-cases (mapped_address s address width)) [
      | inl e ↦ (
        0,
        note_memory_fault s address,
        load-load_mapped s address width sized known ∙ rw (a, e, load_mapped) refl,
        inr refl,
      )
      | inr (p, e) ↦
          let (value, f) = read_at_total s p width (mapped_address-IsInside s address width e) in
          (
            value,
            s,
            load-load_mapped s address width sized known ∙ rw (a, e, f, load_mapped) refl,
            inl refl,
          )
    ]
    | inr a ↦ (
      0,
      note_memory_fault s address,
      load-load_mapped s address width sized known ∙ rw (a, load_mapped) refl,
      inr refl,
    )
  ]

  -- What a store of one, two or four bytes puts at an aligned address that lies in a region, a load
  -- of that width gives back, cut to the width, without a fault. Main memory, where it is there, holds
  -- at least a word.
  pub load-store :
      (value : ℕ) {p : Pointer}
      → is_aligned address width ≡ true
      → mapped_address s address width ≡ some p
      → (s' : State) × (store width s address value ≡ some s')
        × (load width s' address ≡ some (value % 2 ^ (8 * width), s'))
  unfolding load_mapped store_mapped
  load-store value {p = p} a e =
      let (bytes, at_bytes, bound) = mapped_address-IsInside s address width e in
      let (bytes', f, g, same) = read_at-write_at s p width value bytes at_bytes bound in
      let s' : State = put_region s p.region bytes' in
      let e' : mapped_address s' address width ≡ some p =
        mapped_address-put_region s p.region bytes bytes' address width at_bytes same ∙ e in
      (
        s',
        store-store_mapped s address width sized known value ∙ rw (a, e, store_mapped) f,
        load-load_mapped s' address width (mapped_size s p.region bytes bytes' at_bytes same sized)
              known
            ∙ rw (a, e', g, load_mapped)
                (ap (λ v. some (v, s')) (low_bytes-width width value known)),
      )

  -- A store of one, two or four bytes at an aligned address that lies in a region puts a list of the
  -- same size in the place of that region's bytes and leaves the rest of the state; a byte of the
  -- region outside the width at that place is the one it was. Main memory, where it is there, holds
  -- at least a word.
  pub store_frame :
      (value j : ℕ) {p : Pointer}
      → is_aligned address width ≡ true
      → mapped_address s address width ≡ some p
      → (j < p.at) ⊎ (p.at + width ≤ j)
      → (bytes bytes' : List ℕ) × (bytes_of s p.region ≡ some bytes)
        × (store width s address value ≡ some (put_region s p.region bytes'))
        × (length bytes' ≡ length bytes)
        × (get_elem? bytes' j ≡ get_elem? bytes j)
  unfolding store_mapped write_at
  store_frame value j {p = p} a e out =
      let (bytes, at_bytes, bound) = mapped_address-IsInside s address width e in
      let (bytes', f, same, frame, reads) = write_bytes_lem width bytes p.at value bound in
      (
        bytes,
        bytes',
        at_bytes,
        store-store_mapped s address width sized known value
            ∙ rw (a, e, store_mapped) (rw (at_bytes, write_at) (rw f refl)),
        same,
        frame j out,
      )
