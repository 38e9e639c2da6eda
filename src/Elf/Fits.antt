-- ===== src/Elf/Fits.antt =====
-- The segments of a file fit their memory image.
use psprism.Base.{
  ℕ, zero, suc, ◌+◌, ◌-◌, ◌*◌, ◌≤◌, ◌≡◌, refl, ap, subst, ◌∙◌, arith, false, ltb, ◌||◌,
}
use psprism.Base.{
  List, [], ◌∷◌, ◌++◌, length, take, drop, replicate, length-append, length-take, length-drop,
  length-replicate, max, some, Bool-cases, Option-cases, inl, inr, All,
}
use psprism.Elf.Types.{LoadSegment, ProgramLoadHeader, ok, Result-cases}
use psprism.Elf.Bytes.{u16_at, u32_at, slice}
use psprism.Elf.Image.{size_from, memory_size, copy_at, image_from, memory_image}
use psprism.Elf.Programs.{
  ProgramHeader, program_header, load_program, program_at, programs_from, read_programs, rebase,
  choose_base, is_fixed, psp_user_base,
}
use psprism.Elf.Load.{segments_of}

module _ {ℓ} {A : Type ℓ} where
  pub length-take_le : (n : ℕ) (xs : List A) → length (take n xs) ≤ n
  length-take_le zero xs = omega arith
  length-take_le (suc n) [] = omega arith
  length-take_le (suc n) (x ∷ xs) = omega (arith, length-take_le n xs)

pub length-copy_at :
    (address : ℕ) (bytes image : List ℕ)
    → address + length bytes ≤ length image
    → length (copy_at address bytes image) ≡ length image
unfolding copy_at
length-copy_at address bytes image h =
    length-append (take address image ++ bytes) (drop (address + length bytes) image)
    ∙ omega (
      arith,
      length-append (take address image) bytes,
      length-take address image (omega arith),
      length-drop (address + length bytes) image,
      h,
    )

-- The bytes of the file are not more than the segment's memory.
abbrev pub Fits : List LoadSegment → Type 0
Fits = All (λ s. length s.bytes ≤ s.memory_size)

abbrev Within : ℕ → List LoadSegment → Type 0
Within size = All (λ s. s.address + length s.bytes ≤ size)

Within-weaken :
    (n m : ℕ) (segments : List LoadSegment) → n ≤ m → Within n segments → Within m segments
Within-weaken n m [] h w = tt
Within-weaken n m (segment ∷ segments) h w = (omega (arith, w.0), Within-weaken n m segments h w.1)

size_from-Within :
    (size : ℕ) (segments : List LoadSegment) {n : ℕ}
    → Fits segments
    → size_from size segments ≡ ok n
    → (size ≤ n) × Within n segments
unfolding size_from
size_from-Within size [] fits h = (ground (arith, h), tt)
size_from-Within size (segment ∷ segments) {n = n} fits h =
    let next = max size (segment.address + segment.memory_size) in
    let (more, within) = size_from-Within next segments {n = n} fits.1 (ground (arith, h)) in
    (ground (arith, more), (ground (arith, more, fits.0), within))

image_from-ok :
    (image : List ℕ) (segments : List LoadSegment)
    → Within (length image) segments
    → (flat : List ℕ) × (image_from image segments ≡ ok flat) × (length flat ≡ length image)
unfolding image_from
image_from-ok image [] w = (image, refl, refl)
image_from-ok image (segment ∷ segments) w =
    let copied = copy_at segment.address segment.bytes image in
    let same = length-copy_at segment.address segment.bytes image w.0 in
    let (flat, h, size) =
      image_from-ok copied segments
        (Within-weaken (length image) (length copied) segments (omega (arith, same)) w.1) in
    let inside : (ltb (length image) segment.address
          || ltb (length image - segment.address) (length segment.bytes))
        ≡ false =
      ground (arith, w.0) in
    (flat, rw inside h, size ∙ same)

memory_image-Fits :
    (segments : List LoadSegment) {size : ℕ}
    → Fits segments
    → memory_size segments ≡ ok size
    → (flat : List ℕ) × (memory_image segments ≡ ok flat) × (length flat ≡ size)
unfolding memory_size memory_image
memory_image-Fits segments {size = size} fits h =
    let zeros = length-replicate size 0 in
    let (flat, made, same) =
      image_from-ok (replicate size 0) segments (rw zeros (size_from-Within 0 segments fits h).1) in
    (flat, rw h made, same ∙ zeros)

load_program-slice :
    (file : List ℕ) (index : ℕ) (program : ProgramHeader) {segment : LoadSegment}
    {header : ProgramLoadHeader}
    → load_program file index program ≡ ok (segment, header)
    → (segment.bytes ≡ slice file header.file_offset header.file_size)
      × (header.file_size ≤ segment.memory_size)
unfolding load_program
load_program-slice file index program h = ground (arith, h)

program_at-slice :
    (file : List ℕ) (base index : ℕ) {segment : LoadSegment} {header : ProgramLoadHeader}
    → program_at file base index ≡ ok (some (segment, header))
    → (segment.bytes ≡ slice file header.file_offset header.file_size)
      × (header.file_size ≤ segment.memory_size)
unfolding program_at
program_at-slice file base index {segment = segment} {header = header} h =
    elim (Result-cases (program_header file base)) [
      | inr (error, e) ↦ absurd (ground (arith, e, h))
      | inl (program, e) ↦ elim (Result-cases (load_program file index program)) [
        | inr (error, f) ↦ absurd (ground (arith, e, f, h))
        | inl (loaded, f) ↦
            load_program-slice file index program {segment = segment} {header = header}
              (f ∙ ap ok (ground (arith, e, f, h)))
      ]
    ]

programs_from-Fits :
    (file : List ℕ) (table entry_size index count : ℕ)
    {programs : List (LoadSegment × ProgramLoadHeader)}
    → programs_from file table entry_size index count ≡ ok programs
    → Fits (segments_of programs)
unfolding programs_from
programs_from-Fits file table entry_size index zero h =
    subst (λ (p : List (LoadSegment × ProgramLoadHeader)). Fits (segments_of p)) {x = []}
      (ground (arith, h)) tt
programs_from-Fits file table entry_size index (suc count) {programs = programs} h =
    elim (Result-cases (program_at file (table + index * entry_size) index)) [
      | inr (error, e) ↦ absurd (ground (arith, e, h))
      | inl (program, e) ↦
          elim (Result-cases (programs_from file table entry_size (suc index) count)) [
            | inr (error, f) ↦ absurd (ground (arith, e, f, h))
            | inl (rest, f) ↦
                let fits = programs_from-Fits file table entry_size (suc index) count f in
                elim (Option-cases program) [
                  | inl g ↦
                      subst (λ (p : List (LoadSegment × ProgramLoadHeader)). Fits (segments_of p))
                        {x = rest} (ground (arith, e, f, g, h)) fits
                  | inr ((segment, header), g) ↦
                      let (bytes, few) =
                        program_at-slice file (table + index * entry_size) index {segment = segment}
                          {header = header} (e ∙ ap ok g) in
                      subst (λ (p : List (LoadSegment × ProgramLoadHeader)). Fits (segments_of p))
                        {x = (segment, header) ∷ rest} {y = programs} (ground (arith, e, f, g, h))
                        (
                          omega (
                            arith,
                            ap (λ (b : List ℕ). length b) bytes,
                            length-take_le header.file_size (drop header.file_offset file),
                            few,
                          ),
                          fits,
                        )
                ]
          ]
    ]

rebase-Fits : (base : ℕ) (segments : List LoadSegment) → Fits segments → Fits (rebase base segments)
unfolding rebase
rebase-Fits base [] fits = tt
rebase-Fits base (segment ∷ segments) fits = (fits.0, rebase-Fits base segments fits.1)

choose_base-Fits :
    (entry : ℕ) (segments : List LoadSegment) {base entry' : ℕ} {segments' : List LoadSegment}
    → choose_base entry segments ≡ ok (base, entry', segments')
    → Fits segments
    → Fits segments'
unfolding choose_base
choose_base-Fits entry segments h fits = elim (Bool-cases (is_fixed segments)) [
  | inr e ↦ subst Fits {x = segments} (ground (arith, e, h)) fits
  | inl e ↦
      subst Fits {x = rebase psp_user_base segments} (ground (arith, e, h))
        (rebase-Fits psp_user_base segments fits)
]

read_programs-Fits :
    (file : List ℕ) {programs : List (LoadSegment × ProgramLoadHeader)}
    → read_programs file ≡ ok programs
    → Fits (segments_of programs)
unfolding read_programs
read_programs-Fits file {programs = programs} read = elim (Result-cases (u32_at file 28)) [
  | inr (error, e) ↦ absurd (ground (arith, e, read))
  | inl (table, e) ↦ elim (Result-cases (u16_at file 42)) [
    | inr (error, f) ↦ absurd (ground (arith, e, f, read))
    | inl (entry_size, f) ↦ elim (Result-cases (u16_at file 44)) [
      | inr (error, g) ↦ absurd (ground (arith, e, f, g, read))
      | inl (count, g) ↦
          programs_from-Fits file table entry_size 0 count {programs = programs}
            (ground (arith, e, f, g, read))
    ]
  ]
]

-- The segments that are read from a file, at their preferred base, make a memory image whenever their
-- memory fits 32 bits, and of that size: no copy is outside of the image.
pub memory_image-read_programs :
    (file : List ℕ) (entry : ℕ) {programs : List (LoadSegment × ProgramLoadHeader)}
    {base entry' : ℕ} {segments : List LoadSegment} {size : ℕ}
    → read_programs file ≡ ok programs
    → choose_base entry (segments_of programs) ≡ ok (base, entry', segments)
    → memory_size segments ≡ ok size
    → (flat : List ℕ) × (memory_image segments ≡ ok flat) × (length flat ≡ size)
memory_image-read_programs file entry {programs = programs} {segments = segments} read based sized =
    memory_image-Fits segments
      (choose_base-Fits entry (segments_of programs) based (read_programs-Fits file read)) sized
