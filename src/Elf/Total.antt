-- ===== src/Elf/Total.antt =====
-- Loading ends: the walk over the imports has fuel enough.
use psprism.Base.{ℕ, zero, suc, ◌+◌, ◌-◌, ◌≤◌, ◌≡◌, refl, arith, ltb, ◌||◌}
use psprism.Base.{
  List, [], ◌++◌, ltb, ◌-◌, length, Option, none, some, Bool-cases, Option-cases, inl, inr,
}
use psprism.Elf.Types.{
  invalid_import_range, cannot_open_input, Import, ElfImage, Result, ok, err, Result-cases, ◌>>=◌,
}
use psprism.Elf.Modules.{import_entry, imports_from}
use psprism.Elf.Load.{module_fields, read_imports, read_module, read_image, load_elf}

module _ {ℓ κ} {A : Type ℓ} {B : Type κ} where
  -- A result of a sequence comes from a result of its first part.
  pub >>=-ok :
      (r : Result A) (f : A → Result B) {b : B}
      → (r >>= f) ≡ ok b
      → (a : A) × (r ≡ ok a) × (f a ≡ ok b)
  >>=-ok (ok a) f h = (a, refl, h)
  >>=-ok (err e) f h = absurd (ground (arith, h))

module _ (base : ℕ) (flat : List ℕ) where
  import_entry-grows :
      (cursor stub_end : ℕ) {size : ℕ} {functions : List Import}
      → import_entry base flat cursor stub_end ≡ ok (size, functions)
      → 20 ≤ size
  unfolding import_entry
  import_entry-grows cursor stub_end h =
      elim (Bool-cases (ltb (length flat) cursor || ltb (length flat - cursor) 20)) [
        | inl e ↦ absurd (ground (arith, rw (e, import_entry) at h))
        | inr e ↦ ground (arith, e, rw (e, import_entry) at h)
      ]

  imports_from-returns :
      (fuel cursor stub_end : ℕ)
      → stub_end ≤ fuel + cursor
      → (r : Result (List Import)) × (imports_from base flat fuel cursor stub_end ≡ some r)
  unfolding imports_from
  imports_from-returns zero cursor stub_end h = (ok [], ground (arith, h))
  imports_from-returns (suc fuel) cursor stub_end h = elim (Bool-cases (ltb cursor stub_end)) [
    | inr e ↦ (ok [], rw e refl)
    | inl e ↦ elim (Result-cases (import_entry base flat cursor stub_end)) [
      | inr (error, f) ↦ (err error, rw (e, f) refl)
      | inl ((size, functions), f) ↦
          let grows = import_entry-grows cursor stub_end f in
          let (r, rest) =
            imports_from-returns fuel (cursor + size) stub_end (omega (arith, h, grows)) in
          elim (Result-cases r) [
            | inl (others, g) ↦ (ok (functions ++ others), rw (e, f, rest, g) refl)
            | inr (error, g) ↦ (err error, rw (e, f, rest, g) refl)
          ]
    ]
  ]

  read_imports-returns :
      (stub_begin stub_end : ℕ)
      → (r : Result (List Import)) × (read_imports base flat stub_begin stub_end ≡ some r)
  unfolding read_imports
  read_imports-returns stub_begin stub_end =
      elim (Bool-cases (ltb stub_end stub_begin || ltb (length flat) stub_end)) [
        | inl e ↦ (err invalid_import_range, rw e refl)
        | inr e ↦
            let (r, h) = imports_from-returns stub_end stub_begin stub_end (omega arith) in
            (r, rw e h)
      ]

read_module-returns :
    (image : ElfImage) (flat : List ℕ) (address : ℕ)
    → (r : Result ElfImage) × (read_module image flat address ≡ some r)
unfolding read_module
read_module-returns image flat address = elim (Result-cases (module_fields image flat address)) [
  | inr (error, e) ↦ (err error, rw (e, read_module) refl)
  | inl ((gp_pointer, gp, stub_begin, stub_end), e) ↦
      let (r, f) = read_imports-returns image.preferred_base flat stub_begin stub_end in
      elim (Result-cases r) [
        | inr (error, g) ↦ (err error, rw (e, read_module, f, g) refl)
        | inl (imports, g) ↦ (
          ok (record image {
            gp_pointer_offset = gp_pointer;
            gp_value_offset = gp;
            imports = imports;
          }),
          rw (e, read_module, f, g) refl,
        )
      ]
]

-- Loading ends with an image or an error, whatever the input is: the walk over the import table does
-- not run out of its fuel, which is the end of the table.
pub load_elf-returns : (input : Option (List ℕ)) → (r : Result ElfImage) × (load_elf input ≡ some r)
unfolding load_elf
load_elf-returns none = (err cannot_open_input, refl)
load_elf-returns (some file) = elim (Result-cases (read_image file)) [
  | inr (error, e) ↦ (err error, rw (e, load_elf) refl)
  | inl ((image, flat, info), e) ↦ elim (Option-cases info) [
    | inl f ↦ (ok image, rw (e, load_elf, f) refl)
    | inr (address, f) ↦
        let (r, g) = read_module-returns image flat address in (r, rw (e, load_elf, f) g)
  ]
]
