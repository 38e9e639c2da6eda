-- ===== src/Iso/Safe.antt =====
-- The paths of the entries stay below the directory that they are extracted to.
use psprism.Base.Outcomes.{done, throws, ◌>>=◌, bind-done, done_lem}
use psprism.Base.{
  ap, ℕ, zero, suc, ◌+◌, ◌*◌, ◌/◌, ◌≡◌, refl, sym, subst, ◌∙◌, arith, Bool, true, false, ◌||◌,
}
use psprism.Base.{
  ltb, ◌==◌, if◌then◌else◌, List, [], ◌∷◌, ◌++◌, some, length, drop, All, Bool-cases, inl, inr, ◌⊎◌,
}
use psprism.Base.Sets.{insert, has}
use psprism.Elf.Bytes.{byte_at}
use psprism.Iso.Types.{IsoEntry, Run}
use psprism.Iso.Types.{invalid_directory_record}
use psprism.Iso.Names.{slash, has_character, is_unsafe, metadata_u32, record_name, read_range}
use psprism.Iso.Directory.{
  PendingDirectory, Found, named_record, read_record, records_from, visit_key, walk, read_root,
  read_entries, sector_size, join, add_entry,
}

-- The parts of a path between its slashes.
abbrev prepend : ℕ → List (List ℕ) → List (List ℕ)
prepend c [] = (c ∷ []) ∷ []
prepend c (part ∷ parts) = (c ∷ part) ∷ parts

abbrev pub split : List ℕ → List (List ℕ)
split [] = [] ∷ []
split (c ∷ cs) = let rest = split cs in if c == slash then [] ∷ rest else prepend c rest

-- No part is empty, "." or "..", or has a backslash.
abbrev pub IsSafe : List ℕ → Type 0
IsSafe path = All (λ part. is_unsafe part ≡ false) (split path)

split-name : (name : List ℕ) → has_character slash name ≡ false → split name ≡ name ∷ []
unfolding has_character
split-name [] h = refl
split-name (c ∷ cs) h =
    let e : (c == slash) ≡ false = ground (arith, h) in
    rw e (ap (prepend c) (split-name cs (ground (arith, h))))

split-cons :
    (path : List ℕ) → (part : List ℕ) × (parts : List (List ℕ)) × (split path ≡ part ∷ parts)
split-cons [] = ([], [], refl)
split-cons (c ∷ cs) = elim (Bool-cases (c == slash)) [
  | inl e ↦ ([], split cs, rw e refl)
  | inr e ↦ let (part, parts, f) = split-cons cs in (c ∷ part, parts, rw e (ap (prepend c) f))
]

split-append : (path name : List ℕ) → split (path ++ (slash ∷ name)) ≡ split path ++ split name
split-append [] name = refl
split-append (c ∷ cs) name = elim (Bool-cases (c == slash)) [
  | inl e ↦ rw e (ap (λ parts. [] ∷ parts) (split-append cs name))
  | inr e ↦
      let (part, parts, f) = split-cons cs in
      rw e (
        ap (prepend c) (split-append cs name ∙ ap (λ t. t ++ split name) f)
        ∙ ap (λ t. prepend c t ++ split name) (sym f))
]

All-append {ℓ κ} :
    {A : Type ℓ} (P : A → Type κ) (xs ys : List A) → All P xs → All P ys → All P (xs ++ ys)
All-append P [] ys h k = k
All-append P (x ∷ xs) ys (p, h) k = (p, All-append P xs ys h k)

-- The root, or a safe path.
abbrev IsRooted : List ℕ → Type 0
IsRooted path = (path ≡ []) ⊎ IsSafe path

is_unsafe-has_character :
    (name : List ℕ) → is_unsafe name ≡ false → has_character slash name ≡ false
unfolding is_unsafe
is_unsafe-has_character name h = ground (arith, h)

name-IsSafe : (name : List ℕ) → is_unsafe name ≡ false → IsSafe name
name-IsSafe name h =
    subst (All (λ part. is_unsafe part ≡ false)) {x = name ∷ []} {y = split name}
      (sym (split-name name (is_unsafe-has_character name h))) (h, tt)

join-IsSafe :
    (directory name : List ℕ)
    → IsRooted directory
    → is_unsafe name ≡ false
    → IsSafe (join directory name)
join-IsSafe [] name r h = name-IsSafe name h
join-IsSafe (c ∷ cs) name (inl e) h = absurd cc
join-IsSafe (c ∷ cs) name (inr safe) h =
    subst (All (λ part. is_unsafe part ≡ false)) {x = split (c ∷ cs) ++ split name}
      {y = split ((c ∷ cs) ++ (slash ∷ name))} (sym (split-append (c ∷ cs) name))
      (All-append (λ part. is_unsafe part ≡ false) (split (c ∷ cs)) (split name) safe
        (name-IsSafe name h))

record_name-IsNamed :
    (bytes : List ℕ) (size : ℕ) {name : List ℕ}
    → record_name bytes size ≡ done name
    → (name ≡ []) ⊎ (is_unsafe name ≡ false)
unfolding record_name
record_name-IsNamed bytes size h = ground (arith, h)

abbrev SafeFound : Found → Type 0
SafeFound found =
    All (λ (e : IsoEntry). IsSafe e.path) found.entries
    × All (λ (d : PendingDirectory). IsRooted d.path) found.pending

add_entry-SafeFound :
    (path : List ℕ) (is_directory : Bool) (extent size : ℕ) (found : Found)
    → IsSafe path
    → SafeFound found
    → SafeFound (add_entry path is_directory extent size found)
unfolding add_entry
add_entry-SafeFound path true extent size found safe (e, d) =
    (All-append (λ (x : IsoEntry). IsSafe x.path) found.entries _ e (safe, tt), (inr safe, d))
add_entry-SafeFound path false extent size found safe (e, d) =
    (All-append (λ (x : IsoEntry). IsSafe x.path) found.entries _ e (safe, tt), d)

module _ (directory : List ℕ) (rooted : IsRooted directory) (bytes : List ℕ) where
  named_record-SafeFound :
      (cursor : ℕ) (found : Found) (name : List ℕ) {found' : Found}
      → (name ≡ []) ⊎ (is_unsafe name ≡ false)
      → SafeFound found
      → named_record directory bytes cursor found name ≡ done found'
      → SafeFound found'
  unfolding named_record
  named_record-SafeFound cursor found [] good safe h = subst SafeFound (done_lem h) safe
  named_record-SafeFound cursor found (c ∷ cs) (inl e) safe h = absurd cc
  named_record-SafeFound cursor found (c ∷ cs) (inr good) safe h =
      let (extent, e, r) = bind-done (metadata_u32 bytes (cursor + 2)) _ h in
      let (size, f, r') = bind-done (metadata_u32 bytes (cursor + 10)) _ r in
      subst SafeFound (done_lem r') (
        add_entry-SafeFound (join directory (c ∷ cs)) _ extent size found
          (join-IsSafe directory (c ∷ cs) rooted good) safe)

  read_record-SafeFound :
      (cursor : ℕ) (found : Found) {found' : Found}
      → SafeFound found
      → read_record directory bytes cursor found ≡ done found'
      → SafeFound found'
  unfolding read_record
  read_record-SafeFound cursor found safe h =
      let (name, e, r) =
        bind-done (record_name (drop cursor bytes) (byte_at bytes cursor))
          (named_record directory bytes cursor found) h in
      named_record-SafeFound cursor found name
        (record_name-IsNamed (drop cursor bytes) (byte_at bytes cursor) e) safe r

  if-done :
      (b : Bool) {x : Run Found} {found : Found}
      → (if b then throws invalid_directory_record else x) ≡ done found
      → x ≡ done found
  if-done true h = absurd cc
  if-done false h = h

  records_from-SafeFound :
      (fuel cursor : ℕ) (found : Found) {found' : Found}
      → SafeFound found
      → records_from fuel directory bytes cursor found ≡ done found'
      → SafeFound found'
  unfolding records_from
  records_from-SafeFound zero cursor found safe h = elim (Bool-cases (ltb cursor (length bytes))) [
    | inl e ↦ absurd (ground (arith, e, h))
    | inr e ↦ subst SafeFound (done_lem (sym (rw e refl) ∙ h)) safe
  ]
  records_from-SafeFound (suc fuel) cursor found safe h =
      let size = byte_at bytes cursor in
      elim (Bool-cases (ltb cursor (length bytes))) [
        | inr e ↦ subst SafeFound (done_lem (sym (rw (e, records_from) refl) ∙ h)) safe
        | inl e ↦ elim (Bool-cases (size == 0)) [
          | inl f ↦
              records_from-SafeFound fuel ((cursor / sector_size + 1) * sector_size) found safe
                (sym (rw (e, f, records_from) refl) ∙ h)
          | inr f ↦
              let (found1, g, r) =
                bind-done (read_record directory bytes cursor found)
                  (records_from fuel directory bytes (cursor + size))
                  (if-done (ltb (length bytes) (cursor + size) || ltb size 34)
                    (sym (rw (e, f, records_from) refl) ∙ h)) in
              records_from-SafeFound fuel (cursor + size) found1
                (read_record-SafeFound cursor found safe g) r
        ]
      ]

module _ (file : List ℕ) where
  walk-IsSafe :
      (fuel : ℕ) (visited : List ℕ) (list : List IsoEntry) (pending : List PendingDirectory)
      {entries : List IsoEntry}
      → SafeFound (record { entries = list; pending = pending })
      → walk fuel file visited (record { entries = list; pending = pending }) ≡ done entries
      → All (λ (e : IsoEntry). IsSafe e.path) entries
  unfolding walk
  walk-IsSafe zero visited list [] safe h =
      subst (All (λ (e : IsoEntry). IsSafe e.path)) (done_lem h) safe.0
  walk-IsSafe zero visited list (d ∷ ds) safe h = absurd cc
  walk-IsSafe (suc fuel) visited list [] safe h =
      subst (All (λ (e : IsoEntry). IsSafe e.path)) (done_lem h) safe.0
  walk-IsSafe (suc fuel) visited list (d ∷ ds) (safe, (rooted, others)) h =
      let key = visit_key d.extent d.size in
      let left : Found = record { entries = list; pending = ds } in
      elim (Bool-cases (has key visited)) [
        | inl e ↦ walk-IsSafe fuel visited list ds (safe, others) (sym (rw (e, walk) refl) ∙ h)
        | inr e ↦
            let (bytes, f, r) =
              bind-done (read_range file (d.extent * sector_size) d.size)
                (λ bytes.
                  records_from (length bytes) d.path bytes 0 left
                  >>= walk fuel file (insert key visited))
                (sym (rw (e, walk) refl) ∙ h) in
            let (found, g, r') =
              bind-done (records_from (length bytes) d.path bytes 0 left)
                (walk fuel file (insert key visited)) r in
            let (safe', rooted') =
              records_from-SafeFound d.path rooted bytes (length bytes) 0 left (safe, others) g in
            walk-IsSafe fuel (insert key visited) found.entries found.pending (safe', rooted') r'
      ]

-- However the directories of an image are laid out: in every path that the constructor lists, each
-- part between slashes is a name, not empty, not "." and not "..", and without a backslash.
pub read_entries-IsSafe :
    (fuel : ℕ) (file : List ℕ) {entries : List IsoEntry}
    → read_entries fuel (some file) ≡ done entries
    → All (λ (e : IsoEntry). IsSafe e.path) entries
unfolding read_entries
read_entries-IsSafe fuel file h =
    let ((extent, size), e, r) = bind-done (read_root file) _ h in
    walk-IsSafe file fuel [] [] (record { path = []; extent = extent; size = size } ∷ [])
      (tt, (inl refl, tt)) r
