-- ===== src/Iso/Ends.antt =====
-- The walk over the directories of an image ends: every pair of an extent and a size is read once, and
-- only finitely many lie inside the file.
use psprism.Base.Outcomes.{done, throws, endless, wild, ◌>>=◌}
use psprism.Base.{ℕ, zero, suc, ◌+◌, ◌*◌, ◌^◌, ◌≤◌, ◌≡◌, refl, arith, false}
use psprism.Base.{
  not, if◌then◌else◌, List, [], ◌∷◌, Option, none, some, length, Bool-cases, inl, inr,
}
use psprism.Base.Sets.{insert, has}
use psprism.Iso.Types.{IsoEntry, Run, invalid_root, not_an_iso}
use psprism.Iso.Names.{metadata_u32, read_range}
use psprism.Iso.Directory.{
  PendingDirectory, Found, records_from, visit_key, walk, root_of, is_iso, is_bad_root, read_root,
  read_entries, root_found, sector_size,
}
use psprism.Iso.Records.{
  unvisited, unvisited-insert, Ended, bind-Ended, metadata_u32-Ended, read_range-Ended,
  read_range-inside, if-Ended, records_from-Ended,
}

-- A chain ends for some fuel if its second part does.
bind-fuel {ℓ κ} :
    {A : Type ℓ} {B : Type κ} (r : Run A) (f : ℕ → A → Run B)
    → Ended r
    → ((a : A) → r ≡ done a → (fuel : ℕ) × Ended (f fuel a))
    → (fuel : ℕ) × Ended (r >>= f fuel)
bind-fuel (done a) f h g = g a refl
bind-fuel (throws e) f h g = (0, (λ q. cc, λ q. cc))
bind-fuel endless f h g = absurd (h.0 refl)
bind-fuel wild f h g = absurd (h.1 refl)

module _ (file : List ℕ) where
  -- The keys of the ranges inside the file are below this.
  abbrev bound : ℕ
  bound = length file * 2 ^ 32 + length file + 1

  abbrev WalkEnds : List ℕ → Found → Type 0
  WalkEnds visited found = (fuel : ℕ) × Ended (walk fuel file visited found)

  -- One more directory is read, for the fuel that the rest takes.
  read_directory-Ended :
      (directory : PendingDirectory) (visited : List ℕ) (left : Found)
      → (directory.extent * sector_size + directory.size ≤ length file
          → (found : Found)
          → WalkEnds (insert (visit_key directory.extent directory.size) visited) found)
      → (fuel : ℕ) × Ended (
          read_range file (directory.extent * sector_size) directory.size >>= λ bytes.
          records_from (length bytes) directory.path bytes 0 left
          >>= walk fuel file (insert (visit_key directory.extent directory.size) visited))
  read_directory-Ended directory visited left next =
      let key = visit_key directory.extent directory.size in
      let offset = directory.extent * sector_size in
      bind-fuel (read_range file offset directory.size)
        (λ fuel bytes.
          records_from (length bytes) directory.path bytes 0 left
          >>= walk fuel file (insert key visited))
        (read_range-Ended file offset directory.size)
        (λ bytes e.
          bind-fuel (records_from (length bytes) directory.path bytes 0 left)
            (λ fuel found. walk fuel file (insert key visited) found)
            (records_from-Ended (length bytes) directory.path bytes 0 left (omega arith))
            (λ found f. next (read_range-inside file offset directory.size e) found))

  -- A visited directory is passed over, another is read.
  visit-Ended :
      (visited : List ℕ) (entries : List IsoEntry) (directory : PendingDirectory)
      (pending : List PendingDirectory)
      → WalkEnds visited (record { entries = entries; pending = pending })
      → (has (visit_key directory.extent directory.size) visited ≡ false
          → directory.extent * sector_size + directory.size ≤ length file
          → (found : Found)
          → WalkEnds (insert (visit_key directory.extent directory.size) visited) found)
      → WalkEnds visited (record { entries = entries; pending = directory ∷ pending })
  unfolding walk
  visit-Ended visited entries directory pending (fuel, ends) next =
      elim (Bool-cases (has (visit_key directory.extent directory.size) visited)) [
        | inl e ↦ (suc fuel, rw (e, walk) ends)
        | inr e ↦
            let (fuel', ends') =
              read_directory-Ended directory visited
                (record { entries = entries; pending = pending }) (next e) in
            (suc fuel', rw (e, walk) ends')
      ]

  walk-Ended :
      (n : ℕ) (visited : List ℕ) (entries : List IsoEntry) (pending : List PendingDirectory)
      → unvisited bound visited ≤ n
      → WalkEnds visited (record { entries = entries; pending = pending })
  unfolding walk
  walk-Ended n visited entries [] h = (0, (λ q. cc, λ q. cc))
  walk-Ended zero visited entries (directory ∷ pending) h =
      let key = visit_key directory.extent directory.size in
      visit-Ended visited entries directory pending (walk-Ended zero visited entries pending h)
        (λ e inside found.
          absurd (omega (arith, h, unvisited-insert bound key visited (omega (arith, inside)) e)))
  walk-Ended (suc n) visited entries (directory ∷ pending) h =
      let key = visit_key directory.extent directory.size in
      visit-Ended visited entries directory pending (walk-Ended (suc n) visited entries pending h)
        (λ e inside found.
          walk-Ended n (insert key visited) found.entries found.pending
            (omega (arith, h, unvisited-insert bound key visited (omega (arith, inside)) e)))

root_of-Ended : (descriptor : List ℕ) → Ended (root_of descriptor)
unfolding root_of
root_of-Ended d =
    let root : Run (ℕ × ℕ) =
      metadata_u32 d 158 >>= λ extent. metadata_u32 d 166 >>= λ size. done (extent, size) in
    if-Ended (not (is_iso d)) (throws not_an_iso)
      (if is_bad_root d then throws invalid_root else root) (λ q. cc, λ q. cc)
      (λ e.
        if-Ended (is_bad_root d) (throws invalid_root) root (λ q. cc, λ q. cc)
          (λ f. bind-Ended (metadata_u32 d 158) _ (metadata_u32-Ended d 158) (λ extent g.
            bind-Ended (metadata_u32 d 166) _ (metadata_u32-Ended d 166)
              (λ size h. (λ q. cc, λ q. cc)))))

read_root-Ended : (file : List ℕ) → Ended (read_root file)
unfolding read_root
read_root-Ended file =
    bind-Ended (read_range file (16 * sector_size) sector_size) root_of
      (read_range-Ended file (16 * sector_size) sector_size) (λ d e. root_of-Ended d)

-- Every image is read to an end: there is a fuel for which the constructor returns the entries or
-- throws, whatever directories the image has, also where they contain themselves or one another.
pub read_entries-ends : (input : Option (List ℕ)) → (fuel : ℕ) × Ended (read_entries fuel input)
unfolding read_entries
read_entries-ends none = (0, (λ q. cc, λ q. cc))
read_entries-ends (some file) =
    bind-fuel (read_root file) (λ fuel (extent, size). walk fuel file [] (root_found extent size))
      (read_root-Ended file)
      (λ (extent, size) e.
        walk-Ended file (unvisited (bound file) []) [] []
          (record { path = []; extent = extent; size = size } ∷ []) (omega arith))
