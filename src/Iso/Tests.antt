-- ===== src/Iso/Tests.antt =====
-- A small image, whose root directory lists one file, and the theorems at it.
use psprism.Base.Outcomes.{done}
use psprism.Base.{ℕ, ◌≡◌, refl, List, [], ◌∷◌, ◌++◌, some, false, replicate, All}
use psprism.Base.Sorting.{any}
use psprism.Base.Text.{codes}
use psprism.Iso.Types.{IsoEntry}
use psprism.Iso.Directory.{read_entries}
use psprism.Iso.Records.{Ended}
use psprism.Iso.Ends.{read_entries-ends}
use psprism.Iso.Safe.{IsSafe, read_entries-IsSafe}
use psprism.Iso.Names.{normalized}
use psprism.Iso.Order.{by_path}
use psprism.Iso.Lookup.{find_entry, find_entry-any, is_some, has_path}

-- The descriptor up to the root directory's record, which is at sector 17 and has 36 bytes.
abbrev descriptor : List ℕ
descriptor =
    (1 ∷ codes "CD001")
    ++ (1 ∷ replicate 149 0)
    ++ (34 ∷ 0 ∷ 17 ∷ 0 ∷ 0 ∷ 0 ∷ 0 ∷ 0 ∷ 0 ∷ 0 ∷ 36 ∷ 0 ∷ 0 ∷ 0 ∷ [])
    ++ replicate 1878 0

-- "A;1", at sector 18, of 5 bytes.
abbrev directory : List ℕ
directory =
    (36 ∷ 0 ∷ 18 ∷ 0 ∷ 0 ∷ 0 ∷ 0 ∷ 0 ∷ 0 ∷ 0 ∷ 5 ∷ 0 ∷ 0 ∷ 0 ∷ [])
    ++ replicate 18 0
    ++ (3 ∷ 0x41 ∷ 0x3b ∷ 0x31 ∷ [])

abbrev file : List ℕ
file = replicate 32768 0 ++ descriptor ++ directory

abbrev entries : List IsoEntry
entries = record { path = 0x41 ∷ []; directory = false; extent = 18; size = 5 } ∷ []

entries_listed : read_entries 2 (some file) ≡ done entries
unfolding read_entries
entries_listed = refl

read_entries-ends_example : (fuel : ℕ) × Ended (read_entries fuel (some file))
read_entries-ends_example = read_entries-ends (some file)

read_entries-IsSafe_example : All (λ (e : IsoEntry). IsSafe e.path) entries
read_entries-IsSafe_example = read_entries-IsSafe 2 file entries_listed

find_entry-any_example :
    is_some (find_entry (by_path.sort entries) (codes "\\a"))
    ≡ any (has_path (normalized (codes "\\a"))) entries
find_entry-any_example = find_entry-any by_path entries (codes "\\a")
