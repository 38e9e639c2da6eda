-- ===== src/Iso/Lookup.antt =====
-- iso.cpp: the sorted entries, `find` and `read`.
use psprism.Base.Outcomes.{done, throws, ◌>>=◌}
use psprism.Base.{ℕ, ◌*◌, ◌≡◌, refl, subst, ◌∙◌, arith, Bool, true, false}
use psprism.Base.{if◌then◌else◌, List, [], ◌∷◌, Option, none, some, All, Bool-cases, inl, inr}
use psprism.Base.Text.{same_text}
use psprism.Base.Sorting.{any, any-eq_of_count}
use psprism.Iso.Types.{IsoEntry, Run, is_directory, not_found}
use psprism.Iso.Names.{normalized, read_range}
use psprism.Iso.Directory.{sector_size, read_entries}
use psprism.Iso.Order.{
  less_text, IsOrdered, EntrySorting, less_text-same, less_text-differs, same_text-eq,
}

-- std::lower_bound: the first entry whose path is not before a text.
unfoldable pub lower_bound : List ℕ → List IsoEntry → Option IsoEntry
unfolding less_text
lower_bound wanted [] = none
lower_bound wanted (e ∷ es) =
    let rest = lower_bound wanted es in if less_text e.path wanted then rest else some e

unfoldable pub find_exact : List ℕ → List IsoEntry → Option IsoEntry
unfolding lower_bound same_text
find_exact wanted entries = elim (lower_bound wanted entries) [
  | none ↦ none
  | some found ↦ if same_text found.path wanted then some found else none
]

unfoldable pub find_entry : List IsoEntry → List ℕ → Option IsoEntry
unfolding normalized find_exact
find_entry entries path = find_exact (normalized path) entries

unfoldable pub read_entry : List ℕ → IsoEntry → Run (List ℕ)
unfolding read_range
read_entry file entry =
    if entry.directory
    then throws is_directory
    else read_range file (entry.extent * sector_size) entry.size

-- The other overload of `read`.
unfoldable pub read_path : List ℕ → List IsoEntry → List ℕ → Run (List ℕ)
unfolding find_entry read_entry
read_path file entries path = elim (find_entry entries path) [
  | none ↦ throws not_found
  | some entry ↦ read_entry file entry
]

-- The sorted entries of an image, for some fuel.
unfoldable pub open_image : EntrySorting → ℕ → Option (List ℕ) → Run (List IsoEntry)
unfolding read_entries
open_image sorting fuel input = read_entries fuel input >>= λ entries. done (sorting.sort entries)

-- The entry, where it has one, has the path.
abbrev pub has_path : List ℕ → IsoEntry → Bool
has_path wanted e = same_text e.path wanted

abbrev pub is_some : Option IsoEntry → Bool
is_some none = false
is_some (some e) = true

-- An entry that is not before the text, in an ordered list with the text, has it.
any-after :
    (wanted : List ℕ) (e : IsoEntry) (es : List IsoEntry)
    → All (λ (f : IsoEntry). less_text f.path e.path ≡ false) es
    → less_text e.path wanted ≡ false
    → any (has_path wanted) es ≡ true
    → has_path wanted e ≡ true
unfolding any
any-after wanted e [] h k q = absurd (ground (arith, q))
any-after wanted e (f ∷ fs) (h, hs) k q = elim (Bool-cases (has_path wanted f)) [
  | inl r ↦
      let same = same_text-eq f.path wanted r in
      less_text-same e.path wanted k (subst (λ p. less_text p e.path ≡ false) same h)
  | inr r ↦ any-after wanted e fs hs k (ground (arith, q, r))
]

find_exact-any :
    (wanted : List ℕ) (entries : List IsoEntry)
    → IsOrdered entries
    → is_some (find_exact wanted entries) ≡ any (has_path wanted) entries
unfolding find_exact any
find_exact-any wanted [] o = refl
find_exact-any wanted (e ∷ es) (h, o) = elim (Bool-cases (less_text e.path wanted)) [
  | inl k ↦
      let q : has_path wanted e ≡ false = less_text-differs e.path wanted k in
      rw (k, q, find_exact) (find_exact-any wanted es o)
  | inr k ↦ elim (Bool-cases (has_path wanted e)) [
    | inl q ↦ rw (k, q, find_exact) refl
    | inr q ↦ elim (Bool-cases (any (has_path wanted) es)) [
      | inl r ↦ absurd (ground (arith, q, any-after wanted e es h k r))
      | inr r ↦ rw (k, q, r, find_exact) refl
    ]
  ]
]

-- Whatever the order in which the directories list them: looking a path up in the sorted entries of an
-- image finds an entry exactly if one of the entries has the normalised path.
pub find_entry-any :
    (sorting : EntrySorting) (entries : List IsoEntry) (path : List ℕ)
    → is_some (find_entry (sorting.sort entries) path) ≡ any (has_path (normalized path)) entries
unfolding find_entry
find_entry-any sorting entries path =
    find_exact-any (normalized path) (sorting.sort entries) (sorting.ordered entries)
    ∙ any-eq_of_count (has_path (normalized path)) (sorting.sort entries) entries
        (sorting.same entries (has_path (normalized path)))
