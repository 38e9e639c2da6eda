-- ===== src/Iso/Directory.antt =====
-- iso.cpp, the constructor of IsoImage: the walk over the directories. The vector of directories that
-- are pending is a stack with its last element first; a visited pair of 32-bit numbers is one number.
use psprism.Base.Outcomes.{done, throws, endless, ◌>>=◌}
use psprism.Base.{ℕ, zero, suc, ◌+◌, ◌*◌, ◌/◌, ◌^◌, bit_and, Bool, true, false, not, ◌&&◌, ◌||◌}
use psprism.Base.{
  ltb, ◌==◌, if◌then◌else◌, List, [], ◌∷◌, ◌++◌, Option, none, some, length, take, drop,
}
use psprism.Base.Sets.{insert, has}
use psprism.Base.Text.{codes, same_text}
use psprism.Elf.Bytes.{byte_at}
use psprism.Iso.Types.{IsoEntry, Run, cannot_open, not_an_iso}
use psprism.Iso.Types.{invalid_root, invalid_directory_record}
use psprism.Iso.Names.{slash, metadata_u32, record_name, read_range}

abbrev pub sector_size : ℕ
sector_size = 2048

pub record PendingDirectory : Type 0 where
  pub path : List ℕ
  pub extent : ℕ
  pub size : ℕ

-- The entries in the order in which they are found, and the directories that are pending.
pub record Found : Type 0 where
  pub entries : List IsoEntry
  pub pending : List PendingDirectory

-- `directory / name`
abbrev pub join : List ℕ → List ℕ → List ℕ
join [] name = name
join (c ∷ cs) name = (c ∷ cs) ++ (slash ∷ name)

-- A named record.
unfoldable pub add_entry : List ℕ → Bool → ℕ → ℕ → Found → Found
add_entry path is_directory extent size found = record {
  entries =
      found.entries
      ++ (record { path = path; directory = is_directory; extent = extent; size = size } ∷ []);
  pending =
      if is_directory
      then record { path = path; extent = extent; size = size } ∷ found.pending
      else found.pending;
}

-- The record at a cursor, with its name.
unfoldable pub named_record : List ℕ → List ℕ → ℕ → Found → List ℕ → Run Found
unfolding metadata_u32 add_entry
named_record directory bytes cursor found [] = done found
named_record directory bytes cursor found (c ∷ cs) = do
  extent ← metadata_u32 bytes (cursor + 2)
  size ← metadata_u32 bytes (cursor + 10)
  done (
      add_entry (join directory (c ∷ cs)) (not (bit_and (byte_at bytes (cursor + 25)) 2 == 0))
        extent size found)

unfoldable pub read_record : List ℕ → List ℕ → ℕ → Found → Run Found
unfolding record_name named_record
read_record directory bytes cursor found =
    record_name (drop cursor bytes) (byte_at bytes cursor)
    >>= named_record directory bytes cursor found

-- The loop over the records of a directory.
unfoldable pub records_from : ℕ → List ℕ → List ℕ → ℕ → Found → Run Found
unfolding read_record
records_from zero directory bytes cursor found =
    if ltb cursor (length bytes) then endless else done found
records_from (suc fuel) directory bytes cursor found =
    let size = byte_at bytes cursor in
    elim (ltb cursor (length bytes)) [
      | false ↦ done found
      | true ↦ elim (size == 0) [
        | true ↦ records_from fuel directory bytes ((cursor / sector_size + 1) * sector_size) found
        | false ↦
            if ltb (length bytes) (cursor + size) || ltb size 34
            then throws invalid_directory_record
            else (read_record directory bytes cursor found
                >>= records_from fuel directory bytes (cursor + size))
      ]
    ]

abbrev pub visit_key : ℕ → ℕ → ℕ
visit_key extent size = extent * 2 ^ 32 + size

-- The loop over the directories that are pending.
unfoldable pub walk : ℕ → List ℕ → List ℕ → Found → Run (List IsoEntry)
unfolding has insert read_range records_from
walk zero file visited found = elim found.pending [ [] ↦ done found.entries | _ ∷ _ ↦ endless ]
walk (suc fuel) file visited found = elim found.pending [
  | [] ↦ done found.entries
  | directory ∷ pending ↦
      let key = visit_key directory.extent directory.size in
      let left : Found = record found { pending = pending } in
      elim (has key visited) [
        | true ↦ walk fuel file visited left
        | false ↦ read_range file (directory.extent * sector_size) directory.size >>= λ bytes.
            records_from (length bytes) directory.path bytes 0 left
            >>= walk fuel file (insert key visited)
      ]
]

-- The tests on the descriptor and on the root directory's record in it.
abbrev pub is_iso : List ℕ → Bool
is_iso descriptor =
    byte_at descriptor 0 == 1
    && same_text (take 5 (drop 1 descriptor)) (codes "CD001")
    && byte_at descriptor 6 == 1

abbrev pub is_bad_root : List ℕ → Bool
is_bad_root descriptor =
    ltb (byte_at descriptor 156) 34 || ltb (length descriptor) (156 + byte_at descriptor 156)

-- The root directory's extent and size.
unfoldable pub root_of : List ℕ → Run (ℕ × ℕ)
unfolding same_text metadata_u32
root_of descriptor =
    if not (is_iso descriptor)
    then throws not_an_iso
    else if is_bad_root descriptor
    then throws invalid_root
    else (do
      extent ← metadata_u32 descriptor 158
      size ← metadata_u32 descriptor 166
      done (extent, size))

unfoldable pub read_root : List ℕ → Run (ℕ × ℕ)
unfolding read_range root_of
read_root file = read_range file (16 * sector_size) sector_size >>= root_of

abbrev pub root_found : ℕ → ℕ → Found
root_found extent size = record {
  entries = [];
  pending = record { path = []; extent = extent; size = size } ∷ [];
}

-- The entries before they are sorted, for some fuel; `none` is a file that cannot be opened.
unfoldable pub read_entries : ℕ → Option (List ℕ) → Run (List IsoEntry)
unfolding read_root walk
read_entries fuel none = throws cannot_open
read_entries fuel (some file) =
    read_root file >>= λ (extent, size). walk fuel file [] (root_found extent size)
