-- ===== src/Iso/Names.antt =====
-- iso.cpp: `u32`, `normalized`, `record_name` and `read_range`. The character functions are those of
-- the C locale. A read inside the file is taken to succeed.
use psprism.Base.Outcomes.{done, throws}
use psprism.Base.{
  ℕ, ◌+◌, ◌-◌, Bool, false, ◌&&◌, ◌||◌, ltb, leb, ◌==◌, if◌then◌else◌, List, [], ◌∷◌,
}
use psprism.Base.{Option, none, some, length, take, drop}
use psprism.Base.Text.{codes, same_text}
use psprism.Relocation.Records.{word_of}
use psprism.Elf.Bytes.{byte_at, is_truncated}
use psprism.Iso.Types.{Run, truncated_metadata, invalid_record, truncated_name}
use psprism.Iso.Types.{unsafe_name, extent_outside}

abbrev pub slash : ℕ
slash = 0x2f

abbrev pub backslash : ℕ
backslash = 0x5c

unfoldable pub metadata_u32 : List ℕ → ℕ → Run ℕ
metadata_u32 bytes offset =
    if is_truncated bytes offset 4
    then throws truncated_metadata
    else done (
        word_of (byte_at bytes offset) (byte_at bytes (offset + 1)) (byte_at bytes (offset + 2))
          (byte_at bytes (offset + 3)))

-- std::toupper
abbrev pub to_upper : ℕ → ℕ
to_upper c = if leb 0x61 c && leb c 0x7a then c - 0x20 else c

-- The loop of `normalized`, after a last character of the result, where it has one.
unfoldable pub normalized_from : Option ℕ → List ℕ → List ℕ
normalized_from last [] = []
normalized_from last (c ∷ cs) =
    let upper = to_upper c ∷ normalized_from (some (to_upper c)) cs in
    let separated = slash ∷ normalized_from (some slash) cs in
    let skipped = normalized_from last cs in
    if c == backslash
    then separated
    else if c == slash
    then elim last [
      | none ↦ skipped
      | some previous ↦ if previous == slash then skipped else separated
    ]
    else upper

-- A `while` that drops characters at the front, or at the back.
unfoldable pub trim_front : ℕ → List ℕ → List ℕ
trim_front x [] = []
trim_front x (c ∷ cs) = let rest = trim_front x cs in if c == x then rest else c ∷ cs

unfoldable pub trim_back : ℕ → List ℕ → List ℕ
trim_back x [] = []
trim_back x (c ∷ cs) = elim (trim_back x cs) [
  | [] ↦ if c == x then [] else c ∷ []
  | d ∷ ds ↦ c ∷ d ∷ ds
]

unfoldable pub normalized : List ℕ → List ℕ
unfolding normalized_from trim_front trim_back
normalized value = trim_back slash (trim_front slash (normalized_from none value))

-- The text before a character.
unfoldable pub before : ℕ → List ℕ → List ℕ
before x [] = []
before x (c ∷ cs) = let rest = before x cs in if c == x then [] else c ∷ rest

unfoldable pub has_character : ℕ → List ℕ → Bool
has_character x [] = false
has_character x (c ∷ cs) = c == x || has_character x cs

-- The test on a name.
unfoldable pub is_unsafe : List ℕ → Bool
unfolding same_text has_character
is_unsafe name =
    same_text name []
    || same_text name (codes ".")
    || same_text name (codes "..")
    || has_character slash name
    || has_character backslash name

-- The name in a record: empty for the directory itself and its parent.
unfoldable pub record_name : List ℕ → ℕ → Run (List ℕ)
unfolding before trim_back is_unsafe
record_name record_bytes length =
    let name_length = byte_at record_bytes 32 in
    let first = byte_at record_bytes 33 in
    let name = trim_back 0x2e (before 0x3b (take name_length (drop 33 record_bytes))) in
    if ltb length 34
    then throws invalid_record
    else if ltb length (33 + name_length)
    then throws truncated_name
    else if name_length == 1 && (first == 0 || first == 1)
    then done []
    else if is_unsafe name
    then throws unsafe_name
    else done name

unfoldable pub read_range : List ℕ → ℕ → ℕ → Run (List ℕ)
read_range file offset size =
    if is_truncated file offset size
    then throws extent_outside
    else done (take size (drop offset file))
