-- ===== src/CodeMap/Load.antt =====
-- src/elf/code_map.cpp, load_code_map.
use psprism.Base.{ℕ, List, [], ◌∷◌, ◌==◌, if◌then◌else◌}
use psprism.Base.Sorting.{Sorting}
use psprism.CodeMap.Types.{CodeMap, empty_map, Result, err, ◌>>=◌, cannot_open}
use psprism.CodeMap.Types.{failed_reading}
use psprism.CodeMap.Lines.{parse_lines}
use psprism.CodeMap.Normalise.{normalise}

-- What the file gives: nothing, all its bytes, or the lines that std::getline delivers before an
-- error.
pub data Contents : Type 0 where
  missing : Contents
  whole : List ℕ → Contents
  broken : List (List ℕ) → Contents

-- std::getline to the end of the file, after the bytes of a line that is begun.
unfoldable pub lines_of : List ℕ → List (List ℕ)
lines_of [] = []
lines_of (c ∷ rest) =
    let lines = lines_of rest in
    if c == 10
    then [] ∷ lines
    else elim lines [ [] ↦ (c ∷ []) ∷ [] | line ∷ more ↦ (c ∷ line) ∷ more ]

unfoldable pub load_code_map : Sorting → Contents → Result CodeMap
load_code_map sorting missing = err cannot_open
load_code_map sorting (whole bytes) = parse_lines 0 empty_map (lines_of bytes) >>= normalise sorting
load_code_map sorting (broken lines) = parse_lines 0 empty_map lines >>= λ map. err failed_reading
