-- ===== src/CodeMap/Tokens.antt =====
-- src/elf/code_map.cpp: `next_token`, `parse_u32`, and std::from_chars for a u32.
use psprism.Base.{ℕ, ◌+◌, ◌-◌, ◌*◌, ◌^◌, Bool, ◌&&◌, ◌||◌, ltb, leb}
use psprism.Base.{◌==◌, if◌then◌else◌, List, [], ◌∷◌, Option, none, some}

abbrev pub is_space : ℕ → Bool
is_space c = c == b' ' || c == 9 || c == 13 || c == 10

-- The first `while` of `next_token`, which load_code_map has again.
unfoldable pub skip_space : List ℕ → List ℕ
skip_space [] = []
skip_space (c ∷ rest) = if is_space c then skip_space rest else c ∷ rest

-- The bytes up to a space, and what is left.
unfoldable pub split_token : List ℕ → List ℕ × List ℕ
split_token [] = ([], [])
split_token (c ∷ rest) =
    let (token, left) = split_token rest in if is_space c then ([], c ∷ rest) else (c ∷ token, left)

-- The token and the new `rest`.
unfoldable pub next_token : List ℕ → List ℕ × List ℕ
unfolding skip_space split_token
next_token rest = split_token (skip_space rest)

-- The value of a digit in a base of at most 16.
unfoldable pub digit : ℕ → ℕ → Option ℕ
digit base c =
    let value =
      if leb b'0' c && leb c b'9'
      then c - b'0'
      else if leb b'a' c && leb c b'f'
      then c - b'a' + 10
      else if leb b'A' c && leb c b'F'
      then c - b'A' + 10
      else 16 in
    if ltb value base then some value else none

-- std::from_chars from a value on, to the end of the text: `none` if a byte is no digit, or the
-- value does not fit.
unfoldable pub from_chars : ℕ → ℕ → List ℕ → Option ℕ
unfolding digit
from_chars base value [] = some value
from_chars base value (c ∷ rest) = elim (digit base c) [
  | none ↦ none
  | some d ↦
      if ltb (value * base + d) (2 ^ 32) then from_chars base (value * base + d) rest else none
]

-- from_chars takes no empty text.
abbrev from_chars_all : ℕ → List ℕ → Option ℕ
from_chars_all base [] = none
from_chars_all base (c ∷ rest) = from_chars base 0 (c ∷ rest)

-- `none` is a `false` result.
unfoldable pub parse_u32 : List ℕ → Option ℕ
unfolding from_chars
parse_u32 [] = none
parse_u32 (c ∷ []) = from_chars_all 10 (c ∷ [])
parse_u32 (c ∷ x ∷ rest) =
    if c == b'0' && (x == b'x' || x == b'X')
    then from_chars_all 16 rest
    else from_chars_all 10 (c ∷ x ∷ rest)
