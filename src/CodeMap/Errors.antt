-- ===== src/CodeMap/Errors.antt =====
-- The errors of a code map name the first line that is wrong; addresses are 32-bit words.
use psprism.Base.{ℕ, ◌+◌, ◌*◌, ◌^◌, ◌≡◌, refl, sym, ap, ◌∙◌, arith}
use psprism.Base.{List, [], ◌∷◌, ◌++◌, Option, none, some, Bool-cases, inl, inr, ltb, length}
use psprism.Base.{Option-cases, IsU32}
use psprism.CodeMap.Types.{CodeMap, MapError, ok, err, Result-cases, invalid_address}
use psprism.CodeMap.Types.{unsupported_version, invalid_line, invalid_function_range}
use psprism.CodeMap.Types.{invalid_excluded_range, cannot_open, failed_reading, overlapping_ranges}
use psprism.CodeMap.Tokens.{next_token, skip_space, digit, from_chars, parse_u32}
use psprism.CodeMap.Lines.{
  parse_address, add_entry, add_version, add_function, add_range, add_block,
}
use psprism.CodeMap.Lines.{
  add_register, add_overlay, add_exclusion, add_line, parse_line, parse_lines,
}

-- The line number in a message.
abbrev pub line_of : MapError → Option ℕ
line_of cannot_open = none
line_of failed_reading = none
line_of overlapping_ranges = none
line_of (invalid_address n) = some n
line_of (unsupported_version n) = some n
line_of (invalid_line n) = some n
line_of (invalid_function_range n) = some n
line_of (invalid_excluded_range n) = some n

module _ (n : ℕ) (map : CodeMap) {e : MapError} where
  add_line-line_of :
      (kind first rest : List ℕ) → add_line n map kind first rest ≡ err e → line_of e ≡ some n
  unfolding add_line add_entry add_version add_function add_range add_block add_register add_overlay
      add_exclusion parse_address
  add_line-line_of kind first rest h = ground arith

  parse_line-line_of : (line : List ℕ) → parse_line n map line ≡ err e → line_of e ≡ some n
  unfolding parse_line
  parse_line-line_of line h =
      let (kind, rest) = next_token (skip_space line) in
      ground (arith, add_line-line_of kind (next_token rest).0 (next_token rest).1)

-- Where reading the lines stops: the lines before it are read, the next one is refused.
pub record StopsAt (read : ℕ) (map : CodeMap) (lines : List (List ℕ)) (e : MapError) : Type 0 where
  pub before : List (List ℕ)
  pub line : List ℕ
  pub after : List (List ℕ)
  pub reached : CodeMap
  pub splits : lines ≡ before ++ line ∷ after
  pub accepted : parse_lines read map before ≡ ok reached
  pub refused : parse_line (read + length before + 1) reached line ≡ err e
  pub named : line_of e ≡ some (read + length before + 1)

-- Reading the lines fails with the error of the first line that is refused, after the lines before it
-- were accepted, and the number in the message is that line's, counted from one past the lines read.
pub parse_lines-StopsAt :
    (read : ℕ) (map : CodeMap) (lines : List (List ℕ)) {e : MapError}
    → parse_lines read map lines ≡ err e
    → StopsAt read map lines e
unfolding parse_lines
parse_lines-StopsAt read map [] h = absurd (ground arith)
parse_lines-StopsAt read map (line ∷ lines) {e = e} h =
    elim (Result-cases (parse_line (read + 1) map line)) [
      | inl (map', f) ↦
          let later = parse_lines-StopsAt (read + 1) map' lines (rw f at h) in
          let shift : read + 1 + length later.before ≡ read + length (line ∷ later.before) =
            omega arith in
          record {
            before = line ∷ later.before;
            line = later.line;
            after = later.after;
            reached = later.reached;
            splits = ap (λ xs. line ∷ xs) later.splits;
            accepted = rw f later.accepted;
            refused = rw shift at later.refused;
            named = rw shift at later.named;
          }
      | inr (why, f) ↦
          let same : why ≡ e = ground (arith, f, h) in
          let here : read + length {A = List ℕ} [] + 1 ≡ read + 1 = omega arith in
          let refusal : parse_line (read + 1) map line ≡ err e = f ∙ ap err same in
          record {
            before = [];
            line = line;
            after = lines;
            reached = map;
            splits = refl;
            accepted = refl;
            refused = rw here refusal;
            named = rw here (parse_line-line_of (read + 1) map line refusal);
          }
    ]

from_chars-IsU32 :
    (base value : ℕ) (text : List ℕ) {v : ℕ}
    → IsU32 value
    → from_chars base value text ≡ some v
    → IsU32 v
unfolding from_chars
from_chars-IsU32 base value [] small h = ground arith
from_chars-IsU32 base value (c ∷ rest) small h = elim (Option-cases (digit base c)) [
  | inl e ↦ absurd (ground (arith, e, h))
  | inr (d, e) ↦ elim (Bool-cases (ltb (value * base + d) (2 ^ 32))) [
    | inl f ↦
        from_chars-IsU32 base (value * base + d) rest (ground arith)
          (sym (rw (e, from_chars) (rw f refl)) ∙ h)
    | inr f ↦ absurd (ground (arith, e, f, h))
  ]
]

-- Any text that is taken as an address, decimal or hexadecimal and of any length, has a 32-bit value.
pub parse_u32-IsU32 : (text : List ℕ) {v : ℕ} → parse_u32 text ≡ some v → IsU32 v
unfolding parse_u32
parse_u32-IsU32 [] h = absurd (ground arith)
parse_u32-IsU32 (c ∷ []) h = from_chars-IsU32 10 0 (c ∷ []) (omega arith) h
parse_u32-IsU32 (c ∷ x ∷ []) {v = v} h =
    ground (arith, from_chars-IsU32 10 0 (c ∷ x ∷ []) {v = v} (omega arith))
parse_u32-IsU32 (c ∷ x ∷ y ∷ rest) {v = v} h = ground (
  arith,
  from_chars-IsU32 10 0 (c ∷ x ∷ y ∷ rest) {v = v} (omega arith),
  from_chars-IsU32 16 0 (y ∷ rest) {v = v} (omega arith),
)
