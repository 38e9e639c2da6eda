-- ===== src/Analysis/Text.antt =====
-- src/emitter/format.cpp: the text helpers that the analysis and the writers share. The character
-- classes are those of the C locale.
use psprism.Base.{ℕ, ◌+◌, ◌%◌, Bool, ◌&&◌, ◌||◌, ltb, leb, ◌==◌, if◌then◌else◌, List, [], ◌∷◌}
use psprism.Base.{◌++◌, map, shr}
use psprism.Base.Text.{codes}
use psprism.Decoder.Instruction.{has_flag}
use psprism.Decoder.InstructionFlag.{delayed_branch}
use psprism.Decoder.Decode.{decode_allegrex}

-- A digit under std::hex.
unfoldable pub hex_digit : ℕ → ℕ
hex_digit nibble = if ltb nibble 10 then 0x30 + nibble else 0x57 + nibble

-- A 32-bit number under std::hex, filled with zeros to eight digits.
unfoldable pub hex_word : ℕ → List ℕ
unfolding hex_digit
hex_word value =
    map (λ bits. hex_digit (shr value bits % 16)) (28 ∷ 24 ∷ 20 ∷ 16 ∷ 12 ∷ 8 ∷ 4 ∷ 0 ∷ [])

abbrev pub hex : ℕ → List ℕ
hex value = codes "0x" ++ hex_word value ++ codes "U"

abbrev pub hex_address : ℕ → List ℕ
hex_address value = codes "0x" ++ hex_word value

abbrev pub pc_label : ℕ → List ℕ
pc_label value = codes "pc_" ++ hex_word value

abbrev pub function_name : ℕ → List ℕ
function_name value = codes "run_function_" ++ hex_word value

-- The loop of `cpp_string`: a backslash before each backslash and quote, and no line ends.
unfoldable pub cpp_string : List ℕ → List ℕ
cpp_string [] = []
cpp_string (character ∷ value) =
    let rest = cpp_string value in
    let escape = if character == 0x5c || character == 0x22 then 0x5c ∷ [] else [] in
    let kept = if character == 0x0d || character == 0x0a then [] else character ∷ [] in
    escape ++ kept ++ rest

unfoldable pub make_value : List ℕ → List ℕ
make_value [] = []
make_value (character ∷ value) =
    let rest = make_value value in
    if character == 0x24
    then 0x24 ∷ 0x24 ∷ rest
    else if character == 0x27
    then 0x27 ∷ 0x5c ∷ 0x27 ∷ 0x27 ∷ rest
    else (if character == 0x0d || character == 0x0a || character == 0x23 then 0x20 else character)
      ∷ rest

abbrev pub is_digit : ℕ → Bool
is_digit c = leb 0x30 c && leb c 0x39

abbrev pub is_alnum : ℕ → Bool
is_alnum c = is_digit c || (leb 0x41 c && leb c 0x5a) || (leb 0x61 c && leb c 0x7a)

-- The loop of `identifier`.
unfoldable pub identifier_characters : List ℕ → List ℕ
identifier_characters [] = []
identifier_characters (character ∷ value) =
    (if is_alnum character || character == 0x5f then character else 0x5f)
    ∷ identifier_characters value

-- What follows the loop.
unfoldable pub with_letter_first : List ℕ → List ℕ
with_letter_first [] = codes "import_"
with_letter_first (c ∷ cs) = if is_digit c then codes "import_" ++ (c ∷ cs) else c ∷ cs

unfoldable pub identifier : List ℕ → List ℕ
unfolding identifier_characters with_letter_first
identifier value = with_letter_first (identifier_characters value)

unfoldable pub starts_delayed_branch : ℕ → Bool
unfolding decode_allegrex
starts_delayed_branch instruction = has_flag (decode_allegrex instruction) delayed_branch

abbrev pub needs_post_delay_entry : ℕ → Bool
needs_post_delay_entry = starts_delayed_branch
