-- ===== src/Decoder/Tests.antt =====
-- Decoded words, and the decoder's theorems at such words.
use psprism.Base.{◌≡◌, refl, some}
use psprism.Decoder.Tables.{find_pattern, special_patterns, special_rest}
use psprism.Decoder.Decode.{decode_allegrex}
use psprism.Decoder.Patterns.{valid_name, decode-special_patterns}
use psprism.Decoder.Flags.{IsFlagged, decode_allegrex-IsFlagged}

-- jr $31
jr_example : valid_name (decode_allegrex 0x03e00008) ≡ find_pattern 0x03e00008 special_patterns
jr_example = decode-special_patterns 0x03e00008 refl

jr_runs : find_pattern 0x03e00008 special_patterns ≡ some "jr"
unfolding find_pattern special_patterns special_rest
jr_runs = refl

decode_allegrex-IsFlagged_example : IsFlagged (decode_allegrex 0x50000001)
decode_allegrex-IsFlagged_example = decode_allegrex-IsFlagged 0x50000001
