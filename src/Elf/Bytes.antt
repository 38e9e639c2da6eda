-- ===== src/Elf/Bytes.antt =====
-- loader.cpp: `u16`, `u32` and `string_at`. A read that the bounds test admits has its byte; `byte_at`
-- is 0 elsewhere, where no caller reads.
use psprism.Base.{
  ℕ, ◌+◌, ◌-◌, bit_or, Bool, ◌||◌, ltb, leb, ◌==◌, if◌then◌else◌, List, [], ◌∷◌, none, some,
}
use psprism.Base.{length, get_elem?, take, drop, shl}
use psprism.Relocation.Records.{word_of}
use psprism.Elf.Types.{
  truncated_field, invalid_name_offset, unterminated_name, Result, ok, err, ◌>>=◌,
}

abbrev pub byte_at : List ℕ → ℕ → ℕ
byte_at file offset = elim (get_elem? file offset) [ none ↦ 0 | some byte ↦ byte ]

abbrev pub is_truncated : List ℕ → ℕ → ℕ → Bool
is_truncated file offset width = ltb (length file) offset || ltb (length file - offset) width

unfoldable pub u16_at : List ℕ → ℕ → Result ℕ
u16_at file offset =
    if is_truncated file offset 2
    then err truncated_field
    else ok (bit_or (byte_at file offset) (shl (byte_at file (offset + 1)) 8))

unfoldable pub u32_at : List ℕ → ℕ → Result ℕ
u32_at file offset =
    if is_truncated file offset 4
    then err truncated_field
    else ok (
        word_of (byte_at file offset) (byte_at file (offset + 1)) (byte_at file (offset + 2))
          (byte_at file (offset + 3)))

-- The bytes before the first 0.
unfoldable pub terminated : List ℕ → Result (List ℕ)
terminated [] = err unterminated_name
terminated (byte ∷ bytes) =
    let rest : Result (List ℕ) = (do name ← terminated bytes; ok (byte ∷ name)) in
    if byte == 0 then ok [] else rest

unfoldable pub string_at : List ℕ → ℕ → Result (List ℕ)
unfolding terminated
string_at table offset =
    if leb (length table) offset then err invalid_name_offset else terminated (drop offset table)

-- A vector of the bytes in a part of the file.
abbrev pub slice : List ℕ → ℕ → ℕ → List ℕ
slice file offset size = take size (drop offset file)
