-- ===== src/Decoder/Instruction.antt =====
-- include/psprecomp/allegrex_decoder.hpp: what decoding an instruction word comes to.
use psprism.Base.{ℕ, bit_and, Bool, true, false, not, ◌==◌, shr}
use psprism.Decoder.InstructionFlag
use Prim.Native.String.{String}

pub data InstructionLowering : Type 0 where
  native guarded_native runtime_fallback invalid : InstructionLowering

pub record DecodedInstruction : Type 0 where
  pub word : ℕ
  pub op : ℕ
  pub rs : ℕ
  pub rt : ℕ
  pub rd : ℕ
  pub shift : ℕ
  pub function : ℕ
  pub lowering : InstructionLowering
  pub flags : ℕ
  pub name : String

abbrev pub is_valid : DecodedInstruction → Bool
is_valid d = elim d.lowering [ invalid ↦ false | _ ↦ true ]

abbrev pub has_flag : DecodedInstruction → ℕ → Bool
has_flag d flag = not (bit_and d.flags flag == 0)

-- The fields of a word, before it is classified.
abbrev pub fields : ℕ → DecodedInstruction
fields word = record {
  word = word;
  op = shr word 26;
  rs = bit_and (shr word 21) 31;
  rt = bit_and (shr word 16) 31;
  rd = bit_and (shr word 11) 31;
  shift = bit_and (shr word 6) 31;
  function = bit_and word 63;
  lowering = invalid;
  flags = InstructionFlag.none;
  name = "invalid";
}

-- The lambda `native` of the source.
abbrev pub as_native : DecodedInstruction → String → ℕ → DecodedInstruction
as_native d name flags = record d { lowering = native; name = name; flags = flags }
