-- ===== src/Cpu/Laws/Flow.antt =====
-- One instruction: what the decoder accepts is executed, and its flags tell where control goes.
use psprism.Base.{ℕ, ◌≡◌, ◌≢◌, arith}
use psprism.Base.{true, false, some, Option-cases, Bool-cases, inl, inr, ◌==◌}
use psprism.Base.{◌&&◌, ◌||◌, leb}
use psprism.Decoder.Instruction.{DecodedInstruction, is_valid}
use psprism.Decoder.Decode.{decode_cop1, plain_name, decode_primary, is_special3}
use Prim.Native.String.{String}
use psprism.Cpu.Execute.Interpret.{is_branch, is_vfpu}

-- Decoding keeps the fields.
pub decode_primary-op : (d : DecodedInstruction) → (decode_primary d).op ≡ d.op
unfolding decode_primary decode_cop1
decode_primary-op d = ground arith

plain_name-is_vfpu : (op : ℕ) {name : String} → plain_name op ≡ some name → is_vfpu op ≡ false
unfolding plain_name
plain_name-is_vfpu op h = ground arith

module _ (d : DecodedInstruction) (fresh : is_valid d ≡ false)
    (valid : is_valid (decode_primary d) ≡ true) where
  pub primary_flags :
      (d.op == 0x02 || d.op == 0x03 || is_branch d.op) ≡ true → (decode_primary d).flags ≢ 0
  unfolding decode_primary
  primary_flags h = ground arith

  pub primary_low : leb 2 d.op ≡ true
  unfolding decode_primary plain_name
  primary_low = ground arith

  pub primary_cop1 : d.op ≡ 0x11 → decode_primary d ≡ decode_cop1 d
  unfolding decode_primary
  primary_cop1 h = ground arith

  pub primary_special2 :
      d.op ≡ 0x1c
      → ((decode_primary d).function == 0x20
          || (decode_primary d).function == 0x21
          || (decode_primary d).function == 0x2c
          || (decode_primary d).function == 0x2d)
        ≡ true
  unfolding decode_primary
  primary_special2 h = ground arith

  pub primary_special3 : d.op ≡ 0x1f → is_special3 (decode_primary d) ≡ true
  unfolding decode_primary
  primary_special3 h = ground arith

  pub primary_transfer : leb d.op 0x1f ≡ false → (name : String) × (plain_name d.op ≡ some name)
  unfolding decode_primary
  primary_transfer h = elim (Option-cases (plain_name d.op)) [
    | inl e ↦ absurd (ground (arith, e))
    | inr e ↦ e
  ]

  pub primary_high : leb d.op 0x1f ≡ true → (leb d.op 0x17 || d.op == 0x1c || d.op == 0x1f) ≡ true
  unfolding decode_primary plain_name
  primary_high h = ground arith

  pub primary_middle :
      leb d.op 0x17 ≡ true
      → (d.op == 0x02
          || d.op == 0x03
          || is_branch d.op
          || (leb 0x08 d.op && leb d.op 0x0f)
          || d.op == 0x11)
        ≡ true
  unfolding decode_primary plain_name
  primary_middle h = ground arith

  pub primary_vfpu : is_vfpu d.op ≡ false
  primary_vfpu = elim (Bool-cases (leb d.op 0x1f)) [
    | inl e ↦ ground (arith, primary_high e, primary_middle)
    | inr e ↦ plain_name-is_vfpu d.op (primary_transfer e).1
  ]
