-- ===== src/Cpu/Tests.antt =====
-- A small guest, and the CPU theorems at it.
use psprism.Base.{ℕ, ◌+◌, ◌^◌, ◌%◌, ◌*◌, ◌≡◌, ◌⊎◌, ◌↔◌, refl, true, false, ◌&&◌, if◌then◌else◌}
use psprism.Base.{some, none, List, [], ◌∷◌, inl, inr, u32, arith, length, get_elem?}
use psprism.Decoder.Instruction.{is_valid}
use psprism.Decoder.Decode.{decode_allegrex, decode_primary, plain_name}
use psprism.Decoder.Vfpu.{vfpu_opcode_supported}
use psprism.Cpu.State.{State, put, running, unsupported_instruction, is_running}
use psprism.Cpu.Memory.{load, store, mapped_address, read_at, read_bytes, note_memory_fault}
use psprism.Cpu.Sample.{unit, no_vector}
use psprism.Cpu.Execute.Interpret.{
  interpret_word, interpret_fetched, interpret_allegrex, execute, retire,
}
use psprism.Cpu.Execute.Special3.{exec_immediate}
use psprism.Cpu.Laws.LoadStore.{load_total, load-store, store_frame}
use psprism.Cpu.Laws.Step.{interpret_word-unsupported, interpret_word-pc, interpret_allegrex-gpr}

-- Eight bytes of memory at 0x08800000, with addiu $2, $0, 5 first.
abbrev guest : State
guest = record {
  gpr = λ i. 0;
  hi = 0;
  lo = 0;
  fpr = λ i. 0;
  fcr31 = 0;
  vfpu = λ i. 0;
  vfpu_ctrl = λ i. 0;
  pc = 0x08800000;
  memory = some (5 ∷ 0 ∷ 2 ∷ 0x24 ∷ 0 ∷ 0 ∷ 0 ∷ 0 ∷ []);
  memory_base = 0x08800000;
  scratchpad = none;
  video_memory = none;
  volatile_memory = none;
  branch_pending = true;
  branch_target = 0x08800100;
  stop_reason = running;
  fault_address = 0;
  fault_instruction = 0;
  fault_pc = 0;
}

load_total_example :
    (value : ℕ) × (s' : State) × (load 4 guest 0x08800000 ≡ some (value, s'))
    × ((s' ≡ guest) ⊎ (s' ≡ note_memory_fault guest 0x08800000))
load_total_example = load_total guest 0x08800000 4 (omega arith, omega arith) (inr (inr refl))

load-store_example :
    (s' : State) × (store 4 guest 0x08800004 0x12345678 ≡ some s')
    × (load 4 s' 0x08800004 ≡ some (0x12345678 % 2 ^ (8 * 4), s'))
unfolding mapped_address
load-store_example =
    load-store guest 0x08800004 4 (omega arith, omega arith) (inr (inr refl)) 0x12345678 refl refl

abbrev stepped : State
stepped = record guest {
  gpr = put (put guest.gpr 2 5) 0 0;
  branch_pending = false;
  pc = 0x08800100;
}

guest_steps : interpret_word unit no_vector guest 0x24020005 0x08800000 ≡ some stepped
unfolding interpret_word execute retire exec_immediate decode_allegrex decode_primary plain_name
    vfpu_opcode_supported
guest_steps = refl

interpret_word-unsupported_example :
    (stepped.stop_reason ≡ unsupported_instruction)
    ↔ (is_valid (decode_allegrex 0x24020005) ≡ false)
unfolding vfpu_opcode_supported
interpret_word-unsupported_example =
    interpret_word-unsupported unit no_vector guest 0x24020005 0x08800000 (λ e. cc) refl guest_steps

interpret_word-pc_example :
    (stepped.branch_pending ≡ false)
    × (stepped.pc ≡ (
        if is_running stepped && guest.branch_pending
        then guest.branch_target
        else u32 (0x08800000 + 4)))
unfolding decode_allegrex decode_primary plain_name vfpu_opcode_supported
interpret_word-pc_example =
    interpret_word-pc unit no_vector guest 0x24020005 0x08800000 (λ e. cc) refl guest_steps refl
      refl

guest_runs : interpret_allegrex unit no_vector guest 0x08800000 ≡ some (true, stepped)
unfolding interpret_allegrex interpret_fetched interpret_word execute retire exec_immediate
    decode_allegrex decode_primary plain_name vfpu_opcode_supported load read_at read_bytes
guest_runs = refl

interpret_allegrex-gpr_example : stepped.gpr 0 ≡ 0
interpret_allegrex-gpr_example =
    interpret_allegrex-gpr unit no_vector 0x08800000 guest refl guest_runs

store_frame_example :
    (bytes bytes' : List ℕ) × (guest.memory ≡ some bytes)
    × (store 4 guest 0x08800004 0x12345678 ≡ some (record guest { memory = some bytes' }))
    × (length bytes' ≡ length bytes)
    × (get_elem? bytes' 2 ≡ get_elem? bytes 2)
unfolding mapped_address
store_frame_example =
    store_frame guest 0x08800004 4 (omega arith, omega arith) (inr (inr refl)) 0x12345678 2 refl
      refl (inl (omega arith))
