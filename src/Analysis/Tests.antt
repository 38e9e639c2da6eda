-- ===== src/Analysis/Tests.antt =====
-- A section of four words, and the theorems of the analysis at it.
use psprism.Base.Outcomes.{done, endless}
use psprism.Base.{ℕ, ◌*◌, ◌≡◌, ◌≢◌, refl, arith, List, [], ◌∷◌, none, some, true, false, All}
use psprism.Base.Sets.{has, IsAscending}
use psprism.Elf.Types.{ElfImage, ExecutableSection, ok}
use psprism.Elf.Image.{memory_image}
use psprism.Decoder.Vfpu.{vfpu_opcode_supported}
use psprism.Base.Text.{codes}
use psprism.Decoder.Decode.{
  decode_special, special_name, special_flags, decode_primary, plain_name, decode_allegrex,
}
use psprism.Cpu.State.{State, running, put}
use psprism.Cpu.Execute.Control.{exec_jump}
use psprism.Cpu.Sample.{unit, no_vector}
use psprism.Cpu.Execute.Interpret.{interpret_word, execute, retire}
use psprism.Analysis.Types.{DiscoveredFunction}
use psprism.Analysis.Text.{starts_delayed_branch}
use psprism.Analysis.Control.{is_executable_word, direct_control_target, jump_relocation_bases}
use psprism.Analysis.Entries.{potential_block_entries, boundaries_from}
use psprism.Analysis.Reached.{roots, successors}
use psprism.Analysis.Complete.{
  potential_block_entries-is_executable_word, potential_block_entries-roots,
  potential_block_entries-successors,
}
use psprism.Analysis.Ends.{potential_block_entries-returns, boundaries_from-endless}
use psprism.Analysis.Agreement.{direct_control_target-interpret_word}
use psprism.Analysis.Functions.{discover_functions, is_start}
use psprism.Analysis.Returns.{discover_functions-returns}
use psprism.Analysis.Discovered.{discover_functions-is_start, discover_functions-filename}

-- jal 8; nop; addiu $29, $29, -16; nop
abbrev code : List ℕ
code = 2 ∷ 0 ∷ 0 ∷ 0x0c ∷ 0 ∷ 0 ∷ 0 ∷ 0 ∷ 0xf0 ∷ 0xff ∷ 0xbd ∷ 0x27 ∷ 0 ∷ 0 ∷ 0 ∷ 0 ∷ []

abbrev text : ExecutableSection
text = record { name = []; address = 0; bytes = code }

abbrev program : ElfImage
program = record {
  entry = 0;
  preferred_base = 0;
  gp_pointer_offset = 0;
  gp_value_offset = 0;
  executable_sections = text ∷ [];
  load_segments =
      record { program_index = 0; address = 0; memory_size = 16; flags = 5; bytes = code } ∷ [];
  relocations = [];
  imports = [];
}

entries_found : potential_block_entries program none 0 0x1000 ≡ done (0 ∷ 8 ∷ [])
unfolding potential_block_entries vfpu_opcode_supported decode_special special_name special_flags
    decode_primary plain_name
entries_found = refl

jump_branches : starts_delayed_branch 0x0c000002 ≡ true
unfolding starts_delayed_branch vfpu_opcode_supported decode_primary plain_name
jump_branches = refl

after_slot : has 8 (successors program (jump_relocation_bases program) 0 0x0c000002) ≡ true
unfolding has
after_slot = refl

entry_first : has 0 (roots program none 0) ≡ true
unfolding has
entry_first = refl

entry_has : has 8 (0 ∷ 8 ∷ []) ≡ true
unfolding has
entry_has = refl

potential_block_entries-is_executable_word_example :
    (is_executable_word program 8 ≡ true) × IsAscending (0 ∷ 8 ∷ [])
potential_block_entries-is_executable_word_example =
    potential_block_entries-is_executable_word program none 0 0x1000 entries_found 8 entry_has

potential_block_entries-roots_example : has 0 (0 ∷ 8 ∷ []) ≡ is_executable_word program 0
potential_block_entries-roots_example =
    potential_block_entries-roots program none 0 0x1000 entries_found 0 entry_first

potential_block_entries-successors_example : has 8 (0 ∷ 8 ∷ []) ≡ is_executable_word program 8
potential_block_entries-successors_example =
    potential_block_entries-successors program none 0 0x1000 entries_found 0 0 text 0x0c000002 8
      refl (omega arith) refl jump_branches after_slot

image_copied : memory_image program.load_segments ≡ ok code
unfolding memory_image
image_copied = refl

potential_block_entries-returns_example :
    (entries : List ℕ) × (potential_block_entries program none 0 0x1000 ≡ done entries)
potential_block_entries-returns_example =
    potential_block_entries-returns program none 0 0x1000 (omega arith) ((omega arith, refl), tt)
      image_copied

-- A section that reaches into the last shard of 4096 bytes.
boundaries_from-endless_example :
    boundaries_from program 9 0x1000 0xfffff008 (0xfffff * 0x1000) [] ≡ endless
boundaries_from-endless_example =
    boundaries_from-endless program 0xfffff 0x1000 0xfffff008 refl (omega arith) 9 0xfffff []
      (omega arith)

abbrev named : ℕ → List ℕ → DiscoveredFunction
named start filename = record { start = start; symbol = []; filename = filename }

abbrev functions : List DiscoveredFunction
functions = named 0 (codes "func_00000000.cpp") ∷ named 8 (codes "func_00000008.cpp") ∷ []

functions_found : discover_functions program none ≡ done functions
unfolding discover_functions vfpu_opcode_supported decode_special special_name special_flags
    decode_primary plain_name
functions_found = refl

discover_functions-is_start_example :
    IsAscending (0 ∷ 8 ∷ [])
    × All (λ (f : DiscoveredFunction). is_start program f.start ≡ true) functions
discover_functions-is_start_example = discover_functions-is_start program none functions_found

discover_functions-filename_example : codes "func_00000000.cpp" ≢ codes "func_00000008.cpp"
discover_functions-filename_example =
    discover_functions-filename program none functions_found 0 1 (omega arith, tt) refl refl
      (λ e. omega arith)

abbrev guest : State
guest = record {
  gpr = λ i. 0;
  hi = 0;
  lo = 0;
  fpr = λ i. 0;
  fcr31 = 0;
  vfpu = λ i. 0;
  vfpu_ctrl = λ i. 0;
  pc = 0;
  memory = none;
  memory_base = 0;
  scratchpad = none;
  video_memory = none;
  volatile_memory = none;
  branch_pending = false;
  branch_target = 0;
  stop_reason = running;
  fault_address = 0;
  fault_instruction = 0;
  fault_pc = 0;
}

-- jal 8
abbrev after_jump : State
after_jump = record guest {
  gpr = put (put guest.gpr 31 8) 0 0;
  branch_pending = true;
  branch_target = 8;
  pc = 4;
}

jump_scalar : vfpu_opcode_supported 0x0c000002 ≡ false
unfolding vfpu_opcode_supported
jump_scalar = refl

jump_target : direct_control_target 0 0x0c000002 (λ at. none) 0 ≡ some 8
unfolding direct_control_target vfpu_opcode_supported decode_primary plain_name
jump_target = refl

jump_run : interpret_word unit no_vector guest 0x0c000002 0 ≡ some after_jump
unfolding interpret_word vfpu_opcode_supported decode_primary execute retire exec_jump
    decode_allegrex
jump_run = refl

direct_control_target-interpret_word_example : after_jump.branch_target ≡ 8
direct_control_target-interpret_word_example =
    direct_control_target-interpret_word unit no_vector guest 0 0x0c000002 8 (omega arith)
      jump_scalar jump_target jump_run refl

discover_functions-returns_example :
    (found : List DiscoveredFunction) × (discover_functions program none ≡ done found)
discover_functions-returns_example =
    discover_functions-returns program image_copied (refl, tt) tt none
