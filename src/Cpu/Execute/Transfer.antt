-- ===== src/Cpu/Execute/Transfer.antt =====
-- interpreter.hpp: the loads and stores. `none` is an access that C++ leaves undefined.
use psprism.Base.{ℕ, Option, none, some, ◌==◌, if◌then◌else◌}
use psprism.Base.{sign_extend16}
use psprism.Decoder.Instruction.{DecodedInstruction}
use psprism.Cpu.State.{State, set_gpr, set_fpr}
use psprism.Cpu.Bitwise.{sign_extend8}
use psprism.Cpu.Memory.{load8, load16, load32, store8, store16, store32, load_word_left}
use psprism.Cpu.Memory.{load_word_right, store_word_left, store_word_right}
use psprism.Cpu.Execute.Control.{fail}

infixl 5 ◌>>=◌
abbrev pub ◌>>=◌ {ℓ κ} : {A : Type ℓ} {B : Type κ} → Option A → (A → Option B) → Option B
none >>= f = none
some a >>= f = f a

-- A load into the register `rt`, through a conversion of the value.
abbrev pub into_rt : DecodedInstruction → (ℕ → ℕ) → Option (ℕ × State) → Option State
into_rt d convert m = do (value, s) ← m; some (set_gpr s d.rt (convert value))

-- The opcodes from 0x20 on, but for the vector ones.
unfoldable pub exec_transfer : State → DecodedInstruction → ℕ → ℕ → Option State
exec_transfer s d address current_pc =
    let rt = s.gpr d.rt in
    if d.op == 0x20
    then into_rt d sign_extend8 (load8 s address)
    else if d.op == 0x21
    then into_rt d sign_extend16 (load16 s address)
    else if d.op == 0x22
    then into_rt d (λ v. v) (load_word_left s address rt)
    else if d.op == 0x23
    then into_rt d (λ v. v) (load32 s address)
    else if d.op == 0x24
    then into_rt d (λ v. v) (load8 s address)
    else if d.op == 0x25
    then into_rt d (λ v. v) (load16 s address)
    else if d.op == 0x26
    then into_rt d (λ v. v) (load_word_right s address rt)
    else if d.op == 0x28
    then store8 s address rt
    else if d.op == 0x29
    then store16 s address rt
    else if d.op == 0x2a
    then store_word_left s address rt
    else if d.op == 0x2b
    then store32 s address rt
    else if d.op == 0x2e
    then store_word_right s address rt
    else if d.op == 0x2f
    then some s
    else if d.op == 0x33
    then some s
    else if d.op == 0x30
    then into_rt d (λ v. v) (load32 s address)
    else if d.op == 0x31
    then (do (value, s') ← load32 s address; some (set_fpr s' d.rt value))
    else if d.op == 0x38
    then (do s' ← store32 s address rt; some (set_gpr s' d.rt 1))
    else if d.op == 0x39
    then store32 s address (s.fpr d.rt)
    else some (fail s d current_pc)
