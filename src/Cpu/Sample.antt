-- ===== src/Cpu/Sample.antt =====
-- A float unit and a vector unit to instantiate the interpreter's parameters with.
use psprism.Base.{ℕ, true, false, some}
use psprism.Cpu.State.{State}
use psprism.Cpu.Execute.Float.{FloatUnit}

abbrev pub unit : FloatUnit
unit = record {
  add = λ a b. a;
  subtract = λ a b. a;
  multiply = λ a b. a;
  divide = λ a b. a;
  sqrt = λ a. a;
  fabs = λ a. a;
  negate = λ a. a;
  round = λ a. a;
  trunc = λ a. a;
  rounded = λ mode a. some a;
  of_s32 = λ a. a;
  is_nan = λ a. false;
  less = λ a b. false;
  equal = λ a b. true;
}

abbrev pub no_vector : State → ℕ → ℕ → State
no_vector s word pc = s
