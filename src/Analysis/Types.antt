-- ===== src/Analysis/Types.antt =====
-- What the analysis comes to, with the exceptions of the memory image, and the struct of
-- src/emitter/internal.hpp.
use psprism.Base.{ℕ, List}
use psprism.Base.Outcomes.{Outcome as Outcomes, done, throws}
use psprism.Elf.Types.{ElfError, Result, ok, err}

abbrev pub Outcome {ℓ} : Type ℓ → Type ℓ
Outcome = Outcomes ElfError

-- An exception goes on to the caller.
abbrev pub from_result {ℓ} : {A : Type ℓ} → Result A → Outcome A
from_result (ok a) = done a
from_result (err e) = throws e

-- internal.hpp
pub record DiscoveredFunction : Type 0 where
  pub start : ℕ
  pub symbol : List ℕ
  pub filename : List ℕ
