-- ===== src/Iso/Types.antt =====
-- src/iso.hpp, and the exceptions of the reader. A path is the bytes of its native form on a POSIX host.
use psprism.Base.{ℕ, Bool, List}
use psprism.Base.Outcomes.{Outcome}

pub record IsoEntry : Type 0 where
  pub path : List ℕ
  pub directory : Bool
  pub extent : ℕ
  pub size : ℕ

-- The exceptions, in the order of the code.
pub data IsoError : Type 0 where
  truncated_metadata invalid_record truncated_name unsafe_name extent_outside cannot_open : IsoError
  not_an_iso invalid_root invalid_directory_record is_directory not_found : IsoError

abbrev pub Run {ℓ} : Type ℓ → Type ℓ
Run = Outcome IsoError
