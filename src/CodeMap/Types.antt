-- ===== src/CodeMap/Types.antt =====
-- src/elf.hpp, the structs of the code map, and the errors that loading one throws. A text is its
-- bytes.
use psprism.Base.{ℕ, List, [], ◌≡◌, ◌⊎◌, inl, inr, refl}

pub record AddressRange : Type 0 where
  pub begin : ℕ
  pub end : ℕ

pub record FunctionSymbol : Type 0 where
  pub address : ℕ
  pub name : List ℕ

pub record FunctionRange : Type 0 where
  pub begin : ℕ
  pub end : ℕ
  pub name : List ℕ

pub record RegisterMetadata : Type 0 where
  pub address : ℕ
  pub value : ℕ

pub record CodeMap : Type 0 where
  pub version : ℕ
  pub entry : ℕ
  pub function_starts : List ℕ
  pub function_ranges : List FunctionRange
  pub function_symbols : List FunctionSymbol
  pub block_entries : List ℕ
  pub gp_values : List RegisterMetadata
  pub t9_values : List RegisterMetadata
  pub overlay_starts : List ℕ
  pub excluded_ranges : List AddressRange

-- A default-constructed map.
abbrev pub empty_map : CodeMap
empty_map = record {
  version = 1;
  entry = 0;
  function_starts = [];
  function_ranges = [];
  function_symbols = [];
  block_entries = [];
  gp_values = [];
  t9_values = [];
  overlay_starts = [];
  excluded_ranges = [];
}

-- The exceptions, with the line number where the message has one.
pub data MapError : Type 0 where
  cannot_open failed_reading overlapping_ranges : MapError
  invalid_address unsupported_version invalid_line invalid_function_range : ℕ → MapError
  invalid_excluded_range : ℕ → MapError

pub data Result {ℓ} (A : Type ℓ) : Type ℓ where
  ok : A → Result A
  err : MapError → Result A

infixl 5 ◌>>=◌
abbrev pub ◌>>=◌ {ℓ κ} : {A : Type ℓ} {B : Type κ} → Result A → (A → Result B) → Result B
ok a >>= f = f a
err e >>= f = err e

pub Result-cases {ℓ} :
    {A : Type ℓ} (r : Result A) → ((a : A) × (r ≡ ok a)) ⊎ ((e : MapError) × (r ≡ err e))
Result-cases (ok a) = inl (a, refl)
Result-cases (err e) = inr (e, refl)
