-- ===== src/Kernel/EventFlag/Matched.antt =====
-- When the bits of an event flag satisfy a wait.
use psprism.Base.{
  ℕ, zero, suc, ◌-◌, ◌/◌, ◌^◌, ◌<◌, ◌≡◌, ◌≢◌, ◌⊎◌, arith, bit_and, bit_or, true, false,
}
use psprism.Base.{◌==◌, Bool-cases, inl, inr}
use psprism.Base.Bits.{bit_and_step, bit_or_step, bit_and-zero, zero-bit_and}
use psprism.Kernel.EventFlag.Operations.{is_matched, consume}
use native.Mathlib.Nat.{pow-suc, one-le-pow}

-- Bits that a mask leaves out.
bit_and-masked : (k a p : ℕ) → p < 2 ^ k → bit_and (bit_and a (2 ^ k - 1 - p)) p ≡ 0
bit_and-masked zero a p h = let none : p ≡ 0 = omega arith in rw none (bit_and-zero (bit_and a 0))
bit_and-masked (suc k) a p h = ground (
  arith,
  pow-suc 2 k,
  one-le-pow k 2,
  bit_and_step (bit_and a (2 ^ suc k - 1 - p)) p,
  bit_and_step a (2 ^ suc k - 1 - p),
  bit_and-masked k (a / 2) (p / 2),
)

-- Bits that are set.
bit_and-set : (k a p : ℕ) → p < 2 ^ k → bit_and (bit_or a p) p ≡ p
bit_and-set zero a p h = let none : p ≡ 0 = omega arith in rw none (bit_and-zero (bit_or a 0))
bit_and-set (suc k) a p h = ground (
  arith,
  pow-suc 2 k,
  bit_and_step (bit_or a p) p,
  bit_or_step a p,
  bit_and-set k (a / 2) (p / 2),
)

-- Setting a pattern of 32 bits that is not empty satisfies each wait for it, whichever its mode.
pub is_matched-set :
    (bits pattern mode : ℕ)
    → 0 < pattern
    → pattern < 2 ^ 32
    → is_matched (bit_or bits pattern) pattern mode ≡ true
unfolding is_matched
is_matched-set bits pattern mode p q = ground (arith, bit_and-set 32 bits pattern)

unmatched :
    (bits pattern mode : ℕ)
    → 0 < pattern
    → bit_and bits pattern ≡ 0
    → is_matched bits pattern mode ≡ false
unfolding is_matched
unmatched bits pattern mode p h = ground (arith, h)

-- A wait for a pattern of 32 bits that is not empty, and that clears all bits or those of its
-- pattern, is not satisfied by what it leaves.
pub is_matched-consume :
    (bits pattern mode : ℕ)
    → 0 < pattern
    → pattern < 2 ^ 32
    → (bit_and mode 0x20 ≢ 0) ⊎ (bit_and mode 0x10 ≢ 0)
    → is_matched (consume bits pattern mode) pattern mode ≡ false
unfolding consume
is_matched-consume bits pattern mode p q r = elim (Bool-cases (bit_and mode 0x20 == 0)) [
  | inr e ↦ rw (e, consume) (unmatched 0 pattern mode p (zero-bit_and pattern))
  | inl e ↦
      let clears : (bit_and mode 0x10 == 0) ≡ false = ground (arith, e, r) in
      rw (e, consume, clears)
        (unmatched (bit_and bits (0xffffffff - pattern)) pattern mode p
          (bit_and-masked 32 bits pattern q))
]
