-- ===== src/Analysis/Pointers.antt =====
-- potential_block_entries from the memory image on: every step only adds executable words to the set.
use psprism.Base.{ℕ, ◌+◌}
use psprism.Base.{◌||◌, ◌==◌}
use psprism.Base.{inl, inr, List, [], ◌∷◌, u32, List-cases}
use psprism.Base.Sets.{Grows-trans, Grows-if, Grows-elim}
use psprism.Relocation.Encode.{Relocation}
use psprism.Relocation.Records.{word_of}
use psprism.Elf.Types.{ElfImage, LoadSegment}
use psprism.Elf.Bytes.{is_truncated}
use psprism.Analysis.Control.{is_executable_word, find_load_segment}
use psprism.Analysis.Entries.{add}
use psprism.Analysis.Entries.{
  raw_words, raw_target, add_raw, low_for, add_pair_at, pair_value, word_at, add_pair, pairs_from,
  add_pointer, pointers_from,
}
use psprism.Analysis.Growth.{GrowsTo, same, add-GrowsTo}

module _ (image : ElfImage) where
  raw_words-GrowsTo : (memory s : List ℕ) → GrowsTo image s (raw_words image memory s)
  unfolding raw_words
  raw_words-GrowsTo (a ∷ b ∷ c ∷ d ∷ memory) s =
      Grows-trans _ (add-GrowsTo image (raw_target image (word_of a b c d)) s)
        (raw_words-GrowsTo memory (add image (raw_target image (word_of a b c d)) s))
  raw_words-GrowsTo [] s = same image s
  raw_words-GrowsTo (a ∷ []) s = same image s
  raw_words-GrowsTo (a ∷ b ∷ []) s = same image s
  raw_words-GrowsTo (a ∷ b ∷ c ∷ []) s = same image s

  add_raw-GrowsTo : (memory s : List ℕ) → GrowsTo image s (add_raw image memory s)
  unfolding add_raw
  add_raw-GrowsTo memory s = elim (List-cases image.relocations) [
    | inl e ↦ rw e (raw_words-GrowsTo memory s)
    | inr (r, rs, e) ↦ rw e (same image s)
  ]

  module _ (memory : List ℕ) where
    add_pair_at-GrowsTo :
        (high_patch : LoadSegment) (high : Relocation) (low_patch : LoadSegment) (low : Relocation)
        (target : LoadSegment) (s : List ℕ)
        → GrowsTo image s (add_pair_at image memory high_patch high low_patch low target s)
    unfolding add_pair_at
    add_pair_at-GrowsTo high_patch high low_patch low target s =
        let high_address = u32 (high_patch.address + high.offset) in
        let low_address = u32 (low_patch.address + low.offset) in
        Grows-if _ (is_truncated memory high_address 4 || is_truncated memory low_address 4)
          (same image s)
          (add-GrowsTo image
            (u32 (
              pair_value (word_at memory high_address) (word_at memory low_address)
              + target.address))
            s)

    add_pair-GrowsTo :
        (high : Relocation) (later : List Relocation) (s : List ℕ)
        → GrowsTo image s (add_pair image memory high later s)
    unfolding add_pair
    add_pair-GrowsTo high later s =
        Grows-if _ (high.type == 5)
          (Grows-elim _ (low_for high.target_segment later) (same image s) (λ low.
            Grows-elim _ (find_load_segment image high.patch_segment) (same image s) (λ high_patch.
              Grows-elim _ (find_load_segment image low.patch_segment) (same image s) (λ low_patch.
                Grows-elim _ (find_load_segment image high.target_segment) (same image s)
                  (λ target. add_pair_at-GrowsTo high_patch high low_patch low target s)))))
          (same image s)

    pairs_from-GrowsTo :
        (relocations : List Relocation) (s : List ℕ)
        → GrowsTo image s (pairs_from image memory relocations s)
    unfolding pairs_from
    pairs_from-GrowsTo [] s = same image s
    pairs_from-GrowsTo (r ∷ rs) s =
        Grows-trans _ (add_pair-GrowsTo r rs s)
          (pairs_from-GrowsTo rs (add_pair image memory r rs s))

    add_pointer-GrowsTo :
        (r : Relocation) (s : List ℕ) → GrowsTo image s (add_pointer image memory r s)
    unfolding add_pointer
    add_pointer-GrowsTo r s =
        Grows-if _ (r.type == 2)
          (Grows-elim _ (find_load_segment image r.patch_segment) (same image s) (λ patch.
            Grows-elim _ (find_load_segment image r.target_segment) (same image s) (λ target.
              let address = u32 (patch.address + r.offset) in
              Grows-if _ (is_executable_word image address || is_truncated memory address 4)
                (same image s)
                (add-GrowsTo image (u32 (word_at memory address + target.address)) s))))
          (same image s)

    pointers_from-GrowsTo :
        (relocations : List Relocation) (s : List ℕ)
        → GrowsTo image s (pointers_from image memory relocations s)
    unfolding pointers_from
    pointers_from-GrowsTo [] s = same image s
    pointers_from-GrowsTo (r ∷ rs) s =
        Grows-trans _ (add_pointer-GrowsTo r s)
          (pointers_from-GrowsTo rs (add_pointer image memory r s))

  -- The steps from the words of the sections on.
  pub finish-GrowsTo :
      (memory s : List ℕ)
      → GrowsTo image s (
          pointers_from image memory image.relocations
            (pairs_from image memory image.relocations (add_raw image memory s)))
  finish-GrowsTo memory s = Grows-trans _ (add_raw-GrowsTo memory s) (
      Grows-trans _ (pairs_from-GrowsTo memory image.relocations (add_raw image memory s)) (
        pointers_from-GrowsTo memory image.relocations
          (pairs_from image memory image.relocations (add_raw image memory s))))
