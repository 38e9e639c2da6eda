-- ===== src/Relocation/Refinement.antt =====
-- The loader that reads the compact stream does what the loader that reads the records does.
use psprism.Base.{ℕ, ◌+◌, ◌≡◌, refl, arith, true}
use psprism.Base.{List, [], ◌∷◌, map, Option, none, some, length, All, inl, inr}
use psprism.Relocation.Records.{PspLoadSegment, array, Step, Step-cases}
use psprism.Relocation.Apply.{find_low}
use psprism.Relocation.Apply.{relocate_one, apply_loop, apply_psp_relocations}
use psprism.Relocation.Compact.{Decoder, decoder, next, note_decoded, consumed, find_low_ahead}
use psprism.Relocation.Compact.{yielded, compact_loop, apply_compact_psp_relocations}
use psprism.Relocation.Encode.{Relocation, Emitter, emitter, emitted, compact_from}
use psprism.Relocation.Encode.{compact_relocations}
use psprism.Relocation.RoundTrip.Short.{IsRelocation, psp_record, after_read}
use psprism.Relocation.RoundTrip.Long.{InSync}
use psprism.Relocation.RoundTrip.Stream.{HasOffsets, next-emit, emitted-HasOffsets}
use psprism.Relocation.RoundTrip.Stream.{after_read-InSync, start-InSync}

module _ (segments : List PspLoadSegment) (guest_base : ℕ) where
  -- The search with a copy of the decoder finds what the search among the records finds.
  find_low_ahead-find_low :
      (target : ℕ) (memory : List ℕ) (e : Emitter) (d : Decoder) (rs : List Relocation)
      → All IsRelocation rs
      → HasOffsets e
      → InSync e d
      → d.rest ≡ compact_from e rs
      → find_low_ahead segments target (length rs) d memory
        ≡ find_low segments target (map psp_record rs) memory
  unfolding find_low_ahead find_low compact_from
  find_low_ahead-find_low target memory e d [] v o s h = refl
  find_low_ahead-find_low target memory e d (r ∷ rs) (v, vs) o s h =
      let rest = compact_from (emitted e r) rs in
      ground (
        arith,
        next-emit e d r rest v o s h,
        find_low_ahead-find_low target memory (emitted e r)
            (note_decoded (record (after_read d r) { rest = rest })) rs vs
            (emitted-HasOffsets e r v o) (after_read-InSync e d r rest s) refl,
      )

  compact_loop-apply_loop :
      (count : ℕ) (memory : List ℕ) (e : Emitter) (d : Decoder) (rs : List Relocation)
      → All IsRelocation rs
      → HasOffsets e
      → InSync e d
      → d.valid ≡ true
      → d.decoded + length rs ≡ count
      → d.rest ≡ compact_from e rs
      → compact_loop segments guest_base count (length rs) d memory
        ≡ apply_loop segments guest_base (map psp_record rs) memory
  unfolding compact_loop apply_loop compact_from
  compact_loop-apply_loop count memory e d [] v o s t n h = unfold consumed in ground arith
  compact_loop-apply_loop count memory e d (r ∷ rs) (v, vs) o s t n h =
      elim (Step-cases (relocate_one segments guest_base (psp_record r) low memory)) [
        | inl (memory', p) ↦ ground (
          arith,
          step,
          ahead,
          p,
          compact_loop-apply_loop count memory' (emitted e r) d' rs vs o' s' t (omega arith) refl,
        )
        | inr (inl (x, p)) ↦ ground (arith, step, ahead, p)
        | inr (inr p) ↦ ground (arith, step, ahead, p)
      ]
    where
      rest : List ℕ
      rest = compact_from (emitted e r) rs

      d' : Decoder
      d' = note_decoded (record (after_read d r) { rest = rest })

      low : Step ℕ
      low = find_low segments r.target_segment (map psp_record rs) memory

      o' : HasOffsets (emitted e r)
      o' = emitted-HasOffsets e r v o

      s' : InSync (emitted e r) d'
      s' = after_read-InSync e d r rest s

      step : next d ≡ yielded (psp_record r) (record (after_read d r) { rest = rest })
      step = next-emit e d r rest v o s h

      ahead : find_low_ahead segments r.target_segment (length rs) d' memory ≡ low
      ahead = find_low_ahead-find_low r.target_segment memory (emitted e r) d' rs vs o' s' refl

-- On the compact stream of a list of well-typed records, the compact loader returns the same result
-- and leaves the same image as the plain loader on the records themselves: whatever the image, the
-- guest base and the segments, null pointers included, and on the error paths too.
pub apply_compact-apply :
    (memory : Option (List ℕ)) (guest_base : ℕ) (segments : Option (List PspLoadSegment))
    (rs : List Relocation)
    → All IsRelocation rs
    → apply_compact_psp_relocations memory guest_base segments
        (array (compact_relocations rs))
        (length rs)
      ≡ apply_psp_relocations memory guest_base segments (array (map psp_record rs))
unfolding apply_compact_psp_relocations apply_psp_relocations compact_relocations
apply_compact-apply none guest_base segments rs v = refl
apply_compact-apply (some memory) guest_base none rs v = refl
apply_compact-apply (some memory) guest_base (some segments) rs v =
    compact_loop-apply_loop segments guest_base (length rs) memory emitter
      (decoder (compact_relocations rs)) rs v (λ segment. omega arith)
      (start-InSync (compact_relocations rs)) refl (omega arith) refl
