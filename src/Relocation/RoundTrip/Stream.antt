-- ===== src/Relocation/RoundTrip/Stream.antt =====
-- Whole streams: one record after the other, until the bytes are used up.
use psprism.Base.{ℕ, zero, suc, ◌+◌, ◌≡◌, refl, sym, ap, ◌∙◌, arith, true}
use psprism.Base.{List, [], ◌∷◌, ◌++◌, map, Option, none, some, length, All, Bool-cases, inl}
use psprism.Base.{inr, IsU32}
use mathlib.Core.Option
use psprism.Base.Int.{ℤ, pos, negsuc, sub_ℕ}
use psprism.Relocation.Records.{PspRelocationRecord}
use psprism.Relocation.Compact.{Decoder, decoder, yielded, refused, update, finish, next_from}
use psprism.Relocation.Compact.{next, note_decoded, consumed}
use psprism.Relocation.Encode.{Relocation, Emitter, emitter, delta, can_use_short}
use psprism.Relocation.Encode.{can_use_extended_short}
use psprism.Relocation.Encode.{emit, emitted, compact_from, compact_relocations}
use psprism.Relocation.RoundTrip.Short.{
  IsRelocation, psp_record, with_fields, after_read, finish_lem,
}
use psprism.Relocation.RoundTrip.Short.{next_short-short_byte, next_short-extended_short_byte}
use psprism.Relocation.RoundTrip.Long.{IsDelta, InSync, next_from-long_bytes}

-- The bytes of one record read back as its metadata and its delta, in any of the three forms.
next_from-emit :
    (e : Emitter) (d : Decoder) (r : Relocation) (by : ℤ) (rest : List ℕ)
    → IsRelocation r
    → InSync e d
    → IsDelta by
    → next_from d (emit e r by ++ rest) ≡ finish (record (with_fields d r) { rest = rest }) by
unfolding emit
next_from-emit e d r (pos n) rest v s h = elim (Bool-cases (can_use_short r (pos n))) [
  | inl c ↦
      let (plain, reads) = next_short-short_byte (record d { rest = rest }) r n c in
      rw c (unfold next_from in ground (arith, plain, reads))
  | inr c ↦ elim (Bool-cases (can_use_extended_short r (pos n))) [
    | inl c' ↦
        let (plain, reads) = next_short-extended_short_byte (record d { rest = rest }) r n c' in
        rw (c, c') (unfold next_from in ground (arith, plain, reads))
    | inr c' ↦ rw (c, c') (next_from-long_bytes e d r (pos n) rest v s h)
  ]
]
next_from-emit e d r (negsuc m) rest v s h = next_from-long_bytes e d r (negsuc m) rest v s h

-- Every offset that the writer remembers is a 32-bit one.
abbrev pub HasOffsets : Emitter → Type 0
HasOffsets e = (segment : ℕ) → IsU32 (e.previous_offsets segment)

sub_ℕ-IsDelta : (a b : ℕ) → IsU32 a → IsU32 b → IsDelta (sub_ℕ a b)
sub_ℕ-IsDelta a b ha hb = ground arith

-- The next record of a stream is the one that was written, and the reader is past its bytes.
pub next-emit :
    (e : Emitter) (d : Decoder) (r : Relocation) (rest : List ℕ)
    → IsRelocation r
    → HasOffsets e
    → InSync e d
    → d.rest ≡ emit e r (delta e r) ++ rest
    → next d ≡ yielded (psp_record r) (record (after_read d r) { rest = rest })
unfolding next
next-emit e d r rest v o s h =
    ap (next_from d) h
    ∙ next_from-emit e d r (delta e r) rest v s (sub_ℕ-IsDelta _ _ v.offset (o _))
    ∙ ap
        (λ f.
          finish (record (with_fields d r) { rest = rest }) (sub_ℕ r.offset (f r.patch_segment)))
        (sym s.offsets)
    ∙ finish_lem (record d { rest = rest }) r v.offset

pub emitted-HasOffsets :
    (e : Emitter) (r : Relocation) → IsRelocation r → HasOffsets e → HasOffsets (emitted e r)
emitted-HasOffsets e r v o segment = ground (arith, v, o segment)

pub after_read-InSync :
    (e : Emitter) (d : Decoder) (r : Relocation) (rest : List ℕ)
    → InSync e d
    → InSync (emitted e r) (note_decoded (record (after_read d r) { rest = rest }))
after_read-InSync e d r rest s = record {
  offsets = ap (λ f. update f r.patch_segment r.offset) s.offsets;
  has = refl;
  type = λ h. refl;
  patch_segment = λ h. refl;
  target_segment = λ h. refl;
}

-- The client's loop over the stream, with nothing done to the records.
unfoldable pub read_all : ℕ → Decoder → Option (List PspRelocationRecord × Decoder)
read_all zero d = some ([], d)
read_all (suc left) d = elim (next d) [
  | refused d' ↦ none
  | yielded r d' ↦ Option.map (λ (rs, end). (r ∷ rs, end)) (read_all left (note_decoded d'))
]

-- The decoder at the end of a stream of `n` records with no byte left over.
abbrev pub IsDone : ℕ → Decoder → Type 0
IsDone n d = (d.rest ≡ []) × (d.decoded ≡ n) × (d.valid ≡ true)

read_all-compact_from :
    (e : Emitter) (d : Decoder) (rs : List Relocation)
    → All IsRelocation rs
    → HasOffsets e
    → InSync e d
    → d.valid ≡ true
    → d.rest ≡ compact_from e rs
    → (end : Decoder) × (read_all (length rs) d ≡ some (map psp_record rs, end))
      × IsDone (d.decoded + length rs) end
unfolding read_all compact_from
read_all-compact_from e d [] v o s t h = (d, refl, (h, omega arith, t))
read_all-compact_from e d (r ∷ rs) (v, vs) o s t h =
    let d' : Decoder =
      note_decoded (record (after_read d r) { rest = compact_from (emitted e r) rs }) in
    let (end, reads, done) =
      read_all-compact_from (emitted e r) d' rs vs (emitted-HasOffsets e r v o)
        (after_read-InSync e d r (compact_from (emitted e r) rs) s) t refl in
    (
      end,
      ground (arith, next-emit e d r (compact_from (emitted e r) rs) v o s h, reads),
      (done.0, omega (arith, done.1), done.2),
    )

pub start-InSync : (bytes : List ℕ) → InSync emitter (decoder bytes)
start-InSync bytes = record {
  offsets = refl;
  has = refl;
  type = λ h. cc;
  patch_segment = λ h. cc;
  target_segment = λ h. cc;
}

-- The reader gets back the records that the writer was given, in order, and ends at the last byte:
-- `read_all` succeeds on the compact stream of any list of well-typed records with those records,
-- and the decoder that it leaves passes the client's final test `consumed`.
pub read_all-compact_relocations :
    (rs : List Relocation)
    → All IsRelocation rs
    → (end : Decoder) × (read_all (length rs) (decoder (compact_relocations rs))
        ≡ some (map psp_record rs, end))
      × (consumed end (length rs) ≡ true)
unfolding compact_relocations consumed
read_all-compact_relocations rs v =
    let (end, reads, done) =
      read_all-compact_from emitter (decoder (compact_relocations rs)) rs v (λ segment. omega arith)
        (start-InSync (compact_relocations rs)) refl refl in
    (end, reads, ground (arith, done))
