-- ===== src/Analysis/Starts.antt =====
-- discover_functions only adds starts: executable words that are not the stubs of imports.
use psprism.Base.Outcomes.{done, bind-done, done_lem}
use psprism.Base.{ℕ, ◌+◌, ◌≡◌, refl, sym, subst, ◌∙◌}
use psprism.Base.{Bool, true, false, ◌&&◌, ltb, leb, ◌==◌, bit_and, if◌then◌else◌}
use psprism.Base.{List, [], ◌∷◌, map, Option, none, some, u32, shr, length, inl, inr, List-cases}
use psprism.Base.Sets.{Grows, Grows-refl, Grows-trans, Grows-admit, Grows-if, Grows-elim}
use psprism.Relocation.Encode.{Relocation}
use psprism.Relocation.Records.{word_of}
use psprism.Elf.Types.{ElfImage, ExecutableSection}
use psprism.Elf.Bytes.{is_truncated}
use psprism.Elf.Image.{memory_image}
use psprism.CodeMap.Types.{CodeMap, FunctionRange, FunctionSymbol}
use psprism.Analysis.Types.{Outcome, from_result}
use psprism.Analysis.Control.{
  find_load_segment, jump_relocation_bases, direct_control_target, displacement,
}
use psprism.Analysis.Entries.{word_at}
use psprism.Analysis.Functions.{
  is_start, add_start, add_starts, add_hints, add_call, add_word, scan_words, scan_sections,
  read_pointer, read_pointers, search_starts, find_starts,
}

module _ (image : ElfImage) where
  abbrev p : ℕ → Bool
  p = is_start image

  add_start-Grows : (x : ℕ) (s : List ℕ) → Grows p s (add_start image x s)
  unfolding add_start
  add_start-Grows x s = Grows-admit p x s

  add_starts-Grows : (xs s : List ℕ) → Grows p s (add_starts image xs s)
  unfolding add_starts
  add_starts-Grows [] s = Grows-refl p s
  add_starts-Grows (x ∷ xs) s =
      Grows-trans p (add_start-Grows x s) (add_starts-Grows xs (add_start image x s))

  add_hints-Grows : (m : Option CodeMap) (s : List ℕ) → Grows p s (add_hints image m s)
  unfolding add_hints
  add_hints-Grows none s = Grows-refl p s
  add_hints-Grows (some m) s =
      let ranges = map (λ (r : FunctionRange). r.begin) m.function_ranges in
      let entered = if m.entry == 0 then s else add_start image m.entry s in
      Grows-trans p (Grows-if p (m.entry == 0) (Grows-refl p s) (add_start-Grows m.entry s)) (
        Grows-trans p (add_starts-Grows ranges entered) (
          add_starts-Grows (map (λ (x : FunctionSymbol). x.address) m.function_symbols)
            (add_starts image ranges entered)))

  module _ (bases : ℕ → Option ℕ) where
    add_call-Grows : (pc word : ℕ) (s : List ℕ) → Grows p s (add_call image bases pc word s)
    unfolding add_call
    add_call-Grows pc word s =
        let rt = bit_and (shr word 16) 31 in
        Grows-if p (shr word 26 == 0x03)
          (Grows-elim p (direct_control_target pc word bases image.preferred_base) (Grows-refl p s)
            (λ t. add_start-Grows t s))
          (Grows-if p (shr word 26 == 0x01 && leb 0x10 rt && leb rt 0x13)
            (add_start-Grows (u32 (u32 (pc + 4) + displacement word)) s) (Grows-refl p s))

    add_word-Grows :
        (pc word left : ℕ) (s : List ℕ) → Grows p s (add_word image bases pc word left s)
    unfolding add_word
    add_word-Grows pc word left s =
        let called = add_call image bases pc word s in
        let opened =
          if bit_and word 0xffff8000 == 0x27bd8000 then add_start image pc called else called in
        Grows-trans p (add_call-Grows pc word s) (
          Grows-trans p
            (Grows-if p (bit_and word 0xffff8000 == 0x27bd8000) (add_start-Grows pc called)
              (Grows-refl p called))
            (Grows-if p (word == 0x03e00008 && ltb 4 left) (add_start-Grows (u32 (pc + 8)) opened)
              (Grows-refl p opened)))

    scan_words-Grows :
        (pc : ℕ) (bytes s : List ℕ) {s' : List ℕ}
        → scan_words image bases pc bytes s ≡ done s'
        → Grows p s s'
    unfolding scan_words
    scan_words-Grows pc [] s h = subst (Grows p s) (done_lem h) (Grows-refl p s)
    scan_words-Grows pc (a ∷ b ∷ c ∷ d ∷ bytes) s h =
        Grows-trans p (add_word-Grows pc (word_of a b c d) (length bytes) s) (
          scan_words-Grows (u32 (pc + 4)) bytes
            (add_word image bases pc (word_of a b c d) (length bytes) s) h)
    scan_words-Grows pc (a ∷ []) s h = absurd cc
    scan_words-Grows pc (a ∷ b ∷ []) s h = absurd cc
    scan_words-Grows pc (a ∷ b ∷ c ∷ []) s h = absurd cc

    scan_sections-Grows :
        (sections : List ExecutableSection) (s : List ℕ) {s' : List ℕ}
        → scan_sections image bases sections s ≡ done s'
        → Grows p s s'
    unfolding scan_sections
    scan_sections-Grows [] s h = subst (Grows p s) (done_lem h) (Grows-refl p s)
    scan_sections-Grows (x ∷ xs) s h =
        let (t, e, rest) =
          bind-done (scan_words image bases x.address x.bytes s) (scan_sections image bases xs) h in
        Grows-trans p (scan_words-Grows x.address x.bytes s e) (scan_sections-Grows xs t rest)

  -- An outcome whose value, where it has one, grows the set.
  record GrowsDone (s : List ℕ) (o : Outcome (List ℕ)) : Type 0 where
    grown : (t : List ℕ) → o ≡ done t → Grows p s t

  done-Grows : {s t : List ℕ} → Grows p s t → GrowsDone s (done t)
  done-Grows {s = s} g = record { grown = λ u h. subst (Grows p s) (done_lem h) g }

  if-GrowsDone :
      (b : Bool) {s : List ℕ} {x y : Outcome (List ℕ)}
      → GrowsDone s x
      → GrowsDone s y
      → GrowsDone s (if b then x else y)
  if-GrowsDone true g h = g
  if-GrowsDone false g h = h

  elim-GrowsDone {ℓ} :
      {A : Type ℓ} (o : Option A) {s : List ℕ} {x : Outcome (List ℕ)} {f : A → Outcome (List ℕ)}
      → GrowsDone s x
      → ((a : A) → GrowsDone s (f a))
      → GrowsDone s (elim o [ none ↦ x | some a ↦ f a ])
  elim-GrowsDone none g h = g
  elim-GrowsDone (some a) g h = h a

  read_pointer-Grows :
      (memory : List ℕ) (r : Relocation) (s : List ℕ) → GrowsDone s (read_pointer image memory r s)
  unfolding read_pointer
  read_pointer-Grows memory r s =
      let stay = done-Grows (Grows-refl p s) in
      if-GrowsDone (r.type == 2)
        (elim-GrowsDone (find_load_segment image r.patch_segment) stay (λ patch.
          elim-GrowsDone (find_load_segment image r.target_segment) stay (λ target.
            let address = u32 (patch.address + r.offset) in
            if-GrowsDone (leb (u32 (address + 4)) (length memory))
              (if-GrowsDone (is_truncated memory address 4) (record { grown = λ u h. absurd cc })
                (done-Grows (add_start-Grows (u32 (word_at memory address + target.address)) s)))
              stay)))
        stay

  read_pointers-Grows :
      (memory : List ℕ) (rs : List Relocation) (s : List ℕ) {s' : List ℕ}
      → read_pointers image memory rs s ≡ done s'
      → Grows p s s'
  unfolding read_pointers
  read_pointers-Grows memory [] s h = subst (Grows p s) (done_lem h) (Grows-refl p s)
  read_pointers-Grows memory (r ∷ rs) s h =
      let (t, e, rest) =
        bind-done (read_pointer image memory r s) (read_pointers image memory rs) h in
      Grows-trans p ((read_pointer-Grows memory r s).grown t e)
        (read_pointers-Grows memory rs t rest)

  search_starts-Grows :
      (m : Option CodeMap) {s : List ℕ} → search_starts image m ≡ done s → Grows p [] s
  unfolding search_starts
  search_starts-Grows m {s = s} h =
      let bases = jump_relocation_bases image in
      let sections = image.executable_sections in
      let first = add_start image image.entry [] in
      let starts = map (λ (x : ExecutableSection). x.address) sections in
      let opened = add_starts image starts (add_hints image m first) in
      let (scanned, e, r) = bind-done (scan_sections image bases sections opened) _ h in
      let (memory, f, r') = bind-done (from_result (memory_image image.load_segments)) _ r in
      Grows-trans p (add_start-Grows image.entry []) (
        Grows-trans p (add_hints-Grows m first) (
          Grows-trans p (add_starts-Grows starts (add_hints image m first)) (
            Grows-trans p (scan_sections-Grows bases sections opened e)
              (read_pointers-Grows memory image.relocations scanned r'))))

  pub find_starts-Grows :
      (m : Option CodeMap) {s : List ℕ} → find_starts image m ≡ done s → Grows p [] s
  unfolding find_starts
  find_starts-Grows none h = search_starts-Grows none h
  find_starts-Grows (some m) {s = s} h = elim (List-cases m.function_starts) [
    | inl e ↦ search_starts-Grows (some m) (sym (rw (e, find_starts) refl) ∙ h)
    | inr (x, xs, e) ↦
        subst (Grows p []) {x = add_starts image (x ∷ xs) []}
          (done_lem (sym (rw (e, find_starts) refl) ∙ h)) (add_starts-Grows (x ∷ xs) [])
  ]
