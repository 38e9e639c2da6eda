-- ===== src/Analysis/Discovered.antt =====
-- The functions that discover_functions gives: their order and their file names.
use psprism.Base.Outcomes.{done, bind-done, done_lem}
use psprism.Base.{
  some_lem, ap, ℕ, zero, suc, ◌+◌, ◌%◌, ◌^◌, ◌<◌, ◌≤◌, ◌≡◌, ◌≢◌, refl, sym, subst, ◌∙◌, arith,
}
use psprism.Base.{Bool, true}
use psprism.Base.{List, [], ◌∷◌, map, Option, some, IsU32, shr, length, All, get_elem?, inl, inr}
use psprism.Base.Sorting.{any}
use psprism.Base.Sets.{has, IsAscending, Above}
use psprism.Elf.Types.{ElfImage, ExecutableSection}
use psprism.CodeMap.Types.{CodeMap}
use psprism.Analysis.Types.{DiscoveredFunction}
use psprism.Analysis.Text.{hex_digit, hex_word}
use psprism.Analysis.Control.{holds_word, is_executable_word}
use psprism.Analysis.Functions.{is_start, find_starts, function_at, discover_functions}
use psprism.Analysis.Starts.{find_starts-Grows}

All-has :
    (p : ℕ → Bool) (s : List ℕ) → ((x : ℕ) → has x s ≡ true → p x ≡ true) → All (λ x. p x ≡ true) s
unfolding has
All-has p [] h = tt
All-has p (x ∷ xs) h = (h x (ground arith), All-has p xs (λ y e. h y (ground (arith, e))))

All-get_elem? :
    (P : ℕ → Type 0) (s : List ℕ) (i : ℕ) {x : ℕ} → All P s → get_elem? s i ≡ some x → P x
All-get_elem? P [] i h e = absurd cc
All-get_elem? P (y ∷ ys) zero (q, h) e = subst P (some_lem e) q
All-get_elem? P (y ∷ ys) (suc i) (q, h) e = All-get_elem? P ys i h e

module _ (m : Option CodeMap) where
  map-start : (s : List ℕ) → map (λ (f : DiscoveredFunction). f.start) (map (function_at m) s) ≡ s
  unfolding function_at
  map-start [] = refl
  map-start (x ∷ xs) = ap (λ ys. x ∷ ys) (map-start xs)

  All-function_at :
      (p : ℕ → Bool) (s : List ℕ)
      → All (λ x. p x ≡ true) s
      → All (λ (f : DiscoveredFunction). p f.start ≡ true) (map (function_at m) s)
  unfolding function_at
  All-function_at p [] h = tt
  All-function_at p (x ∷ xs) (e, h) = (e, All-function_at p xs h)

  get_elem?-function_at :
      (s : List ℕ) (i : ℕ) {f : DiscoveredFunction}
      → get_elem? (map (function_at m) s) i ≡ some f
      → (x : ℕ) × (get_elem? s i ≡ some x) × (f ≡ function_at m x)
  get_elem?-function_at [] i h = absurd cc
  get_elem?-function_at (x ∷ xs) zero h = (x, refl, cc)
  get_elem?-function_at (x ∷ xs) (suc i) h = get_elem?-function_at xs i h

-- A number stands once in an ascending list.
Above-get_elem? :
    (low : ℕ) (s : List ℕ) (i : ℕ) {x : ℕ} → Above low s → get_elem? s i ≡ some x → low < x
Above-get_elem? low [] i a h = absurd cc
Above-get_elem? low (y ∷ ys) zero (p, a) h = ground (arith, p, h)
Above-get_elem? low (y ∷ ys) (suc i) {x = x} (p, a) h =
    omega (arith, Above-get_elem? y ys i {x = x} a h)

once :
    (s : List ℕ) (i j : ℕ) {x : ℕ}
    → IsAscending s
    → get_elem? s i ≡ some x
    → get_elem? s j ≡ some x
    → i ≡ j
once [] i j a h k = absurd cc
once (y ∷ ys) zero zero a h k = refl
once (y ∷ ys) zero (suc j) {x = x} a h k =
    absurd (ground (arith, h, Above-get_elem? y ys j {x = x} a k))
once (y ∷ ys) (suc i) zero {x = x} a h k =
    absurd (ground (arith, k, Above-get_elem? y ys i {x = x} a h))
once (y ∷ z ∷ zs) (suc i) (suc j) {x = x} (p, a) h k = ap suc (once (z ∷ zs) i j {x = x} a h k)
once (y ∷ []) (suc i) (suc j) a h k = absurd cc

hex_digit-eq : (a b : ℕ) → hex_digit (a % 16) ≡ hex_digit (b % 16) → a % 16 ≡ b % 16
unfolding hex_digit
hex_digit-eq a b h = ground arith

-- The eight digits after "func_" tell the address.
filename-start :
    (m : Option CodeMap) (a b : ℕ)
    → IsU32 a
    → IsU32 b
    → (function_at m a).filename ≡ (function_at m b).filename
    → a ≡ b
unfolding function_at hex_word
filename-start m a b p q h =
    let digit =
      λ (bits : ℕ) (e : some (hex_digit (shr a bits % 16)) ≡ some (hex_digit (shr b bits % 16))).
        hex_digit-eq (shr a bits) (shr b bits) (some_lem e) in
    omega (
      arith,
      digit 28 (ap (λ text. get_elem? text 5) h),
      digit 24 (ap (λ text. get_elem? text 6) h),
      digit 20 (ap (λ text. get_elem? text 7) h),
      digit 16 (ap (λ text. get_elem? text 8) h),
      digit 12 (ap (λ text. get_elem? text 9) h),
      digit 8 (ap (λ text. get_elem? text 10) h),
      digit 4 (ap (λ text. get_elem? text 11) h),
      digit 0 (ap (λ text. get_elem? text 12) h),
    )

any-below :
    (sections : List ExecutableSection) (t : ℕ)
    → All (λ s. s.address + length s.bytes ≤ 2 ^ 32) sections
    → any (holds_word t) sections ≡ true
    → IsU32 t
unfolding any
any-below [] t h e = absurd (ground (arith, e))
any-below (x ∷ xs) t (h, hs) e = ground (arith, h, e, any-below xs t hs)

is_start-IsU32 :
    (image : ElfImage) (t : ℕ)
    → All (λ s. s.address + length s.bytes ≤ 2 ^ 32) image.executable_sections
    → is_start image t ≡ true
    → IsU32 t
unfolding is_start is_executable_word
is_start-IsU32 image t h e = any-below image.executable_sections t h (ground (arith, e))

module _ (image : ElfImage) (code_map : Option CodeMap) {functions : List DiscoveredFunction}
    (run : discover_functions image code_map ≡ done functions) where
  -- The starts behind the functions.
  found :
      (s : List ℕ) × IsAscending s
      × All (λ x. is_start image x ≡ true) s
      × (functions ≡ map (function_at code_map) s)
  unfolding discover_functions has
  found =
      let (s, e, r) = bind-done (find_starts image code_map) _ run in
      let g = find_starts-Grows image code_map e in
      (
        s,
        g.ordered tt,
        All-has (is_start image) s
            (λ x h. elim (g.fresh x h) [ inl q ↦ absurd (ground (arith, q)) | inr q ↦ q ]),
        sym (done_lem r),
      )

  -- The functions come in strictly ascending order of their starts, with or without a code map, and
  -- every start is an executable word and not the stub of an import.
  pub discover_functions-is_start :
      IsAscending (map (λ (f : DiscoveredFunction). f.start) functions)
      × All (λ (f : DiscoveredFunction). is_start image f.start ≡ true) functions
  discover_functions-is_start =
      let (s, ordered, starts, same) = found in
      (
        subst IsAscending
            (sym (map-start code_map s) ∙ ap (map (λ (f : DiscoveredFunction). f.start)) (sym same))
            ordered,
        subst (All (λ (f : DiscoveredFunction). is_start image f.start ≡ true)) (sym same)
            (All-function_at code_map (is_start image) s starts),
      )

  -- No two functions share a file name, whatever their symbols are, if every executable section ends
  -- within the 32-bit address space.
  pub discover_functions-filename :
      (i j : ℕ) {f g : DiscoveredFunction}
      → All (λ s. s.address + length s.bytes ≤ 2 ^ 32) image.executable_sections
      → get_elem? functions i ≡ some f
      → get_elem? functions j ≡ some g
      → i ≢ j
      → f.filename ≢ g.filename
  discover_functions-filename i j {f = f} {g = g} fits at_i at_j apart h =
      let (s, ordered, starts, same) = found in
      let (x, x_at, fx) =
        get_elem?-function_at code_map s i
          (subst (λ (fs : List DiscoveredFunction). get_elem? fs i ≡ some f) same at_i) in
      let (y, y_at, gy) =
        get_elem?-function_at code_map s j
          (subst (λ (fs : List DiscoveredFunction). get_elem? fs j ≡ some g) same at_j) in
      let small = λ (k z : ℕ) (e : get_elem? s k ≡ some z).
        is_start-IsU32 image z fits (All-get_elem? (λ v. is_start image v ≡ true) s k starts e) in
      let equal = filename-start code_map x y (small i x x_at) (small j y y_at) (
        ap (λ (d : DiscoveredFunction). d.filename) (sym fx)
        ∙ h
        ∙ ap (λ (d : DiscoveredFunction). d.filename) gy) in
      apart (once s i j {x = x} ordered x_at (subst (λ z. get_elem? s j ≡ some z) (sym equal) y_at))
