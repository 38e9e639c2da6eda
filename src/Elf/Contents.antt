-- ===== src/Elf/Contents.antt =====
-- What the memory image holds, byte by byte.
use psprism.Base.{
  ℕ, zero, suc, ◌+◌, ◌-◌, ◌≤◌, ◌<◌, ◌≡◌, refl, ap, ◌∙◌, arith, Bool, true, false, ltb, leb, ◌&&◌,
  ◌||◌, if◌then◌else◌,
}
use psprism.Base.{
  List, [], ◌∷◌, ◌++◌, length, get_elem?, take, drop, replicate, length-append, Option, some,
  Bool-cases, inl, inr,
}
use psprism.Elf.Types.{LoadSegment, ok}
use psprism.Elf.Image.{memory_size, copy_at, image_from, memory_image}
use psprism.Base.{length-take}

module _ {ℓ} {A : Type ℓ} where
  get_elem?-append_left :
      (xs ys : List A) (i : ℕ) → i < length xs → get_elem? (xs ++ ys) i ≡ get_elem? xs i
  get_elem?-append_left [] ys i h = absurd (omega arith)
  get_elem?-append_left (x ∷ xs) ys zero h = refl
  get_elem?-append_left (x ∷ xs) ys (suc i) h = get_elem?-append_left xs ys i (omega arith)

  get_elem?-append_right :
      (xs ys : List A) (i : ℕ) → get_elem? (xs ++ ys) (length xs + i) ≡ get_elem? ys i
  get_elem?-append_right [] ys i = ap (get_elem? ys) {x = 0 + i} (omega arith)
  get_elem?-append_right (x ∷ xs) ys i =
      ap (get_elem? (x ∷ xs ++ ys)) {x = suc (length xs) + i} {y = suc (length xs + i)}
        (omega arith)
      ∙ get_elem?-append_right xs ys i

  get_elem?-take : (n : ℕ) (xs : List A) (i : ℕ) → i < n → get_elem? (take n xs) i ≡ get_elem? xs i
  get_elem?-take zero xs i h = absurd (omega arith)
  get_elem?-take (suc n) [] i h = refl
  get_elem?-take (suc n) (x ∷ xs) zero h = refl
  get_elem?-take (suc n) (x ∷ xs) (suc i) h = get_elem?-take n xs i (omega arith)

  get_elem?-drop : (n : ℕ) (xs : List A) (i : ℕ) → get_elem? (drop n xs) i ≡ get_elem? xs (n + i)
  get_elem?-drop zero xs i = ap (get_elem? xs) (omega arith)
  get_elem?-drop (suc n) [] i = refl
  get_elem?-drop (suc n) (x ∷ xs) i =
      get_elem?-drop n xs i ∙ ap (get_elem? (x ∷ xs)) {x = suc (n + i)} (omega arith)

  get_elem?-replicate : (n : ℕ) (a : A) (i : ℕ) → i < n → get_elem? (replicate n a) i ≡ some a
  get_elem?-replicate zero a i h = absurd (omega arith)
  get_elem?-replicate (suc n) a zero h = refl
  get_elem?-replicate (suc n) a (suc i) h = get_elem?-replicate n a i (omega arith)

-- Are there bytes of a segment at an index?
abbrev pub is_loaded : LoadSegment → ℕ → Bool
is_loaded segment i = leb segment.address i && ltb i (segment.address + length segment.bytes)

-- The byte at an index: that of the last segment with bytes there, else the one before.
unfoldable pub last_byte : Option ℕ → List LoadSegment → ℕ → Option ℕ
last_byte before [] i = before
last_byte before (segment ∷ segments) i =
    last_byte
      (if is_loaded segment i then get_elem? segment.bytes (i - segment.address) else before)
      segments i

get_elem?-copy_at :
    (segment : LoadSegment) (image : List ℕ) (i : ℕ)
    → segment.address + length segment.bytes ≤ length image
    → get_elem? (copy_at segment.address segment.bytes image) i ≡ (
        if is_loaded segment i
        then get_elem? segment.bytes (i - segment.address)
        else get_elem? image i)
unfolding copy_at
get_elem?-copy_at segment image i h =
    let head = take segment.address image in
    let end = segment.address + length segment.bytes in
    let tail = drop end image in
    let size : length head ≡ segment.address =
      length-take segment.address image (omega (arith, h)) in
    let both : length (head ++ segment.bytes) ≡ end =
      length-append head segment.bytes ∙ omega (arith, size) in
    elim (Bool-cases (ltb i segment.address)) [
      | inl e ↦
          let outside : is_loaded segment i ≡ false = ground (arith, e) in
          rw outside (
            get_elem?-append_left (head ++ segment.bytes) tail i (ground (arith, both, e))
            ∙ get_elem?-append_left head segment.bytes i (ground (arith, size, e))
            ∙ get_elem?-take segment.address image i (ground (arith, e)))
      | inr e ↦ elim (Bool-cases (ltb i end)) [
        | inl f ↦
            let inside : is_loaded segment i ≡ true = ground (arith, e, f) in
            let at : i ≡ length head + (i - segment.address) = ground (arith, e, size) in
            rw inside (
              get_elem?-append_left (head ++ segment.bytes) tail i (ground (arith, both, f))
              ∙ ap (get_elem? (head ++ segment.bytes)) at
              ∙ get_elem?-append_right head segment.bytes (i - segment.address))
        | inr f ↦
            let outside : is_loaded segment i ≡ false = ground (arith, f) in
            let at : i ≡ length (head ++ segment.bytes) + (i - end) = ground (arith, f, both) in
            rw outside (
              ap (get_elem? (head ++ segment.bytes ++ tail)) at
              ∙ get_elem?-append_right (head ++ segment.bytes) tail (i - end)
              ∙ get_elem?-drop end image (i - end)
              ∙ ap (get_elem? image) {x = end + (i - end)} (ground (arith, f)))
      ]
    ]

image_from-last_byte :
    (image : List ℕ) (segments : List LoadSegment) (i : ℕ) {flat : List ℕ}
    → image_from image segments ≡ ok flat
    → get_elem? flat i ≡ last_byte (get_elem? image i) segments i
unfolding image_from last_byte
image_from-last_byte image [] i h =
    ap (λ (r : List ℕ). get_elem? r i) {y = image} (ground (arith, h))
image_from-last_byte image (segment ∷ segments) i {flat = flat} h =
    elim (Bool-cases (
      ltb (length image) segment.address
      || ltb (length image - segment.address) (length segment.bytes))) [
        | inl e ↦ absurd (ground (arith, e, h))
        | inr e ↦
            image_from-last_byte (copy_at segment.address segment.bytes image) segments i
              {flat = flat} (ground (arith, e, h))
            ∙ ap (λ (b : Option ℕ). last_byte b segments i)
                (get_elem?-copy_at segment image i (ground (arith, e)))
      ]

-- A memory image that is made holds at each index below its size the byte of the last segment
-- that has bytes there, and 0 where none has.
pub memory_image-last_byte :
    (segments : List LoadSegment) (i : ℕ) {size : ℕ} {flat : List ℕ}
    → memory_size segments ≡ ok size
    → memory_image segments ≡ ok flat
    → i < size
    → get_elem? flat i ≡ last_byte (some 0) segments i
unfolding memory_image
memory_image-last_byte segments i {size = size} {flat = flat} sized made small =
    image_from-last_byte (replicate size 0) segments i {flat = flat} (ground (arith, sized, made))
    ∙ ap (λ (b : Option ℕ). last_byte b segments i) (get_elem?-replicate size 0 i small)
