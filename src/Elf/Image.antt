-- ===== src/Elf/Image.antt =====
-- image.cpp: `memory_size` and `memory_image`.
use psprism.Base.{ℕ, ◌+◌, ◌-◌, ◌^◌, max, ◌||◌, ltb, if◌then◌else◌, List, [], ◌∷◌, ◌++◌}
use psprism.Base.{length, take, drop, replicate}
use psprism.Elf.Types.{LoadSegment, Result, ok, err, segment_overflow, segment_outside, ◌>>=◌}

-- The loop of `memory_size`, at a size.
unfoldable pub size_from : ℕ → List LoadSegment → Result ℕ
size_from size [] = ok size
size_from size (segment ∷ segments) =
    let rest = size_from (max size (segment.address + segment.memory_size)) segments in
    if ltb (2 ^ 32 - 1 - segment.memory_size) segment.address then err segment_overflow else rest

unfoldable pub memory_size : List LoadSegment → Result ℕ
unfolding size_from
memory_size = size_from 0

-- `std::copy` into the image.
unfoldable pub copy_at : ℕ → List ℕ → List ℕ → List ℕ
copy_at address bytes image = take address image ++ bytes ++ drop (address + length bytes) image

-- The loop of `memory_image`, at an image.
unfoldable pub image_from : List ℕ → List LoadSegment → Result (List ℕ)
unfolding copy_at
image_from image [] = ok image
image_from image (segment ∷ segments) =
    let rest = image_from (copy_at segment.address segment.bytes image) segments in
    if ltb (length image) segment.address
      || ltb (length image - segment.address) (length segment.bytes)
    then err segment_outside
    else rest

unfoldable pub memory_image : List LoadSegment → Result (List ℕ)
unfolding memory_size image_from
memory_image segments = do size ← memory_size segments; image_from (replicate size 0) segments
