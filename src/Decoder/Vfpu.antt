-- ===== src/Decoder/Vfpu.antt =====
-- include/psprecomp/vfpu.hpp: which words are vector instructions, and which of those have a
-- specialised form.
use psprism.Base.{ℕ, bit_and, Bool, true, false, ◌&&◌, ◌||◌, ◌==◌, leb}
use psprism.Base.{if◌then◌else◌, shr}

pub data VfpuStaticOperation : Type 0 where
  none add subtract multiply dot move : VfpuStaticOperation

unfoldable pub vfpu_static_operation : ℕ → VfpuStaticOperation
vfpu_static_operation instruction =
    let op = shr instruction 26 in
    let type = bit_and (shr instruction 23) 7 in
    if op == 0x18 && type == 0
    then add
    else if op == 0x18 && type == 1
    then subtract
    else if op == 0x19 && type == 0
    then multiply
    else if op == 0x19 && type == 1
    then dot
    else if op == 0x34
        && bit_and (shr instruction 21) 31 == 0
        && bit_and (shr instruction 16) 31 == 0
    then move
    else none

-- The groups of opcode 0x34.
unfoldable pub supported_34 : ℕ → ℕ → Bool
supported_34 group type =
    if group == 0
    then leb type 7 || (leb 16 type && leb type 26)
    else if group == 1
    then leb 24 type
    else if group == 2
    then type == 1
      || type == 2
      || type == 3
      || type == 5
      || type == 6
      || type == 7
      || type == 8
      || type == 9
      || type == 10
      || type == 25
    else if group == 3
    then leb type 19
    else leb 16 group && leb group 21

-- The groups of opcode 0x3c.
unfoldable pub supported_3c : ℕ → ℕ → Bool
supported_3c instruction group =
    leb group 3
    || (leb 12 group && leb group 15)
    || (leb 20 group && leb group 23)
    || group == 29
    || bit_and instruction 0xff808080 == 0xf1008000
    || bit_and instruction 0xff808080 == 0xf2008080
    || bit_and instruction 0xffff0000 == 0xf3800000
    || bit_and instruction 0xffffff80 == 0xf3838080
    || bit_and instruction 0xffffff80 == 0xf3868080
    || bit_and instruction 0xffffff80 == 0xf3878080

unfoldable pub vfpu_opcode_supported : ℕ → Bool
vfpu_opcode_supported instruction =
    let op = shr instruction 26 in
    let sub3 = bit_and (shr instruction 23) 7 in
    let group = bit_and (shr instruction 21) 31 in
    if op == 0x12
    then group == 3 || group == 7 || group == 8
    else if op == 0x18
    then sub3 == 0 || sub3 == 1 || sub3 == 2 || sub3 == 3 || sub3 == 7
    else if op == 0x19
    then leb sub3 2 || sub3 == 4 || sub3 == 6 || bit_and instruction 0xff808080 == 0x66808000
    else if op == 0x1b
    then sub3 == 0
      || sub3 == 2
      || sub3 == 3
      || bit_and instruction 0xff808080 == 0x6e808000
      || bit_and instruction 0xff808080 == 0x6f808080
    else if op == 0x32
        || op == 0x35
        || op == 0x36
        || op == 0x3a
        || op == 0x3d
        || op == 0x3e
        || op == 0x3f
    then true
    else if op == 0x37
    then leb sub3 7
    else if op == 0x34
    then supported_34 group (bit_and (shr instruction 16) 31)
    else if op == 0x3c
    then supported_3c instruction group
    else false
