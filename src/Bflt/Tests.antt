-- ===== src/Bflt/Tests.antt =====
-- A binary that is loaded, and the theorems at it.
use cenix.Base.{
  ◌+◌, ◌≡◌, refl, inl, true, some, [], ◌∷◌, arith, ◌==◌, ltb, if◌then◌else◌, replicate,
}
use cenix.Base.Bits.{test_bit}
use cenix.Base.Memory.{Memory, offset}
use cenix.Kernel.Arch.{Registers}
use cenix.Bflt.{
  BfltHeader, header_size, bflt_verify, bflt_allocation_size, bflt_load, load_segments,
  start_registers, sub_long, offset_to_address, read_long, write_long, relocate, relocated,
}
use cenix.Bflt.Image.{IsImage, place, load_segments-offset_to_address}
use cenix.Bflt.Bounds.{Agree, image_end, IsLoadable, bflt_load-Agree}

-- It runs in place. Its text has 8 bytes, its data two words, of which the second ends the global
-- offset table, and its bss segment one word; a relocation is for the first word of the data.
abbrev in_place : BfltHeader
in_place = record {
  magic = b'b' ∷ b'F' ∷ b'L' ∷ b'T' ∷ [];
  version = 4;
  entry_point = 64;
  data_start = 72;
  data_end = 80;
  bss_end = 84;
  stack_size = 16;
  relocations_start = 80;
  num_relocations = 1;
  flags = 2;
}

-- The file is at 4096.
abbrev file : Memory
file a =
    if a == 4171
    then 4
    else if ltb a 4172
    then 0
    else if ltb a 4176
    then 255
    else if a == 4179
    then 8
    else 0

abbrev registers : Registers
registers = record {
  stack_pointer = 0;
  data_registers = replicate 8 0;
  address_registers = replicate 7 0;
  status_register = 0;
  program_counter = 0;
}

verifies : bflt_verify in_place ≡ true
unfolding bflt_verify test_bit
verifies = refl

allocates : bflt_allocation_size in_place ≡ 28
unfolding bflt_allocation_size sub_long test_bit
allocates = refl

in_place-IsImage : IsImage in_place 4096 8192
in_place-IsImage = record {
  header_first = omega arith;
  data_second = omega arith;
  bss_last = omega arith;
  file_fits = omega arith;
  memory_fits = omega arith;
  apart = inl (omega arith);
}

in_place-IsLoadable : IsLoadable file in_place 4096 8192 1
unfolding read_long write_long offset sub_long offset_to_address load_segments relocate relocated
    test_bit
in_place-IsLoadable = record {
  image = in_place-IsImage;
  table = (omega arith, tt);
  table_apart = (omega arith, inl (omega arith));
  got_end = λ g. (refl, omega arith);
}

load_segments-offset_to_address_example :
    load_segments file in_place 4096 8192 (place in_place 4096 8192 11)
    ≡ (if ltb (11 + header_size) 80 then file (4096 + header_size + 11) else 0)
load_segments-offset_to_address_example =
    load_segments-offset_to_address file in_place 4096 8192 11 in_place-IsImage (omega arith)

bflt_load-Agree_example :
    (m' : Memory) × (bflt_load 2 file in_place 4096 8192 registers
      ≡ some (m', start_registers in_place 4096 8192 registers))
    × Agree 8192 (image_end in_place 8192) file m'
bflt_load-Agree_example =
    bflt_load-Agree 2 file in_place 4096 8192 registers 1 in_place-IsLoadable (omega arith)

-- The relocation puts the address of the text at 4 into the first word of the data.
relocates : read_long (relocated file in_place 4096 8192) 8192 ≡ 4164
unfolding read_long write_long offset sub_long offset_to_address load_segments relocate relocated
    test_bit
relocates = refl
