-- ===== src/Bflt.antt =====
-- core/common/bflt.c: the loader of bFLT binaries, with the 32-bit pointers and the byte order of the
-- 68000.
pub mod Image
pub mod Bounds
mod Tests
use cenix.Base.{
  ℕ, zero, suc, ◌+◌, ◌-◌, ◌*◌, ◌/◌, ◌%◌, ◌^◌, Ptr, null, Bool, true, false, not, ◌&&◌, Option, none,
  some, List, [], ◌∷◌, ◌==◌, leb, ltb, if◌then◌else◌,
}
use cenix.Base.Bits.{test_bit}
use cenix.Base.Memory.{Memory, offset}
use cenix.Kernel.State.{at}
use cenix.Kernel.Arch.{Registers, set_program_counter, set_stack_pointer, set_got_pointer}

-- struct bflt_header, less the reserved words
pub record BfltHeader : Type 0 where
  pub magic : List ℕ
  pub version : ℕ
  pub entry_point : ℕ
  pub data_start : ℕ
  pub data_end : ℕ
  pub bss_end : ℕ
  pub stack_size : ℕ
  pub relocations_start : ℕ
  pub num_relocations : ℕ
  pub flags : ℕ

-- `sizeof(struct bflt_header)`
abbrev pub header_size : ℕ
header_size = 64

-- BFLT_FLAG_GOTPIC and BFLT_FLAG_GZIP
abbrev pub is_gotpic : BfltHeader → Bool
is_gotpic h = test_bit h.flags 1

abbrev pub is_gzip : BfltHeader → Bool
is_gzip h = test_bit h.flags 2

abbrev pub is_magic : List ℕ → Bool
is_magic (a ∷ b ∷ c ∷ d ∷ rest) = (a == b'b') && (b == b'F') && (c == b'L') && (d == b'T')
is_magic other = false

unfoldable pub bflt_verify : BfltHeader → Bool
bflt_verify h =
    if not (is_magic h.magic)
    then false
    else if not (h.version == 4)
    then false
    else if is_gzip h
    then false
    else true

-- `a - b` on 32-bit words
unfoldable pub sub_long : ℕ → ℕ → ℕ
sub_long a b = (a + (2 ^ 32 - b)) % 2 ^ 32

unfoldable pub bflt_allocation_size : BfltHeader → ℕ
bflt_allocation_size h =
    if is_gotpic h
    then (sub_long h.bss_end h.data_start + h.stack_size) % 2 ^ 32
    else (sub_long h.bss_end header_size + h.stack_size) % 2 ^ 32

-- offset_to_address, with FLAG_DENY_TEXT_REALLOCATIONS as a Boolean
unfoldable pub offset_to_address : Ptr → Ptr → Bool → ℕ → ℕ → Ptr
offset_to_address text data_at deny_text data_start o =
    let data_segment_offset = sub_long data_start header_size in
    if ltb o data_segment_offset
    then (if deny_text then null else offset text o)
    else sub_long (offset data_at o) data_segment_offset

-- memcpy and memset
abbrev pub copy_bytes : Memory → Ptr → Ptr → ℕ → Memory
copy_bytes m to from n a = if leb to a && ltb a (to + n) then m (from + (a - to)) else m a

abbrev pub set_bytes : Memory → Ptr → ℕ → ℕ → Memory
set_bytes m to v n a = if leb to a && ltb a (to + n) then v else m a

-- A uint32_t in memory, the high byte first.
unfoldable pub read_long : Memory → Ptr → ℕ
read_long m p = ((m p * 256 + m (offset p 1)) * 256 + m (offset p 2)) * 256 + m (offset p 3)

unfoldable pub write_long : Memory → Ptr → ℕ → Memory
write_long m p v =
    at
      (at (at (at m p (v / 2 ^ 24 % 256)) (offset p 1) (v / 2 ^ 16 % 256)) (offset p 2)
        (v / 2 ^ 8 % 256))
      (offset p 3) (v % 256)

-- Where bflt_load puts the segments: text_start, data_start and data_end.
abbrev pub text_start : BfltHeader → Ptr → Ptr → Ptr
text_start h header allocation = if is_gotpic h then offset header header_size else allocation

abbrev pub data_start : BfltHeader → Ptr → Ptr
data_start h allocation =
    if is_gotpic h then allocation else sub_long (offset allocation h.data_start) header_size

abbrev pub data_end : BfltHeader → Ptr → Ptr
data_end h allocation =
    if is_gotpic h
    then sub_long (offset allocation h.data_end) h.data_start
    else sub_long (offset allocation h.data_end) header_size

-- `copy text and data`, and `zero out bss`
unfoldable pub load_segments : Memory → BfltHeader → Ptr → Ptr → Memory
load_segments m h header allocation =
    let copied =
      if is_gotpic h
      then copy_bytes m (data_start h allocation) (offset header h.data_start)
          (sub_long h.data_end h.data_start)
      else copy_bytes m (text_start h header allocation) (offset header header_size)
          (sub_long h.data_end header_size) in
    set_bytes copied (data_end h allocation) 0 (sub_long h.bss_end h.data_end)

-- The loop over the relocations, with `n` of them left at `p`.
unfoldable pub relocate : Ptr → Ptr → Bool → ℕ → ℕ → Ptr → Memory → Memory
relocate text data_at deny_text ds zero p m = m
relocate text data_at deny_text ds (suc n) p m =
    let address = offset_to_address text data_at deny_text ds (read_long m p) in
    let moved = offset_to_address text data_at false ds (read_long m address) in
    relocate text data_at deny_text ds n (offset p 4)
      (if address == null then m else write_long m address moved)

-- The loop over the global offset table, up to UINT32_MAX.
unfoldable pub fix_got : Ptr → Ptr → ℕ → ℕ → Ptr → Memory → Option Memory
fix_got text data_at ds zero got m = none
fix_got text data_at ds (suc fuel) got m =
    let old = read_long m got in
    let rest =
      fix_got text data_at ds fuel (offset got 4)
        (write_long m got (offset_to_address text data_at false ds old)) in
    if old == 0xffff_ffff then some m else rest

-- The memory when the relocations are applied.
unfoldable pub relocated : Memory → BfltHeader → Ptr → Ptr → Memory
relocated m h header allocation =
    relocate (text_start h header allocation) (data_start h allocation) (is_gotpic h) h.data_start
      h.num_relocations (offset header h.relocations_start) (load_segments m h header allocation)

abbrev pub entry_address : BfltHeader → Ptr → Ptr → ℕ
entry_address h header allocation =
    if is_gotpic h
    then offset header h.entry_point
    else sub_long (offset allocation h.entry_point) header_size

-- The registers: program counter, stack pointer and pointer to the global offset table.
unfoldable pub start_registers : BfltHeader → Ptr → Ptr → Registers → Registers
start_registers h header allocation r =
    let r₁ = set_program_counter r (entry_address h header allocation) in
    let r₂ = set_stack_pointer r₁ (offset allocation (bflt_allocation_size h)) in
    if is_gotpic h then set_got_pointer r₂ (data_start h allocation) else r₂

-- bflt_load; `none` means that the fuel for the global offset table ran out.
unfoldable pub bflt_load :
    ℕ → Memory → BfltHeader → Ptr → Ptr → Registers → Option (Memory × Registers)
bflt_load fuel m h header allocation r =
    let m₁ = relocated m h header allocation in
    let data_at = data_start h allocation in
    let fixed =
      if is_gotpic h
      then fix_got (text_start h header allocation) data_at h.data_start fuel data_at m₁
      else some m₁ in
    elim fixed [ none ↦ none | some m₂ ↦ some (m₂, start_registers h header allocation r) ]
