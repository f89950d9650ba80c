-- ===== src/Jax.antt =====
-- common/jax.c: the iterator over the files of a jax archive in memory.
pub mod Bounds
use cenix.Base.{
  ℕ, zero, suc, ◌+◌, ◌*◌, ◌%◌, ◌^◌, Ptr, Bool, true, false, not, ◌&&◌, ◌||◌, Option, none, some,
  ◌==◌, leb, if◌then◌else◌,
}
use cenix.Base.Memory.{Memory, offset}

-- struct jax_iterator
pub record Iterator : Type 0 where
  pub start : Ptr
  pub end : Ptr

-- struct jax_file. The int64_t fields are their bit patterns.
pub record File : Type 0 where
  pub type : ℕ
  pub name_length : ℕ
  pub name : Ptr
  pub description_length : ℕ
  pub description : Ptr
  pub timestamp : ℕ
  pub mode : ℕ
  pub owner : ℕ
  pub group : ℕ
  pub size : ℕ
  pub contents : Ptr

-- TYPE_DIRECTORY, TYPE_LINK and TYPE_REGULAR
abbrev pub type_directory : ℕ
type_directory = b'd'

abbrev pub type_link : ℕ
type_link = b's'

abbrev pub type_regular : ℕ
type_regular = b'r'

-- `bytes[i]`
abbrev pub byte : Memory → Ptr → ℕ → ℕ
byte m p i = m (offset p i)

-- open_jax: the iterator, unless the magic number is missing
unfoldable pub open_jax : Memory → Ptr → Ptr → Option Iterator
open_jax m start end =
    if not (leb (offset start 4) end)
      || (not (byte m start 0 == b'^')
          || (not (byte m start 1 == b'j')
              || (not (byte m start 2 == b'a') || not (byte m start 3 == b'x'))))
    then none
    else some (record { start = offset start 4; end = end })

unfoldable pub u16_to_ne : Memory → Ptr → ℕ
u16_to_ne m p = byte m p 0 + byte m p 1 * 256

-- The loop from the byte `8 - n` on.
abbrev pub bytes_to_ne : Memory → Ptr → ℕ → ℕ → ℕ
bytes_to_ne m p i zero = 0
bytes_to_ne m p i (suc n) = byte m p i + 256 * bytes_to_ne m p (suc i) n

unfoldable pub i64_to_ne : Memory → Ptr → ℕ
i64_to_ne m p = bytes_to_ne m p 0 8

-- `iter->start >= iter->end || iter->start + n >= iter->end`
abbrev pub ends_within : Iterator → ℕ → Bool
ends_within iter n = leb iter.end iter.start || leb iter.end (offset iter.start n)

-- The three parts of a record; each moves the iterator behind the part.
unfoldable pub read_name : Memory → Iterator → File → Iterator × File
read_name m iter file =
    let length = u16_to_ne m (offset iter.start 1) in
    (
      record iter { start = offset iter.start (length + 3) },
      record file { type = byte m iter.start 0; name_length = length; name = offset iter.start 3 },
    )

unfoldable pub read_description : Memory → Iterator → File → Iterator × File
read_description m iter file =
    let length = u16_to_ne m iter.start in
    (
      record iter { start = offset iter.start (length + 2) },
      record file { description_length = length; description = offset iter.start 2 },
    )

unfoldable pub read_fields : Memory → Iterator → File → Iterator × File
read_fields m iter file =
    let size = i64_to_ne m (offset iter.start 14) in
    (
      record iter { start = offset iter.start (size + 22) },
      record file {
        timestamp = i64_to_ne m iter.start;
        mode = u16_to_ne m (offset iter.start 8);
        owner = u16_to_ne m (offset iter.start 10);
        group = u16_to_ne m (offset iter.start 12);
        size = size;
        contents = offset iter.start 22;
      },
    )

-- jax_next_file: the result, and what it leaves in `iter` and in `file`
unfoldable pub jax_next_file : Memory → Iterator → File → Bool × Iterator × File
jax_next_file m iter file =
    let (iter₁, file₁) = read_name m iter file in
    let (iter₂, file₂) = read_description m iter₁ file₁ in
    let (iter₃, file₃) = read_fields m iter₂ file₂ in
    if ends_within iter 3
    then (false, iter, file)
    else if ends_within iter₁ 2
    then (false, iter₁, file₁)
    else if ends_within iter₂ 22
    then (false, iter₂, file₂)
    else (leb iter₃.start iter₃.end, iter₃, file₃)

-- The loop over the characters of a name, of which `n` are left: where it stops in `to_find`.
unfoldable pub compare_name : Memory → Ptr → Ptr → ℕ → Ptr
compare_name m name to_find zero = to_find
compare_name m name to_find (suc n) =
    if (m name == m to_find) && not (m to_find == 0)
    then compare_name m (offset name 1) (offset to_find 1) n
    else to_find

abbrev is_other_type : ℕ → File → Bool
is_other_type type file = not (type == 0) && not (file.type == type)

abbrev is_other_name : Memory → Ptr → File → Bool
is_other_name m to_find file = not (m (compare_name m file.name to_find file.name_length) == 0)

-- The loop of jax_find; `none` means that the fuel ran out.
unfoldable pub find_file : Memory → ℕ → Iterator → File → Ptr → ℕ → Option (Option (Ptr × ℕ))
find_file m zero iter file to_find type = none
find_file m (suc fuel) iter file to_find type =
    let (found, iter', file') = jax_next_file m iter file in
    let rest = find_file m fuel iter' file' to_find type in
    if not found
    then some none
    else if is_other_type type file' || is_other_name m to_find file'
    then rest
    else some (some (file'.contents, file'.size % 2 ^ 32))

abbrev pub no_file : File
no_file = record {
  type = 0;
  name_length = 0;
  name = 0;
  description_length = 0;
  description = 0;
  timestamp = 0;
  mode = 0;
  owner = 0;
  group = 0;
  size = 0;
  contents = 0;
}

-- jax_find: the data and the size of the file
unfoldable pub jax_find : Memory → ℕ → Iterator → Ptr → ℕ → Option (Option (Ptr × ℕ))
jax_find m fuel iter to_find type =
    let skipped = if m to_find == b'/' then offset to_find 1 else to_find in
    find_file m fuel iter no_file skipped type
