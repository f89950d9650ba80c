-- ===== src/InitrdFs.antt =====
-- core/initrd_fs/main.c: the file system server for the initrd, a jax archive in its memory.
pub mod Walk
pub mod Handlers
pub mod Directory
pub mod Open
pub mod Contents
mod Tests
use cenix.Base.{
  ℕ, zero, suc, ◌+◌, ◌-◌, Ptr, null, Bool, true, false, not, ◌&&◌, ◌||◌, Option, none, some, ◌==◌,
  ltb, if◌then◌else◌,
}
use cenix.Base.Memory.{Memory, offset}
use cenix.Jax.{Iterator, File, jax_next_file}

-- struct state, less its two capabilities, which name slots of the server
pub record Server : Type 0 where
  pub initrd_start : Ptr
  pub initrd_end : Ptr
  pub iterator : Iterator

-- next_file: the address behind the file, or NULL
unfoldable pub next_file : Memory → Ptr → Ptr → File → Ptr × File
next_file m address initrd_end file =
    let (found, iterator, file') =
      jax_next_file m (record { start = address; end = initrd_end }) file in
    (if found then iterator.start else null, file')

-- The loops that look for a path separator in `n` characters.
unfoldable pub has_separator : Memory → Ptr → ℕ → Bool
has_separator m name zero = false
has_separator m name (suc n) = (m name == b'/') || has_separator m (offset name 1) n

-- The loop that compares `n` characters.
unfoldable pub same_prefix : Memory → Ptr → Ptr → ℕ → Bool
same_prefix m p q zero = true
same_prefix m p q (suc n) = (m p == m q) && same_prefix m (offset p 1) (offset q 1) n

-- The tests on a file in the loop of next_file_in_dir.
unfoldable pub is_in_dir : Memory → File → File → Bool
is_in_dir m dir_file file =
    let n = dir_file.name_length in
    if n == 0
    then not (has_separator m file.name file.name_length)
    else if ltb file.name_length (n + 1)
    then false
    else if not (same_prefix m dir_file.name file.name n) || not (m (offset file.name n) == b'/')
    then false
    else not (has_separator m (offset file.name (n + 1)) (file.name_length - (n + 1)))

-- What next_file_in_dir returns, and what it leaves in `file` and `file_address`.
pub record Found : Type 0 where
  pub next : Ptr
  pub file : File
  pub file_address : Ptr

-- The loop of next_file_in_dir; `none` means that the fuel ran out.
unfoldable pub walk_dir : Memory → ℕ → File → Ptr → Ptr → File → Option Found
walk_dir m zero dir_file address initrd_end file = none
walk_dir m (suc fuel) dir_file address initrd_end file =
    let (next, file') = next_file m address initrd_end file in
    let rest = walk_dir m fuel dir_file next initrd_end file' in
    if next == null
    then some (record { next = null; file = file'; file_address = null })
    else if is_in_dir m dir_file file'
    then some (record { next = next; file = file'; file_address = address })
    else rest

unfoldable pub next_file_in_dir : Memory → ℕ → File → Ptr → Server → File → Option Found
next_file_in_dir m fuel dir_file address server file =
    if ltb address server.initrd_start
    then some (record { next = null; file = file; file_address = null })
    else walk_dir m fuel dir_file address server.initrd_end file
