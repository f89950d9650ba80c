-- ===== src/JaxTool/Tests.antt =====
-- An archive with the directory `d` and the file `d/a`, at the address 100.
use cenix.Base.{
  ℕ, ◌-◌, ◌<◌, zero, suc, ap, ◌≡◌, refl, true, false, some, List, [], ◌∷◌, ◌++◌, arith, get_or,
}
use cenix.Base.Memory.{Memory, offset}
use cenix.Jax.{
  jax_next_file, jax_find, no_file, read_name, read_description, read_fields, u16_to_ne, i64_to_ne,
}
use cenix.Jax.Bounds.{IsWithin, jax_next_file-IsWithin}
use cenix.JaxTool.{Visit, DiskEntry, header, nftw_visit, copy_file, transfer, piece_size}
use cenix.JaxTool.RoundTrip.{IsEntry, IsAt, described, jax_next_file-header}
use cenix.JaxTool.Written.{nftw_visit-header}
use cenix.JaxTool.Find.{IsArchive, jax_find-find_entry}

abbrev pub dir : DiskEntry
dir = record {
  visit = Visit.directory;
  name = b'd' ∷ [];
  mtime = 7;
  mode = 0o755;
  uid = 1;
  gid = 2;
  st_size = 4096;
  contents = [];
}

abbrev pub greeting : DiskEntry
greeting = record {
  visit = Visit.file;
  name = b'd' ∷ b'/' ∷ b'a' ∷ [];
  mtime = 8;
  mode = 0o644;
  uid = 1;
  gid = 2;
  st_size = 2;
  contents = b'h' ∷ b'i' ∷ [];
}

-- the archive without its magic number
abbrev pub archive : List ℕ
unfolding header
archive = header dir ++ (header greeting ++ greeting.contents)

abbrev pub memory : Memory
memory p = get_or (archive ++ (b'/' ∷ b'd' ∷ b'/' ∷ 0 ∷ b'a' ∷ 0 ∷ [])) (p - 100) 0

abbrev pub end : ℕ
end = 160

pub dir-IsEntry : IsEntry dir
dir-IsEntry = record {
  visited = refl;
  named = omega arith;
  name = omega arith;
  text = omega arith;
  mtime = omega arith;
  small = omega arith;
  size = refl;
}

pub greeting-IsEntry : IsEntry greeting
greeting-IsEntry = record {
  visited = refl;
  named = omega arith;
  name = omega arith;
  text = omega arith;
  mtime = omega arith;
  small = omega arith;
  size = refl;
}

pub dir-IsAt : IsAt memory 100 end dir
unfolding header
dir-IsAt = record {
  bytes = omega arith;
  contents = tt;
  inside = omega arith;
  more = omega arith;
  reachable = omega arith;
}

pub greeting-IsAt : IsAt memory 128 end greeting
unfolding header
greeting-IsAt = record {
  bytes = omega arith;
  contents = omega arith;
  inside = omega arith;
  more = omega arith;
  reachable = omega arith;
}

jax_next_file-header_example :
    jax_next_file memory (record { start = 128; end = end }) no_file
    ≡ (true, record { start = 160; end = end }, described 128 greeting)
jax_next_file-header_example =
    jax_next_file-header memory 128 end greeting no_file greeting-IsEntry greeting-IsAt

nftw_visit-header_example :
    nftw_visit 1024 3 greeting [] ≡ some (0, [] ++ (header greeting ++ greeting.contents))
nftw_visit-header_example =
    nftw_visit-header 1024 3 greeting [] greeting-IsEntry (omega arith) (omega arith)

-- a file as long as the buffer is copied, and refused
copy_full_buffer : copy_file 2 3 2 greeting.contents [] ≡ some (1, greeting.contents)
unfolding copy_file transfer piece_size
copy_full_buffer = refl

pub memory-IsArchive : IsArchive memory 100 end (dir ∷ greeting ∷ [])
memory-IsArchive = (dir-IsEntry, dir-IsAt, (greeting-IsEntry, greeting-IsAt, refl))

-- `/d/` finds the file `d/a`, as the text is a prefix of its name
jax_find-find_entry_example :
    jax_find memory 3 (record { start = 100; end = end }) 160 0 ≡ some (some (158, 2))
unfolding header
jax_find-find_entry_example =
    jax_find-find_entry memory 3 100 end 160 0 (b'/' ∷ b'd' ∷ b'/' ∷ []) (dir ∷ greeting ∷ [])
      memory-IsArchive (omega arith) (omega arith, (omega arith, (omega arith, tt))) (omega arith)
      (omega arith)

memory-found : (jax_next_file memory (record { start = 128; end = end }) no_file).0 ≡ true
memory-found = ap (λ r. r.0) jax_next_file-header_example

abbrev AreBytes : List ℕ → Type 0
AreBytes [] = Unit
AreBytes (b ∷ bs) = (b < 256) × AreBytes bs

get_or-lt : (bs : List ℕ) (i : ℕ) → AreBytes bs → get_or bs i 0 < 256
get_or-lt [] i h = omega arith
get_or-lt (b ∷ bs) zero h = h.0
get_or-lt (b ∷ bs) (suc i) h = get_or-lt bs i h.1

memory-bytes : (a : ℕ) → memory a < 256
unfolding header
memory-bytes a =
    get_or-lt (archive ++ (b'/' ∷ b'd' ∷ b'/' ∷ 0 ∷ b'a' ∷ 0 ∷ [])) (a - 100) (omega arith)

jax_next_file-IsWithin_example :
    let (found, iter', file') = jax_next_file memory (record { start = 128; end = end }) no_file in
    IsWithin end iter' file'
jax_next_file-IsWithin_example =
    jax_next_file-IsWithin memory (record { start = 128; end = end }) no_file memory-bytes
      (omega arith) memory-found

-- an archive that ends with the empty directory loses it
last_empty : (jax_next_file memory (record { start = 100; end = 128 }) no_file).0 ≡ false
unfolding header jax_next_file read_name read_description read_fields u16_to_ne i64_to_ne offset
last_empty = refl
