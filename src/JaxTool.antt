-- ===== src/JaxTool.antt =====
-- utils/jax/create.c and utils/jax/endianness.c: the bytes that the jax utility writes for a file.
pub mod RoundTrip
pub mod Written
pub mod Find
pub mod Tests
use cenix.Base.{
  ℕ, zero, suc, ◌+◌, ◌-◌, ◌*◌, ◌/◌, ◌%◌, ◌^◌, Bool, true, false, not, ◌==◌, leb, ltb, if◌then◌else◌,
  List, [], ◌∷◌, ◌++◌, Option, none, some, length, take, drop, min,
}
use cenix.Jax.{type_directory, type_link, type_regular}

-- The `type` that nftw passes on: FTW_F, FTW_D and FTW_SL, and the two failures FTW_DNR and FTW_NS.
pub data Visit : Type 0 where
  file directory link unreadable unknown : Visit

-- A file of the disk: its name, what stat says, and its contents or the target of the link. The
-- st_mtime and st_size are their bit patterns.
pub record DiskEntry : Type 0 where
  pub visit : Visit
  pub name : List ℕ
  pub mtime : ℕ
  pub mode : ℕ
  pub uid : ℕ
  pub gid : ℕ
  pub st_size : ℕ
  pub contents : List ℕ

-- u16_to_le, and i64_to_le: the bytes of a number, the lowest first
abbrev pub bytes_le : ℕ → ℕ → List ℕ
bytes_le zero a = []
bytes_le (suc n) a = a % 256 ∷ bytes_le n (a / 256)

abbrev pub u16_to_le : ℕ → List ℕ
u16_to_le a = bytes_le 2 a

abbrev pub i64_to_le : ℕ → List ℕ
i64_to_le a = bytes_le 8 a

abbrev pub record_type : Visit → ℕ
record_type Visit.directory = type_directory
record_type Visit.link = type_link
record_type _ = type_regular

-- The size that the record says.
abbrev pub size_of : Visit → ℕ → ℕ
size_of Visit.directory size = 0
size_of _ size = size

abbrev pub written_size : DiskEntry → ℕ
written_size e = size_of e.visit e.st_size

-- What stands before the contents; the `name_length` is a uint16_t.
unfoldable pub header : DiskEntry → List ℕ
header e =
    let name_length = length e.name % 2 ^ 16 in
    (record_type e.visit ∷ u16_to_le name_length)
    ++ (take name_length e.name
        ++ (u16_to_le 0
            ++ (i64_to_le e.mtime
                ++ (u16_to_le e.mode
                    ++ (u16_to_le e.uid ++ (u16_to_le e.gid ++ i64_to_le (written_size e)))))))

-- fread or fwrite of one item of n bytes, which succeeds unless n is 0 or fewer bytes are left:
-- the n bytes and the rest
unfoldable pub transfer : ℕ → List ℕ → Option (List ℕ × List ℕ)
transfer n bytes =
    if n == 0
    then none
    else if ltb (length bytes) n
    then none
    else some (take n bytes, drop n bytes)

-- `file_size > BUFSIZ ? BUFSIZ : (size_t) file_size`
unfoldable pub piece_size : ℕ → ℕ → ℕ
piece_size bufsiz left = if ltb bufsiz left then bufsiz else left

-- The loop that copies a file of which `left` bytes are left, which goes on while `left >= 0`, in
-- pieces of BUFSIZ bytes; each round is one unit of fuel.
unfoldable pub copy_file : ℕ → ℕ → ℕ → List ℕ → List ℕ → Option (ℕ × List ℕ)
copy_file bufsiz zero left bytes archive = none
copy_file bufsiz (suc fuel) left bytes archive = elim (transfer (piece_size bufsiz left) bytes) [
  | none ↦ some (1, archive)
  | some (piece, rest) ↦ elim (ltb left bufsiz) [
    | true ↦ some (0, archive ++ piece)
    | false ↦ copy_file bufsiz fuel (left - bufsiz) rest (archive ++ piece)
  ]
]

-- The link's branch: readlink fills a buffer of st_size bytes. Where the target is shorter, the size
-- in the record is written again.
unfoldable pub copy_link : DiskEntry → List ℕ → ℕ × List ℕ
copy_link e archive =
    let read = min (length e.contents) e.st_size in
    let archive' =
      if read == e.st_size then archive else take (length archive - 8) archive ++ i64_to_le read in
    if leb (2 ^ 63) e.st_size
    then (1, archive)
    else if read == 0
    then (1, archive')
    else (0, archive' ++ take read e.contents)

-- FTW_DNR and FTW_NS
abbrev pub is_failure : Visit → Bool
is_failure Visit.unreadable = true
is_failure Visit.unknown = true
is_failure _ = false

-- The part of nftw_visit behind the header.
unfoldable pub write_contents : Visit → ℕ → ℕ → DiskEntry → List ℕ → Option (ℕ × List ℕ)
write_contents Visit.file bufsiz fuel e archive =
    if leb (2 ^ 63) e.st_size
    then some (0, archive)
    else copy_file bufsiz fuel e.st_size e.contents archive
write_contents Visit.link bufsiz fuel e archive = some (copy_link e archive)
write_contents _ bufsiz fuel e archive = some (0, archive)

-- nftw_visit: the result, and the archive. `none` means that the fuel ran out.
unfoldable pub nftw_visit : ℕ → ℕ → DiskEntry → List ℕ → Option (ℕ × List ℕ)
nftw_visit bufsiz fuel e archive =
    let name_length = length e.name % 2 ^ 16 in
    if is_failure e.visit
    then some (0, archive)
    else if name_length == 0
    then some (1, archive ++ (record_type e.visit ∷ u16_to_le name_length))
    else write_contents e.visit bufsiz fuel e (archive ++ header e)
