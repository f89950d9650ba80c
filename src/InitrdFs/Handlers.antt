-- ===== src/InitrdFs/Handlers.antt =====
-- The handlers of core/initrd_fs/main.c, for the calls of core/include/sys/vfs.h.
use mathlib.Core.Option
use cenix.Base.{
  ℕ, zero, suc, ◌+◌, ◌-◌, ◌/◌, ◌%◌, ◌^◌, Ptr, null, Bool, false, not, ◌&&◌, ◌||◌, Option, none,
  some, List, [], ◌∷◌, ◌++◌, ◌==◌, leb, ltb, if◌then◌else◌,
}
use cenix.Base.Bits.{test_bit}
use cenix.Base.Memory.{Memory, offset}
use cenix.Errors.{einval, enomem, enotsup, erofs, enoent}
use cenix.Jax.{File, type_directory}
use cenix.InitrdFs.{Server, Found, next_file, next_file_in_dir}

-- The system calls of a handler: on the buffer or the name of the message, and NODE_COPY of the
-- server's endpoint with a badge.
pub data Call : Type 0 where
  lock_buffer unlock_buffer sizeof_buffer lock_name unlock_name : Call
  node_copy : ℕ → Call

-- What the kernel answers to a call.
abbrev pub Answers : Type 0
Answers = Call → ℕ

-- struct ipc_message as FD_CALL_NUMBER, FD_READ_POSITION and the other macros read it.
pub record Request : Type 0 where
  pub badge : ℕ
  pub call_number : ℕ
  pub read_position : ℕ
  pub read_size : ℕ
  pub read_fast_position : ℕ
  pub read_fast_size : ℕ
  pub open_flags : ℕ
  pub open_mode : ℕ

-- struct vfs_directory_entry
pub record DirectoryEntry : Type 0 where
  pub inode : ℕ
  pub next_entry_position : ℕ
  pub name_length : ℕ
  pub name : List ℕ

-- `sizeof(struct vfs_directory_entry)`
abbrev pub entry_size : ℕ
entry_size = 10

-- What a read leaves in its buffer.
pub data Contents : Type 0 where
  nothing : Contents
  entry : DirectoryEntry → Contents
  bytes : List ℕ → Contents

-- struct stat, less the fields that are always 0
pub record Stat : Type 0 where
  pub st_ino : ℕ
  pub st_mode : ℕ
  pub st_uid : ℕ
  pub st_gid : ℕ
  pub st_size : ℕ
  pub st_time : ℕ
  pub st_blocks : ℕ

-- The reply, which is all zeros at first, and the calls made so far.
pub record Reply : Type 0 where
  pub return_value : ℕ
  pub bytes_read : ℕ
  pub contents : Contents
  pub stat : Option Stat
  pub has_fd : Bool
  pub calls : List Call

abbrev pub no_reply : Reply
no_reply = record {
  return_value = 0;
  bytes_read = 0;
  contents = Contents.nothing;
  stat = none;
  has_fd = false;
  calls = [];
}

abbrev pub calling : Reply → Call → Reply
calling r c = record r { calls = r.calls ++ c ∷ [] }

-- memcpy from `p`
abbrev pub slice : Memory → Ptr → ℕ → List ℕ
slice m p zero = []
slice m p (suc n) = m p ∷ slice m (offset p 1) n

-- The entry of the file that has been found; `last` says that no other file follows it.
unfoldable pub directory_entry : Memory → File → Found → Bool → ℕ → DirectoryEntry
directory_entry m dir_file found last read_size =
    let n = dir_file.name_length in
    let name_length = (found.file.name_length - (if n == 0 then 0 else n - 1)) % 2 ^ 16 in
    let copied =
      if ltb (read_size - entry_size) name_length then read_size - entry_size else name_length in
    record {
      inode = found.file_address;
      next_entry_position = if last then 0 else found.next;
      name_length = copied;
      name = slice m (offset found.file.name (if n == 0 then 0 else n + 1)) copied;
    }

-- The branch of handle_read for directories: the return value, the size and the contents.
unfoldable pub read_directory :
    Memory → ℕ → Server → ℕ → File → File → ℕ → ℕ → Option (ℕ × ℕ × Contents)
read_directory m fuel server badge junk dir_file position read_size =
    let size = if ltb read_size entry_size then entry_size else read_size in
    let address = if position == 0 then badge else position in
    if ltb address server.iterator.start && not (address == 0)
    then some (einval, 0, Contents.nothing)
    else elim (next_file_in_dir m fuel dir_file address server junk) [
      | none ↦ none
      | some found ↦
          if found.next == null
          then some (einval, 0, Contents.nothing)
          else elim (next_file_in_dir m fuel dir_file found.next server junk) [
            | none ↦ none
            | some after ↦
                let e = directory_entry m dir_file found (after.next == null) size in
                some (0, e.name_length + entry_size, Contents.entry e)
          ]
    ]

-- The branch for files. The sum and the size are size_t.
unfoldable pub read_file : Memory → File → ℕ → ℕ → ℕ × ℕ × Contents
read_file m file position read_size =
    let size = file.size % 2 ^ 32 in
    let count =
      if leb size position
      then 0
      else if leb size ((position + read_size) % 2 ^ 32)
      then size - position
      else read_size in
    (0, count, Contents.bytes (slice m (offset file.contents position) count))

unfoldable pub handle_read :
    Memory → ℕ → Server → ℕ → File → File → ℕ → ℕ → Option (ℕ × ℕ × Contents)
handle_read m fuel server badge junk file position read_size =
    if file.type == type_directory
    then read_directory m fuel server badge junk file position read_size
    else some (read_file m file position read_size)

-- FD_READ_FAST_MAX_SIZE
abbrev pub read_fast_max_size : ℕ
read_fast_max_size = 56

-- FD_CALL_NUMBER: 0 to 8; the calls that this server refuses are FD_WRITE, FD_WRITE_FAST, FD_LINK,
-- FD_UNLINK and FD_TRUNCATE.
abbrev pub fd_read : ℕ
fd_read = 0

abbrev pub fd_read_fast : ℕ
fd_read_fast = 1

abbrev pub fd_stat : ℕ
fd_stat = 4

abbrev pub fd_open : ℕ
fd_open = 5

abbrev pub is_refused : ℕ → Bool
is_refused n = (n == 2) || ((n == 3) || ((n == 6) || ((n == 7) || (n == 8))))

-- The loop that compares a name with the file name asked for, over `n` characters, and the test
-- after it.
unfoldable pub names_file : Memory → Ptr → Ptr → ℕ → Bool
names_file m name filename zero = m name == m filename
names_file m name filename (suc n) =
    (m name == m filename) && names_file m (offset name 1) (offset filename 1) n

-- The tests on a file in the loop of handle_open.
abbrev pub is_named : Memory → File → Ptr → File → Bool
is_named m dir_file filename file =
    let skipped = if dir_file.name_length == 0 then 0 else dir_file.name_length + 1 in
    names_file m (offset file.name skipped) filename (file.name_length - skipped)

-- The loop of handle_open: the address of the file, if there is one.
unfoldable pub find_named : Memory → ℕ → Server → File → File → Ptr → Ptr → Option (Option Ptr)
find_named m zero server dir_file junk filename address = none
find_named m (suc fuel) server dir_file junk filename address =
    elim (next_file_in_dir m (suc fuel) dir_file address server junk) [
      | none ↦ none
      | some found ↦
          let rest = find_named m fuel server dir_file found.file filename found.next in
          if found.next == null
          then some none
          else if is_named m dir_file filename found.file
          then some (some found.file_address)
          else rest
    ]

-- The end of handle_open, with the name locked: the endpoint is copied with the address of the file
-- as its badge.
unfoldable pub reply_open : Answers → ℕ → Option Ptr → Reply → Reply
reply_open answers flags none reply =
    calling (record reply { return_value = if test_bit flags 0 then erofs else enoent })
      Call.unlock_name
reply_open answers flags (some address) reply =
    let result = answers (Call.node_copy address) in
    let copied = calling reply (Call.node_copy address) in
    calling (record copied { return_value = result; has_fd = result == 0 }) Call.unlock_name

-- handle_open. The OPEN_EXCLUSIVE flag is bit 1, MODE_WRITE and MODE_APPEND are bits 2 and 3.
unfoldable pub handle_open :
    Memory → Answers → ℕ → Server → Request → File → File → Ptr → Reply → Option Reply
handle_open m answers fuel server received junk file next reply =
    let filename = answers Call.lock_name in
    let locked = calling reply Call.lock_name in
    if not (file.type == type_directory)
    then some (record reply { return_value = enotsup })
    else if test_bit received.open_flags 1
        || (test_bit received.open_mode 2 || test_bit received.open_mode 3)
    then some (record reply { return_value = erofs })
    else if filename == null
    then some (record locked { return_value = enomem })
    else Option.map (λ found. reply_open answers received.open_flags found locked)
        (find_named m fuel server file junk filename next)

abbrev pub with_read : Reply → ℕ × ℕ × Contents → Reply
with_read reply (value, count, contents) = record reply {
  return_value = value;
  bytes_read = count;
  contents = contents;
}

unfoldable pub handle_fd_read :
    Memory → Answers → ℕ → Server → Request → File → File → Reply → Option Reply
handle_fd_read m answers fuel server received junk file reply =
    let locked = calling reply Call.lock_buffer in
    let size = answers Call.sizeof_buffer in
    let read_size = if ltb size received.read_size then size else received.read_size in
    if answers Call.lock_buffer == null
    then some (record locked { return_value = enomem })
    else Option.map
        (λ r. calling (with_read (calling locked Call.sizeof_buffer) r) Call.unlock_buffer)
        (handle_read m fuel server received.badge junk file received.read_position read_size)

unfoldable pub handle_fd_read_fast :
    Memory → ℕ → Server → Request → File → File → Reply → Option Reply
handle_fd_read_fast m fuel server received junk file reply =
    let size = received.read_fast_size in
    Option.map (with_read reply) (
      handle_read m fuel server received.badge junk file received.read_fast_position
        (if ltb read_fast_max_size size then read_fast_max_size else size))

unfoldable pub stat_of : Request → File → Stat
stat_of received file = record {
  st_ino = received.badge;
  st_mode = file.mode;
  st_uid = file.owner;
  st_gid = file.group;
  st_size = file.size % 2 ^ 32;
  st_time = file.timestamp;
  st_blocks = (file.size + 511) / 512 % 2 ^ 32;
}

unfoldable pub handle_fd_message :
    Memory → Answers → ℕ → Server → Request → File → File → Ptr → Reply → Option Reply
handle_fd_message m answers fuel server received junk file next reply =
    let number = received.call_number in
    if number == fd_read
    then handle_fd_read m answers fuel server received junk file reply
    else if number == fd_read_fast
    then handle_fd_read_fast m fuel server received junk file reply
    else if number == fd_stat
    then some (record reply { stat = some (stat_of received file) })
    else if number == fd_open
    then handle_open m answers fuel server received junk file next reply
    else if is_refused number
    then some (record reply { return_value = enotsup })
    else some reply

-- The struct jax_file of the root directory.
abbrev pub root_directory : File
root_directory = record {
  type = type_directory;
  name_length = 0;
  name = 0;
  description_length = 0;
  description = 0;
  timestamp = 0;
  mode = 0b101101101;
  owner = 0;
  group = 0;
  size = 0;
  contents = 0;
}

-- handle_ipc_message. `junk` is what the stack holds where the structs are not set.
unfoldable pub handle_ipc_message :
    Memory → Answers → ℕ → Server → Request → File → Reply → Option Reply
handle_ipc_message m answers fuel server received junk reply =
    let start = server.iterator.start in
    let (next, file) = next_file m received.badge server.initrd_end junk in
    if received.badge == 0
    then handle_fd_message m answers fuel server (record received { badge = start }) junk
        root_directory start reply
    else handle_fd_message m answers fuel server received junk file next reply
