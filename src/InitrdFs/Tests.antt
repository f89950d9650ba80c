-- ===== src/InitrdFs/Tests.antt =====
-- The file system on the archive with the directory `d` and the file `d/a` at the address 100.
use cenix.Base.{◌≡◌, refl, true, some, [], ◌∷◌, arith}
use cenix.Base.Bits.{test_bit}
use cenix.Base.Memory.{Holds, offset}
use cenix.Jax.{no_file}
use cenix.JaxTool.{header}
use cenix.JaxTool.RoundTrip.{described}
use cenix.JaxTool.Tests.{
  dir, greeting, memory, end, greeting-IsEntry, greeting-IsAt, memory-IsArchive,
}
use cenix.InitrdFs.{Server}
use cenix.InitrdFs.Walk.{IsDirectory}
use cenix.InitrdFs.Handlers.{
  Answers, Call, Request, Reply, Contents, handle_read, handle_open, no_reply, Call,
  directory_entry,
}
use cenix.InitrdFs.Directory.{Serves, list_dir, list_dir-children}
use cenix.InitrdFs.Open.{Opened, handle_open-Opened}
use cenix.InitrdFs.Contents.{handle_read-take}

abbrev server : Server
server = record {
  initrd_start = 96;
  initrd_end = end;
  iterator = record { start = 100; end = end };
}

d-IsDirectory : IsDirectory memory (described 100 dir) (b'd' ∷ [])
unfolding header
d-IsDirectory = record { length = refl; name = omega arith; reachable = omega arith }

d-Serves : Serves memory server (described 100 dir) (b'd' ∷ []) 100 (dir ∷ greeting ∷ [])
d-Serves = record {
  directory = d-IsDirectory;
  type = refl;
  archive = memory-IsArchive;
  start = omega arith;
  iterator = omega arith;
}

list_dir-children_example :
    list_dir memory 3 3 server 100 no_file (described 100 dir) 0 64 ≡ some (128 ∷ [])
list_dir-children_example =
    list_dir-children memory 3 3 server 100 no_file (described 100 dir) (b'd' ∷ []) 100
      (dir ∷ greeting ∷ []) 0 64 d-Serves (omega arith) (omega arith) refl

-- the name `a` of the entry comes with two bytes more
entry_name :
    (directory_entry memory
      (described 100 dir)
      (record { next = 160; file = described 128 greeting; file_address = 128 })
      true
      64).name
    ≡ b'a' ∷ 0 ∷ 0 ∷ []
unfolding header directory_entry offset
entry_name = refl

handle_read-take_example :
    handle_read memory 3 server 128 no_file (described 128 greeting) 1 8
    ≡ some (0, 1, Contents.bytes (b'i' ∷ []))
handle_read-take_example =
    handle_read-take memory 3 server 128 no_file 128 end greeting 1 8 greeting-IsEntry greeting-IsAt
      refl (omega arith)

-- the text `a` lies at 164
abbrev answers : Answers
answers Call.lock_name = 164
answers _ = 0

abbrev request : Request
request = record {
  badge = 100;
  call_number = 5;
  read_position = 0;
  read_size = 0;
  read_fast_position = 0;
  read_fast_size = 0;
  open_flags = 0;
  open_mode = 2;
}

name-Holds : Holds memory 164 (b'a' ∷ 0 ∷ [])
unfolding header
name-Holds = omega arith

handle_open-Opened_example :
    (reply : Reply) × (handle_open memory answers 3 server request no_file
        (described 100 dir)
        100
        no_reply
      ≡ some reply)
    × Opened answers 0 (some 128) reply
unfolding test_bit
handle_open-Opened_example =
    handle_open-Opened memory answers 3 server request no_file (described 100 dir) (b'd' ∷ [])
      (b'a' ∷ []) 164 100 (dir ∷ greeting ∷ []) d-Serves name-Holds (omega arith) (omega arith)
      (omega arith) refl (omega arith) refl refl refl
