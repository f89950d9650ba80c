-- ===== src/Kernel/Threads/Tests.antt =====
-- A table with the threads 8 (id 1) and 16 (id 2), and the theorems there.
use cenix.Base.{
  ℕ, zero, suc, Ptr, null, ◌≡◌, ◌≢◌, ◌⊎◌, refl, Bool-cases, inl, inr, true, false, some, List, [],
  ◌∷◌, ◌++◌, arith, ◌==◌, if◌then◌else◌, has, replicate, ◌<◌,
}
use cenix.Base.Bits.{set_bit, test_bit}
use cenix.LinkedList.Shape.{IsList}
use cenix.Kernel.Arch.{Registers}
use cenix.Kernel.State.{Kernel, mode_running, mode_suspended, at}
use cenix.Kernel.Scheduler.Tests.{thread, blank, empty, busy, waits, busy-IsReady, busy-IsTwoWay}
use cenix.Kernel.Scheduler.Ready.{IsReady}
use cenix.Kernel.Scheduler.Suspend.{IsTwoWay}
use cenix.Kernel.Threads.{hash, bucket_of, alloc_id, alloc_thread, look_up_thread_by_id, zeroed}
use cenix.Kernel.Threads.Handlers.{
  read_registers, write_registers, resume, suspend, registers_bytes, thread_destructor,
}
use cenix.Kernel.Threads.Ids.{used, IsWords, Search, alloc_id-Search}
use cenix.Kernel.Threads.Table.{IsTable, LookUp, look_up_thread_by_id-LookUp}
use cenix.Kernel.Threads.Enter.{IsPlain, Allocated, alloc_thread-Allocated}
use cenix.Kernel.Threads.Destroy.{left, thread_destructor-IsTable}
use cenix.Kernel.Threads.Codec.{
  AreLongs, IsRegisters, user_registers, write_registers-user, write-read_registers,
}
use cenix.Kernel.Threads.Locks.{resume-IsReady, suspend-IsReady}

-- FNV-1a of the bytes 0 and 1, and 0 and 2.
hash_of_1 : hash 1 ≡ 0x1076_963a
unfolding hash
hash_of_1 = refl

bucket_of_1 : bucket_of 1 ≡ 58
unfolding bucket_of
bucket_of_1 = refl

bucket_of_2 : bucket_of 2 ≡ 39
unfolding bucket_of
bucket_of_2 = refl

abbrev ids : List ℕ
ids = 7 ∷ replicate 31 0

abbrev named : Kernel
named = record busy {
  thread_hash_table =
      at (at (λ i. empty) 58 (record { start = 8; end = 8 })) 39 (record { start = 16; end = 16 });
  used_thread_ids = ids;
  threads =
      at
        (at (λ a. thread mode_suspended 9 0) 8
          (record (thread mode_running 1 100) { bucket_number = 58 }))
        16 (record (thread mode_running 2 200) { bucket_number = 39 });
}

abbrev buckets : ℕ → List Ptr
buckets = at (at (λ i. []) 58 (8 ∷ [])) 39 (16 ∷ [])

single : (t : Ptr) → t ≢ null → IsList blank (record { start = t; end = t }) (t ∷ [])
single t ne = record { chain = (refl, ne, refl, refl); back = (refl, tt); last = refl }

nothing : IsList blank empty []
nothing = record { chain = refl; back = tt; last = refl }

entry : (b : ℕ) (t : Ptr) → has t (buckets b) ≡ true → ((b ≡ 39) × (t ≡ 16)) ⊎ ((b ≡ 58) × (t ≡ 8))
entry b t i = elim (Bool-cases (b == 39)) [
  | inl e ↦ inl (ground arith, ground (arith, i))
  | inr n ↦ inr (ground (arith, i), ground (arith, i))
]

named-IsTable : IsTable named buckets
unfolding test_bit
named-IsTable = record {
  lists = λ b. elim (Bool-cases (b == 39)) [
    | inl e ↦ rw e (single 16 (omega arith))
    | inr n ↦ rw n (elim (Bool-cases (b == 58)) [
      | inl e ↦ rw e (single 8 (omega arith))
      | inr m ↦ rw m nothing
    ])
  ];
  placed = λ b t i. elim (entry b t i) [
    | inl (eb, et) ↦ rw (eb, et) (bucket_of_2, refl, refl)
    | inr (eb, et) ↦ rw (eb, et) (bucket_of_1, refl, refl)
  ];
  unique = λ b t u i j e. ground arith;
}

IsWords-zeros : (n : ℕ) → IsWords (replicate n 0)
IsWords-zeros zero = tt
IsWords-zeros (suc n) = (omega arith, IsWords-zeros n)

alloc_id-Search_example : Search ids 0 (alloc_id ids 0)
alloc_id-Search_example = alloc_id-Search ids 0 (omega arith, IsWords-zeros 31)

alloc_id-next : alloc_id ids 0 ≡ some (3, 15 ∷ replicate 31 0)
unfolding alloc_id set_bit test_bit
alloc_id-next = refl

look_up_thread_by_id-LookUp_example : LookUp named 1 (8 ∷ []) (look_up_thread_by_id 2 1 58 named)
look_up_thread_by_id-LookUp_example =
    look_up_thread_by_id-LookUp named buckets 2 1 58 named-IsTable (omega arith)

-- the new thread is put at 24
abbrev bump : Kernel → Kernel × Ptr
bump k = (k, 24)

bump-IsPlain : (ws : List ℕ) → IsPlain bump (record named { used_thread_ids = ws }) buckets
bump-IsPlain ws = record {
  ids = refl;
  table = λ w. w;
  fresh = λ b. ground arith;
  names = λ t. refl;
}

alloc_thread-Allocated_example : Allocated bump named buckets (alloc_thread bump named)
alloc_thread-Allocated_example =
    alloc_thread-Allocated bump named buckets (omega arith, IsWords-zeros 31) named-IsTable
      bump-IsPlain

abbrev keep : Kernel → Ptr → Kernel
keep k t = k

thread_destructor-IsTable_example :
    IsTable (thread_destructor keep named 8) (left buckets 8 58)
    × ((j : ℕ)
        → used (thread_destructor keep named 8).used_thread_ids j
          ≡ (if j == 1 then false else used ids j))
thread_destructor-IsTable_example =
    thread_destructor-IsTable keep named 8 buckets 58 named-IsTable refl

resume-IsReady_example :
    ((resume busy 32).0 ≡ 0)
    × IsReady (resume busy 32).1 (8 ∷ 16 ∷ 32 ∷ [])
    × ((resume busy 32).1.kinds ≡ busy.kinds)
resume-IsReady_example = resume-IsReady busy 32 waits (omega arith) busy-IsReady

suspend-IsReady_example :
    ((suspend busy 8).0 ≡ 0)
    × IsReady (suspend busy 8).1 (16 ∷ [])
    × IsTwoWay (suspend busy 8).1 (16 ∷ [])
    × ((suspend busy 8).1.kinds ≡ busy.kinds)
suspend-IsReady_example = suspend-IsReady busy 8 waits refl refl busy-IsTwoWay busy-IsReady

-- registers that ask for the supervisor mode
abbrev greedy : Registers
greedy = record zeroed { status_register = 0x2704; program_counter = 0x1_0000 }

zeros-AreLongs : (n : ℕ) → AreLongs (replicate n 0)
zeros-AreLongs zero = tt
zeros-AreLongs (suc n) = (omega arith, zeros-AreLongs n)

zeroed-IsRegisters : IsRegisters zeroed
zeroed-IsRegisters = record {
  stack = omega arith;
  longs = (refl, zeros-AreLongs 8);
  address = (refl, zeros-AreLongs 7);
  status = omega arith;
  counter = omega arith;
}

greedy-IsRegisters : IsRegisters greedy
greedy-IsRegisters = record {
  stack = omega arith;
  longs = (refl, zeros-AreLongs 8);
  address = (refl, zeros-AreLongs 7);
  status = omega arith;
  counter = omega arith;
}

abbrev zeroed_thread : Kernel
zeroed_thread = record busy {
  threads = λ a. record (thread mode_suspended 1 0) { registers = zeroed };
}

write-read_registers_example :
    (read_registers
      (write_registers zeroed_thread 8 (registers_bytes greedy ++ []) 70).1
      8
      (replicate 72 9)
      100).0
    ≡ registers_bytes (user_registers greedy) ++ 9 ∷ 9 ∷ []
write-read_registers_example =
    write-read_registers zeroed_thread 8 greedy [] (replicate 72 9) 70 100 zeroed-IsRegisters
      greedy-IsRegisters (omega arith) (omega arith)

write_registers-user_example :
    ((write_registers busy 8 (registers_bytes greedy) 70).0 ≡ 0)
    × (((write_registers busy 8 (registers_bytes greedy) 70).1.threads 8).registers.status_register
        < 32)
    × ((a : Ptr)
        → a ≢ 8
        → (write_registers busy 8 (registers_bytes greedy) 70).1.threads a ≡ busy.threads a)
write_registers-user_example = write_registers-user busy 8 (registers_bytes greedy) 70

-- thread 8 of `named`, in front of 16 in queue 63, has been copied to 40
abbrev copied : Kernel
copied = record named {
  threads = at named.threads 40 (record (named.threads 8) { runqueue = some 63 });
  runqueue_entry = at named.runqueue_entry 40 (named.runqueue_entry 8);
}
