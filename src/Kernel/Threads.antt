-- ===== src/Kernel/Threads.antt =====
-- core/kernel/threads.c: thread ids and the hash table of threads. What a thread capability can
-- be asked for is in Handlers. Words have PTR_BITS = 32 bits, as on the 68000.
pub mod Ids
pub mod Table
pub mod Enter
pub mod Destroy
pub mod Moved
pub mod Handlers
pub mod Codec
pub mod Locks
mod Tests
use Prim.Native.Nat.{bit_xor}
use cenix.Base.{
  ℕ, zero, suc, ◌+◌, ◌-◌, ◌*◌, ◌/◌, ◌%◌, ◌^◌, Ptr, null, Bool, false, Option, none, some, List, [],
  ◌∷◌, ◌==◌, if◌then◌else◌, get_or, set, replicate,
}
use cenix.Base.Bits.{test_bit, set_bit, clear_bit}
use cenix.LinkedList.{Container, Link, init, append}
use cenix.Kernel.Arch.{Registers}
use cenix.Kernel.State.{Kernel, Thread, mode_suspended, at, heap_lock}

abbrev pub ptr_bits : ℕ
ptr_bits = 32

-- SIZE_MAX
abbrev pub size_max : ℕ
size_max = 2 ^ 32 - 1

-- `result *= 0x01000193`
abbrev times_prime : ℕ → ℕ
times_prime r = (r * 0x0100_0193) % 2 ^ 32

-- hash: 32-bit FNV-1a over the two bytes of the id, in memory order, high byte first.
unfoldable pub hash : ℕ → ℕ
hash value = times_prime (bit_xor (times_prime (bit_xor 0x811c_9dc5 (value / 256))) (value % 256))

-- The table has NUM_BUCKETS = 128 buckets.
unfoldable pub bucket_of : ℕ → ℕ
unfolding hash
bucket_of id = hash id % 128

-- The id 0 is marked as used.
unfoldable pub init_threads : Kernel → Kernel
unfolding init
init_threads k = record k { thread_hash_table = λ i. init; used_thread_ids = 1 ∷ replicate 31 0 }

-- `for (bit = 0; bit < PTR_BITS && (word & (1 << bit)) != 0; bit ++);` with `n` rounds left
unfoldable pub first_clear : ℕ → ℕ → ℕ → ℕ
first_clear zero bit word = bit
first_clear (suc n) bit word =
    let rest = first_clear n (suc bit) word in if test_bit word bit then rest else bit

-- The search for a free id in the words from index `i` on: the id, and the words with it marked.
unfoldable pub alloc_id : List ℕ → ℕ → Option (ℕ × List ℕ)
unfolding first_clear
alloc_id [] i = none
alloc_id (w ∷ ws) i =
    let rest = alloc_id ws (suc i) in
    let bit = first_clear ptr_bits 0 w in
    if w == size_max
    then elim rest [ none ↦ none | some (id, ws') ↦ some (id, w ∷ ws') ]
    else some (i * ptr_bits + bit, set_bit w bit ∷ ws)

-- `used_thread_ids[id / PTR_BITS] &= ~((size_t) 1 << (id % PTR_BITS))`
unfoldable pub release_id : List ℕ → ℕ → List ℕ
release_id ws id = set ws (id / ptr_bits) (clear_bit (get_or ws (id / ptr_bits) 0) (id % ptr_bits))

abbrev pub zeroed : Registers
zeroed = record {
  stack_pointer = 0;
  data_registers = replicate 8 0;
  address_registers = replicate 7 0;
  status_register = 0;
  program_counter = 0;
}

-- A thread capability fresh from memset, in the suspended mode, with its id and bucket.
abbrev pub new_thread : ℕ → Thread
new_thread id = record {
  exec_mode = mode_suspended;
  registers = zeroed;
  flags = record {
    currently_running = false;
    needs_cpu_update = false;
    blocked_on_send = false;
    blocked_on_receive = false;
  };
  runqueue = none;
  thread_id = id;
  bucket_number = bucket_of id;
  blocked_on = null;
  message_buffer = null;
  sending_badge = 0;
}

abbrev pub no_link : Link
no_link = record { prev = null; next = null }

-- The new thread at the address `p`, entered in the hash table.
unfoldable pub add_thread : Kernel → Ptr → ℕ → Kernel
add_thread k p id =
    let b = bucket_of id in
    let (c, links) = append (k.thread_hash_table b) (at k.table_entry p no_link) p in
    record k {
      threads = at k.threads p (new_thread id);
      thread_hash_table = at k.thread_hash_table b c;
      table_entry = links;
      runqueue_entry = at k.runqueue_entry p no_link;
      cpu_update_entry = at k.cpu_update_entry p no_link;
      blocked_queue = at k.blocked_queue p no_link;
    }

-- alloc_thread, with heap_alloc as an argument: it may move other objects, and returns NULL if it
-- fails.
unfoldable pub alloc_thread : (Kernel → Kernel × Ptr) → Kernel → Kernel × Ptr
alloc_thread heap_alloc k = elim (alloc_id k.used_thread_ids 0) [
  | none ↦ (k, null)
  | some (id, used) ↦
      let (k₁, p) = heap_alloc (record k { used_thread_ids = used }) in
      if p == null
      then (record k₁ { used_thread_ids = release_id k₁.used_thread_ids id }, null)
      else (add_thread k₁ p id, p)
]

-- The walk of look_up_thread_by_id along a bucket; `none` means that the fuel ran out.
unfoldable pub find_thread : ℕ → Ptr → ℕ → Kernel → Option Ptr
find_thread zero t id k = none
find_thread (suc fuel) t id k =
    let rest = find_thread fuel (k.table_entry t).next id k in
    if t == null then some null else if (k.threads t).thread_id == id then some t else rest

-- look_up_thread_by_id: the thread, whether it has been locked here, and the kernel.
unfoldable pub look_up_thread_by_id : ℕ → ℕ → ℕ → Kernel → Option (Ptr × Bool × Kernel)
look_up_thread_by_id fuel id bucket k =
    elim (find_thread fuel (k.thread_hash_table bucket).start id k) [
      | none ↦ none
      | some t ↦
          let (locked, k') = heap_lock k t in
          if t == null then some (null, false, k) else some (t, locked, k')
    ]
