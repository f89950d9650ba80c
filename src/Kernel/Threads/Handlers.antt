-- ===== src/Kernel/Threads/Handlers.antt =====
-- What a thread capability can be asked for: the invocation handlers of core/kernel/threads.c, and
-- what becomes of the thread's links when its capability is destroyed or its memory is moved.
use cenix.Base.{
  ℕ, zero, suc, ◌+◌, ◌*◌, ◌/◌, ◌%◌, ◌^◌, min, Ptr, null, none, some, List, [], ◌∷◌, ◌++◌, ◌==◌,
  if◌then◌else◌, get_or, take, drop,
}
use cenix.LinkedList.{remove, update_address}
use cenix.Kernel.Arch.{Registers, sanitize_registers}
use cenix.Kernel.State.{Kernel, mode_suspended, at, set_thread, while_locked}
use cenix.Kernel.Scheduler.{resume_thread, suspend_thread}
use cenix.Kernel.Threads.{release_id}

-- The bytes of a word in memory, from high to low.
abbrev pub long_bytes : ℕ → List ℕ
long_bytes n = n / 2 ^ 24 % 256 ∷ n / 2 ^ 16 % 256 ∷ n / 2 ^ 8 % 256 ∷ n % 256 ∷ []

abbrev pub short_bytes : ℕ → List ℕ
short_bytes n = n / 2 ^ 8 % 256 ∷ n % 256 ∷ []

abbrev pub longs_bytes : List ℕ → List ℕ
longs_bytes [] = []
longs_bytes (n ∷ ns) = long_bytes n ++ longs_bytes ns

abbrev pub long_at : List ℕ → ℕ
long_at m = ((get_or m 0 0 * 256 + get_or m 1 0) * 256 + get_or m 2 0) * 256 + get_or m 3 0

abbrev pub short_at : List ℕ → ℕ
short_at m = get_or m 0 0 * 256 + get_or m 1 0

abbrev pub longs_at : ℕ → List ℕ → List ℕ
longs_at zero m = []
longs_at (suc n) m = long_at m ∷ longs_at n (drop 4 m)

-- struct thread_registers in memory: 70 bytes without padding, as words are aligned to 16 bits.
abbrev pub registers_size : ℕ
registers_size = 70

unfoldable pub registers_bytes : Registers → List ℕ
registers_bytes r =
    long_bytes r.stack_pointer
    ++ (longs_bytes r.data_registers
        ++ (longs_bytes r.address_registers
            ++ (short_bytes r.status_register ++ long_bytes r.program_counter)))

unfoldable pub registers_from : List ℕ → Registers
registers_from m = record {
  stack_pointer = long_at m;
  data_registers = longs_at 8 (drop 4 m);
  address_registers = longs_at 7 (drop 36 m);
  status_register = short_at (drop 64 m);
  program_counter = long_at (drop 66 m);
}

-- memcpy
abbrev pub memcpy : List ℕ → List ℕ → ℕ → List ℕ
memcpy dest src n = take n src ++ drop n dest

-- `args->size > sizeof(struct thread_registers) ? sizeof(struct thread_registers) : args->size`
abbrev pub copied_size : ℕ → ℕ
copied_size size = min size registers_size

-- read_registers: the bytes at `args->address` afterwards.
unfoldable pub read_registers : Kernel → Ptr → List ℕ → ℕ → List ℕ × Kernel
read_registers k resource buffer size =
    while_locked resource
      (λ k. (memcpy buffer (registers_bytes (k.threads resource).registers) (copied_size size), k))
      k

-- write_registers, with the bytes at `args->address`.
unfoldable pub write_registers : Kernel → Ptr → List ℕ → ℕ → ℕ × Kernel
write_registers k resource buffer size =
    while_locked resource
      (λ k.
        let old = registers_bytes (k.threads resource).registers in
        let new = registers_from (memcpy old buffer (copied_size size)) in
        (
          0,
          set_thread k resource
              (record (k.threads resource) { registers = sanitize_registers new }),
        ))
      k

unfoldable pub resume : Kernel → Ptr → ℕ × Kernel
resume k resource = while_locked resource (λ k. (0, resume_thread k resource mode_suspended)) k

unfoldable pub suspend : Kernel → Ptr → ℕ × Kernel
suspend k resource = while_locked resource (λ k. (0, suspend_thread k resource mode_suspended)) k

-- `LIST_REMOVE(*thread->runqueue, runqueue_entry, thread)`, if the thread waits.
unfoldable pub unlink_runqueue : Kernel → Ptr → Kernel
unlink_runqueue k t = elim (k.threads t).runqueue [
  | none ↦ k
  | some q ↦
      let (c, links) = remove (k.priority_queues q) k.runqueue_entry t in
      record k { priority_queues = at k.priority_queues q c; runqueue_entry = links }
]

unfoldable pub unlink_cpu_update : Kernel → Ptr → Kernel
unlink_cpu_update k t =
    let (c, links) = remove k.needs_cpu_time_update k.cpu_update_entry t in
    if (k.threads t).flags.needs_cpu_update
    then record k { needs_cpu_time_update = c; cpu_update_entry = links }
    else k

-- `LIST_REMOVE(thread_hash_table[thread->bucket_number], table_entry, thread)`
unfoldable pub unlink_table : Kernel → Ptr → Kernel
unlink_table k t =
    let b = (k.threads t).bucket_number in
    let (c, links) = remove (k.thread_hash_table b) k.table_entry t in
    record k { thread_hash_table = at k.thread_hash_table b c; table_entry = links }

unfoldable pub unlink_endpoint : Kernel → Ptr → Kernel
unlink_endpoint k t =
    let e = (k.threads t).blocked_on in
    let (cs, sending) = remove (k.endpoints e).blocked_sending k.blocked_queue t in
    let (cr, receiving) = remove (k.endpoints e).blocked_receiving k.blocked_queue t in
    if e == null
    then k
    else if (k.threads t).flags.blocked_on_send
    then record k {
      endpoints = at k.endpoints e (record (k.endpoints e) { blocked_sending = cs });
      blocked_queue = sending;
    }
    else record k {
      endpoints = at k.endpoints e (record (k.endpoints e) { blocked_receiving = cr });
      blocked_queue = receiving;
    }

-- thread_destructor. `delete_root` stands for the deletion of the thread's root capability.
unfoldable pub thread_destructor : (Kernel → Ptr → Kernel) → Kernel → Ptr → Kernel
thread_destructor delete_root k t =
    let k₁ = unlink_runqueue (delete_root k t) t in
    let k₂ = unlink_endpoint (unlink_table (unlink_cpu_update k₁ t) t) t in
    record k₂ { used_thread_ids = release_id k₂.used_thread_ids (k₂.threads t).thread_id }

unfoldable pub move_runqueue : Kernel → Ptr → Kernel
move_runqueue k t = elim (k.threads t).runqueue [
  | none ↦ k
  | some q ↦
      let (c, links) = update_address (k.priority_queues q) k.runqueue_entry t in
      record k { priority_queues = at k.priority_queues q c; runqueue_entry = links }
]

unfoldable pub move_endpoint : Kernel → Ptr → Kernel
move_endpoint k t =
    let e = (k.threads t).blocked_on in
    let (cs, sending) = update_address (k.endpoints e).blocked_sending k.blocked_queue t in
    let (cr, receiving) = update_address (k.endpoints e).blocked_receiving k.blocked_queue t in
    if e == null
    then k
    else if (k.threads t).flags.blocked_on_send
    then record k {
      endpoints = at k.endpoints e (record (k.endpoints e) { blocked_sending = cs });
      blocked_queue = sending;
    }
    else if (k.threads t).flags.blocked_on_receive
    then record k {
      endpoints = at k.endpoints e (record (k.endpoints e) { blocked_receiving = cr });
      blocked_queue = receiving;
    }
    else k

unfoldable pub move_table : Kernel → Ptr → Kernel
move_table k t =
    let b = (k.threads t).bucket_number in
    let (c, links) = update_address (k.thread_hash_table b) k.table_entry t in
    record k { thread_hash_table = at k.thread_hash_table b c; table_entry = links }

unfoldable pub move_cpu_update : Kernel → Ptr → Kernel
move_cpu_update k t =
    let (c, links) = update_address k.needs_cpu_time_update k.cpu_update_entry t in
    if (k.threads t).flags.needs_cpu_update
    then record k { needs_cpu_time_update = c; cpu_update_entry = links }
    else k

-- on_thread_moved, once the thread's memory has been copied to `t`. What it does for the root
-- capability's neighbours is no part of this state.
unfoldable pub on_thread_moved : Kernel → Ptr → Kernel
on_thread_moved k t =
    let k' = move_cpu_update (move_table (move_endpoint (move_runqueue k t) t) t) t in
    if (k'.threads t).flags.currently_running then record k' { current_thread = t } else k'
