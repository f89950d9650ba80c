-- ===== src/Kernel/State.antt =====
-- The kernel's memory as far as the scheduler, the threads and the endpoints use it:
-- core/kernel/threads.h, core/kernel/scheduler.h and core/kernel/ipc.h. Structs are reached by
-- their address; a link field of a struct is a map of its own (see LinkedList).
use cenix.Base.{ℕ, Ptr, Bool, true, false, not, ◌&&◌, ◌||◌, Option, List, ◌==◌, if◌then◌else◌}
use cenix.LinkedList.{Container, Links}
use cenix.Kernel.Arch.{Registers}

-- `exec_mode`, and the masks for it, by their bits: EXEC_MODE_BLOCKED, EXEC_MODE_SUSPENDED and
-- EXEC_MODE_EXITED.
pub record ExecMode : Type 0 where
  pub blocked : Bool
  pub suspended : Bool
  pub exited : Bool

-- EXEC_MODE_RUNNING is no bit at all.
abbrev pub mode_running : ExecMode
mode_running = record { blocked = false; suspended = false; exited = false }

abbrev pub mode_blocked : ExecMode
mode_blocked = record { blocked = true; suspended = false; exited = false }

abbrev pub mode_suspended : ExecMode
mode_suspended = record { blocked = false; suspended = true; exited = false }

-- `mode == EXEC_MODE_RUNNING`
abbrev pub is_running : ExecMode → Bool
is_running m = not (m.blocked || (m.suspended || m.exited))

-- `mode & ~reason`
abbrev pub without : ExecMode → ExecMode → ExecMode
without m r = record {
  blocked = m.blocked && not r.blocked;
  suspended = m.suspended && not r.suspended;
  exited = m.exited && not r.exited;
}

-- `mode | reason`
abbrev pub joined : ExecMode → ExecMode → ExecMode
joined m r = record {
  blocked = m.blocked || r.blocked;
  suspended = m.suspended || r.suspended;
  exited = m.exited || r.exited;
}

-- `flags`, by its bits THREAD_CURRENTLY_RUNNING, THREAD_NEEDS_CPU_UPDATE,
-- THREAD_BLOCKED_ON_SEND and THREAD_BLOCKED_ON_RECEIVE.
pub record ThreadFlags : Type 0 where
  pub currently_running : Bool
  pub needs_cpu_update : Bool
  pub blocked_on_send : Bool
  pub blocked_on_receive : Bool

-- struct thread_capability, less its links. `runqueue` is the index of the priority queue that it
-- points to. The root capability is not part of this state, and neither are the niceness, the
-- priority and the CPU time, which nothing reads.
pub record Thread : Type 0 where
  pub exec_mode : ExecMode
  pub registers : Registers
  pub flags : ThreadFlags
  pub runqueue : Option ℕ
  pub thread_id : ℕ
  pub bucket_number : ℕ
  pub blocked_on : Ptr
  pub message_buffer : Ptr
  pub sending_badge : ℕ

-- struct endpoint_capability
pub record Endpoint : Type 0 where
  pub blocked_sending : Container
  pub blocked_receiving : Container

-- struct ipc_message, as far as it does not name capabilities.
pub record Message : Type 0 where
  pub buffer : List ℕ
  pub badge : ℕ

-- The kind bits of the header in front of a heap object: KIND_AVAILABLE, KIND_IMMOVABLE and
-- KIND_MOVABLE.
pub data Kind : Type 0 where
  available immovable movable : Kind

-- The global variables of scheduler.c and threads.c, and the memory that they lead to.
pub record Kernel : Type 0 where
  pub current_thread : Ptr
  pub priority_queues : ℕ → Container
  pub needs_cpu_time_update : Container
  pub pending_context_switch : Bool
  pub thread_hash_table : ℕ → Container
  pub used_thread_ids : List ℕ
  pub threads : Ptr → Thread
  pub endpoints : Ptr → Endpoint
  pub messages : Ptr → Message
  pub kinds : Ptr → Kind
  pub runqueue_entry : Links
  pub cpu_update_entry : Links
  pub table_entry : Links
  pub blocked_queue : Links

-- A write at one place of a map.
abbrev pub at {ℓ} : {A : Type ℓ} → (ℕ → A) → ℕ → A → ℕ → A
at f k v a = if a == k then v else f a

-- `thread->… = …`
abbrev pub set_thread : Kernel → Ptr → Thread → Kernel
set_thread k t v = record k { threads = at k.threads t v }

-- heap_lock of core/kernel/heap.h: true if the object was not locked.
unfoldable pub heap_lock : Kernel → Ptr → Bool × Kernel
heap_lock k p = elim (k.kinds p) [
  | Kind.movable ↦ (true, record k { kinds = at k.kinds p Kind.immovable })
  | Kind.immovable ↦ (false, k)
  | Kind.available ↦ (false, k)
]

-- heap_unlock
unfoldable pub heap_unlock : Kernel → Ptr → Kernel
heap_unlock k p = record k { kinds = at k.kinds p Kind.movable }

-- `bool should_unlock = heap_lock(p); …; if (should_unlock) heap_unlock(p);`
unfoldable pub while_locked {ℓ} : {A : Type ℓ} → Ptr → (Kernel → A × Kernel) → Kernel → A × Kernel
while_locked p body k =
    let (should_unlock, k₁) = heap_lock k p in
    let (a, k₂) = body k₁ in (a, if should_unlock then heap_unlock k₂ p else k₂)
