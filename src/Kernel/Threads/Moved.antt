-- ===== src/Kernel/Threads/Moved.antt =====
-- on_thread_moved of core/kernel/threads.c: what becomes of the lists of a thread whose memory has
-- been copied to another address.
use cenix.Base.{ℕ, Ptr, null, ◌≡◌, ◌≢◌}
use cenix.Kernel.State.{Kernel}

-- Kernels with the same threads and the same queue of priority `q`.
record SameQueue (q : ℕ) (k k' : Kernel) : Type 0 where
  threads : k'.threads ≡ k.threads
  queue : k'.priority_queues q ≡ k.priority_queues q
  entries : k'.runqueue_entry ≡ k.runqueue_entry

-- Kernels with the same threads and the same bucket `b`.
record SameBucket (b : ℕ) (k k' : Kernel) : Type 0 where
  threads : k'.threads ≡ k.threads
  bucket : k'.thread_hash_table b ≡ k.thread_hash_table b
  entries : k'.table_entry ≡ k.table_entry

-- The thread has been copied from `old` to `t`, and these are its list entries.
pub record IsCopied (k : Kernel) (old t : Ptr) : Type 0 where
  pub there : t ≢ null
  pub queue_entry : k.runqueue_entry t ≡ k.runqueue_entry old
  pub table_entry : k.table_entry t ≡ k.table_entry old
