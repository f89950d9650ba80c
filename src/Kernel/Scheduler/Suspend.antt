-- ===== src/Kernel/Scheduler/Suspend.antt =====
-- suspend_thread on a thread that waits in the run queue.
use cenix.Base.{
  Ptr, null, ◌≡◌, refl, ◌≢◌, true, false, none, some, List, [], ◌∷◌, arith, ◌==◌, if◌then◌else◌,
  is_some, has, erase, Bool-cases, inl, inr, subst, sym,
}
use cenix.LinkedList.{Links, remove, pop_from_start}
use cenix.LinkedList.Shape.{Forward, IsList}
use cenix.LinkedList.Remove.{remove-IsList}
use cenix.LinkedList.Queue.{IsList→IsQueue}
use cenix.LinkedList.Stale.{pop-remove-stale}
use cenix.Kernel.State.{Kernel, ExecMode, is_running, joined, at}
use cenix.Kernel.Scheduler.{suspend_thread, leave_runqueue, next_thread, take_from}
use cenix.Kernel.Scheduler.Ready.{IsReady}
use cenix.Kernel.Scheduler.Switch.{taken, next_thread_here}

pub has-erase_self :
    (links : Links) (p a t : Ptr) (xs : List Ptr)
    → Forward links p xs
    → has a (erase t xs) ≡ (if a == t then false else has a xs)
has-erase_self links p a t [] f = ground arith
has-erase_self links p a t (x ∷ xs) (e, ne, out, f) = elim (Bool-cases (x == t)) [
  | inl hit ↦ rw hit (ground (arith, λ (e : a ≡ x). subst (λ z. has z xs ≡ false) (sym e) out))
  | inr miss ↦ rw miss (ground (arith, has-erase_self links (links x).next a t xs f))
]

-- The run queue can be walked both ways.
abbrev pub IsTwoWay : Kernel → List Ptr → Type 0
IsTwoWay k xs = IsList k.runqueue_entry (k.priority_queues 63) xs

-- The thread's run queue is that of priority 63.
abbrev pub IsIn63 : Kernel → Ptr → Type 0
IsIn63 k t = (k.threads t).runqueue ≡ some 63

-- The kernel with `t` out of the queue of priority 63.
abbrev unqueued : Kernel → Ptr → Kernel
unqueued k t =
    let (c, links) = remove (k.priority_queues 63) k.runqueue_entry t in
    record k {
      threads = at k.threads t (record (k.threads t) { runqueue = none });
      priority_queues = at k.priority_queues 63 c;
      runqueue_entry = links;
    }

leave_runqueue-some : (k : Kernel) (t : Ptr) → IsIn63 k t → leave_runqueue k t ≡ unqueued k t
unfolding leave_runqueue
leave_runqueue-some k t q = rw (q, leave_runqueue) refl

-- Suspension of a waiting thread: the kernel field by field.
module _ (k : Kernel) (t : Ptr) (m : ExecMode) (q : IsIn63 k t)
    (off : is_running (joined (k.threads t).exec_mode m) ≡ false) where
  abbrev lowered : Kernel
  lowered = record k {
    pending_context_switch = if k.current_thread == t then true else k.pending_context_switch;
    threads =
        at k.threads t (record (k.threads t) { exec_mode = joined (k.threads t).exec_mode m });
  }

  suspended : suspend_thread k t m ≡ unqueued lowered t
  unfolding suspend_thread
  suspended = rw off (leave_runqueue-some lowered t (ground (arith, q)))

  suspended-TwoWay :
      (xs : List Ptr)
      → has t xs ≡ true
      → IsTwoWay k xs
      → IsTwoWay (suspend_thread k t m) (erase t xs)
  suspended-TwoWay xs i w =
      rw suspended (remove-IsList k.runqueue_entry (k.priority_queues 63) t xs i w)

  -- On a run queue that can be walked both ways, suspending a waiting thread takes exactly that
  -- thread out, keeps the others in their order, and the queue can still be walked both ways.
  pub suspend_thread-IsReady :
      (xs : List Ptr)
      → has t xs ≡ true
      → IsTwoWay k xs
      → IsReady k xs
      → IsReady (suspend_thread k t m) (erase t xs) × IsTwoWay (suspend_thread k t m) (erase t xs)
  suspend_thread-IsReady xs i w r = (
    record {
      queue = IsList→IsQueue _ _ (erase t xs) (suspended-TwoWay xs i w);
      others = λ j h. rw suspended (ground (arith, r.others j));
      listed = λ a. rw suspended (
          ground (
            arith,
            r.listed a,
            has-erase_self k.runqueue_entry (k.priority_queues 63).start a t xs w.chain,
          ));
      runnable = λ a h. rw suspended (
          ground (
            arith,
            r.runnable a,
            has-erase_self k.runqueue_entry (k.priority_queues 63).start a t xs w.chain,
          ));
    },
    suspended-TwoWay xs i w,
  )

-- The search trusts the head of the queue.
next_thread_start :
    (k : Kernel) (y : Ptr) → (k.priority_queues 63).start ≡ y → y ≢ null → (next_thread 64 k).0 ≡ y
unfolding take_from pop_from_start
next_thread_start k y e ne = rw (next_thread_here 63 k (ground arith)) (ground (arith, e))

-- After a switch has taken `x` off, its successor `y` cannot be suspended: suspend_thread clears
-- its mode and its run queue, but leaves it at the head of the queue, and the next search finds it.
pub suspend_after_take :
    (k : Kernel) (x y : Ptr) (ys : List Ptr) (m : ExecMode)
    → IsTwoWay k (x ∷ y ∷ ys)
    → IsIn63 k y
    → is_running (joined (k.threads y).exec_mode m) ≡ false
    → let k' = suspend_thread (taken k x) y m in
      (is_running (k'.threads y).exec_mode ≡ false)
      × (is_some (k'.threads y).runqueue ≡ false)
      × ((next_thread 64 k').0 ≡ y)
suspend_after_take k x y ys m w q off = rw (suspended (taken k x) y m still_in still_off) (
  ground arith,
  ground arith,
  next_thread_start _ y (pop-remove-stale k.runqueue_entry (k.priority_queues 63) x y ys w).2
      w.chain.3.1,
)
  where
    still_in : IsIn63 (taken k x) y
    still_in = ground (arith, w.chain)

    still_off : is_running (joined ((taken k x).threads y).exec_mode m) ≡ false
    still_off = ground (arith, off)
