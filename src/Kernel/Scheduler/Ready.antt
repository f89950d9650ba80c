-- ===== src/Kernel/Scheduler/Ready.antt =====
-- The run queue as a sequence of threads, and what queues them.
use cenix.Base.{
  ℕ, Ptr, null, ◌<◌, ◌≡◌, refl, ◌≢◌, Bool, true, false, List, [], ◌∷◌, ◌++◌, arith, ◌==◌,
  if◌then◌else◌, is_some, has, has-append, Bool-cases, inl, inr, subst, ==-refl,
}
use cenix.LinkedList.Shape.{IsQueue}
use cenix.LinkedList.Queue.{append-IsQueue}
use cenix.Kernel.State.{Kernel, Thread, ExecMode, is_running, without, set_thread}
use cenix.Kernel.Scheduler.{queue_thread, resume_if_running, resume_thread}

-- The threads `xs` wait in the queue of priority 63, in this order, and no other queue holds any.
-- Exactly they have a run queue, and all of them are in the running mode.
pub record IsReady (k : Kernel) (xs : List Ptr) : Type 0 where
  pub queue : IsQueue k.runqueue_entry (k.priority_queues 63) xs
  pub others : (i : ℕ) → i < 63 → (k.priority_queues i).start ≡ null
  pub listed : (t : Ptr) → is_some (k.threads t).runqueue ≡ has t xs
  pub runnable : (t : Ptr) → has t xs ≡ true → is_running (k.threads t).exec_mode ≡ true

-- The sequence after a thread has been queued.
abbrev pub queued : Ptr → List Ptr → List Ptr
queued t xs = if has t xs then xs else xs ++ t ∷ []

queue_thread-new :
    (k : Kernel) (t : Ptr) (xs : List Ptr)
    → t ≢ null
    → is_running (k.threads t).exec_mode ≡ true
    → has t xs ≡ false
    → IsReady k xs
    → IsReady (queue_thread k t) (xs ++ t ∷ [])
unfolding queue_thread
queue_thread-new k t xs ne running new r =
    rw (r.listed t, new)
      (record {
        queue = append-IsQueue k.runqueue_entry t ne (k.priority_queues 63) xs new r.queue;
        others = λ i h. ground (arith, r.others i);
        listed = λ a. ground (arith, r.listed a, has-append a xs (t ∷ []));
        runnable = λ a i. ground (arith, r.runnable a, has-append a xs (t ∷ []));
      })

-- queue_thread puts a running thread at the end of the queue, unless it waits there already.
pub queue_thread-IsReady :
    (k : Kernel) (t : Ptr) (xs : List Ptr)
    → t ≢ null
    → is_running (k.threads t).exec_mode ≡ true
    → IsReady k xs
    → IsReady (queue_thread k t) (queued t xs)
queue_thread-IsReady k t xs ne running r = elim (Bool-cases (has t xs)) [
  | inl old ↦ rw old (unfold queue_thread in rw (r.listed t, old) r)
  | inr new ↦ rw new (queue_thread-new k t xs ne running new r)
]

-- A write to a thread that keeps its run queue, and its running mode if it waits.
pub set_thread-IsReady :
    (k : Kernel) (t : Ptr) (v : Thread) (xs : List Ptr)
    → is_some v.runqueue ≡ is_some (k.threads t).runqueue
    → (has t xs ≡ true → is_running v.exec_mode ≡ true)
    → IsReady k xs
    → IsReady (set_thread k t v) xs
set_thread-IsReady k t v xs same run r = record {
  queue = r.queue;
  others = r.others;
  listed = λ a. ground (arith, r.listed a);
  runnable =
      λ a i. ground (arith, r.runnable a, λ (e : a ≡ t). run (subst (λ z. has z xs ≡ true) e i));
}

without-running : (m r : ExecMode) → is_running m ≡ true → is_running (without m r) ≡ true
without-running m r h = ground arith

-- A request to switch leaves the queue as it is.
pub pending-IsReady :
    (k : Kernel) (b : Bool) (xs : List Ptr)
    → IsReady k xs
    → IsReady (record k { pending_context_switch = b }) xs
pending-IsReady k b xs r = record {
  queue = r.queue;
  others = r.others;
  listed = r.listed;
  runnable = r.runnable;
}

pub current_thread-IsReady :
    (k : Kernel) (t : Ptr) (xs : List Ptr)
    → IsReady k xs
    → IsReady (record k { current_thread = t }) xs
current_thread-IsReady k t xs r = record {
  queue = r.queue;
  others = r.others;
  listed = r.listed;
  runnable = r.runnable;
}

-- What resume_thread makes of the queue.
abbrev pub resumed : ExecMode → ExecMode → Ptr → List Ptr → List Ptr
resumed mode reason t xs = if is_running (without mode reason) then queued t xs else xs

resume_if_running-IsReady :
    (k : Kernel) (t : Ptr) (xs : List Ptr)
    → t ≢ null
    → IsReady k xs
    → IsReady
        (resume_if_running k t)
        (if is_running (k.threads t).exec_mode then queued t xs else xs)
unfolding resume_if_running
resume_if_running-IsReady k t xs ne r = elim (Bool-cases (is_running (k.threads t).exec_mode)) [
  | inr off ↦ rw off r
  | inl on ↦ rw on (elim (Bool-cases ((queue_thread k t).current_thread == null)) [
    | inl idle ↦
        rw idle (pending-IsReady (queue_thread k t) true _ (queue_thread-IsReady k t xs ne on r))
    | inr busy ↦ rw busy (queue_thread-IsReady k t xs ne on r)
  ])
]

-- resume_thread queues the thread at the end if its mode without `reason` is the running one and it
-- has no run queue, whether `reason` was in its mode or not, and leaves the queue otherwise.
pub resume_thread-IsReady :
    (k : Kernel) (t : Ptr) (reason : ExecMode) (xs : List Ptr)
    → t ≢ null
    → IsReady k xs
    → IsReady (resume_thread k t reason) (resumed (k.threads t).exec_mode reason t xs)
unfolding resume_thread
resume_thread-IsReady k t reason xs ne r = rw (==-refl t) at (
    resume_if_running-IsReady (set_thread k t lowered) t xs ne (
      set_thread-IsReady k t lowered xs refl
        (λ i. without-running (k.threads t).exec_mode reason (r.runnable t i)) r))
  where
    lowered : Thread
    lowered = record (k.threads t) { exec_mode = without (k.threads t).exec_mode reason }
