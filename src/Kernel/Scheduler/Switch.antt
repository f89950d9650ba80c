-- ===== src/Kernel/Scheduler/Switch.antt =====
-- What a context switch does to the queue and to the processor.
use cenix.Base.{
  ℕ, zero, suc, Ptr, null, ◌<◌, ◌≡◌, refl, ◌≢◌, Bool, true, false, none, List, [], ◌∷◌, ◌++◌, arith,
  ◌==◌, if◌then◌else◌, has, Bool-cases, inl, inr, subst, ==-refl, sym, ◌∙◌,
}
use cenix.LinkedList.{pop_from_start}
use cenix.LinkedList.Queue.{pop-IsQueue, ne_test}
use cenix.Kernel.Arch.{Registers, set_program_counter}
use cenix.Kernel.State.{Kernel, Thread, is_running, at, set_thread}
use cenix.Kernel.Scheduler.{
  take_from, next_thread, save_current, load_next, try_context_switch, set_running, queue_thread,
}
use cenix.Kernel.Scheduler.Ready.{
  IsReady, queue_thread-IsReady, set_thread-IsReady, pending-IsReady, current_thread-IsReady,
}

-- The thread that runs does not wait in the queue.
abbrev pub IsApart : Kernel → List Ptr → Type 0
IsApart k xs = has k.current_thread xs ≡ false

next_thread-empty :
    (n : ℕ) (k : Kernel)
    → ((i : ℕ) → i < n → (k.priority_queues i).start ≡ null)
    → next_thread n k ≡ (null, k)
unfolding next_thread
next_thread-empty zero k h = refl
next_thread-empty (suc i) k h =
    rw (h i (omega arith)) (next_thread-empty i k (λ j l. h j (omega arith)))

-- The search on an empty run queue finds nothing, and changes nothing.
pub next_thread-nil : (k : Kernel) → IsReady k [] → next_thread 64 k ≡ (null, k)
next_thread-nil k r = next_thread-empty 64 k below
  where
    below : (i : ℕ) → i < 64 → (k.priority_queues i).start ≡ null
    below i h = elim (Bool-cases (i == 63)) [
      | inl e ↦ subst (λ j. (k.priority_queues j).start ≡ null) (ground arith) (r.queue.chain)
      | inr ne ↦ r.others i (ground arith)
    ]

pub next_thread_here :
    (i : ℕ) (k : Kernel)
    → (k.priority_queues i).start ≢ null
    → next_thread (suc i) k ≡ take_from i k
unfolding next_thread
next_thread_here i k h = ground arith

-- The kernel once `x` is off the run queue.
abbrev pub taken : Kernel → Ptr → Kernel
taken k x =
    let (got, c, links) = pop_from_start (k.priority_queues 63) k.runqueue_entry in
    record k {
      threads = at k.threads x (record (k.threads x) { runqueue = none });
      priority_queues = at k.priority_queues 63 c;
      runqueue_entry = links;
    }

take_from-cons :
    (k : Kernel) (x : Ptr) (xs : List Ptr) → IsReady k (x ∷ xs) → take_from 63 k ≡ (x, taken k x)
unfolding take_from
take_from-cons k x xs r =
    rw ((pop-IsQueue k.runqueue_entry (k.priority_queues 63) x xs r.queue).0, take_from) refl

taken-IsReady : (k : Kernel) (x : Ptr) (xs : List Ptr) → IsReady k (x ∷ xs) → IsReady (taken k x) xs
taken-IsReady k x xs r = record {
  queue = (pop-IsQueue k.runqueue_entry (k.priority_queues 63) x xs r.queue).1;
  others = λ i h. ground (arith, r.others i);
  listed = λ a.
      ground
        (arith, r.listed a, λ (e : a ≡ x). subst (λ z. has z xs ≡ false) (sym e) r.queue.chain.2);
  runnable = λ a i.
      ground
        (arith, r.runnable a, λ (e : a ≡ x). subst (λ z. has z xs ≡ false) (sym e) r.queue.chain.2);
}

-- On a run queue that is not empty the search takes the first thread off.
pub next_thread-cons :
    (k : Kernel) (x : Ptr) (xs : List Ptr) → IsReady k (x ∷ xs) → next_thread 64 k ≡ (x, taken k x)
next_thread-cons k x xs r =
    next_thread_here 63 k (ground (arith, r.queue.chain)) ∙ take_from-cons k x xs r

-- Who runs after a switch, and who waits.
abbrev pub after_switch : Ptr → Bool → List Ptr → Ptr × List Ptr
after_switch current running [] =
    (if current == null then null else if running then current else null, [])
after_switch current running (x ∷ xs) =
    (x, if current == null then xs else if running then xs ++ current ∷ [] else xs)

-- The queue once the thread that ran is saved.
abbrev waiting : Ptr → Ptr → Bool → List Ptr → List Ptr
waiting next current running xs =
    if current == null
    then xs
    else if running
    then if next == null then xs else xs ++ current ∷ []
    else xs

waiting_nobody : (current : Ptr) (running : Bool) → waiting null current running [] ≡ []
waiting_nobody current running = ground arith

save_current-IsReady :
    (next : Ptr) (k : Kernel) (registers : Registers) (xs : List Ptr)
    → IsReady k xs
    → IsApart k xs
    → IsReady
        (save_current next k registers).1
        (waiting next k.current_thread (is_running (k.threads k.current_thread).exec_mode) xs)
unfolding save_current
save_current-IsReady next k registers xs r apart = elim (Bool-cases (k.current_thread == null)) [
  | inl nobody ↦ rw nobody r
  | inr somebody ↦
      rw somebody (elim (Bool-cases (is_running (k.threads k.current_thread).exec_mode)) [
        | inr paused ↦ rw paused (current_thread-IsReady saved null xs saved-IsReady)
        | inl running ↦ rw running (elim (Bool-cases (next == null)) [
          | inl alone ↦ rw alone r
          | inr preempted ↦ rw preempted (
              rw apart at (
                queue_thread-IsReady saved k.current_thread xs (ground arith)
                  (rw (==-refl k.current_thread) running) saved-IsReady))
        ])
      ])
]
  where
    kept : Thread
    kept = set_running (record (k.threads k.current_thread) { registers = registers }) false

    saved : Kernel
    saved = set_thread k k.current_thread kept

    saved-IsReady : IsReady saved xs
    saved-IsReady =
        set_thread-IsReady k k.current_thread kept xs refl (λ i. r.runnable k.current_thread i) r

load_next-IsReady :
    (idle_thread next : Ptr) (b : Bool) (k : Kernel) (registers : Registers) (xs : List Ptr)
    → IsReady k xs
    → IsReady (load_next idle_thread next b k registers).0 xs
unfolding load_next
load_next-IsReady idle_thread next b k registers xs r = elim (Bool-cases (next == null)) [
  | inl none_left ↦ rw none_left r
  | inr found ↦ rw found (
      current_thread-IsReady loaded next xs (
        set_thread-IsReady k next (set_running (k.threads next) true) xs refl
          (λ i. r.runnable next i) r))
]
  where
    loaded : Kernel
    loaded = set_thread k next (set_running (k.threads next) true)

-- The register block that the processor goes on with.
abbrev pub after_registers : ℕ → Kernel → Registers → List Ptr → Registers
after_registers idle_thread k registers [] =
    if k.current_thread == null
    then set_program_counter registers idle_thread
    else if is_running (k.threads k.current_thread).exec_mode
    then registers
    else set_program_counter registers idle_thread
after_registers idle_thread k registers (x ∷ xs) = (k.threads x).registers

-- Everything a switch does that a thread can see.
pub record Switched (idle_thread : ℕ) (k : Kernel) (registers : Registers) (xs : List Ptr)
    (k' : Kernel) (registers' : Registers) : Type 0 where
  pub ready :
      IsReady k'
        (after_switch k.current_thread (is_running (k.threads k.current_thread).exec_mode) xs).1
  pub current :
      k'.current_thread
      ≡ (after_switch k.current_thread (is_running (k.threads k.current_thread).exec_mode) xs).0
  pub loaded : registers' ≡ after_registers idle_thread k registers xs
  pub done : k'.pending_context_switch ≡ false
  pub saved :
      k.current_thread ≢ null
      → k'.current_thread ≢ k.current_thread
      → (k'.threads k.current_thread).registers ≡ registers

module _ (idle_thread : ℕ) (k : Kernel) (registers : Registers) where
  -- The rest of the switch after the search has found `next`.
  abbrev rest : Ptr → Kernel → Kernel × Registers
  rest next k' =
      load_next idle_thread next (save_current next k' registers).0
        (save_current next k' registers).1 registers

  abbrev idle_kernel : Kernel
  idle_kernel = record k { pending_context_switch = false }

  rest-nil : IsReady k [] → IsReady (rest null idle_kernel).0 []
  rest-nil r = load_next-IsReady idle_thread null _ _ registers [] (
      rw (waiting_nobody k.current_thread (is_running (k.threads k.current_thread).exec_mode)) at
        (save_current-IsReady null idle_kernel registers [] (pending-IsReady k false [] r) refl))

  Switched-nil :
      IsReady k []
      → Switched idle_thread k registers [] (rest null idle_kernel).0 (rest null idle_kernel).1
  Switched-nil r = record {
    ready = rest-nil r;
    current = unfold save_current load_next in ground arith;
    loaded = unfold save_current load_next in ground arith;
    done = unfold save_current load_next in ground arith;
    saved = unfold save_current load_next in ground arith;
  }

  module _ (x : Ptr) (xs : List Ptr) (r : IsReady k (x ∷ xs)) (apart : IsApart k (x ∷ xs)) where
    keeps_mode :
        is_running ((taken idle_kernel x).threads k.current_thread).exec_mode
        ≡ is_running (k.threads k.current_thread).exec_mode
    keeps_mode = ground arith

    waits :
        IsReady
          (save_current x (taken idle_kernel x) registers).1
          (after_switch k.current_thread
            (is_running (k.threads k.current_thread).exec_mode)
            (x ∷ xs)).1
    waits =
        rw (keeps_mode, (ne_test x (r.queue.chain.1))) at
          (save_current-IsReady x (taken idle_kernel x) registers xs
            (taken-IsReady idle_kernel x xs (pending-IsReady k false (x ∷ xs) r)) (ground arith))

    Switched-cons :
        Switched idle_thread k registers
          (x ∷ xs)
          (rest x (taken idle_kernel x)).0
          (rest x (taken idle_kernel x)).1
    Switched-cons = record {
      ready = load_next-IsReady idle_thread x _ _ registers _ waits;
      current = unfold save_current load_next in ground (arith, r.queue.chain);
      loaded = unfold save_current load_next queue_thread in ground (arith, r.queue.chain);
      done = unfold save_current load_next queue_thread in ground (arith, r.queue.chain);
      saved = unfold save_current load_next queue_thread in ground (arith, r.queue.chain);
    }

-- A pending switch with a run queue that is empty: the running thread goes on; a paused one is
-- saved, and the idle thread is entered. With a thread `x` at the head: `x` is loaded, and the
-- thread that ran is saved, and queued at the end if it is in the running mode.
pub try_context_switch-Switched :
    (idle_thread : ℕ) (k : Kernel) (registers : Registers) (xs : List Ptr)
    → k.pending_context_switch ≡ true
    → IsReady k xs
    → IsApart k xs
    → let (k', registers') = try_context_switch idle_thread k registers in
      Switched idle_thread k registers xs k' registers'
unfolding try_context_switch
try_context_switch-Switched idle_thread k registers [] on r apart =
    simp (on, next_thread-nil _ (pending-IsReady k false [] r))
      (Switched-nil idle_thread k registers r)
try_context_switch-Switched idle_thread k registers (x ∷ xs) on r apart =
    simp (on, next_thread-cons _ x xs (pending-IsReady k false (x ∷ xs) r))
      (Switched-cons idle_thread k registers x xs r apart)

-- With no request pending, nothing happens.
pub try_context_switch-idle :
    (idle_thread : ℕ) (k : Kernel) (registers : Registers)
    → k.pending_context_switch ≡ false
    → try_context_switch idle_thread k registers ≡ (k, registers)
unfolding try_context_switch
try_context_switch-idle idle_thread k registers off = rw off
