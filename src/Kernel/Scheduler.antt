-- ===== src/Kernel/Scheduler.antt =====
-- core/kernel/scheduler.c.
pub mod Ready
pub mod Switch
pub mod Rounds
pub mod Suspend
pub mod Tests
use cenix.Base.{
  ℕ, zero, suc, Ptr, null, Bool, true, false, not, ◌&&◌, ◌||◌, Option, none, some, ◌==◌,
  if◌then◌else◌, is_some,
}
use cenix.LinkedList.{Container, init, append, remove, pop_from_start}
use cenix.Kernel.Arch.{Registers, set_program_counter}
use cenix.Kernel.State.{
  Kernel, Thread, ThreadFlags, ExecMode, mode_suspended, is_running, without, joined, at,
  set_thread,
}

-- init_scheduler leaves `pending_context_switch` as it was (false, as a static variable).
unfoldable pub init_scheduler : Kernel → Kernel
unfolding init
init_scheduler k = record k {
  current_thread = null;
  priority_queues = λ i. init;
  needs_cpu_time_update = init;
}

unfoldable pub queue_thread : Kernel → Ptr → Kernel
queue_thread k t =
    if is_some (k.threads t).runqueue
    then k
    else (let (c, links) = append (k.priority_queues 63) k.runqueue_entry t in
        record k {
          threads = at k.threads t (record (k.threads t) { runqueue = some 63 });
          priority_queues = at k.priority_queues 63 c;
          runqueue_entry = links;
        })

-- What resume_thread does once the mode is written.
unfoldable pub resume_if_running : Kernel → Ptr → Kernel
resume_if_running k t =
    if is_running (k.threads t).exec_mode
    then (let k' = queue_thread k t in
        if k'.current_thread == null then record k' { pending_context_switch = true } else k')
    else k

unfoldable pub resume_thread : Kernel → Ptr → ExecMode → Kernel
resume_thread k t reason =
    resume_if_running
      (set_thread k t (record (k.threads t) { exec_mode = without (k.threads t).exec_mode reason }))
      t

-- `LIST_REMOVE(*thread->runqueue, runqueue_entry, thread); thread->runqueue = NULL`
unfoldable pub leave_runqueue : Kernel → Ptr → Kernel
leave_runqueue k t = elim (k.threads t).runqueue [
  | none ↦ k
  | some q ↦
      let (c, links) = remove (k.priority_queues q) k.runqueue_entry t in
      record k {
        threads = at k.threads t (record (k.threads t) { runqueue = none });
        priority_queues = at k.priority_queues q c;
        runqueue_entry = links;
      }
]

unfoldable pub suspend_thread : Kernel → Ptr → ExecMode → Kernel
suspend_thread k t new_exec_mode =
    let mode = joined (k.threads t).exec_mode new_exec_mode in
    let k' = record k {
      pending_context_switch = if k.current_thread == t then true else k.pending_context_switch;
      threads = at k.threads t (record (k.threads t) { exec_mode = mode });
    } in
    if not (is_running mode) then leave_runqueue k' t else k'

unfoldable pub yield_thread : Kernel → Kernel
yield_thread k = record k { pending_context_switch = true }

-- The head of queue `i`, taken off it.
unfoldable pub take_from : ℕ → Kernel → Ptr × Kernel
take_from i k =
    let (got, c, links) = pop_from_start (k.priority_queues i) k.runqueue_entry in
    elim got [
      | none ↦ (null, k)
      | some t ↦ (
        t,
        record k {
          threads = at k.threads t (record (k.threads t) { runqueue = none });
          priority_queues = at k.priority_queues i c;
          runqueue_entry = links;
        },
      )
    ]

-- The search from the queue below `n` down to queue 0.
unfoldable pub next_thread : ℕ → Kernel → Ptr × Kernel
next_thread zero k = (null, k)
next_thread (suc i) k =
    let rest = next_thread i k in
    if not ((k.priority_queues i).start == null) then take_from i k else rest

abbrev pub set_running : Thread → Bool → Thread
set_running t b = record t { flags = record (t.flags) { currently_running = b } }

-- Saving the thread that runs: the kernel after it, and whether to idle.
unfoldable pub save_current : Ptr → Kernel → Registers → Bool × Kernel
save_current next k registers =
    let t = k.current_thread in
    let saved =
      set_thread k t (set_running (record (k.threads t) { registers = registers }) false) in
    if t == null
    then (true, k)
    else if is_running (k.threads t).exec_mode
    then (false, if next == null then k else queue_thread saved t)
    else (true, record saved { current_thread = null })

-- Loading the next thread, or the idle thread at its address.
unfoldable pub load_next : ℕ → Ptr → Bool → Kernel → Registers → Kernel × Registers
load_next idle_thread next should_idle k registers =
    if next == null
    then (k, if should_idle then set_program_counter registers idle_thread else registers)
    else (
      record k {
        current_thread = next;
        threads = at k.threads next (set_running (k.threads next) true);
      },
      (k.threads next).registers,
    )

unfoldable pub try_context_switch : ℕ → Kernel → Registers → Kernel × Registers
try_context_switch idle_thread k registers =
    if not k.pending_context_switch
    then (k, registers)
    else (let (next, k₁) = next_thread 64 (record k { pending_context_switch = false }) in
        let (should_idle, k₂) = save_current next k₁ registers in
        load_next idle_thread next should_idle k₂ registers)

unfoldable pub handle_thread_exception : ℕ → Kernel → Registers → Kernel × Registers
handle_thread_exception idle_thread k registers =
    try_context_switch idle_thread (suspend_thread k k.current_thread mode_suspended) registers
