-- ===== src/Kernel/Scheduler/Tests.antt =====
-- Three threads at 8, 16 and 24; runs of the scheduler on them, and the theorems there.
use cenix.Base.{ℕ, Ptr, null, ◌≡◌, refl, true, false, none, some, List, [], ◌∷◌, arith, is_some}
use cenix.LinkedList.{Container, Links, append, pop_from_start}
use cenix.LinkedList.Queue.{IsList→IsQueue}
use cenix.Kernel.Arch.{Registers}
use cenix.Kernel.State.{
  Kernel, Kind, Thread, ThreadFlags, ExecMode, mode_running, mode_blocked, mode_suspended,
  is_running, at,
}
use cenix.Kernel.Scheduler.{
  queue_thread, suspend_thread, take_from, next_thread, save_current, load_next, try_context_switch,
}
use cenix.Kernel.Scheduler.Ready.{IsReady}
use cenix.Kernel.Scheduler.Switch.{Switched, taken, try_context_switch-Switched}
use cenix.Kernel.Scheduler.Suspend.{IsTwoWay, suspend_thread-IsReady, suspend_after_take}
use cenix.Kernel.Scheduler.Rounds.{turns, turns-reach}

abbrev pub registers_at : ℕ → Registers
registers_at pc = record {
  stack_pointer = 4096;
  data_registers = 0 ∷ 0 ∷ 0 ∷ 0 ∷ 0 ∷ 0 ∷ 0 ∷ 0 ∷ [];
  address_registers = 0 ∷ 0 ∷ 0 ∷ 0 ∷ 0 ∷ 0 ∷ 0 ∷ [];
  status_register = 0;
  program_counter = pc;
}

abbrev pub no_flags : ThreadFlags
no_flags = record {
  currently_running = false;
  needs_cpu_update = false;
  blocked_on_send = false;
  blocked_on_receive = false;
}

abbrev pub thread : ExecMode → ℕ → ℕ → Thread
thread mode id pc = record {
  exec_mode = mode;
  registers = registers_at pc;
  flags = no_flags;
  runqueue = none;
  thread_id = id;
  bucket_number = 0;
  blocked_on = null;
  message_buffer = null;
  sending_badge = 0;
}

abbrev waiting_thread : ℕ → ℕ → Thread
waiting_thread id pc = record (thread mode_running id pc) { runqueue = some 63 }

abbrev pub blank : Links
blank a = record { prev = null; next = null }

abbrev pub empty : Container
empty = record { start = null; end = null }

-- 8 and 16 wait, 24 runs, and 32 is suspended
abbrev pub busy : Kernel
busy = record {
  current_thread = 24;
  priority_queues = at (λ i. empty) 63 (record { start = 8; end = 16 });
  needs_cpu_time_update = empty;
  pending_context_switch = true;
  thread_hash_table = λ i. empty;
  used_thread_ids = [];
  threads =
      at
        (at (at (λ a. thread mode_suspended 4 0) 8 (waiting_thread 1 100)) 16
          (waiting_thread 2 200))
        24 (thread mode_running 3 300);
  endpoints = λ a. record { blocked_sending = empty; blocked_receiving = empty };
  messages = λ a. record { buffer = []; badge = 0 };
  kinds = λ a. Kind.movable;
  runqueue_entry =
      at (at blank 8 (record { prev = 0; next = 16 })) 16 (record { prev = 8; next = 0 });
  cpu_update_entry = blank;
  table_entry = blank;
  blocked_queue = blank;
}

abbrev pub waits : List Ptr
waits = 8 ∷ 16 ∷ []

pub busy-IsTwoWay : IsTwoWay busy waits
busy-IsTwoWay = record { chain = ground arith; back = ground arith; last = refl }

pub busy-IsReady : IsReady busy waits
busy-IsReady = record {
  queue = IsList→IsQueue _ _ waits busy-IsTwoWay;
  others = λ i h. ground arith;
  listed = λ t. ground arith;
  runnable = λ t i. ground arith;
}

switch_loads_8 : (try_context_switch 0 busy (registers_at 301)).1 ≡ registers_at 100
unfolding try_context_switch next_thread take_from save_current load_next queue_thread append
    pop_from_start
switch_loads_8 = refl

try_context_switch-Switched_example :
    let (k', registers') = try_context_switch 0 busy (registers_at 301) in
    Switched 0 busy (registers_at 301) waits k' registers'
try_context_switch-Switched_example =
    try_context_switch-Switched 0 busy (registers_at 301) waits refl busy-IsReady refl

suspend_thread-IsReady_example :
    IsReady (suspend_thread busy 8 mode_blocked) (16 ∷ [])
    × IsTwoWay (suspend_thread busy 8 mode_blocked) (16 ∷ [])
suspend_thread-IsReady_example =
    suspend_thread-IsReady busy 8 mode_blocked refl refl waits refl busy-IsTwoWay busy-IsReady

suspend_after_take_example :
    let k' = suspend_thread (taken busy 8) 16 mode_suspended in
    (is_running (k'.threads 16).exec_mode ≡ false)
    × (is_some (k'.threads 16).runqueue ≡ false)
    × ((next_thread 64 k').0 ≡ 16)
suspend_after_take_example = suspend_after_take busy 8 16 [] mode_suspended busy-IsTwoWay refl refl

turns-reach_example : (turns 0 2 (busy, registers_at 301)).0.current_thread ≡ 16
turns-reach_example = turns-reach 0 (8 ∷ []) [] 16 busy (registers_at 301) busy-IsReady refl
