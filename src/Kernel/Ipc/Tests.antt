-- ===== src/Kernel/Ipc/Tests.antt =====
-- Threads 24 (running), 8 and 16 at an endpoint at 64, and the theorems there.
use cenix.Base.{some, ℕ, suc, Ptr, ◌≡◌, refl, inl, inr, false, List, [], ◌∷◌, arith}
use cenix.LinkedList.{Container, can_pop, pop_from_start}
use cenix.Kernel.State.{
  Kernel, Kind, Thread, Endpoint, Message, mode_running, mode_blocked, at, joined, without,
}
use cenix.Kernel.Ipc.{endpoint_send, endpoint_receive, block_sender}
use cenix.Kernel.Ipc.Waiting.{IsEndpoint}
use cenix.Kernel.Ipc.Steps.{Delivered}
use cenix.Kernel.Ipc.Rendezvous.{
  endpoint_send-Delivered, endpoint_receive-Delivered, send_then_receive,
}
use cenix.Kernel.Scheduler.{
  try_context_switch, load_next, suspend_thread, leave_runqueue, next_thread, take_from,
  save_current,
}
use cenix.Kernel.Scheduler.Tests.{thread, blank, empty, registers_at}

abbrev message_of : ℕ → Message
message_of n = record { buffer = n ∷ []; badge = 0 }

abbrev waiter : ℕ → Thread
waiter buffer = record (thread mode_blocked 1 100) {
  blocked_on = 64;
  message_buffer = buffer;
  sending_badge = 7;
}

-- 8, then 16, wait in the queue that `ends` puts them in
abbrev meeting : Endpoint → Kernel
meeting ends = record {
  current_thread = 24;
  priority_queues = λ i. empty;
  needs_cpu_time_update = empty;
  pending_context_switch = false;
  thread_hash_table = λ i. empty;
  used_thread_ids = [];
  threads = at (at (λ a. thread mode_running 3 300) 8 (waiter 800)) 16 (waiter 1600);
  endpoints = at (λ a. record { blocked_sending = empty; blocked_receiving = empty }) 64 ends;
  messages = at (at message_of 800 (message_of 1)) 2400 (message_of 3);
  kinds = λ a. Kind.movable;
  runqueue_entry = blank;
  cpu_update_entry = blank;
  table_entry = blank;
  blocked_queue =
      at (at blank 8 (record { prev = 0; next = 16 })) 16 (record { prev = 8; next = 0 });
}

abbrev two : Container
two = record { start = 8; end = 16 }

abbrev waits : List Ptr
waits = 8 ∷ 16 ∷ []

abbrev receiving : Kernel
receiving = meeting (record { blocked_sending = empty; blocked_receiving = two })

abbrev sending : Kernel
sending = meeting (record { blocked_sending = two; blocked_receiving = empty })

abbrev quiet : Kernel
quiet = meeting (record { blocked_sending = empty; blocked_receiving = empty })

receiving-IsEndpoint : IsEndpoint receiving 64 [] waits
receiving-IsEndpoint = record {
  sending = record { chain = refl; last = refl };
  receiving = record { chain = ground arith; last = refl };
  one_sided = inl refl;
}

sending-IsEndpoint : IsEndpoint sending 64 waits []
sending-IsEndpoint = record {
  sending = record { chain = ground arith; last = refl };
  receiving = record { chain = refl; last = refl };
  one_sided = inr refl;
}

-- counts the transfers made
abbrev count : Kernel → Ptr → Ptr → Ptr → Ptr → ℕ → ℕ
count k a b c d n = suc n

endpoint_send-Delivered_example :
    let k' = (endpoint_send count receiving 0 64 5 2400).0 in
    Delivered receiving k' 2400 800 5 8 × IsEndpoint k' 64 [] (16 ∷ [])
endpoint_send-Delivered_example =
    endpoint_send-Delivered count receiving 0 64 5 2400 8 (16 ∷ []) receiving-IsEndpoint

endpoint_receive-Delivered_example :
    let k' = (endpoint_receive count sending 0 64 5 2400).0 in
    Delivered sending k' 800 2400 7 8 × IsEndpoint k' 64 (16 ∷ []) []
endpoint_receive-Delivered_example =
    endpoint_receive-Delivered count sending 0 64 5 2400 8 (16 ∷ []) sending-IsEndpoint

-- 32 waits in the run queue, and the switch takes it once 24 has blocked; it receives into 800.
abbrev crowd : Kernel
crowd = record quiet {
  threads = at quiet.threads 32 (record (thread mode_running 3 300) { runqueue = some 63 });
  priority_queues = at quiet.priority_queues 63 (record { start = 32; end = 32 });
}

crowd-IsEndpoint : IsEndpoint crowd 64 [] []
crowd-IsEndpoint = record {
  sending = record { chain = refl; last = refl };
  receiving = record { chain = refl; last = refl };
  one_sided = inl refl;
}

abbrev later : Kernel
later = (try_context_switch 9000 (endpoint_send count crowd 0 64 5 2400).0 (registers_at 300)).0

it_has_switched : later.current_thread ≡ 32
unfolding endpoint_send try_context_switch can_pop pop_from_start load_next block_sender
    suspend_thread leave_runqueue next_thread take_from save_current
it_has_switched = refl

send_then_receive_example :
    let k₃ = (endpoint_receive count later 0 64 0 800).0 in
    (k₃.messages 800 ≡ record { buffer = 3 ∷ []; badge = 5 })
    × ((k₃.threads 24).exec_mode ≡ without (joined mode_running mode_blocked) mode_blocked)
    × IsEndpoint k₃ 64 [] []
unfolding endpoint_send try_context_switch can_pop pop_from_start load_next block_sender
    suspend_thread leave_runqueue next_thread take_from save_current
send_then_receive_example =
    send_then_receive count crowd later 0 0 64 5 0 2400 800 (omega arith) crowd-IsEndpoint refl refl
      refl refl refl refl
