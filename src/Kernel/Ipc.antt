-- ===== src/Kernel/Ipc.antt =====
-- core/kernel/ipc.c: endpoints, where a sender and a receiver meet. The capability spaces are a
-- state `C` of their own: transfer_capabilities reads the two threads and writes there, and the
-- handlers take it as `transfer`, with the arguments that the code gives it.
pub mod Untouched
pub mod Waiting
pub mod Steps
pub mod Rendezvous
mod Tests
use cenix.Base.{
  ℕ, zero, suc, Ptr, null, Bool, true, false, Option, none, some, List, [], ◌∷◌, if◌then◌else◌,
  ◌==◌,
}
use cenix.LinkedList.{Container, init, append, pop_from_start, can_pop}
use cenix.Kernel.State.{
  Kernel, Thread, ThreadFlags, Endpoint, Message, ExecMode, mode_blocked, mode_suspended, at,
  set_thread,
}
use cenix.Kernel.Scheduler.{resume_thread, suspend_thread}

-- `flags &= ~THREAD_BLOCKED_ON_RECEIVE; blocked_on = NULL`, and the same for a sender
abbrev pub stop_receiving : Thread → Thread
stop_receiving t = record t {
  flags = record (t.flags) { blocked_on_receive = false };
  blocked_on = null;
}

abbrev pub stop_sending : Thread → Thread
stop_sending t = record t {
  flags = record (t.flags) { blocked_on_send = false };
  blocked_on = null;
}

abbrev pub start_receiving : Thread → Ptr → ℕ → Ptr → Thread
start_receiving t message badge endpoint = record t {
  message_buffer = message;
  sending_badge = badge;
  blocked_on = endpoint;
  flags = record (t.flags) { blocked_on_receive = true };
}

abbrev pub start_sending : Thread → Ptr → ℕ → Ptr → Thread
start_sending t message badge endpoint = record t {
  message_buffer = message;
  sending_badge = badge;
  blocked_on = endpoint;
  flags = record (t.flags) { blocked_on_send = true };
}

-- `memcpy(&to->buffer, &from->buffer, IPC_BUFFER_SIZE); to->badge = badge`
abbrev pub deliver : Kernel → Ptr → Ptr → ℕ → Kernel
deliver k from to badge = record k {
  messages = at k.messages to (record { buffer = (k.messages from).buffer; badge = badge });
}

-- A receiver taken off the endpoint's queue.
unfoldable pub unblock_receiver : Kernel → Ptr → Ptr → Container → Kernel
unblock_receiver k endpoint receiving c = record k {
  endpoints = at k.endpoints endpoint (record (k.endpoints endpoint) { blocked_receiving = c });
  threads = at k.threads receiving (stop_receiving (k.threads receiving));
}

unfoldable pub unblock_sender : Kernel → Ptr → Ptr → Container → Kernel
unblock_sender k endpoint sending c = record k {
  endpoints = at k.endpoints endpoint (record (k.endpoints endpoint) { blocked_sending = c });
  threads = at k.threads sending (stop_sending (k.threads sending));
}

-- The calling thread joins a queue of the endpoint and is suspended.
unfoldable pub block_sender : Kernel → Ptr → ℕ → Ptr → Kernel
block_sender k endpoint badge message =
    let t = k.current_thread in
    let (c, links) = append (k.endpoints endpoint).blocked_sending k.blocked_queue t in
    suspend_thread
      (record k {
        threads = at k.threads t (start_sending (k.threads t) message badge endpoint);
        endpoints = at k.endpoints endpoint (record (k.endpoints endpoint) { blocked_sending = c });
        blocked_queue = links;
      })
      t mode_blocked

unfoldable pub block_receiver : Kernel → Ptr → ℕ → Ptr → Kernel
block_receiver k endpoint badge message =
    let t = k.current_thread in
    let (c, links) = append (k.endpoints endpoint).blocked_receiving k.blocked_queue t in
    suspend_thread
      (record k {
        threads = at k.threads t (start_receiving (k.threads t) message badge endpoint);
        endpoints =
            at k.endpoints endpoint (record (k.endpoints endpoint) { blocked_receiving = c });
        blocked_queue = links;
      })
      t mode_blocked

module _ {C : Type 0} (transfer : Kernel → Ptr → Ptr → Ptr → Ptr → C → C) where
  -- The part of endpoint_send after a receiver has been popped.
  unfoldable pub send_to : Kernel → C → Ptr → ℕ → Ptr → Ptr → Container → Kernel × C
  send_to k caps endpoint badge message receiving c =
      let k₁ = unblock_receiver k endpoint receiving c in
      let buffer = (k₁.threads receiving).message_buffer in
      let k₂ = deliver k₁ message buffer badge in
      (
        resume_thread k₂ receiving mode_blocked,
        transfer k₂ k₂.current_thread receiving message buffer caps,
      )

  -- `badge` is that of the invoked slot, whose resource is `endpoint`. The result is always 0.
  unfoldable pub endpoint_send : Kernel → C → Ptr → ℕ → Ptr → Kernel × C
  endpoint_send k caps endpoint badge message =
      let (got, c, links) =
        pop_from_start (k.endpoints endpoint).blocked_receiving k.blocked_queue in
      if can_pop (k.endpoints endpoint).blocked_receiving
      then elim got [
        | none ↦ (k, caps)
        | some receiving ↦
            send_to (record k { blocked_queue = links }) caps endpoint badge message receiving c
      ]
      else (block_sender k endpoint badge message, caps)

  unfoldable pub receive_from : Kernel → C → Ptr → Ptr → Ptr → Container → Kernel × C
  receive_from k caps endpoint message sending c =
      let k₁ = unblock_sender k endpoint sending c in
      let buffer = (k₁.threads sending).message_buffer in
      let k₂ = deliver k₁ buffer message (k₁.threads sending).sending_badge in
      (
        resume_thread k₂ sending mode_blocked,
        transfer k₂ sending k₂.current_thread buffer message caps,
      )

  unfoldable pub endpoint_receive : Kernel → C → Ptr → ℕ → Ptr → Kernel × C
  endpoint_receive k caps endpoint badge message =
      let (got, c, links) = pop_from_start (k.endpoints endpoint).blocked_sending k.blocked_queue in
      if can_pop (k.endpoints endpoint).blocked_sending
      then elim got [
        | none ↦ (k, caps)
        | some sending ↦
            receive_from (record k { blocked_queue = links }) caps endpoint message sending c
      ]
      else (block_receiver k endpoint badge message, caps)

-- One list of on_endpoint_moved: `fuel` bounds the number of threads walked.
unfoldable pub repoint : ℕ → Ptr → Ptr → Kernel → Option Kernel
repoint zero endpoint t k = none
repoint (suc fuel) endpoint t k =
    let rest =
      repoint fuel endpoint (k.blocked_queue t).next
        (set_thread k t (record (k.threads t) { blocked_on = endpoint })) in
    if t == null then some k else rest

unfoldable pub on_endpoint_moved : ℕ → Ptr → Kernel → Option Kernel
on_endpoint_moved fuel endpoint k =
    elim (repoint fuel endpoint (k.endpoints endpoint).blocked_sending.start k) [
      | none ↦ none
      | some k' ↦ repoint fuel endpoint (k'.endpoints endpoint).blocked_receiving.start k'
    ]

-- One list of endpoint_destructor.
unfoldable pub release : ℕ → Ptr → Kernel → Option Kernel
release zero t k = none
release (suc fuel) t k =
    let k₁ = resume_thread (suspend_thread k t mode_suspended) t mode_blocked in
    let rest =
      release fuel (k₁.blocked_queue t).next
        (set_thread k₁ t (record (k₁.threads t) { blocked_on = null })) in
    if t == null then some k else rest

unfoldable pub endpoint_destructor : ℕ → Ptr → Kernel → Option Kernel
endpoint_destructor fuel endpoint k =
    elim (release fuel (k.endpoints endpoint).blocked_sending.start k) [
      | none ↦ none
      | some k' ↦ release fuel (k'.endpoints endpoint).blocked_receiving.start k'
    ]

-- alloc_endpoint once heap_alloc has returned `p`, NULL if it failed.
unfoldable pub alloc_endpoint : Kernel → Ptr → Kernel × Ptr
alloc_endpoint k p = if p == null then (k, null) else (
  record k {
    endpoints = at k.endpoints p (record { blocked_sending = init; blocked_receiving = init });
  },
  p,
)
