-- ===== src/Kernel/Ipc/Steps.antt =====
-- The steps that the endpoint handlers share: a delivery, a suspension, and the queues after them.
use cenix.Base.{
  ℕ, Ptr, null, ◌≡◌, refl, ◌≢◌, inl, inr, true, false, List, [], ◌∷◌, ◌++◌, arith, has, ==-refl,
  ◌∙◌, ap, subst,
}
use cenix.LinkedList.{append, pop_from_start}
use cenix.LinkedList.Queue.{append-IsQueue, pop-IsQueue}
use cenix.Kernel.State.{Kernel, Message, mode_blocked, is_running, joined, without, at}
use cenix.Kernel.Scheduler.{resume_thread, suspend_thread}
use cenix.Kernel.Ipc.Untouched.{
  SameIpc, resume_thread-SameIpc, resume_thread-mode, suspend_thread-SameIpc, suspend_thread-mode,
  suspend_thread-pending,
}
use cenix.Kernel.Ipc.Waiting.{IsEndpoint}

abbrev pub parcel : Kernel → Ptr → ℕ → Message
parcel k from badge = record { buffer = (k.messages from).buffer; badge = badge }

-- A message went from `from` to `to` with `badge`, and `t`, which waited for that, is unblocked.
pub record Delivered (k k' : Kernel) (from to : Ptr) (badge : ℕ) (t : Ptr) : Type 0 where
  pub arrived : k'.messages to ≡ parcel k from badge
  pub elsewhere : (a : Ptr) → a ≢ to → k'.messages a ≡ k.messages a
  pub unblocked : (k'.threads t).exec_mode ≡ without (k.threads t).exec_mode mode_blocked
  pub modes : (a : Ptr) → a ≢ t → (k'.threads a).exec_mode ≡ (k.threads a).exec_mode
  pub nowhere : (k'.threads t).blocked_on ≡ null
  pub goes_on : k'.current_thread ≡ k.current_thread

-- The thread that calls is blocked at the endpoint, with its message buffer and badge kept.
pub record Blocked (k k' : Kernel) (endpoint message : Ptr) (badge : ℕ) : Type 0 where
  pub mode :
      (k'.threads k.current_thread).exec_mode
      ≡ joined (k.threads k.current_thread).exec_mode mode_blocked
  pub stopped : is_running (k'.threads k.current_thread).exec_mode ≡ false
  pub buffer : (k'.threads k.current_thread).message_buffer ≡ message
  pub badge_kept : (k'.threads k.current_thread).sending_badge ≡ badge
  pub where_at : (k'.threads k.current_thread).blocked_on ≡ endpoint
  pub switch : k'.pending_context_switch ≡ true
  pub messages : k'.messages ≡ k.messages
  pub modes : (a : Ptr) → a ≢ k.current_thread → (k'.threads a).exec_mode ≡ (k.threads a).exec_mode

-- After `t` has been unblocked and the message copied, resume_thread finishes a delivery.
pub delivery :
    (k k₁ : Kernel) (from to : Ptr) (badge : ℕ) (t : Ptr)
    → k₁.messages ≡ at k.messages to (parcel k from badge)
    → ((a : Ptr) → (k₁.threads a).exec_mode ≡ (k.threads a).exec_mode)
    → (k₁.threads t).blocked_on ≡ null
    → k₁.current_thread ≡ k.current_thread
    → Delivered k (resume_thread k₁ t mode_blocked) from to badge t
delivery k k₁ from to badge t m modes off cur = record {
  arrived = rw (same.messages, m) (ground arith);
  elsewhere = λ a ne. rw (same.messages, m) (ground arith);
  unblocked =
      resume_thread-mode k₁ t mode_blocked t
      ∙ rw (==-refl t) (ap (λ e. without e mode_blocked) (modes t));
  modes = λ a ne. resume_thread-mode k₁ t mode_blocked a ∙ ground (arith, modes a);
  nowhere = same.blocked_on t ∙ off;
  goes_on = same.current_thread ∙ cur;
}
  where
    same : SameIpc k₁ (resume_thread k₁ t mode_blocked)
    same = resume_thread-SameIpc k₁ t mode_blocked

-- After the caller's wait has been written down, suspend_thread finishes blocking it.
pub suspension :
    (k k₁ : Kernel) (endpoint message : Ptr) (badge : ℕ)
    → let t = k.current_thread in
      (k₁.threads t).message_buffer ≡ message
      → (k₁.threads t).sending_badge ≡ badge
      → (k₁.threads t).blocked_on ≡ endpoint
      → ((a : Ptr) → (k₁.threads a).exec_mode ≡ (k.threads a).exec_mode)
      → k₁.messages ≡ k.messages
      → k₁.current_thread ≡ t
      → Blocked k (suspend_thread k₁ t mode_blocked) endpoint message badge
suspension k k₁ endpoint message badge mb sb bo modes ms cur = record {
  mode = mode;
  stopped = rw mode (ground arith);
  buffer = same.message_buffer k.current_thread ∙ mb;
  badge_kept = same.sending_badge k.current_thread ∙ sb;
  where_at = same.blocked_on k.current_thread ∙ bo;
  switch =
      subst (λ t. (suspend_thread k₁ t mode_blocked).pending_context_switch ≡ true) cur
        (suspend_thread-pending k₁ mode_blocked);
  messages = same.messages ∙ ms;
  modes = λ a ne. suspend_thread-mode k₁ k.current_thread mode_blocked a ∙ ground (arith, modes a);
}
  where
    same : SameIpc k₁ (suspend_thread k₁ k.current_thread mode_blocked)
    same = suspend_thread-SameIpc k₁ k.current_thread mode_blocked

    mode :
        ((suspend_thread k₁ k.current_thread mode_blocked).threads k.current_thread).exec_mode
        ≡ joined (k.threads k.current_thread).exec_mode mode_blocked
    mode =
        suspend_thread-mode k₁ k.current_thread mode_blocked k.current_thread
        ∙ rw (==-refl k.current_thread) (ap (λ e. joined e mode_blocked) (modes k.current_thread))

-- Queues of an endpoint after a pop on one side, the other being empty.
pub popped_receiver :
    (k k' : Kernel) (endpoint r : Ptr) (rs : List Ptr)
    → let (got, c, links) =
        pop_from_start (k.endpoints endpoint).blocked_receiving k.blocked_queue in
      k'.blocked_queue ≡ links
      → k'.endpoints
        ≡ at k.endpoints endpoint (record (k.endpoints endpoint) { blocked_receiving = c })
      → IsEndpoint k endpoint [] (r ∷ rs)
      → IsEndpoint k' endpoint [] rs
popped_receiver k k' endpoint r rs el ee e = record {
  sending =
      rw (el, ee, ==-refl endpoint) (record { chain = e.sending.chain; last = e.sending.last });
  receiving =
      rw (el, ee, ==-refl endpoint)
        (pop-IsQueue k.blocked_queue (k.endpoints endpoint).blocked_receiving r rs e.receiving).1;
  one_sided = inl refl;
}

pub popped_sender :
    (k k' : Kernel) (endpoint s : Ptr) (ss : List Ptr)
    → let (got, c, links) = pop_from_start (k.endpoints endpoint).blocked_sending k.blocked_queue in
      k'.blocked_queue ≡ links
      → k'.endpoints
        ≡ at k.endpoints endpoint (record (k.endpoints endpoint) { blocked_sending = c })
      → IsEndpoint k endpoint (s ∷ ss) []
      → IsEndpoint k' endpoint ss []
popped_sender k k' endpoint s ss el ee e = record {
  sending =
      rw (el, ee, ==-refl endpoint)
        (pop-IsQueue k.blocked_queue (k.endpoints endpoint).blocked_sending s ss e.sending).1;
  receiving =
      rw (el, ee, ==-refl endpoint) (record { chain = e.receiving.chain; last = e.receiving.last });
  one_sided = inr refl;
}

pub joined_sender :
    (k k' : Kernel) (endpoint t : Ptr) (ss : List Ptr)
    → let (c, links) = append (k.endpoints endpoint).blocked_sending k.blocked_queue t in
      k'.blocked_queue ≡ links
      → k'.endpoints
        ≡ at k.endpoints endpoint (record (k.endpoints endpoint) { blocked_sending = c })
      → t ≢ null
      → has t ss ≡ false
      → IsEndpoint k endpoint ss []
      → IsEndpoint k' endpoint (ss ++ t ∷ []) []
joined_sender k k' endpoint t ss el ee ne new e = record {
  sending =
      rw (el, ee, ==-refl endpoint)
        (append-IsQueue k.blocked_queue t ne (k.endpoints endpoint).blocked_sending ss new
          e.sending);
  receiving =
      rw (el, ee, ==-refl endpoint) (record { chain = e.receiving.chain; last = e.receiving.last });
  one_sided = inr refl;
}

pub joined_receiver :
    (k k' : Kernel) (endpoint t : Ptr) (rs : List Ptr)
    → let (c, links) = append (k.endpoints endpoint).blocked_receiving k.blocked_queue t in
      k'.blocked_queue ≡ links
      → k'.endpoints
        ≡ at k.endpoints endpoint (record (k.endpoints endpoint) { blocked_receiving = c })
      → t ≢ null
      → has t rs ≡ false
      → IsEndpoint k endpoint [] rs
      → IsEndpoint k' endpoint [] (rs ++ t ∷ [])
joined_receiver k k' endpoint t rs el ee ne new e = record {
  sending =
      rw (el, ee, ==-refl endpoint) (record { chain = e.sending.chain; last = e.sending.last });
  receiving =
      rw (el, ee, ==-refl endpoint)
        (append-IsQueue k.blocked_queue t ne (k.endpoints endpoint).blocked_receiving rs new
          e.receiving);
  one_sided = inl refl;
}
