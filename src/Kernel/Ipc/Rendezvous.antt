-- ===== src/Kernel/Ipc/Rendezvous.antt =====
-- What endpoint_send and endpoint_receive do, on each side of a meeting.
use cenix.Base.{
  ℕ, Ptr, null, ◌≡◌, refl, ◌≢◌, inr, false, List, [], ◌∷◌, ◌++◌, arith, has, ==-refl, ◌∙◌, ap,
}
use cenix.Kernel.State.{Kernel, mode_blocked, joined, without}
use cenix.Kernel.Ipc.{
  unblock_receiver, unblock_sender, block_sender, block_receiver, send_to, receive_from,
  endpoint_send, endpoint_receive,
}
use cenix.Kernel.Ipc.Untouched.{resume_thread-SameIpc, suspend_thread-SameIpc}
use cenix.Kernel.Ipc.Waiting.{IsEndpoint, send-receiver, send-alone, receive-sender, receive-alone}
use cenix.Kernel.Ipc.Steps.{
  Delivered, Blocked, delivery, suspension, popped_receiver, popped_sender, joined_sender,
  joined_receiver,
}

module _ {C : Type 0} (transfer : Kernel → Ptr → Ptr → Ptr → Ptr → C → C) (k : Kernel) (caps : C)
    (endpoint : Ptr) (badge : ℕ) (message : Ptr) where
  -- With threads waiting to receive, endpoint_send serves the one that has waited longest: the
  -- buffer sent is in its buffer with the slot's badge, it is unblocked and off the endpoint, the
  -- others stay in their order, no other message changes, and the sender keeps the processor.
  pub endpoint_send-Delivered :
      (r : Ptr) (rs : List Ptr)
      → IsEndpoint k endpoint [] (r ∷ rs)
      → let k' = (endpoint_send transfer k caps endpoint badge message).0 in
        Delivered k k' message (k.threads r).message_buffer badge r × IsEndpoint k' endpoint [] rs
  unfolding send_to unblock_receiver
  endpoint_send-Delivered r rs e =
      rw (send-receiver transfer k caps endpoint badge message [] r rs e, ==-refl r)
        (
          delivery k _ message (k.threads r).message_buffer badge r refl (λ a. ground arith)
              (ground arith) refl,
          popped_receiver k _ endpoint r rs (resume_thread-SameIpc _ r mode_blocked).blocked_queue
              (resume_thread-SameIpc _ r mode_blocked).endpoints e,
        )

  -- With threads waiting to send, endpoint_receive takes the message of the one that has waited
  -- longest, with the badge that it sent by, unblocks it and takes it off the endpoint; the others
  -- stay in their order, no other message changes, and the receiver keeps the processor.
  pub endpoint_receive-Delivered :
      (s : Ptr) (ss : List Ptr)
      → IsEndpoint k endpoint (s ∷ ss) []
      → let k' = (endpoint_receive transfer k caps endpoint badge message).0 in
        Delivered k k' (k.threads s).message_buffer message (k.threads s).sending_badge s
        × IsEndpoint k' endpoint ss []
  unfolding receive_from unblock_sender
  endpoint_receive-Delivered s ss e =
      rw (receive-sender transfer k caps endpoint badge message s ss [] e, ==-refl s)
        (
          delivery k _ (k.threads s).message_buffer message (k.threads s).sending_badge s refl
              (λ a. ground arith) (ground arith) refl,
          popped_sender k _ endpoint s ss (resume_thread-SameIpc _ s mode_blocked).blocked_queue
              (resume_thread-SameIpc _ s mode_blocked).endpoints e,
        )

  -- With nobody waiting to receive, endpoint_send blocks its caller at the end of the senders.
  pub endpoint_send-Blocked :
      (ss : List Ptr)
      → k.current_thread ≢ null
      → has k.current_thread ss ≡ false
      → IsEndpoint k endpoint ss []
      → let (k', caps') = endpoint_send transfer k caps endpoint badge message in
        Blocked k k' endpoint message badge
        × IsEndpoint k' endpoint (ss ++ k.current_thread ∷ []) []
        × (caps' ≡ caps)
  unfolding block_sender
  endpoint_send-Blocked ss ne new e = rw (send-alone transfer k caps endpoint badge message ss e) (
    suspension k _ endpoint message badge (ground arith) (ground arith) (ground arith)
        (λ a. ground arith) refl refl,
    joined_sender k _ endpoint k.current_thread ss
        (suspend_thread-SameIpc _ k.current_thread mode_blocked).blocked_queue
        (suspend_thread-SameIpc _ k.current_thread mode_blocked).endpoints ne new e,
    refl,
  )

  -- With nobody waiting to send, endpoint_receive blocks its caller at the end of the receivers.
  pub endpoint_receive-Blocked :
      (rs : List Ptr)
      → k.current_thread ≢ null
      → has k.current_thread rs ≡ false
      → IsEndpoint k endpoint [] rs
      → let (k', caps') = endpoint_receive transfer k caps endpoint badge message in
        Blocked k k' endpoint message badge
        × IsEndpoint k' endpoint [] (rs ++ k.current_thread ∷ [])
        × (caps' ≡ caps)
  unfolding block_receiver
  endpoint_receive-Blocked rs ne new e =
      rw (receive-alone transfer k caps endpoint badge message rs e) (
        suspension k _ endpoint message badge (ground arith) (ground arith) (ground arith)
            (λ a. ground arith) refl refl,
        joined_receiver k _ endpoint k.current_thread rs
            (suspend_thread-SameIpc _ k.current_thread mode_blocked).blocked_queue
            (suspend_thread-SameIpc _ k.current_thread mode_blocked).endpoints ne new e,
        refl,
      )

-- A sender that blocks at an endpoint where nobody waits, and then a receiver: whatever was done in
-- between, a switch to another thread included, but to the endpoint, to the sender's message, and to
-- the sender's message buffer, badge, mode and link in the queue, the receiver gets the buffer and
-- the badge of the slot that the sender used, and the endpoint is empty again.
pub send_then_receive :
    {C : Type 0} (transfer : Kernel → Ptr → Ptr → Ptr → Ptr → C → C) (k k₂ : Kernel)
    (caps caps₂ : C) (endpoint : Ptr) (badge badge₂ : ℕ) (message message₂ : Ptr)
    → k.current_thread ≢ null
    → IsEndpoint k endpoint [] []
    → let k₁ = (endpoint_send transfer k caps endpoint badge message).0 in
      k₂.endpoints endpoint ≡ k₁.endpoints endpoint
      → k₂.blocked_queue k.current_thread ≡ k₁.blocked_queue k.current_thread
      → (k₂.threads k.current_thread).message_buffer ≡ (k₁.threads k.current_thread).message_buffer
      → (k₂.threads k.current_thread).sending_badge ≡ (k₁.threads k.current_thread).sending_badge
      → (k₂.threads k.current_thread).exec_mode ≡ (k₁.threads k.current_thread).exec_mode
      → k₂.messages message ≡ k₁.messages message
      → let k₃ = (endpoint_receive transfer k₂ caps₂ endpoint badge₂ message₂).0 in
        (k₃.messages message₂ ≡ record { buffer = (k.messages message).buffer; badge = badge })
        × ((k₃.threads k.current_thread).exec_mode
            ≡ without (joined (k.threads k.current_thread).exec_mode mode_blocked) mode_blocked)
        × IsEndpoint k₃ endpoint [] []
send_then_receive transfer k k₂ caps caps₂ endpoint badge badge₂ message message₂ ne e ee el
      buffer_kept badge_kept mode_kept em =
    (
      d.0.arrived ∙ ground (arith, buffer_kept, badge_kept, b.buffer, b.badge_kept, b.messages),
      d.0.unblocked ∙ ap (λ m. without m mode_blocked) mode,
      d.1,
    )
  where
    t : Ptr
    t = k.current_thread

    k₁ : Kernel
    k₁ = (endpoint_send transfer k caps endpoint badge message).0

    sent :
        Blocked k k₁ endpoint message badge
        × IsEndpoint k₁ endpoint (t ∷ []) []
        × ((endpoint_send transfer k caps endpoint badge message).1 ≡ caps)
    sent = endpoint_send-Blocked transfer k caps endpoint badge message [] ne refl e

    b : Blocked k k₁ endpoint message badge
    b = sent.0

    e₁ : IsEndpoint k₁ endpoint (t ∷ []) []
    e₁ = sent.1

    e₂ : IsEndpoint k₂ endpoint (t ∷ []) []
    e₂ = record {
      sending = rw ee (record {
        chain = (
          e₁.sending.chain.0,
          e₁.sending.chain.1,
          e₁.sending.chain.2,
          rw el (e₁.sending.chain.3),
        );
        last = e₁.sending.last;
      });
      receiving = rw ee (record { chain = e₁.receiving.chain; last = e₁.receiving.last });
      one_sided = inr refl;
    }

    d :
        Delivered k₂
          (endpoint_receive transfer k₂ caps₂ endpoint badge₂ message₂).0
          (k₂.threads t).message_buffer
          message₂
          (k₂.threads t).sending_badge
          t
        × IsEndpoint (endpoint_receive transfer k₂ caps₂ endpoint badge₂ message₂).0 endpoint [] []
    d = endpoint_receive-Delivered transfer k₂ caps₂ endpoint badge₂ message₂ t [] e₂

    mode : (k₂.threads t).exec_mode ≡ joined (k.threads t).exec_mode mode_blocked
    mode = mode_kept ∙ b.mode
