-- ===== src/Kernel/Ipc/Untouched.antt =====
-- What resume_thread and suspend_thread leave alone.
use cenix.Base.{
  Ptr, null, ◌≡◌, refl, Bool, true, arith, ◌==◌, if◌then◌else◌, inl, inr, Bool-cases, ◌∙◌,
}
use cenix.Kernel.State.{Kernel, ExecMode, is_running, joined, without, set_thread}
use cenix.Kernel.Scheduler.{
  queue_thread, resume_if_running, resume_thread, suspend_thread, leave_runqueue,
}

-- The two kernels agree on the endpoints, the messages, and what a thread waits for.
pub record SameIpc (k k' : Kernel) : Type 0 where
  pub endpoints : k'.endpoints ≡ k.endpoints
  pub messages : k'.messages ≡ k.messages
  pub blocked_queue : k'.blocked_queue ≡ k.blocked_queue
  pub current_thread : k'.current_thread ≡ k.current_thread
  pub message_buffer : (a : Ptr) → (k'.threads a).message_buffer ≡ (k.threads a).message_buffer
  pub sending_badge : (a : Ptr) → (k'.threads a).sending_badge ≡ (k.threads a).sending_badge
  pub blocked_on : (a : Ptr) → (k'.threads a).blocked_on ≡ (k.threads a).blocked_on
  pub flags : (a : Ptr) → (k'.threads a).flags ≡ (k.threads a).flags

SameIpc-trans : {k k' k'' : Kernel} → SameIpc k k' → SameIpc k' k'' → SameIpc k k''
SameIpc-trans s s' = record {
  endpoints = s'.endpoints ∙ s.endpoints;
  messages = s'.messages ∙ s.messages;
  blocked_queue = s'.blocked_queue ∙ s.blocked_queue;
  current_thread = s'.current_thread ∙ s.current_thread;
  message_buffer = λ a. s'.message_buffer a ∙ s.message_buffer a;
  sending_badge = λ a. s'.sending_badge a ∙ s.sending_badge a;
  blocked_on = λ a. s'.blocked_on a ∙ s.blocked_on a;
  flags = λ a. s'.flags a ∙ s.flags a;
}

SameIpc-refl : (k : Kernel) → SameIpc k k
SameIpc-refl k = record {
  endpoints = refl;
  messages = refl;
  blocked_queue = refl;
  current_thread = refl;
  message_buffer = λ a. refl;
  sending_badge = λ a. refl;
  blocked_on = λ a. refl;
  flags = λ a. refl;
}

pending-SameIpc : (k : Kernel) (b : Bool) → SameIpc k (record k { pending_context_switch = b })
pending-SameIpc k b = record {
  endpoints = refl;
  messages = refl;
  blocked_queue = refl;
  current_thread = refl;
  message_buffer = λ a. refl;
  sending_badge = λ a. refl;
  blocked_on = λ a. refl;
  flags = λ a. refl;
}

queue_thread-SameIpc : (k : Kernel) (t : Ptr) → SameIpc k (queue_thread k t)
unfolding queue_thread
queue_thread-SameIpc k t = record {
  endpoints = ground arith;
  messages = ground arith;
  blocked_queue = ground arith;
  current_thread = ground arith;
  message_buffer = λ a. ground arith;
  sending_badge = λ a. ground arith;
  blocked_on = λ a. ground arith;
  flags = λ a. ground arith;
}

queue_thread-mode :
    (k : Kernel) (t a : Ptr) → ((queue_thread k t).threads a).exec_mode ≡ (k.threads a).exec_mode
unfolding queue_thread
queue_thread-mode k t a = ground arith

-- Any property of both outcomes of resume_if_running holds of it.
resume_if_running-cases {ℓ} :
    (P : Kernel → Type ℓ) (k : Kernel) (t : Ptr)
    → P k
    → P (queue_thread k t)
    → P (record (queue_thread k t) { pending_context_switch = true })
    → P (resume_if_running k t)
unfolding resume_if_running
resume_if_running-cases P k t same on off = elim (Bool-cases (is_running (k.threads t).exec_mode)) [
  | inr e ↦ rw e same
  | inl e ↦ rw e (elim (Bool-cases ((queue_thread k t).current_thread == null)) [
    | inl idle ↦ rw idle off
    | inr busy ↦ rw busy on
  ])
]

resume_if_running-SameIpc : (k : Kernel) (t : Ptr) → SameIpc k (resume_if_running k t)
resume_if_running-SameIpc k t =
    resume_if_running-cases (SameIpc k) k t (SameIpc-refl k) (queue_thread-SameIpc k t)
      (SameIpc-trans (queue_thread-SameIpc k t) (pending-SameIpc (queue_thread k t) true))

pub resume_thread-SameIpc :
    (k : Kernel) (t : Ptr) (reason : ExecMode) → SameIpc k (resume_thread k t reason)
unfolding resume_thread
resume_thread-SameIpc k t reason = SameIpc-trans written (resume_if_running-SameIpc lowered t)
  where
    lowered : Kernel
    lowered =
        set_thread k t (record (k.threads t) { exec_mode = without (k.threads t).exec_mode reason })

    written : SameIpc k lowered
    written = record {
      endpoints = refl;
      messages = refl;
      blocked_queue = refl;
      current_thread = refl;
      message_buffer = λ a. ground arith;
      sending_badge = λ a. ground arith;
      blocked_on = λ a. ground arith;
      flags = λ a. ground arith;
    }

pub resume_thread-mode :
    (k : Kernel) (t : Ptr) (reason : ExecMode) (a : Ptr)
    → ((resume_thread k t reason).threads a).exec_mode
      ≡ (if a == t then without (k.threads t).exec_mode reason else (k.threads a).exec_mode)
unfolding resume_thread
resume_thread-mode k t reason a =
    resume_if_running-cases
      (λ k'.
        (k'.threads a).exec_mode
        ≡ (if a == t then without (k.threads t).exec_mode reason else (k.threads a).exec_mode))
      lowered t written (queue_thread-mode lowered t a ∙ written)
      (queue_thread-mode lowered t a ∙ written)
  where
    lowered : Kernel
    lowered =
        set_thread k t (record (k.threads t) { exec_mode = without (k.threads t).exec_mode reason })

    written :
        (lowered.threads a).exec_mode
        ≡ (if a == t then without (k.threads t).exec_mode reason else (k.threads a).exec_mode)
    written = ground arith

pub suspend_thread-SameIpc :
    (k : Kernel) (t : Ptr) (m : ExecMode) → SameIpc k (suspend_thread k t m)
unfolding suspend_thread leave_runqueue
suspend_thread-SameIpc k t m = record {
  endpoints = ground arith;
  messages = ground arith;
  blocked_queue = ground arith;
  current_thread = ground arith;
  message_buffer = λ a. ground arith;
  sending_badge = λ a. ground arith;
  blocked_on = λ a. ground arith;
  flags = λ a. ground arith;
}

pub suspend_thread-mode :
    (k : Kernel) (t : Ptr) (m : ExecMode) (a : Ptr)
    → ((suspend_thread k t m).threads a).exec_mode
      ≡ (if a == t then joined (k.threads t).exec_mode m else (k.threads a).exec_mode)
unfolding suspend_thread leave_runqueue
suspend_thread-mode k t m a = ground arith

-- Suspending the thread that runs asks for a switch.
pub suspend_thread-pending :
    (k : Kernel) (m : ExecMode)
    → (suspend_thread k k.current_thread m).pending_context_switch ≡ true
unfolding suspend_thread leave_runqueue
suspend_thread-pending k m = ground arith
