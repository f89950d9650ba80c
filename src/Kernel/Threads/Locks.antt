-- ===== src/Kernel/Threads/Locks.antt =====
-- heap_lock and heap_unlock around the handlers of a thread capability (core/kernel/threads.c), and
-- what the handlers do to the run queue.
use cenix.Base.{
  Ptr, null, ◌≡◌, refl, ap, ◌∙◌, ◌≢◌, fun_ext, inl, inr, true, List, arith, ◌==◌, has, erase,
  Bool-cases, Option-cases,
}
use cenix.Kernel.State.{
  Kernel, Kind, ExecMode, mode_suspended, is_running, joined, at, heap_lock, heap_unlock,
  while_locked,
}
use cenix.Kernel.Scheduler.{
  queue_thread, resume_if_running, resume_thread, leave_runqueue, suspend_thread,
}
use cenix.Kernel.Scheduler.Ready.{IsReady, resumed, resume_thread-IsReady}
use cenix.Kernel.Scheduler.Suspend.{IsTwoWay, IsIn63, suspend_thread-IsReady}
use cenix.Kernel.Threads.Handlers.{resume, suspend}

abbrev pub with_kinds : Kernel → (Ptr → Kind) → Kernel
with_kinds k f = record k { kinds = f }

-- The kinds while the object at `p` is locked.
abbrev pub fixed : Kernel → Ptr → Ptr → Kind
fixed k p = elim (k.kinds p) [ Kind.movable ↦ at k.kinds p Kind.immovable | _ ↦ k.kinds ]

pub unlocked :
    (f : Ptr → Kind) (p : Ptr) → f p ≡ Kind.movable → at (at f p Kind.immovable) p Kind.movable ≡ f
unlocked f p h = fun_ext (λ a. ground (arith, h))

-- A body that leaves the kinds alone runs on the kernel with the object locked, and after it the
-- kinds are as before.
pub while_locked-kinds {ℓ} :
    {A : Type ℓ} (p : Ptr) (body : Kernel → A × Kernel) (k : Kernel)
    → ((k' : Kernel) → (body k').1.kinds ≡ k'.kinds)
    → while_locked p body k ≡ (
      (body (with_kinds k (fixed k p))).0,
      with_kinds (body (with_kinds k (fixed k p))).1 k.kinds,
    )
unfolding while_locked heap_lock heap_unlock
while_locked-kinds p body k same = go (k.kinds p) refl
  where
    go :
        (v : Kind)
        → k.kinds p ≡ v
        → while_locked p body k ≡ (
          (body (with_kinds k (fixed k p))).0,
          with_kinds (body (with_kinds k (fixed k p))).1 k.kinds,
        )
    go Kind.available e =
        rw (e, fixed, heap_lock) (ap (λ f. ((body k).0, with_kinds (body k).1 f)) (same k))
    go Kind.immovable e =
        rw (e, fixed, heap_lock) (ap (λ f. ((body k).0, with_kinds (body k).1 f)) (same k))
    go Kind.movable e =
        rw (e, fixed, heap_lock)
          (ap
            (λ f. (
              (body (with_kinds k (at k.kinds p Kind.immovable))).0,
              with_kinds (body (with_kinds k (at k.kinds p Kind.immovable))).1 f,
            ))
            (ap (λ f. at f p Kind.movable) (same (with_kinds k (at k.kinds p Kind.immovable)))
              ∙ unlocked k.kinds p e))

queue_thread-kinds : (k : Kernel) (t : Ptr) → (queue_thread k t).kinds ≡ k.kinds
unfolding queue_thread
queue_thread-kinds k t = ground arith

resume_if_running-kinds : (k : Kernel) (t : Ptr) → (resume_if_running k t).kinds ≡ k.kinds
unfolding resume_if_running
resume_if_running-kinds k t = elim (Bool-cases (is_running (k.threads t).exec_mode)) [
  | inr off ↦ rw off refl
  | inl on ↦ rw on (elim (Bool-cases ((queue_thread k t).current_thread == null)) [
    | inl idle ↦ rw idle (queue_thread-kinds k t)
    | inr busy ↦ rw busy (queue_thread-kinds k t)
  ])
]

resume_thread-kinds : (k : Kernel) (t : Ptr) (m : ExecMode) → (resume_thread k t m).kinds ≡ k.kinds
unfolding resume_thread
resume_thread-kinds k t m = resume_if_running-kinds _ t

leave_runqueue-kinds : (k : Kernel) (t : Ptr) → (leave_runqueue k t).kinds ≡ k.kinds
unfolding leave_runqueue
leave_runqueue-kinds k t = elim (Option-cases (k.threads t).runqueue) [
  | inl e ↦ rw (e, leave_runqueue) refl
  | inr (q, e) ↦ rw (e, leave_runqueue) refl
]

suspend_thread-kinds :
    (k : Kernel) (t : Ptr) (m : ExecMode) → (suspend_thread k t m).kinds ≡ k.kinds
unfolding suspend_thread
suspend_thread-kinds k t m = elim (Bool-cases (is_running (joined (k.threads t).exec_mode m))) [
  | inl on ↦ rw on refl
  | inr off ↦ rw off (leave_runqueue-kinds _ t)
]

-- The kinds are no part of the run queue.
with_kinds-IsReady :
    (k : Kernel) (f : Ptr → Kind) (xs : List Ptr) → IsReady k xs → IsReady (with_kinds k f) xs
with_kinds-IsReady k f xs r = record {
  queue = r.queue;
  others = r.others;
  listed = r.listed;
  runnable = r.runnable;
}

resume-body :
    (k : Kernel) (t : Ptr)
    → resume k t
      ≡ (0, with_kinds (resume_thread (with_kinds k (fixed k t)) t mode_suspended) k.kinds)
unfolding resume
resume-body k t =
    while_locked-kinds t (λ k. (0, resume_thread k t mode_suspended)) k
      (λ k'. resume_thread-kinds k' t mode_suspended)

suspend-body :
    (k : Kernel) (t : Ptr)
    → suspend k t
      ≡ (0, with_kinds (suspend_thread (with_kinds k (fixed k t)) t mode_suspended) k.kinds)
unfolding suspend
suspend-body k t =
    while_locked-kinds t (λ k. (0, suspend_thread k t mode_suspended)) k
      (λ k'. suspend_thread-kinds k' t mode_suspended)

-- The resume handler answers 0, and leaves every object locked or movable as it was. If the mode of
-- the thread, without the suspension, is the running one and the thread is not queued, it is queued
-- at the end, even if it was not suspended at all, as the thread that runs now; otherwise the queue
-- stays as it was.
pub resume-IsReady :
    (k : Kernel) (t : Ptr) (xs : List Ptr)
    → t ≢ null
    → IsReady k xs
    → let (status, k') = resume k t in
      (status ≡ 0)
      × IsReady k' (resumed (k.threads t).exec_mode mode_suspended t xs)
      × (k'.kinds ≡ k.kinds)
resume-IsReady k t xs ne r = rw (resume-body k t) (
  refl,
  with_kinds-IsReady _ k.kinds _ (
      resume_thread-IsReady (with_kinds k (fixed k t)) t mode_suspended xs ne
        (with_kinds-IsReady k (fixed k t) xs r)),
  refl,
)

-- The suspend handler answers 0, takes a waiting thread out of a run queue that can be walked
-- both ways, and leaves every object locked or movable as it was.
pub suspend-IsReady :
    (k : Kernel) (t : Ptr) (xs : List Ptr)
    → has t xs ≡ true
    → IsIn63 k t
    → IsTwoWay k xs
    → IsReady k xs
    → let (status, k') = suspend k t in
      (status ≡ 0) × IsReady k' (erase t xs) × IsTwoWay k' (erase t xs) × (k'.kinds ≡ k.kinds)
suspend-IsReady k t xs i q w r =
    let (ready, two_way) =
      suspend_thread-IsReady (with_kinds k (fixed k t)) t mode_suspended q (ground arith) xs i w
        (with_kinds-IsReady k (fixed k t) xs r) in
    rw (suspend-body k t) (refl, with_kinds-IsReady _ k.kinds _ ready, two_way, refl)
