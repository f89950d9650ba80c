-- ===== src/Kernel/Scheduler/Rounds.antt =====
-- Time slices in turn: every waiting thread is reached.
use cenix.Base.{
  ℕ, zero, suc, Ptr, null, ◌≡◌, refl, Bool, true, List, [], ◌∷◌, ◌++◌, arith, ◌==◌, if◌then◌else◌,
  has-append, subst, length,
}
use mathlib.Core.List.{append_assoc, append-nil}
use cenix.Kernel.Arch.{Registers}
use cenix.Kernel.State.{Kernel, is_running}
use cenix.Kernel.Scheduler.{yield_thread, try_context_switch}
use cenix.Kernel.Scheduler.Ready.{IsReady, pending-IsReady}
use cenix.Kernel.Scheduler.Switch.{IsApart, Switched, try_context_switch-Switched}

-- The running thread gives up its slice, and the switch is made on the way out of the trap.
pub turn : ℕ → Kernel × Registers → Kernel × Registers
turn idle_thread (k, registers) = try_context_switch idle_thread (yield_thread k) registers

pub turns : ℕ → ℕ → Kernel × Registers → Kernel × Registers
unfolding turn
turns idle_thread zero s = s
turns idle_thread (suc n) s = turns idle_thread n (turn idle_thread s)

-- What a turn with `x` at the head leaves: the rest of the queue, with the thread that ran behind
-- it if it goes on running.
abbrev behind : Kernel → List Ptr
behind k =
    if k.current_thread == null
    then []
    else if is_running (k.threads k.current_thread).exec_mode
    then k.current_thread ∷ []
    else []

behind_eq :
    (c : Ptr) (running : Bool) (xs : List Ptr)
    → (if c == null then xs else if running then xs ++ c ∷ [] else xs)
      ≡ xs ++ (if c == null then [] else if running then c ∷ [] else [])
behind_eq c running xs = ground (arith, append-nil xs)

turn-cons :
    (idle_thread : ℕ) (k : Kernel) (registers : Registers) (x : Ptr) (xs : List Ptr)
    → IsReady k (x ∷ xs)
    → IsApart k (x ∷ xs)
    → let (k', registers') = turn idle_thread (k, registers) in
      IsReady k' (xs ++ behind k) × (k'.current_thread ≡ x) × IsApart k' (xs ++ behind k)
unfolding turn yield_thread
turn-cons idle_thread k registers x xs r apart = (
  subst (IsReady after) (behind_eq k.current_thread running xs) sw.ready,
  sw.current,
  rw (sw.current, has-append x xs (behind k)) (ground (arith, r.queue.chain)),
)
  where
    after : Kernel
    after = (turn idle_thread (k, registers)).0

    running : Bool
    running = is_running (k.threads k.current_thread).exec_mode

    sw :
        Switched idle_thread
          (yield_thread k)
          registers
          (x ∷ xs)
          after
          (turn idle_thread (k, registers)).1
    sw =
        try_context_switch-Switched idle_thread (yield_thread k) registers (x ∷ xs) refl
          (pending-IsReady k true (x ∷ xs) r) apart

-- A thread that waits behind `xs` runs after one turn more than `xs` has threads, if every
-- thread before it yields its slice.
pub turns-reach :
    (idle_thread : ℕ) (xs ys : List Ptr) (t : Ptr) (k : Kernel) (registers : Registers)
    → IsReady k (xs ++ t ∷ ys)
    → IsApart k (xs ++ t ∷ ys)
    → (turns idle_thread (suc (length xs)) (k, registers)).0.current_thread ≡ t
unfolding turns
turns-reach idle_thread [] ys t k registers r apart =
    (turn-cons idle_thread k registers t ys r apart).1
turns-reach idle_thread (x ∷ xs) ys t k registers r apart =
    let (r', e, apart') = turn-cons idle_thread k registers x (xs ++ t ∷ ys) r apart in
    turns-reach idle_thread xs (ys ++ behind k) t (turn idle_thread (k, registers)).0
      (turn idle_thread (k, registers)).1 (rw append_assoc at r') (rw append_assoc at apart')
