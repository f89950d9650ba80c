-- ===== src/Kernel/Capabilities/Invoked.antt =====
-- What a call through a capability leaves: invoke_capability of core/kernel/capabilities.c.
use cenix.Base.{
  ℕ, ◌≤◌, ◌<◌, ◌≡◌, inl, inr, true, false, ◌||◌, Option, none, some, arith, leb, Bool-cases,
  Option-cases,
}
use cenix.Errors.{enocapability, ecapinval}
use cenix.Kernel.State.{Kernel}
use cenix.Kernel.Capabilities.{
  Space, Handlers, LookUpResult, is_nothing, unlock_looked_up_capability,
}
use cenix.Kernel.Capabilities.Locking.{Holds}
use cenix.Kernel.Capabilities.Reached.{
  HasSlots, Location, Reaches, LookedUp, missed, reached, location,
  look_up_capability_relative-LookedUp,
}
use cenix.Kernel.Capabilities.Invoke.{Handler, num_handlers, invoke_found, invoke_capability}

pub data Invoked (handlers : Handlers → ℕ → Handler) (k : Kernel) (s : Space)
    (address depth number argument : ℕ) : Option (ℕ × Kernel × Space) → Type 0 where
  no_capability :
      Reaches s k address depth none
      → Invoked handlers k s address depth number argument (some (enocapability, k, s))
  no_handler :
      (l : Location)
      → Reaches s k address depth (some l)
      → num_handlers (s.slots l.slot).handlers ≤ number
      → Invoked handlers k s address depth number argument (some (ecapinval, k, s))
  called :
      (result : LookUpResult) (k₁ k₂ : Kernel) (s' : Space) (value : ℕ)
      → Reaches s k address depth (some (location result))
      → Holds k k₁ result.container result.should_unlock
      → number < num_handlers (s.slots result.slot).handlers
      → handlers (s.slots result.slot).handlers number address depth result.slot argument k₁ s
        ≡ some (value, k₂, s')
      → Invoked handlers k s address depth number argument
          (some (value, unlock_looked_up_capability k₂ result, s'))
  handler_out_of_fuel :
      (result : LookUpResult) (k₁ : Kernel)
      → Reaches s k address depth (some (location result))
      → Holds k k₁ result.container result.should_unlock
      → number < num_handlers (s.slots result.slot).handlers
      → handlers (s.slots result.slot).handlers number address depth result.slot argument k₁ s
        ≡ none
      → Invoked handlers k s address depth number argument none

below_count :
    (h : Handlers) (n : ℕ) → (is_nothing h || leb (num_handlers h) n) ≡ true → num_handlers h ≤ n
below_count Handlers.no_handlers n e = omega arith
below_count Handlers.debug_handlers n e = ground arith
below_count Handlers.endpoint_handlers n e = ground arith
below_count Handlers.thread_handlers n e = ground arith
below_count Handlers.node_handlers n e = ground arith
below_count Handlers.untyped_handlers n e = ground arith
below_count Handlers.address_space_handlers n e = ground arith

above_count :
    (h : Handlers) (n : ℕ) → (is_nothing h || leb (num_handlers h) n) ≡ false → n < num_handlers h
above_count Handlers.no_handlers n e = cc
above_count Handlers.debug_handlers n e = ground arith
above_count Handlers.endpoint_handlers n e = ground arith
above_count Handlers.thread_handlers n e = ground arith
above_count Handlers.node_handlers n e = ground arith
above_count Handlers.untyped_handlers n e = ground arith
above_count Handlers.address_space_handlers n e = ground arith

invoke_found-Invoked :
    (handlers : Handlers → ℕ → Handler) (k k₁ : Kernel) (s : Space) (result : LookUpResult)
    (address depth number argument : ℕ)
    → Reaches s k address depth (some (location result))
    → Holds k k₁ result.container result.should_unlock
    → unlock_looked_up_capability k₁ result ≡ k
    → Invoked handlers k s address depth number argument
        (invoke_found handlers k₁ s result address depth number argument)
unfolding invoke_found
invoke_found-Invoked handlers k k₁ s result address depth number argument there held back =
    let h = (s.slots result.slot).handlers in
    elim (Bool-cases (is_nothing h || leb (num_handlers h) number)) [
      | inl e ↦ rw (e, back) (no_handler (location result) there (below_count h number e))
      | inr e ↦
          rw e (elim (Option-cases (handlers h number address depth result.slot argument k₁ s)) [
            | inl out ↦
                rw (out, invoke_found)
                  (handler_out_of_fuel result k₁ there held (above_count h number e) out)
            | inr ((value, k₂, s'), ok) ↦
                rw (ok, invoke_found)
                  (called result k₁ k₂ s' value there held (above_count h number e) ok)
          ])
    ]

-- A call through a capability answers ENOCAPABILITY if the address leads to no slot in the space of
-- the running thread, and ECAPINVAL if what the slot there holds has no handler with the number, with
-- the kernel and the space as they were; else it answers what that handler does, which has run with
-- at most the container of the slot locked, and the container is unlocked after that, if the look-up
-- has locked it. Nothing but the handler can fail to return, if the fuel is more than the depth and
-- every node has slots.
pub invoke_capability-Invoked :
    (handlers : Handlers → ℕ → Handler) (fuel : ℕ) (k : Kernel) (s : Space)
    (address depth number argument : ℕ)
    → HasSlots s
    → depth < fuel
    → Invoked handlers k s address depth number argument
        (invoke_capability handlers fuel k s address depth number argument)
unfolding invoke_capability
invoke_capability-Invoked handlers fuel k s address depth number argument h l =
    after _ (look_up_capability_relative-LookedUp s fuel k address depth h l)
  where
    after :
        (r : Option (Option LookUpResult × Kernel))
        → LookedUp s k address depth r
        → Invoked handlers k s address depth number argument (elim r [
          | none ↦ none
          | some (slot, k₁) ↦ elim slot [
            | none ↦ some (enocapability, k₁, s)
            | some result ↦ invoke_found handlers k₁ s result address depth number argument
          ]
        ])
    after r (missed there) = no_capability there
    after r (reached result k₁ there held back) =
        invoke_found-Invoked handlers k k₁ s result address depth number argument there held back
