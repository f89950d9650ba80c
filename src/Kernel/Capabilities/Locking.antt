-- ===== src/Kernel/Capabilities/Locking.antt =====
-- What the look-up of a capability locks on its way (core/kernel/capabilities.c).
use cenix.Base.{
  ℕ, zero, suc, ◌+◌, ◌-◌, ◌/◌, ◌%◌, ◌^◌, Ptr, ◌≡◌, refl, sym, ap, ◌∙◌, subst, ◌≢◌, fun_ext, ◌⊎◌,
  inl, inr, Bool, true, false, not, ◌&&◌, ◌||◌, Option, none, some, arith, ◌==◌, ltb, if◌then◌else◌,
  Bool-cases,
}
use cenix.Kernel.State.{Kernel, Kind, at, heap_lock, heap_unlock}
use cenix.Kernel.Threads.Locks.{with_kinds, unlocked}
use cenix.Kernel.Capabilities.{
  Space, LookUpResult, slot_at, is_node, unlock_if, search_node, look_up_capability,
  unlock_looked_up_capability,
}

-- The kernel with the object at `p` locked.
abbrev pub locked_at : Kernel → Ptr → Kernel
locked_at k p = with_kinds k (at k.kinds p Kind.immovable)

-- Of the objects, only the one at `p` has been locked since `k₀`, and only if it was movable then.
pub record Holds (k₀ k : Kernel) (p : Ptr) (locked : Bool) : Type 0 where
  pub same : k ≡ (if locked then locked_at k₀ p else k₀)
  pub movable : locked ≡ true → k₀.kinds p ≡ Kind.movable

pub lock_some :
    (k : Kernel) (p : Ptr) → k.kinds p ≡ Kind.movable → heap_lock k p ≡ (true, locked_at k p)
unfolding heap_lock
lock_some k p e = rw (e, heap_lock) refl

lock_none :
    (k : Kernel) (p : Ptr) (v : Kind)
    → v ≢ Kind.movable
    → k.kinds p ≡ v
    → heap_lock k p ≡ (false, k)
unfolding heap_lock
lock_none k p Kind.available ne e = rw (e, heap_lock) refl
lock_none k p Kind.immovable ne e = rw (e, heap_lock) refl
lock_none k p Kind.movable ne e = absurd (ne refl)

pub Kind-cases : (v : Kind) → (v ≡ Kind.movable) ⊎ (v ≢ Kind.movable)
Kind-cases Kind.available = inr (λ e. cc)
Kind-cases Kind.immovable = inr (λ e. cc)
Kind-cases Kind.movable = inl refl

pub heap_lock-Holds : (k : Kernel) (p : Ptr) → Holds k (heap_lock k p).1 p (heap_lock k p).0
heap_lock-Holds k p = elim (Kind-cases (k.kinds p)) [
  | inl e ↦ rw (lock_some k p e) (record { same = refl; movable = λ h. e })
  | inr ne ↦ rw (lock_none k p _ ne refl) (record { same = refl; movable = λ h. cc })
]

pub unlock_if-Holds :
    (k₀ k : Kernel) (p : Ptr) (locked : Bool) → Holds k₀ k p locked → unlock_if locked k p ≡ k₀
unfolding heap_unlock
unlock_if-Holds k₀ k p true h =
    rw (h.same) (ap (with_kinds k₀) (unlocked k₀.kinds p (h.movable refl)))
unlock_if-Holds k₀ k p false h = h.same

locked_twice :
    (k₀ : Kernel) (p : Ptr)
    → k₀.kinds p ≡ Kind.movable
    → Holds k₀ (heap_unlock (heap_lock (locked_at k₀ p) p).1 p) p (heap_lock (locked_at k₀ p) p).0
unfolding heap_unlock
locked_twice k₀ p m =
    rw (lock_none (locked_at k₀ p) p Kind.immovable (λ e. cc) (ground arith))
      (record { same = ap (with_kinds k₀) (unlocked k₀.kinds p m); movable = λ h. cc })

hand_over :
    (f : Ptr → Kind) (p next : Ptr)
    → (next == p) ≡ false
    → f p ≡ Kind.movable
    → at (at (at f p Kind.immovable) next Kind.immovable) p Kind.movable ≡ at f next Kind.immovable
hand_over f p next ne m = fun_ext (λ a. ground (arith, m, ne))

pub locked_other :
    (k₀ : Kernel) (p next : Ptr)
    → (next == p) ≡ false
    → k₀.kinds p ≡ Kind.movable
    → Holds k₀
        (heap_unlock (heap_lock (locked_at k₀ p) next).1 p)
        next
        (heap_lock (locked_at k₀ p) next).0
unfolding heap_unlock
locked_other k₀ p next ne m =
    let same_kind : (locked_at k₀ p).kinds next ≡ k₀.kinds next = rw ne refl in
    elim (Kind-cases (k₀.kinds next)) [
      | inl e ↦
          rw (lock_some (locked_at k₀ p) next (same_kind ∙ e)) (record {
            same = ap (with_kinds k₀) (hand_over k₀.kinds p next ne m);
            movable = λ h. e;
          })
      | inr no_lock ↦
          rw (lock_none (locked_at k₀ p) next (k₀.kinds next) no_lock same_kind)
            (record { same = ap (with_kinds k₀) (unlocked k₀.kinds p m); movable = λ h. cc })
    ]

-- The step from one object to the next, which is locked before the other one is unlocked.
step-Holds :
    (k₀ k : Kernel) (p next : Ptr) (locked : Bool)
    → Holds k₀ k p locked
    → Holds k₀ (unlock_if locked (heap_lock k next).1 p) next (heap_lock k next).0
unfolding heap_unlock
step-Holds k₀ k p next false h =
    subst (λ z. Holds k₀ (heap_lock z next).1 next (heap_lock z next).0) (sym h.same)
      (heap_lock-Holds k₀ next)
step-Holds k₀ k p next true h =
    subst (λ z. Holds k₀ (unlock_if true (heap_lock z next).1 p) next (heap_lock z next).0)
      (sym h.same)
      (elim (Bool-cases (next == p)) [
        | inl same ↦
            let e : next ≡ p = ground arith in
            subst
              (λ z.
                Holds k₀ (heap_unlock (heap_lock (locked_at k₀ p) z).1 p) z
                  (heap_lock (locked_at k₀ p) z).0)
              (sym e) (locked_twice k₀ p (h.movable refl))
        | inr other ↦ locked_other k₀ p next other (h.movable refl)
      ])

-- What a look-up leaves: on failure the kernel as it was, on success the container locked, if it
-- was movable.
pub data Outcome (k₀ : Kernel) : Option (Option LookUpResult × Kernel) → Type 0 where
  out_of_fuel : Outcome k₀ none
  failed : Outcome k₀ (some (none, k₀))
  found :
      (result : LookUpResult) (k : Kernel)
      → Holds k₀ k result.container result.should_unlock
      → unlock_looked_up_capability k result ≡ k₀
      → Outcome k₀ (some (some result, k))

search_node-Outcome :
    (space : Space) (first : Bool) (fuel : ℕ) (k₀ k : Kernel) (p : Ptr) (address depth actual : ℕ)
    (locked : Bool)
    → Holds k₀ k p locked
    → Outcome k₀ (search_node space first fuel k p address depth actual locked)
unfolding search_node unlock_looked_up_capability
search_node-Outcome space first zero k₀ k p address depth actual locked h = out_of_fuel
search_node-Outcome space first (suc fuel) k₀ k p address depth actual locked h =
    let back = unlock_if-Holds k₀ k p locked h in
    let bits = (space.nodes p).slot_bits in
    let slot = slot_at p (address % 2 ^ bits) in
    let next = (space.slots slot).resource in
    elim (Bool-cases ((first && not (is_node (space.slots slot).handlers)) || (depth == bits))) [
      | inl e ↦ rw e (found _ k h back)
      | inr e ↦
          rw e (elim (Bool-cases (ltb depth bits || not (is_node (space.slots slot).handlers))) [
            | inl f ↦ rw (f, unlock_if-Holds k₀ k p locked h) failed
            | inr f ↦ rw f (
                search_node-Outcome space first fuel k₀ _ next (address / 2 ^ bits) (depth - bits)
                  (actual + bits) _ (step-Holds k₀ k p next locked h))
          ])
    ]

-- Whatever the capability space looks like, nodes that hold themselves included, a look-up that
-- fails leaves every object locked or movable as it was, and one that succeeds does so once its
-- result is unlocked; between these, it is the container of the slot alone that may be locked.
pub look_up_capability-Outcome :
    (space : Space) (fuel : ℕ) (k : Kernel) (root : Ptr) (address depth : ℕ)
    → Outcome k (look_up_capability space fuel k root address depth)
unfolding look_up_capability
look_up_capability-Outcome space fuel k root address depth =
    elim (Bool-cases (is_node (space.slots root).handlers)) [
      | inl e ↦ rw e (search_node-Outcome space _ fuel k _ _ _ depth 0 _ (heap_lock-Holds k _))
      | inr e ↦ rw e failed
    ]
