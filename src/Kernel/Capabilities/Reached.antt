-- ===== src/Kernel/Capabilities/Reached.antt =====
-- The look-up in the capability space of the running thread (core/kernel/capabilities.c), against the
-- slot that an address leads to.
use cenix.Base.{
  ℕ, zero, suc, ◌+◌, ◌-◌, ◌/◌, ◌%◌, ◌^◌, ◌<◌, ◌||◌, ltb, Option-cases, Ptr, null, ◌≡◌, refl, sym,
  ap, ◌∙◌, subst, ◌≢◌, inl, inr, Bool, true, false, not, ◌&&◌, Option, none, some, arith, ◌==◌,
  if◌then◌else◌, Bool-cases,
}
use cenix.Kernel.State.{Kernel, Kind, heap_lock, heap_unlock}
use cenix.Kernel.Capabilities.{
  Space, LookUpResult, is_node, unlock_if, look_up_capability, search_node, slot_at, size_max,
  unlock_looked_up_capability,
}
use cenix.Kernel.Capabilities.Locking.{
  Holds, Outcome, out_of_fuel, failed, found, look_up_capability-Outcome, heap_lock-Holds,
  unlock_if-Holds, locked_other, lock_some, locked_at,
}
use cenix.Kernel.Capabilities.Populate.{look_up_capability_relative}

-- A slot, the node that holds it, and the number of bits of its address.
pub record Location : Type 0 where
  pub slot : Ptr
  pub container : Ptr
  pub depth : ℕ

-- Where an address of `depth` bits leads from a node on, without locks and fuel. `first` is whether
-- the first slot that holds no node will do; `actual` bits have been used before.
pub data Leads (s : Space) (first : Bool) : Ptr → ℕ → ℕ → ℕ → Option Location → Type 0 where
  here :
      (node address depth actual : ℕ)
      → ((first
            && not (
                is_node (s.slots (slot_at node (address % 2 ^ (s.nodes node).slot_bits))).handlers))
          || (depth == (s.nodes node).slot_bits))
        ≡ true
      → Leads s first node address depth actual (
          some (record {
            slot = slot_at node (address % 2 ^ (s.nodes node).slot_bits);
            container = node;
            depth = actual + (s.nodes node).slot_bits;
          }))
  nowhere :
      (node address depth actual : ℕ)
      → ((first
            && not (
                is_node (s.slots (slot_at node (address % 2 ^ (s.nodes node).slot_bits))).handlers))
          || (depth == (s.nodes node).slot_bits))
        ≡ false
      → (ltb depth (s.nodes node).slot_bits
          || not
              (is_node (s.slots (slot_at node (address % 2 ^ (s.nodes node).slot_bits))).handlers))
        ≡ true
      → Leads s first node address depth actual none
  further :
      (node address depth actual : ℕ) (r : Option Location)
      → ((first
            && not (
                is_node (s.slots (slot_at node (address % 2 ^ (s.nodes node).slot_bits))).handlers))
          || (depth == (s.nodes node).slot_bits))
        ≡ false
      → (ltb depth (s.nodes node).slot_bits
          || not
              (is_node (s.slots (slot_at node (address % 2 ^ (s.nodes node).slot_bits))).handlers))
        ≡ false
      → Leads s first
          (s.slots (slot_at node (address % 2 ^ (s.nodes node).slot_bits))).resource
          (address / 2 ^ (s.nodes node).slot_bits)
          (depth - (s.nodes node).slot_bits)
          (actual + (s.nodes node).slot_bits)
          r
      → Leads s first node address depth actual r

-- Where an address leads in the capability space of the running thread. The root capability is at
-- the address of the thread; only the bits within the depth count, unless that is -1.
pub data Reaches (s : Space) (k : Kernel) (address depth : ℕ) : Option Location → Type 0 where
  nobody : k.current_thread ≡ null → Reaches s k address depth none
  no_root :
      k.current_thread ≢ null
      → is_node (s.slots k.current_thread).handlers ≡ false
      → Reaches s k address depth none
  from_root :
      (r : Option Location)
      → k.current_thread ≢ null
      → is_node (s.slots k.current_thread).handlers ≡ true
      → Leads s
          (depth == size_max)
          (s.slots k.current_thread).resource
          (if depth == size_max then address else address % 2 ^ depth)
          depth
          0
          r
      → Reaches s k address depth r

Leads-unique :
    (s : Space) (first : Bool) (node address depth actual : ℕ) (r r' : Option Location)
    → Leads s first node address depth actual r
    → Leads s first node address depth actual r'
    → r ≡ r'
Leads-unique s first node address depth actual r r' (here _ _ _ _ e) (here _ _ _ _ f) = refl
Leads-unique s first node address depth actual r r' (here _ _ _ _ e) (nowhere _ _ _ _ f _) = cc
Leads-unique s first node address depth actual r r' (here _ _ _ _ e) (further _ _ _ _ _ f _ _) = cc
Leads-unique s first node address depth actual r r' (nowhere _ _ _ _ e _) (here _ _ _ _ f) = cc
Leads-unique s first node address depth actual r r' (nowhere _ _ _ _ _ e) (nowhere _ _ _ _ _ f) =
    refl
Leads-unique s first node address depth actual r r' (nowhere _ _ _ _ _ e)
      (further _ _ _ _ _ _ f _) =
    cc
Leads-unique s first node address depth actual r r' (further _ _ _ _ _ e _ _) (here _ _ _ _ f) = cc
Leads-unique s first node address depth actual r r' (further _ _ _ _ _ _ e _)
      (nowhere _ _ _ _ _ f) =
    cc
Leads-unique s first node address depth actual r r' (further _ _ _ _ _ _ _ m)
      (further _ _ _ _ _ _ _ n) =
    Leads-unique s first _ _ _ _ r r' m n

-- An address leads to one place.
pub Reaches-unique :
    (s : Space) (k : Kernel) (address depth : ℕ) (r r' : Option Location)
    → Reaches s k address depth r
    → Reaches s k address depth r'
    → r ≡ r'
Reaches-unique s k address depth r r' (nobody e) (nobody f) = refl
Reaches-unique s k address depth r r' (nobody e) (no_root f _) = refl
Reaches-unique s k address depth r r' (nobody e) (from_root _ f _ _) = absurd (f e)
Reaches-unique s k address depth r r' (no_root e _) (nobody f) = refl
Reaches-unique s k address depth r r' (no_root _ e) (no_root _ f) = refl
Reaches-unique s k address depth r r' (no_root _ e) (from_root _ _ f _) = cc
Reaches-unique s k address depth r r' (from_root _ e _ _) (nobody f) = absurd (e f)
Reaches-unique s k address depth r r' (from_root _ _ e _) (no_root _ f) = cc
Reaches-unique s k address depth r r' (from_root _ _ _ m) (from_root _ _ _ n) =
    Leads-unique s _ _ _ _ _ r r' m n

abbrev pub location : LookUpResult → Location
location result = record { slot = result.slot; container = result.container; depth = result.depth }

abbrev location_of : Option LookUpResult → Option Location
location_of none = none
location_of (some result) = some (location result)

-- A look-up that returns has come to a location with `P`.
abbrev Shows : (Option Location → Type 0) → Option (Option LookUpResult × Kernel) → Type 0
Shows P none = Unit
Shows P (some (result, k)) = P (location_of result)

Shows-map :
    (P Q : Option Location → Type 0) (o : Option (Option LookUpResult × Kernel))
    → ((r : Option Location) → P r → Q r)
    → Shows P o
    → Shows Q o
Shows-map P Q none f h = tt
Shows-map P Q (some (result, k)) f h = f (location_of result) h

search_node-Leads :
    (s : Space) (first : Bool) (fuel : ℕ) (k : Kernel) (node address depth actual : ℕ)
    (locked : Bool)
    → Shows
        (Leads s first node address depth actual)
        (search_node s first fuel k node address depth actual locked)
unfolding search_node
search_node-Leads s first zero k node address depth actual locked = tt
search_node-Leads s first (suc fuel) k node address depth actual locked =
    let bits = (s.nodes node).slot_bits in
    let slot = slot_at node (address % 2 ^ bits) in
    let next = (s.slots slot).resource in
    elim (Bool-cases ((first && not (is_node (s.slots slot).handlers)) || (depth == bits))) [
      | inl e ↦ rw e (here node address depth actual e)
      | inr e ↦ rw e (elim (Bool-cases (ltb depth bits || not (is_node (s.slots slot).handlers))) [
        | inl f ↦ rw f (nowhere node address depth actual e f)
        | inr f ↦ rw f (
            Shows-map (Leads s first next (address / 2 ^ bits) (depth - bits) (actual + bits))
              (Leads s first node address depth actual)
              (search_node s first fuel (unlock_if locked (heap_lock k next).1 node) next
                (address / 2 ^ bits) (depth - bits) (actual + bits) (heap_lock k next).0)
              (λ r. further node address depth actual r e f)
              (search_node-Leads s first fuel _ next (address / 2 ^ bits) (depth - bits)
                (actual + bits) _))
      ])
    ]

unlocked-Shows :
    (P : Option Location → Type 0) (outer : Bool) (t : Ptr)
    (o : Option (Option LookUpResult × Kernel))
    → Shows P o
    → Shows P (elim o [ none ↦ none | some (result, k) ↦ some (result, unlock_if outer k t) ])
unlocked-Shows P outer t none h = tt
unlocked-Shows P outer t (some (result, k)) h = h

look_up_capability_relative-Reaches :
    (s : Space) (fuel : ℕ) (k : Kernel) (address depth : ℕ)
    → Shows (Reaches s k address depth) (look_up_capability_relative s fuel k address depth)
unfolding look_up_capability_relative look_up_capability
look_up_capability_relative-Reaches s fuel k address depth =
    let t = k.current_thread in
    elim (Bool-cases (t == null)) [
      | inl e ↦ rw e (nobody (ground arith))
      | inr e ↦ rw e (
          unlocked-Shows (Reaches s k address depth) (heap_lock k t).0 t _
            (elim (Bool-cases (is_node (s.slots t).handlers)) [
              | inr f ↦ rw f (no_root (ground arith) f)
              | inl f ↦ rw f (
                  Shows-map _ (Reaches s k address depth) _ (λ r. from_root r (ground arith) f)
                    (search_node-Leads s (depth == size_max) fuel _ (s.slots t).resource _ depth 0
                      _))
            ]))
    ]

-- Once the thread that has been locked for a look-up is unlocked again, only the container is locked.
release-Holds :
    (k₀ k₁ k₂ : Kernel) (t c : Ptr) (outer inner : Bool)
    → Holds k₀ k₁ t outer
    → Holds k₁ k₂ c inner
    → Holds k₀ (unlock_if outer k₂ t) c inner
unfolding heap_unlock
release-Holds k₀ k₁ k₂ t c false inner h i = subst (λ z. Holds z k₂ c inner) h.same i
release-Holds k₀ k₁ k₂ t c true false h i =
    let at_thread : Holds k₀ k₂ t true = record { same = i.same ∙ h.same; movable = h.movable } in
    record { same = unlock_if-Holds k₀ k₂ t true at_thread; movable = λ e. cc }
release-Holds k₀ k₁ k₂ t c true true h i =
    let before : (locked_at k₀ t).kinds c ≡ Kind.movable =
      ap (λ z. z.kinds c) (sym h.same) ∙ i.movable refl in
    elim (Bool-cases (c == t)) [
      | inl same ↦ let immovable : Kind.immovable ≡ Kind.movable = rw same at before in cc
      | inr other ↦
          let both = locked_other k₀ t c other (h.movable refl) in
          let both' : Holds k₀ (heap_unlock (locked_at (locked_at k₀ t) c) t) c true =
            rw (lock_some (locked_at k₀ t) c before) at both in
          let now : k₂ ≡ locked_at (locked_at k₀ t) c = i.same ∙ ap (λ z. locked_at z c) h.same in
          subst (λ z. Holds k₀ (heap_unlock z t) c true) (sym now) both'
    ]

released :
    (k₀ k₁ : Kernel) (t : Ptr) (outer : Bool) (r : Option (Option LookUpResult × Kernel))
    → Holds k₀ k₁ t outer
    → Outcome k₁ r
    → Outcome k₀ (elim r [ none ↦ none | some (result, k₂) ↦ some (result, unlock_if outer k₂ t) ])
unfolding unlock_looked_up_capability
released k₀ k₁ t outer r h out_of_fuel = out_of_fuel
released k₀ k₁ t outer r h failed = rw (unlock_if-Holds k₀ k₁ t outer h) failed
released k₀ k₁ t outer r h (found result k i back) =
    let held = release-Holds k₀ k₁ k t result.container outer result.should_unlock h i in
    found result _ held (unlock_if-Holds k₀ _ result.container result.should_unlock held)

-- A look-up in the capability space of the running thread, which is locked in the meantime.
pub look_up_capability_relative-Outcome :
    (s : Space) (fuel : ℕ) (k : Kernel) (address depth : ℕ)
    → Outcome k (look_up_capability_relative s fuel k address depth)
unfolding look_up_capability_relative
look_up_capability_relative-Outcome s fuel k address depth =
    let t = k.current_thread in
    elim (Bool-cases (t == null)) [
      | inl e ↦ rw e failed
      | inr e ↦ rw e (
          released k (heap_lock k t).1 t (heap_lock k t).0
            (look_up_capability s fuel (heap_lock k t).1 t address depth) (heap_lock-Holds k t)
            (look_up_capability-Outcome s fuel (heap_lock k t).1 t address depth))
    ]

-- Every node has slots.
abbrev pub HasSlots : Space → Type 0
HasSlots s = (p : Ptr) → 0 < (s.nodes p).slot_bits

-- Each step of the search uses up bits of the depth.
search_node-Returns :
    (s : Space) (first : Bool) (fuel : ℕ) (k : Kernel) (p : Ptr) (address depth actual : ℕ)
    (locked : Bool)
    → HasSlots s
    → depth < fuel
    → search_node s first fuel k p address depth actual locked ≢ none
unfolding search_node
search_node-Returns s first zero k p address depth actual locked h l = absurd (omega arith)
search_node-Returns s first (suc fuel) k p address depth actual locked h l =
    let bits = (s.nodes p).slot_bits in
    let slot = slot_at p (address % 2 ^ bits) in
    elim (Bool-cases ((first && not (is_node (s.slots slot).handlers)) || (depth == bits))) [
      | inl e ↦ rw e (λ x. cc)
      | inr e ↦ rw e (elim (Bool-cases (ltb depth bits || not (is_node (s.slots slot).handlers))) [
        | inl f ↦ rw f (λ x. cc)
        | inr f ↦ rw f (
            search_node-Returns s first fuel _ _ (address / 2 ^ bits) (depth - bits) (actual + bits)
              _ h (ground (arith, h p, f)))
      ])
    ]

look_up_capability-Returns :
    (s : Space) (fuel : ℕ) (k : Kernel) (root : Ptr) (address depth : ℕ)
    → HasSlots s
    → depth < fuel
    → look_up_capability s fuel k root address depth ≢ none
unfolding look_up_capability
look_up_capability-Returns s fuel k root address depth h l =
    elim (Bool-cases (is_node (s.slots root).handlers)) [
      | inl e ↦ rw e (search_node-Returns s _ fuel _ _ _ depth 0 _ h l)
      | inr e ↦ rw e (λ x. cc)
    ]

pub look_up_capability_relative-Returns :
    (s : Space) (fuel : ℕ) (k : Kernel) (address depth : ℕ)
    → HasSlots s
    → depth < fuel
    → look_up_capability_relative s fuel k address depth ≢ none
unfolding look_up_capability_relative
look_up_capability_relative-Returns s fuel k address depth h l =
    let t = k.current_thread in
    elim (Bool-cases (t == null)) [
      | inl e ↦ rw e (λ x. cc)
      | inr e ↦
          rw e (elim (Option-cases (look_up_capability s fuel (heap_lock k t).1 t address depth)) [
            | inl out ↦
                absurd (look_up_capability-Returns s fuel (heap_lock k t).1 t address depth h l out)
            | inr (r, ok) ↦ rw (ok, look_up_capability_relative) (λ x. cc)
          ])
    ]

-- What a look-up in the capability space of the running thread comes to: it fails and leaves the
-- kernel as it was, or gives the slot that the address leads to, of which the container is locked if
-- it was movable, and nothing else.
pub data LookedUp (s : Space) (k : Kernel) (address depth : ℕ)
    : Option (Option LookUpResult × Kernel) → Type 0 where
  missed : Reaches s k address depth none → LookedUp s k address depth (some (none, k))
  reached :
      (result : LookUpResult) (k₁ : Kernel)
      → Reaches s k address depth (some (location result))
      → Holds k k₁ result.container result.should_unlock
      → unlock_looked_up_capability k₁ result ≡ k
      → LookedUp s k address depth (some (some result, k₁))

-- It returns if the fuel is more than the depth and every node has slots.
pub look_up_capability_relative-LookedUp :
    (s : Space) (fuel : ℕ) (k : Kernel) (address depth : ℕ)
    → HasSlots s
    → depth < fuel
    → LookedUp s k address depth (look_up_capability_relative s fuel k address depth)
look_up_capability_relative-LookedUp s fuel k address depth h l =
    both _ (look_up_capability_relative-Outcome s fuel k address depth)
      (look_up_capability_relative-Reaches s fuel k address depth)
      (look_up_capability_relative-Returns s fuel k address depth h l)
  where
    both :
        (r : Option (Option LookUpResult × Kernel))
        → Outcome k r
        → Shows (Reaches s k address depth) r
        → r ≢ none
        → LookedUp s k address depth r
    both r out_of_fuel there ne = absurd (ne refl)
    both r failed there ne = missed there
    both r (found result k₁ held back) there ne = reached result k₁ there held back
