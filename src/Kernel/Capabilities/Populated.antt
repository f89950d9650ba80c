-- ===== src/Kernel/Capabilities/Populated.antt =====
-- What populate_capability_slot and address_space_alloc of core/kernel/capabilities.c leave, on every
-- branch.
use cenix.Base.{
  ℕ, ◌+◌, ◌≤◌, ◌<◌, leb, Ptr, null, ◌≡◌, refl, ap, ◌≢◌, fun_ext, inl, inr, Bool, true, false, not,
  ◌&&◌, Option, none, some, ◌∷◌, arith, ◌==◌, if◌then◌else◌, Bool-cases, ==-refl,
}
use cenix.NoContainer as NoContainer
use cenix.Errors.{enocapability, ecapexists, etoomuchnesting}
use cenix.Kernel.State.{Kernel, heap_unlock}
use cenix.Kernel.Threads.Locks.{with_kinds}
use cenix.Kernel.Capabilities.{
  Space, Handlers, Address, LookUpResult, is_nothing, is_node, unlock_if,
  unlock_looked_up_capability,
}
use cenix.Kernel.Capabilities.Slots.{set_owner}
use cenix.Kernel.Capabilities.Locking.{Holds, unlock_if-Holds}
use cenix.Kernel.Capabilities.Reached.{
  HasSlots, Location, Reaches, LookedUp, missed, reached, location,
  look_up_capability_relative-LookedUp,
}
use cenix.Kernel.Capabilities.Populate.{
  populate_found, populate_capability_slot, free_if, too_nested, set_nesting, fill_slot,
  new_capability, new_address,
}

-- The slot holds the one capability for the resource, with the address of the running thread's
-- space, and nothing else has changed but the owner of the resource and the depth of a new node,
-- which is one more than that of the node it is put into, and at most 4.
pub record Filled (k : Kernel) (s s' : Space) (heap : Ptr) (l : Location) (address : ℕ)
    (resource : Ptr) (handlers : Handlers) (managed : Bool) : Type 0 where
  pub capability : s'.slots l.slot ≡ record {
    handlers = handlers;
    resource = resource;
    is_heap_managed = managed;
    is_root = false;
    badged = false;
    original = true;
    badge = 0;
    access_rights = 255;
    derived_from = null;
    derivation = null;
    address = record {
      thread_id = if k.current_thread == null then 0 else (k.threads k.current_thread).thread_id;
      bucket_number =
          if k.current_thread == null then 0 else (k.threads k.current_thread).bucket_number;
      address = address;
      depth = l.depth;
    };
    heap = heap;
  }
  pub alone :
      s'.resource_list l.slot ≡ record { prev = null; next = null; start = l.slot; end = l.slot }
  pub childless :
      s'.derivation_list l.slot ≡ record { prev = null; next = null; start = null; end = null }
  pub others : (p : Ptr) → p ≢ l.slot → s'.slots p ≡ s.slots p
  pub other_links :
      (p : Ptr)
      → p ≢ l.slot
      → (s'.resource_list p ≡ s.resource_list p) × (s'.derivation_list p ≡ s.derivation_list p)
  pub owner : managed ≡ true → s'.owners resource ≡ (s'.slots l.slot).address
  pub other_owners : (p : Ptr) → p ≢ resource → s'.owners p ≡ s.owners p
  pub no_owner : managed ≡ false → s'.owners ≡ s.owners
  pub freed : s'.freed ≡ s.freed
  pub shallow :
      is_node handlers ≡ true → l.container ≢ null → (s.nodes l.container).nested_nodes < 4
  pub nesting :
      is_node handlers ≡ true
      → l.container ≢ null
      → s'.nodes resource
        ≡ record (s.nodes resource) { nested_nodes = (s.nodes l.container).nested_nodes + 1 }
  pub other_nodes : (p : Ptr) → p ≢ resource → s'.nodes p ≡ s.nodes p
  pub no_node : is_node handlers ≡ false → s'.nodes ≡ s.nodes

pub data Populated (k : Kernel) (s : Space) (heap : Ptr) (address depth : ℕ) (resource : Ptr)
    (handlers : Handlers) (managed : Bool) : Option (ℕ × Kernel × Space) → Type 0 where
  no_slot :
      Reaches s k address depth none
      → Populated k s heap address depth resource handlers managed
          (some (enocapability, k, if managed then record s { freed = resource ∷ s.freed } else s))
  occupied :
      (l : Location)
      → Reaches s k address depth (some l)
      → is_nothing (s.slots l.slot).handlers ≡ false
      → Populated k s heap address depth resource handlers managed
          (some (ecapexists, k, if managed then record s { freed = resource ∷ s.freed } else s))
  nested :
      (l : Location)
      → Reaches s k address depth (some l)
      → is_nothing (s.slots l.slot).handlers ≡ true
      → is_node handlers ≡ true
      → l.container ≢ null
      → 4 ≤ (s.nodes l.container).nested_nodes
      → Populated k s heap address depth resource handlers managed (
          some (etoomuchnesting, k, if managed then record s { freed = resource ∷ s.freed } else s))
  filled :
      (l : Location) (s' : Space)
      → Reaches s k address depth (some l)
      → is_nothing (s.slots l.slot).handlers ≡ true
      → Filled k s s' heap l address resource handlers managed
      → Populated k s heap address depth resource handlers managed
          (some (0, if managed then heap_unlock k resource else k, s'))

&&-both : (a b : Bool) → (a && b) ≡ true → (a ≡ true) × (b ≡ true)
&&-both true b e = (refl, e)
&&-both false b e = cc

-- A node nested too deeply, in the words of the numbers.
too_nested-deep :
    (s : Space) (h : Handlers) (c : Ptr)
    → too_nested s h c ≡ true
    → (is_node h ≡ true) × (c ≢ null) × (4 ≤ (s.nodes c).nested_nodes)
too_nested-deep s h c e =
    let (node, rest) = &&-both (is_node h) _ e in
    let (there, much) = &&-both (not (c == null)) _ rest in
    (node, ground (arith, there), ground (arith, much))

too_nested-shallow :
    (s : Space) (h : Handlers) (c : Ptr)
    → too_nested s h c ≡ false
    → is_node h ≡ true
    → c ≢ null
    → (s.nodes c).nested_nodes < 4
too_nested-shallow s h c e node there =
    let apart : (c == null) ≡ false = ground (arith, there) in
    let low : leb 4 (s.nodes c).nested_nodes ≡ false = rw (node, apart) at e in ground (arith, low)

set_nesting-resource :
    (s : Space) (h : Handlers) (c resource : Ptr)
    → is_node h ≡ true
    → c ≢ null
    → (set_nesting s h c resource).nodes resource
      ≡ record (s.nodes resource) { nested_nodes = (s.nodes c).nested_nodes + 1 }
set_nesting-resource s h c resource node there =
    let apart : (c == null) ≡ false = ground (arith, there) in
    rw (node, apart, ==-refl resource) refl

set_nesting-others :
    (s : Space) (h : Handlers) (c resource p : Ptr)
    → p ≢ resource
    → (set_nesting s h c resource).nodes p ≡ s.nodes p
set_nesting-others s h c resource p ne =
    let other : (p == resource) ≡ false = ground (arith, ne) in
    elim (Bool-cases (is_node h && not (c == null))) [
      | inl e ↦ rw (e, other) refl
      | inr e ↦ rw e refl
    ]

set_nesting-plain :
    (s : Space) (h : Handlers) (c resource : Ptr)
    → is_node h ≡ false
    → (set_nesting s h c resource).nodes ≡ s.nodes
set_nesting-plain s h c resource plain = rw plain refl

-- Unlocking the resource commutes with the locks of the look-up.
unlock_both :
    (k₀ k : Kernel) (c resource : Ptr) (locked : Bool)
    → Holds k₀ k c locked
    → unlock_if locked (heap_unlock k resource) c ≡ heap_unlock k₀ resource
unfolding heap_unlock
unlock_both k₀ k c resource false h = ap (λ z. heap_unlock z resource) h.same
unlock_both k₀ k c resource true h =
    let m = h.movable refl in rw (h.same) (ap (with_kinds k₀) (fun_ext (λ a. ground (arith, m))))

same_address :
    (k₀ k : Kernel) (c : Ptr) (locked : Bool) (address depth : ℕ)
    → Holds k₀ k c locked
    → new_address k address depth ≡ new_address k₀ address depth
same_address k₀ k c false address depth h = ap (λ z. new_address z address depth) h.same
same_address k₀ k c true address depth h = ap (λ z. new_address z address depth) h.same

owned : Bool → Space → Ptr → Address → Space
owned true s resource a = set_owner s resource a
owned false s resource a = s

-- Only the nodes are changed.
set_nesting-same :
    (s : Space) (handlers : Handlers) (container resource : Ptr)
    → let s' = set_nesting s handlers container resource in
      (s'.slots ≡ s.slots)
      × (s'.freed ≡ s.freed)
      × (s'.owners ≡ s.owners)
      × (s'.resource_list ≡ s.resource_list)
      × (s'.derivation_list ≡ s.derivation_list)
set_nesting-same s handlers container resource =
    elim (Bool-cases (is_node handlers && not (container == null))) [
      | inl e ↦ rw e (refl, refl, refl, refl, refl)
      | inr e ↦ rw e (refl, refl, refl, refl, refl)
    ]

module _ (k : Kernel) (s : Space) (heap slot container : Ptr) (address depth : ℕ) (resource : Ptr)
    (handlers : Handlers) (shallow : too_nested s handlers container ≡ false) where
  fill : Bool → Space
  fill managed =
      fill_slot (set_nesting s handlers container resource) slot
        (new_capability heap resource handlers managed (new_address k address depth))

  fill-others : (managed : Bool) (p : Ptr) → p ≢ slot → (fill managed).slots p ≡ s.slots p
  unfolding fill_slot fill
  fill-others managed p ne =
      let other : (p == slot) ≡ false = ground (arith, ne) in
      rw other (ap (λ f. f p) (set_nesting-same s handlers container resource).0)

  fill-links :
      (managed : Bool) (p : Ptr)
      → p ≢ slot
      → ((fill managed).resource_list p ≡ s.resource_list p)
        × ((fill managed).derivation_list p ≡ s.derivation_list p)
  unfolding fill_slot NoContainer.init fill
  fill-links managed p ne =
      let other : (p == slot) ≡ false = ground (arith, ne) in
      let same = set_nesting-same s handlers container resource in
      rw other (ap (λ f. f p) same.3, ap (λ f. f p) same.4)

  fill-Filled :
      (managed : Bool)
      → Filled k s
          (owned managed (fill managed) resource (new_address k address depth))
          heap
          (record { slot = slot; container = container; depth = depth })
          address
          resource
          handlers
          managed
  unfolding fill_slot NoContainer.init owned fill
  fill-Filled true =
      let same = set_nesting-same s handlers container resource in
      record {
        capability = rw (==-refl slot) refl;
        alone = rw (==-refl slot) refl;
        childless = rw (==-refl slot) refl;
        others = fill-others true;
        other_links = fill-links true;
        owner = λ h. rw (==-refl resource, ==-refl slot) refl;
        other_owners = λ p ne.
            let other : (p == resource) ≡ false = ground (arith, ne) in
            rw other (ap (λ f. f p) same.2);
        no_owner = λ h. cc;
        freed = same.1;
        shallow = too_nested-shallow s handlers container shallow;
        nesting = set_nesting-resource s handlers container resource;
        other_nodes = set_nesting-others s handlers container resource;
        no_node = set_nesting-plain s handlers container resource;
      }
  fill-Filled false =
      let same = set_nesting-same s handlers container resource in
      record {
        capability = rw (==-refl slot) refl;
        alone = rw (==-refl slot) refl;
        childless = rw (==-refl slot) refl;
        others = fill-others false;
        other_links = fill-links false;
        owner = λ h. cc;
        other_owners = λ p ne. ap (λ f. f p) same.2;
        no_owner = λ h. same.2;
        freed = same.1;
        shallow = too_nested-shallow s handlers container shallow;
        nesting = set_nesting-resource s handlers container resource;
        other_nodes = set_nesting-others s handlers container resource;
        no_node = set_nesting-plain s handlers container resource;
      }

  fill-Populated :
      (asked : ℕ) (managed : Bool)
      → Reaches s k address asked
          (some (record { slot = slot; container = container; depth = depth }))
      → is_nothing (s.slots slot).handlers ≡ true
      → Populated k s heap address asked resource handlers managed (
          some (
            if managed
            then (
              0,
              heap_unlock k resource,
              set_owner (fill managed) resource (new_address k address depth),
            )
            else (0, k, fill managed)))
  unfolding owned
  fill-Populated asked true there free = filled _ _ there free (fill-Filled true)
  fill-Populated asked false there free = filled _ _ there free (fill-Filled false)

populate_found-Populated :
    (k₀ k : Kernel) (s : Space) (heap : Ptr) (address depth : ℕ) (resource : Ptr)
    (handlers : Handlers) (managed : Bool) (result : LookUpResult)
    → Reaches s k₀ address depth (some (location result))
    → Holds k₀ k result.container result.should_unlock
    → Populated k₀ s heap address depth resource handlers managed
        (some (populate_found k s heap address resource handlers managed result))
unfolding populate_found unlock_looked_up_capability fill
populate_found-Populated k₀ k s heap address depth resource handlers managed result there h =
    let slot = result.slot in
    let c = result.container in
    let back = unlock_if-Holds k₀ k c result.should_unlock h in
    elim (Bool-cases (is_nothing (s.slots slot).handlers)) [
      | inr full ↦ rw (full, back) (occupied (location result) there full)
      | inl free ↦ elim (Bool-cases (too_nested s handlers c)) [
        | inl deep ↦
            let (node, held, much) = too_nested-deep s handlers c deep in
            rw (free, deep, back) (nested (location result) there free node held much)
        | inr shallow ↦
            rw
              (
                free,
                shallow,
                unlock_both k₀ k c resource result.should_unlock h,
                back,
                same_address k₀ k c result.should_unlock address result.depth h,
              )
              (fill-Populated k₀ s heap slot c address result.depth resource handlers shallow depth
                managed there free)
      ]
    ]

-- Whatever the capability space looks like, populate_capability_slot answers ENOCAPABILITY if the
-- address leads to no slot in the space of the running thread, ECAPEXISTS if that slot is taken, and
-- ETOOMUCHNESTING if a node would be put into one that is 4 or more deep, with the kernel as it was
-- and the space too, but that a managed resource is freed. Else it answers 0 and has put the one and
-- original capability for the resource into the slot, with its address and its owner, has set the
-- depth of a new node, has changed no other slot, and has unlocked the resource if it is managed, and
-- nothing else. It returns if the fuel is more than the depth asked for, and every node has slots.
pub populate_capability_slot-Populated :
    (fuel : ℕ) (k : Kernel) (s : Space) (heap : Ptr) (address depth : ℕ) (resource : Ptr)
    (handlers : Handlers) (managed : Bool)
    → HasSlots s
    → depth < fuel
    → Populated k s heap address depth resource handlers managed
        (populate_capability_slot fuel k s heap address depth resource handlers managed)
unfolding populate_capability_slot
populate_capability_slot-Populated fuel k s heap address depth resource handlers managed h l =
    after _ (look_up_capability_relative-LookedUp s fuel k address depth h l)
  where
    after :
        (r : Option (Option LookUpResult × Kernel))
        → LookedUp s k address depth r
        → Populated k s heap address depth resource handlers managed (elim r [
          | none ↦ none
          | some (slot, k₁) ↦ some (elim slot [
            | none ↦ (enocapability, k₁, free_if managed s resource)
            | some result ↦ populate_found k₁ s heap address resource handlers managed result
          ])
        ])
    after r (missed there) = no_slot there
    after r (reached result k₁ there held back) =
        populate_found-Populated k k₁ s heap address depth resource handlers managed result there
          held
