-- ===== src/Kernel/Capabilities/Populate.antt =====
-- Filling a slot with a new capability, and the handlers of untyped memory and of an address space,
-- of core/kernel/capabilities.c.
use cenix.Base.{
  ℕ, zero, suc, ◌+◌, ◌-◌, ◌^◌, ◌%◌, Ptr, null, Bool, true, false, not, ◌&&◌, Option, none, some,
  ◌∷◌, ◌==◌, leb, ltb, if◌then◌else◌,
}
use cenix.Base.Bits.{test_bit}
use cenix.Errors.{enocapability, einval, enomem, ecapexists, etoomuchnesting, eperm}
use cenix.NoContainer as NoContainer
use cenix.Kernel.State.{Kernel, at, heap_lock, heap_unlock}
use cenix.Kernel.Threads.{look_up_thread_by_id}
use cenix.Kernel.Capabilities.{
  Space, Capability, Handlers, Address, LookUpResult, slot_at, is_node, is_nothing, unlock_if,
  look_up_capability, unlock_looked_up_capability,
}
use cenix.Kernel.Capabilities.Slots.{set_owner}

-- look_up_capability_relative. The root capability is the first field of a thread, so that its slot
-- has the address of the thread.
unfoldable pub look_up_capability_relative :
    Space → ℕ → Kernel → ℕ → ℕ → Option (Option LookUpResult × Kernel)
look_up_capability_relative space fuel k address depth =
    let thread = k.current_thread in
    let (should_unlock, k₁) = heap_lock k thread in
    if thread == null
    then some (none, k)
    else elim (look_up_capability space fuel k₁ thread address depth) [
      | none ↦ none
      | some (result, k₂) ↦ some (result, unlock_if should_unlock k₂ thread)
    ]

-- look_up_capability_absolute
unfoldable pub look_up_capability_absolute :
    Space → ℕ → Kernel → Address → Option (Option LookUpResult × Kernel)
look_up_capability_absolute space fuel k a =
    elim (look_up_thread_by_id fuel a.thread_id a.bucket_number k) [
      | none ↦ none
      | some (thread, should_unlock, k₁) ↦
          if thread == null
          then some (none, k₁)
          else elim (look_up_capability space fuel k₁ thread a.address a.depth) [
            | none ↦ none
            | some (result, k₂) ↦ some (result, unlock_if should_unlock k₂ thread)
          ]
    ]

-- `if ((flags & CAP_FLAG_IS_HEAP_MANAGED) != 0) heap_free(heap, resource);`, of which the call alone
-- is recorded in `freed`. What heap_free does to the block headers, which no slot holds, is in
-- Kernel/Heap.
abbrev pub free_if : Bool → Space → Ptr → Space
free_if managed s resource = if managed then record s { freed = resource ∷ s.freed } else s

-- MAX_NESTED_NODES
abbrev pub max_nested_nodes : ℕ
max_nested_nodes = 4

-- `container != NULL && container->nested_nodes >= MAX_NESTED_NODES`, for a new node
abbrev pub too_nested : Space → Handlers → Ptr → Bool
too_nested s handlers container =
    is_node handlers
    && (not (container == null) && leb max_nested_nodes (s.nodes container).nested_nodes)

abbrev pub set_nesting : Space → Handlers → Ptr → Ptr → Space
set_nesting s handlers container resource =
    if is_node handlers && not (container == null)
    then record s {
      nodes =
          at s.nodes resource
            (record (s.nodes resource) { nested_nodes = (s.nodes container).nested_nodes + 1 });
    }
    else s

-- The address that is put into the slot: of the running thread, if there is one.
abbrev pub new_address : Kernel → ℕ → ℕ → Address
new_address k address depth =
    let thread = k.current_thread in
    record {
      thread_id = if thread == null then 0 else (k.threads thread).thread_id;
      bucket_number = if thread == null then 0 else (k.threads thread).bucket_number;
      address = address;
      depth = depth;
    }

abbrev pub new_capability : Ptr → Ptr → Handlers → Bool → Address → Capability
new_capability heap resource handlers managed address = record {
  handlers = handlers;
  resource = resource;
  is_heap_managed = managed;
  is_root = false;
  badged = false;
  original = true;
  badge = 0;
  access_rights = 255;
  derived_from = null;
  derivation = null;
  address = address;
  heap = heap;
}

-- What memset, the assignments and LIST_INIT_NO_CONTAINER leave in the slot.
unfoldable pub fill_slot : Space → Ptr → Capability → Space
fill_slot s p c = record s {
  slots = at s.slots p c;
  resource_list = NoContainer.init s.resource_list p;
  derivation_list =
      at s.derivation_list p (record { prev = null; next = null; start = null; end = null });
}

-- populate_capability_slot, once the slot is found
unfoldable pub populate_found :
    Kernel → Space → Ptr → ℕ → Ptr → Handlers → Bool → LookUpResult → ℕ × Kernel × Space
populate_found k s heap address resource handlers managed result =
    let slot = result.slot in
    let a = new_address k address result.depth in
    let s₁ = set_nesting s handlers result.container resource in
    let s₂ = fill_slot s₁ slot (new_capability heap resource handlers managed a) in
    if not (is_nothing (s.slots slot).handlers)
    then (ecapexists, unlock_looked_up_capability k result, free_if managed s resource)
    else if too_nested s handlers result.container
    then (etoomuchnesting, unlock_looked_up_capability k result, free_if managed s resource)
    else if managed
    then (0, unlock_looked_up_capability (heap_unlock k resource) result, set_owner s₂ resource a)
    else (0, unlock_looked_up_capability k result, s₂)

unfoldable pub populate_capability_slot :
    ℕ → Kernel → Space → Ptr → ℕ → ℕ → Ptr → Handlers → Bool → Option (ℕ × Kernel × Space)
populate_capability_slot fuel k s heap address depth resource handlers managed =
    elim (look_up_capability_relative s fuel k address depth) [
      | none ↦ none
      | some (found, k₁) ↦ some (elim found [
        | none ↦ (enocapability, k₁, free_if managed s resource)
        | some result ↦ populate_found k₁ s heap address resource handlers managed result
      ])
    ]

-- The handlers of untyped memory: untyped_lock, untyped_unlock, untyped_try_lock and untyped_sizeof.
unfoldable pub untyped_lock : Kernel → Space → Ptr → ℕ × Kernel
untyped_lock k s slot = let p = (s.slots slot).resource in (p, (heap_lock k p).1)

unfoldable pub untyped_unlock : Kernel → Space → Ptr → ℕ × Kernel
untyped_unlock k s slot = (0, heap_unlock k (s.slots slot).resource)

unfoldable pub untyped_try_lock : Kernel → Space → Ptr → ℕ × Kernel
untyped_try_lock k s slot =
    let p = (s.slots slot).resource in
    let (locked, k') = heap_lock k p in if locked then (p, k') else (null, k')

-- struct alloc_args
pub record AllocArgs : Type 0 where
  pub type : ℕ
  pub size : ℕ
  pub address : ℕ
  pub depth : ℕ

-- What address_space_alloc calls for each type of object: the resource, or NULL, and what becomes of
-- the kernel and of the slots.
pub record Allocators : Type 0 where
  pub untyped : ℕ → Kernel → Space → Ptr × Kernel × Space
  pub node : ℕ → Kernel → Space → Ptr × Kernel × Space
  pub thread : Kernel → Space → Ptr × Kernel × Space
  pub endpoint : Kernel → Space → Ptr × Kernel × Space

-- `switch (args->type)`: TYPE_UNTYPED, TYPE_NODE, TYPE_THREAD and TYPE_ENDPOINT
abbrev pub allocate : Allocators → ℕ → ℕ → Kernel → Space → Handlers × (Ptr × Kernel × Space)
allocate alloc type size k s =
    if type == 0
    then (Handlers.untyped_handlers, alloc.untyped size k s)
    else if type == 1
    then (Handlers.node_handlers, alloc.node size k s)
    else if type == 2
    then (Handlers.thread_handlers, alloc.thread k s)
    else (Handlers.endpoint_handlers, alloc.endpoint k s)

-- address_space_alloc; `heap` is what the resource of the slot points to.
unfoldable pub address_space_alloc :
    Allocators → ℕ → Kernel → Space → Ptr → Ptr → AllocArgs → Option (ℕ × Kernel × Space)
address_space_alloc alloc fuel k s slot heap args =
    let (handlers, (resource, k₁, s₁)) = allocate alloc args.type args.size k s in
    if leb 4 args.type
    then some (einval, k, s)
    else if not (test_bit (s.slots slot).access_rights args.type)
    then some (eperm, k, s)
    else if resource == null
    then some (enomem, k₁, s₁)
    else populate_capability_slot fuel k₁ s₁ heap args.address args.depth resource handlers true

-- nesting_depth_search, with fuel for nodes within nodes: the slots from the index `i` on, of which
-- `n` are left.
abbrev pub deepest : (Ptr → Option ℕ) → Space → Ptr → ℕ → ℕ → ℕ → Option ℕ
deepest search s node zero i value = some value
deepest search s node (suc n) i value =
    if is_node (s.slots (slot_at node i)).handlers
    then elim (search (slot_at node i)) [
      | none ↦ none
      | some new ↦ deepest search s node n (suc i) (if ltb value new then new else value)
    ]
    else deepest search s node n (suc i) value

unfoldable pub nesting_depth_search : ℕ → Space → Ptr → Option ℕ
nesting_depth_search zero s p = none
nesting_depth_search (suc fuel) s p =
    let node = (s.slots p).resource in
    deepest (nesting_depth_search fuel s) s node (2 ^ (s.nodes node).slot_bits) 0
      (s.nodes node).nested_nodes

-- get_nested_nodes_depth; the difference is a uint8_t.
unfoldable pub get_nested_nodes_depth : ℕ → Space → Ptr → Option ℕ
get_nested_nodes_depth fuel s p =
    if not (is_node (s.slots p).handlers) then some 0 else elim (nesting_depth_search fuel s p) [
      | none ↦ none
      | some value ↦ some ((value + 256 - (s.nodes (s.slots p).resource).nested_nodes) % 256)
    ]
