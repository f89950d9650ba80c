-- ===== src/Kernel/Capabilities.antt =====
-- The capability space of core/kernel/capabilities.c and core/kernel/capabilities.h: slots by
-- address, in nodes or in threads, and the look-up of a slot by its address.
pub mod Locking
pub mod Paths
pub mod Slots
pub mod Nodes
pub mod Copied
pub mod Populate
pub mod Reached
pub mod Populated
pub mod Invoke
pub mod Invoked
mod Tests
use cenix.Base.{
  ℕ, zero, suc, ◌+◌, ◌-◌, ◌*◌, ◌/◌, ◌%◌, ◌^◌, Ptr, null, Bool, true, false, not, ◌&&◌, ◌||◌, Option,
  none, some, ◌==◌, ltb, if◌then◌else◌, List,
}
use cenix.NoContainer.{Entries}
use cenix.Kernel.State.{Kernel, heap_lock, heap_unlock}

-- The invocation handlers that a slot can point to; `no_handlers` is NULL.
pub data Handlers : Type 0 where
  no_handlers debug_handlers endpoint_handlers thread_handlers node_handlers : Handlers
  untyped_handlers address_space_handlers : Handlers

-- `handlers == &node_handlers`
abbrev pub is_node : Handlers → Bool
is_node Handlers.node_handlers = true
is_node _ = false

-- `handlers == NULL`
abbrev pub is_nothing : Handlers → Bool
is_nothing Handlers.no_handlers = true
is_nothing _ = false

-- struct absolute_capability_address
pub record Address : Type 0 where
  pub thread_id : ℕ
  pub bucket_number : ℕ
  pub address : ℕ
  pub depth : ℕ

-- struct capability, less its two lists. The flags are Booleans of their own.
pub record Capability : Type 0 where
  pub handlers : Handlers
  pub resource : Ptr
  pub is_heap_managed : Bool
  pub is_root : Bool
  pub badged : Bool
  pub original : Bool
  pub badge : ℕ
  pub access_rights : ℕ
  pub derived_from : Ptr
  pub derivation : Ptr
  pub address : Address
  pub heap : Ptr

-- struct capability_node, less its slots
pub record Node : Type 0 where
  pub slot_bits : ℕ
  pub nested_nodes : ℕ

-- `&node->capabilities[i]`: a node starts with 2 bytes, and a slot has 72.
abbrev pub slot_at : Ptr → ℕ → Ptr
slot_at node i = node + 2 + i * 72

-- The memory that holds the capability space. `owners` has the address that heap_set_update_capability
-- has left in the heap header of a resource, and `freed` the resources given to heap_free, the
-- last one first.
pub record Space : Type 0 where
  pub slots : Ptr → Capability
  pub resource_list : Entries
  pub derivation_list : Entries
  pub nodes : Ptr → Node
  pub owners : Ptr → Address
  pub freed : List Ptr

-- struct look_up_result
pub record LookUpResult : Type 0 where
  pub slot : Ptr
  pub depth : ℕ
  pub container : Ptr
  pub should_unlock : Bool

-- SIZE_MAX
abbrev pub size_max : ℕ
size_max = 2 ^ 32 - 1

-- `if (should_unlock) heap_unlock(node);`
abbrev pub unlock_if : Bool → Kernel → Ptr → Kernel
unlock_if should_unlock k node = if should_unlock then heap_unlock k node else k

-- The loop of look_up_capability; `none` means that the fuel ran out.
unfoldable pub search_node :
    Space → Bool → ℕ → Kernel → Ptr → ℕ → ℕ → ℕ → Bool → Option (Option LookUpResult × Kernel)
search_node space first zero k node address depth actual should_unlock = none
search_node space first (suc fuel) k node address depth actual should_unlock =
    let bits = (space.nodes node).slot_bits in
    let slot = slot_at node (address % 2 ^ bits) in
    let next = (space.slots slot).resource in
    let (next_should_unlock, locked) = heap_lock k next in
    let rest =
      search_node space first fuel (unlock_if should_unlock locked node) next (address / 2 ^ bits)
        (depth - bits) (actual + bits) next_should_unlock in
    let found : LookUpResult = record {
      slot = slot;
      depth = actual + bits;
      container = node;
      should_unlock = should_unlock;
    } in
    if (first && not (is_node (space.slots slot).handlers)) || (depth == bits)
    then some (some found, k)
    else if ltb depth bits || not (is_node (space.slots slot).handlers)
    then some (none, unlock_if should_unlock k node)
    else rest

-- look_up_capability. The mask of `depth` bits is the remainder modulo 2 ^ depth; the shift that makes
-- the mask is undefined in C for 32 bits and more, where the remainder keeps the whole address.
unfoldable pub look_up_capability :
    Space → ℕ → Kernel → Ptr → ℕ → ℕ → Option (Option LookUpResult × Kernel)
look_up_capability space fuel k root address depth =
    let first = depth == size_max in
    let masked = if first then address else address % 2 ^ depth in
    let node = (space.slots root).resource in
    let (should_unlock, locked) = heap_lock k node in
    if is_node (space.slots root).handlers
    then search_node space first fuel locked node masked depth 0 should_unlock
    else some (none, k)

unfoldable pub unlock_looked_up_capability : Kernel → LookUpResult → Kernel
unlock_looked_up_capability k result = unlock_if result.should_unlock k result.container
