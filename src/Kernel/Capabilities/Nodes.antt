-- ===== src/Kernel/Capabilities/Nodes.antt =====
-- The handlers of a capability node, and what else core/kernel/capabilities.c does with nodes. A
-- handler's result is the status, with the space after it.
use Prim.Native.Nat.{bit_or}
use cenix.Errors.{enocapability, ecapinval, einval, ecapexists}
use cenix.Base.{
  ℕ, zero, suc, ◌+◌, ◌*◌, ◌%◌, ◌^◌, Ptr, null, Bool, true, not, ◌&&◌, ◌||◌, Option, none, some,
  ◌==◌, leb, if◌then◌else◌,
}
use cenix.NoContainer.{and_then}
use cenix.Kernel.State.{Kernel, at}
use cenix.Kernel.Capabilities.{
  Space, Handlers, is_node, is_nothing, slot_at, unlock_looked_up_capability,
}
use cenix.Kernel.Capabilities.Populate.{look_up_capability_relative}
use cenix.Kernel.Capabilities.Slots.{
  set_slot, set_derivation, set_owner, iterate, heads_derivations, update_capability_references,
  move_capability, merge_derivation_lists, delete_capability, copy_capability, each_capability,
}

-- struct node_copy_args
pub record CopyArgs : Type 0 where
  pub source_address : ℕ
  pub source_depth : ℕ
  pub dest_slot : ℕ
  pub access_rights : ℕ
  pub badge : ℕ
  pub should_set_badge : Bool

-- `args->dest_slot >= (size_t) 1 << node->slot_bits`
abbrev pub outside : Space → Ptr → ℕ → Bool
outside s node i = leb (2 ^ (s.nodes node).slot_bits) i

-- `address | (args->dest_slot << depth)`
abbrev pub slot_address : ℕ → ℕ → ℕ → ℕ
slot_address address depth i = bit_or address (i * 2 ^ depth % 2 ^ 32)

-- node_copy, once the source has been found
unfoldable pub copy_into : Space → Ptr → Ptr → ℕ → ℕ → CopyArgs → ℕ × Space
copy_into s source dest address depth args =
    let c = s.slots source in
    let s₁ = copy_capability s source dest address depth in
    let s₂ = set_slot s₁ dest (record (s₁.slots dest) { badge = args.badge; badged = true }) in
    if is_node c.handlers
    then (ecapinval, s)
    else if args.should_set_badge && not c.original
    then (ecapinval, s)
    else (0, if args.should_set_badge then s₂ else s₁)

-- node_copy, on the node `node` at `address` of `depth` bits. As there, the access rights that are
-- asked for are not read.
unfoldable pub node_copy : ℕ → Kernel → Space → Ptr → ℕ → ℕ → CopyArgs → Option (ℕ × Kernel × Space)
node_copy fuel k s node address depth args =
    let dest = slot_at node args.dest_slot in
    let bits = (s.nodes node).slot_bits in
    if outside s node args.dest_slot
    then some (einval, k, s)
    else if not (is_nothing (s.slots dest).handlers)
    then some (ecapexists, k, s)
    else elim (look_up_capability_relative s fuel k args.source_address args.source_depth) [
      | none ↦ none
      | some (found, k₁) ↦ some (elim found [
        | none ↦ (enocapability, k₁, s)
        | some result ↦
            let new = slot_address address depth args.dest_slot in
            let (status, s') = copy_into s result.slot dest new (depth + bits) args in
            (status, unlock_looked_up_capability k₁ result, s')
      ])
    ]

-- node_move, once the source has been found
unfoldable pub move_into : ℕ → Space → Ptr → Ptr → ℕ → ℕ → Option (ℕ × Space)
move_into fuel s source dest address depth = and_then (move_capability fuel s source dest) (λ s₁.
    let a = record ((s₁.slots dest).address) { address = address; depth = depth } in
    let s₂ = set_slot s₁ dest (record (s₁.slots dest) { address = a }) in
    let owns = (s₂.slots dest).is_heap_managed && ((s₂.resource_list dest).prev == null) in
    some (0, if owns then set_owner s₂ (s₂.slots dest).resource a else s₂))

-- node_move, which reads its argument as a struct node_copy_args
unfoldable pub node_move : ℕ → Kernel → Space → Ptr → ℕ → ℕ → CopyArgs → Option (ℕ × Kernel × Space)
node_move fuel k s node address depth args =
    let dest = slot_at node args.dest_slot in
    let bits = (s.nodes node).slot_bits in
    if outside s node args.dest_slot
    then some (einval, k, s)
    else if not (is_nothing (s.slots dest).handlers)
    then some (ecapexists, k, s)
    else elim (look_up_capability_relative s fuel k args.source_address args.source_depth) [
      | none ↦ none
      | some (found, k₁) ↦ elim found [
        | none ↦ some (enocapability, k₁, s)
        | some result ↦
            let new = slot_address address depth args.dest_slot in
            elim (move_into fuel s result.slot dest new (depth + bits)) [
              | none ↦ none
              | some (status, s') ↦ some (status, unlock_looked_up_capability k₁ result, s')
            ]
      ]
    ]

module _ (destroy : Space → Ptr → Option Space) where
  -- `merge_derivation_lists(slot); delete_capability(slot);`
  unfoldable pub merge_and_delete : ℕ → Space → Ptr → Option Space
  merge_and_delete fuel s p =
      and_then (merge_derivation_lists fuel s p) (λ s'. delete_capability destroy fuel s' p)

  unfoldable pub node_delete : ℕ → Space → Ptr → ℕ → Option (ℕ × Space)
  node_delete fuel s node i =
      let p = slot_at node i in
      if outside s node i
      then some (einval, s)
      else if is_nothing (s.slots p).handlers
      then some (enocapability, s)
      else and_then (merge_and_delete fuel s p) (λ s'. some (0, s'))

  -- One capability of the list that node_revoke walks: its own derivations, then itself.
  unfoldable pub revoke_one : ℕ → Space → Ptr → Option Space
  revoke_one fuel s c =
      and_then
        (if heads_derivations (s.slots c) && not ((s.slots c).derivation == null)
          then iterate fuel (delete_capability destroy fuel) s (s.slots c).derivation
          else some s)
        (λ s'. delete_capability destroy fuel s' c)

  unfoldable pub revoke_all : ℕ → Space → Ptr → Option (ℕ × Space)
  revoke_all fuel s p =
      and_then (iterate fuel (revoke_one fuel) s (s.slots p).derivation)
        (λ s'. some (0, set_derivation s' p null))

  unfoldable pub node_revoke : ℕ → Space → Ptr → ℕ → Option (ℕ × Space)
  node_revoke fuel s node i =
      let p = slot_at node i in
      if outside s node i
      then some (einval, s)
      else if is_nothing (s.slots p).handlers
      then some (enocapability, s)
      else if is_node (s.slots p).handlers || not (heads_derivations (s.slots p))
      then some (ecapinval, s)
      else if (s.slots p).derivation == null
      then some (0, s)
      else revoke_all fuel s p

  -- node_destructor, on the node that the slot holds
  unfoldable pub node_destructor : ℕ → Space → Ptr → Option Space
  node_destructor fuel s p =
      let node = (s.slots p).resource in
      each_capability (λ s' i slot. merge_and_delete fuel s' slot) (2 ^ (s.nodes node).slot_bits) 0
        s node

unfoldable pub on_node_moved : ℕ → Space → Ptr → Option Space
on_node_moved fuel s node =
    each_capability (λ s' i slot. update_capability_references fuel s' slot)
      (2 ^ (s.nodes node).slot_bits) 0 s node

-- The `destructor` entries of the handlers: nodes within nodes take fuel, and `other` stands for
-- the destructors of threads and endpoints.
unfoldable pub destructor : (Space → Ptr → Option Space) → ℕ → ℕ → Space → Ptr → Option Space
destructor other zero fuel s p = none
destructor other (suc depth) fuel s p = elim (s.slots p).handlers [
  | Handlers.node_handlers ↦ node_destructor (destructor other depth fuel) fuel s p
  | Handlers.thread_handlers ↦ other s p
  | Handlers.endpoint_handlers ↦ other s p
  | _ ↦ some s
]

-- `slots[i].handlers = NULL` for the `n` slots from index `i` on
unfoldable pub clear_slots : ℕ → ℕ → Space → Ptr → Space
clear_slots zero i s node = s
clear_slots (suc n) i s node =
    clear_slots n (suc i)
      (set_slot s (slot_at node i)
        (record (s.slots (slot_at node i)) { handlers = Handlers.no_handlers }))
      node

-- alloc_node; heap_alloc gives an address for a size, or NULL.
unfoldable pub alloc_node : (ℕ → Ptr) → Space → ℕ → Space × Ptr
alloc_node heap_alloc s slot_bits =
    let bits = if leb 32 slot_bits then 31 else slot_bits in
    let new = heap_alloc (2 + 2 ^ bits * 72) in
    let s₁ = record s { nodes = at s.nodes new (record { slot_bits = bits; nested_nodes = 1 }) } in
    if new == null then (s, null) else (clear_slots (2 ^ bits) 0 s₁ new, new)
