-- ===== src/Kernel/Capabilities/Invoke.antt =====
-- Calls through a capability (core/kernel/capabilities.c), the transfer of capabilities in a message
-- (core/kernel/ipc.c), and set_root_node (core/kernel/threads.c).
use cenix.Base.{
  ℕ, zero, suc, Ptr, null, Bool, true, false, not, ◌&&◌, ◌||◌, Option, none, some, ◌==◌, leb, ltb,
  if◌then◌else◌,
}
use cenix.Base.Bits.{test_bit, set_bit}
use cenix.Errors.{enocapability, ecapinval}
use cenix.NoContainer.{and_then}
use cenix.Kernel.State.{Kernel}
use cenix.Kernel.Threads.{look_up_thread_by_id}
use cenix.Kernel.Capabilities.{
  Space, Handlers, Address, LookUpResult, is_node, is_nothing, unlock_looked_up_capability,
}
use cenix.Kernel.Capabilities.Slots.{
  set_slot, move_capability, copy_capability, update_capability_addresses,
}
use cenix.Kernel.Capabilities.Populate.{
  look_up_capability_relative, look_up_capability_absolute, get_nested_nodes_depth,
  max_nested_nodes,
}

-- `handlers->num_handlers`
abbrev pub num_handlers : Handlers → ℕ
num_handlers Handlers.no_handlers = 0
num_handlers Handlers.debug_handlers = 1
num_handlers Handlers.endpoint_handlers = 2
num_handlers Handlers.thread_handlers = 5
num_handlers Handlers.node_handlers = 4
num_handlers Handlers.untyped_handlers = 4
num_handlers Handlers.address_space_handlers = 1

-- A handler gets the address and the depth of the call, the slot and the argument.
abbrev pub Handler : Type 0
Handler = ℕ → ℕ → Ptr → ℕ → Kernel → Space → Option (ℕ × Kernel × Space)

-- `handlers->handlers[handler_number](address, depth, result.slot, argument)`, and the unlocking
unfoldable pub invoke_found :
    (Handlers → ℕ → Handler)
    → Kernel
    → Space
    → LookUpResult
    → ℕ
    → ℕ
    → ℕ
    → ℕ
    → Option (ℕ × Kernel × Space)
invoke_found handlers k s result address depth number argument =
    let h = (s.slots result.slot).handlers in
    if is_nothing h || leb (num_handlers h) number
    then some (ecapinval, unlock_looked_up_capability k result, s)
    else elim (handlers h number address depth result.slot argument k s) [
      | none ↦ none
      | some (value, k', s') ↦ some (value, unlock_looked_up_capability k' result, s')
    ]

unfoldable pub invoke_capability :
    (Handlers → ℕ → Handler) → ℕ → Kernel → Space → ℕ → ℕ → ℕ → ℕ → Option (ℕ × Kernel × Space)
invoke_capability handlers fuel k s address depth number argument =
    elim (look_up_capability_relative s fuel k address depth) [
      | none ↦ none
      | some (slot, k₁) ↦ elim slot [
        | none ↦ some (enocapability, k₁, s)
        | some result ↦ invoke_found handlers k₁ s result address depth number argument
      ]
    ]

-- LIST_ITER_NO_CONTAINER over the resource list from `p` on: `item->resource = new_resource_address`
unfoldable pub set_resources : ℕ → Space → Ptr → Ptr → Option Space
set_resources zero s p resource = none
set_resources (suc fuel) s p resource =
    let s' = set_slot s p (record (s.slots p) { resource = resource }) in
    let rest = set_resources fuel s' (s'.resource_list p).next resource in
    if p == null then some s else rest

-- The end of update_capability_resource; `on_moved` is what the handlers do with a moved resource.
unfoldable pub update_found :
    (Handlers → Ptr → Kernel → Space → Option (Kernel × Space))
    → ℕ
    → Kernel
    → Space
    → LookUpResult
    → Ptr
    → Option (Kernel × Space)
update_found on_moved fuel k s result resource =
    let slot = result.slot in
    if is_nothing (s.slots slot).handlers
    then some (unlock_looked_up_capability k result, s)
    else and_then (set_resources fuel s (s.resource_list slot).start resource) (λ s₁.
      elim (on_moved (s₁.slots slot).handlers (s₁.slots slot).resource k s₁) [
        | none ↦ none
        | some (k₂, s₂) ↦ some (unlock_looked_up_capability k₂ result, s₂)
      ])

-- Where update_capability_resource finds the slot: the root capability of a thread has the address 0
-- with the depth 0.
unfoldable pub look_up_owner : Space → ℕ → Kernel → Address → Option (Option LookUpResult × Kernel)
look_up_owner s fuel k a =
    let elsewhere = look_up_capability_absolute s fuel k a in
    if (a.address == 0) && (a.depth == 0)
    then elim (look_up_thread_by_id fuel a.thread_id a.bucket_number k) [
      | none ↦ none
      | some (thread, should_unlock, k₁) ↦
          if thread == null
          then some (none, k₁)
          else some (
            some (record {
              slot = thread;
              depth = 0;
              container = thread;
              should_unlock = should_unlock;
            }),
            k₁,
          )
    ]
    else elsewhere

unfoldable pub update_capability_resource :
    (Handlers → Ptr → Kernel → Space → Option (Kernel × Space))
    → ℕ
    → Kernel
    → Space
    → Address
    → Ptr
    → Option (Kernel × Space)
update_capability_resource on_moved fuel k s a resource = elim (look_up_owner s fuel k a) [
  | none ↦ none
  | some (slot, k₁) ↦ elim slot [
    | none ↦ some (k₁, s)
    | some result ↦ update_found on_moved fuel k₁ s result resource
  ]
]

abbrev pub thread_address : Kernel → Ptr → ℕ → ℕ → Address
thread_address k thread address depth = record {
  thread_id = (k.threads thread).thread_id;
  bucket_number = (k.threads thread).bucket_number;
  address = address;
  depth = depth;
}

-- What set_root_node does with the slot that is found.
unfoldable pub set_root_found :
    ℕ → Kernel → Space → Ptr → LookUpResult → Option (ℕ × Kernel × Space)
set_root_found fuel k s thread result =
    let k' = unlock_looked_up_capability k result in
    let moved =
      and_then (move_capability fuel s result.slot thread)
        (λ s'. update_capability_addresses fuel s' thread (thread_address k thread 0 0) 0) in
    and_then (get_nested_nodes_depth fuel s result.slot) (λ depth.
      if is_node (s.slots result.slot).handlers && ltb depth max_nested_nodes
      then and_then moved (λ s'. some (0, k', s'))
      else some (ecapinval, k', s))

-- set_root_node, on the thread that the slot leads to
unfoldable pub set_root_node : ℕ → Kernel → Space → Ptr → ℕ → ℕ → Option (ℕ × Kernel × Space)
set_root_node fuel k s slot address depth =
    elim (look_up_capability_relative s fuel k address depth) [
      | none ↦ none
      | some (found, k₁) ↦ elim found [
        | none ↦ some (enocapability, k₁, s)
        | some result ↦ set_root_found fuel k₁ s (s.slots slot).resource result
      ]
    ]

-- The `capabilities` of a message, by address and depth, `to_copy` and `transferred_capabilities`.
pub record Parcel : Type 0 where
  pub address : ℕ → ℕ
  pub depth : ℕ → ℕ
  pub to_copy : ℕ
  pub transferred : ℕ

-- One capability, once both slots are found; the second component says whether it was transferred.
unfoldable pub transfer_found :
    ℕ
    → Kernel
    → Space
    → LookUpResult
    → LookUpResult
    → Address
    → Bool
    → Option (Bool × Kernel × Space)
transfer_found fuel k s source dest a should_copy =
    let k' = unlock_looked_up_capability (unlock_looked_up_capability k source) dest in
    let moved = move_capability fuel s source.slot dest.slot in
    let placed =
      if should_copy
      then some (copy_capability s source.slot dest.slot a.address a.depth)
      else moved in
    if not (is_nothing (s.slots dest.slot).handlers)
    then some (false, k', s)
    else and_then placed (λ s₁.
      and_then (update_capability_addresses fuel s₁ dest.slot a 0) (λ s₂. some (true, k', s₂)))

-- The round of the loop of transfer_capabilities for the index `i`.
unfoldable pub transfer_capability :
    ℕ → Kernel → Space → Ptr → Ptr → Parcel → Parcel → ℕ → Option (Bool × Kernel × Space)
transfer_capability fuel k s sending receiving sent received i =
    let from = thread_address k sending (sent.address i) (sent.depth i) in
    let to = thread_address k receiving (received.address i) (received.depth i) in
    let should_copy = test_bit sent.to_copy i in
    if (sent.depth i == 0) || (received.depth i == 0)
    then some (false, k, s)
    else elim (look_up_capability_absolute s fuel k from) [
      | none ↦ none
      | some (found, k₁) ↦ elim found [
        | none ↦ some (false, k₁, s)
        | some source ↦
            let h = (s.slots source.slot).handlers in
            if is_nothing h || (should_copy && is_node h)
            then some (false, unlock_looked_up_capability k₁ source, s)
            else elim (look_up_capability_absolute s fuel k₁ to) [
              | none ↦ none
              | some (free, k₂) ↦ elim free [
                | none ↦ some (false, unlock_looked_up_capability k₂ source, s)
                | some dest ↦ transfer_found fuel k₂ s source dest to should_copy
              ]
            ]
      ]
    ]

-- The loop, with `n` rounds left from the index `i` on.
unfoldable pub transfer_from :
    ℕ → ℕ → ℕ → Kernel → Space → Ptr → Ptr → Parcel → Parcel → Option (Parcel × Kernel × Space)
transfer_from fuel zero i k s sending receiving sent received = some (received, k, s)
transfer_from fuel (suc n) i k s sending receiving sent received =
    elim (transfer_capability fuel k s sending receiving sent received i) [
      | none ↦ none
      | some (done, k', s') ↦ transfer_from fuel n (suc i) k' s' sending receiving sent (
          if done
          then record received { transferred = set_bit received.transferred i }
          else received)
    ]

unfoldable pub transfer_capabilities :
    ℕ → Kernel → Space → Ptr → Ptr → Parcel → Parcel → Option (Parcel × Kernel × Space)
transfer_capabilities fuel k s sending receiving sent received =
    transfer_from fuel 4 0 k s sending receiving sent (record received { transferred = 0 })
