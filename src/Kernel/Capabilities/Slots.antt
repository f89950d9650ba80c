-- ===== src/Kernel/Capabilities/Slots.antt =====
-- What core/kernel/capabilities.c does to single slots: moving, copying and deleting capabilities.
-- Walks along a list take fuel, `none` when it runs out.
use Prim.Native.Nat.{bit_or}
use cenix.Base.{
  ℕ, zero, suc, ◌+◌, ◌*◌, ◌%◌, ◌^◌, Ptr, null, Bool, false, not, ◌&&◌, ◌||◌, Option, none, some,
  ◌∷◌, ◌==◌, if◌then◌else◌,
}
use cenix.NoContainer as NoContainer
use cenix.NoContainer.{Entries, and_then, set_prev, set_next, insert, delete}
use cenix.Kernel.State.{at}
use cenix.Kernel.Capabilities.{Space, Capability, Handlers, Address, is_node, is_nothing, slot_at}

abbrev pub set_slot : Space → Ptr → Capability → Space
set_slot s p c = record s { slots = at s.slots p c }

-- `link->derived_from = parent`
abbrev pub set_derived_from : Space → Ptr → Ptr → Space
set_derived_from s p parent = set_slot s p (record (s.slots p) { derived_from = parent })

-- `capability->derivation = first`
abbrev pub set_derivation : Space → Ptr → Ptr → Space
set_derivation s p first = set_slot s p (record (s.slots p) { derivation = first })

-- heap_set_update_capability
abbrev pub set_owner : Space → Ptr → Address → Space
set_owner s resource a = record s { owners = at s.owners resource a }

-- `for (link = p; link != NULL; link = link->derivation_list.next)`
unfoldable pub walk : ℕ → (Space → Ptr → Option Space) → Space → Ptr → Option Space
walk zero body s p = none
walk (suc fuel) body s p =
    let rest = and_then (body s p) (λ s'. walk fuel body s' (s'.derivation_list p).next) in
    if p == null then some s else rest

-- LIST_ITER_NO_CONTAINER over the derivation list of `p`
abbrev pub iterate : ℕ → (Space → Ptr → Option Space) → Space → Ptr → Option Space
iterate fuel body s p = walk fuel body s (s.derivation_list p).start

-- `(flags & (CAP_FLAG_ORIGINAL | CAP_FLAG_BADGED)) != 0`
abbrev pub heads_derivations : Capability → Bool
heads_derivations c = c.original || c.badged

unfoldable pub update_capability_references : ℕ → Space → Ptr → Option Space
update_capability_references fuel s p =
    and_then (NoContainer.update_address fuel s.resource_list p) (λ rs.
      and_then (NoContainer.update_address fuel s.derivation_list p) (λ ds.
        let s₁ = record s { resource_list = rs; derivation_list = ds } in
        and_then
          (if heads_derivations (s₁.slots p) && not ((s₁.slots p).derivation == null)
            then iterate fuel (λ s' link. some (set_derived_from s' link p)) s₁
                (s₁.slots p).derivation
            else some s₁)
          (λ s₂. some (
            if ((s₂.derivation_list p).prev == null) && not ((s₂.slots p).derived_from == null)
            then set_derivation s₂ (s₂.slots p).derived_from p
            else s₂))))

-- memcpy of a slot, its list entries included
abbrev pub copy_slot : Space → Ptr → Ptr → Space
copy_slot s from to = record s {
  slots = at s.slots to (s.slots from);
  resource_list = at s.resource_list to (s.resource_list from);
  derivation_list = at s.derivation_list to (s.derivation_list from);
}

-- `slot->handlers = NULL`
abbrev pub clear_handlers : Space → Ptr → Space
clear_handlers s p = set_slot s p (record (s.slots p) { handlers = Handlers.no_handlers })

unfoldable pub move_capability : ℕ → Space → Ptr → Ptr → Option Space
move_capability fuel s from to =
    and_then (update_capability_references fuel (copy_slot s from to) to)
      (λ s'. some (clear_handlers s' from))

-- The two list ends of merge_derivation_lists, for a list with more than one item.
unfoldable pub splice_derivations : ℕ → Space → Ptr → Option Space
splice_derivations fuel s p =
    let es = s.derivation_list in
    let derivation = (s.slots p).derivation in
    let before = (es (es p).end).prev in
    let es₁ = set_next es before (es derivation).start in
    let es₂ = set_prev es₁ (es₁ derivation).start before in
    let es₃ = set_prev es₂ (es₂ p).end (es₂ derivation).end in
    let es₄ = set_next es₃ (es₃ derivation).end (es₃ derivation).end in
    iterate fuel
      (λ s' link.
        let e = s'.derivation_list link in
        let ends = s'.derivation_list p in
        some (record s' {
          derivation_list =
              at s'.derivation_list link (record e { start = ends.start; end = ends.end });
        }))
      (record s { derivation_list = es₄ }) derivation

unfoldable pub merge_child_list : ℕ → Space → Ptr → Option Space
merge_child_list fuel s p =
    let c = s.slots p in
    if c.badged && (not (c.derived_from == null) && not (c.derivation == null))
    then and_then
        (iterate fuel (λ s' link. some (set_derived_from s' link c.derived_from)) s c.derivation)
        (λ s₁.
          if (s₁.derivation_list p).start == (s₁.derivation_list p).end
          then some (set_derivation s₁ (s₁.slots p).derived_from (s₁.slots p).derivation)
          else splice_derivations fuel s₁ p)
    else some s

unfoldable pub merge_derivation_lists : ℕ → Space → Ptr → Option Space
merge_derivation_lists fuel s p = and_then (merge_child_list fuel s p) (λ s₁.
    let parent = (s₁.slots p).derived_from in
    let s₂ =
      if ((s₁.derivation_list p).prev == null) && not (parent == null)
      then set_derivation s₁ parent (s₁.derivation_list p).next
      else s₁ in
    and_then (delete fuel s₂.derivation_list p) (λ es. some (record s₂ { derivation_list = es })))

-- delete_capability. `destroy` stands for the destructor of the resource.
module _ (destroy : Space → Ptr → Option Space) where
  -- `handlers->destructor(to_delete); if (resource != NULL) heap_free(heap, resource);`
  unfoldable pub destroy_resource : Space → Ptr → Option Space
  destroy_resource s p = and_then (destroy s p) (λ s'. some (
      if (s'.slots p).resource == null
      then s'
      else record s' { freed = (s'.slots p).resource ∷ s'.freed }))

  unfoldable pub delete_capability : ℕ → Space → Ptr → Option Space
  delete_capability fuel s p =
      let e = s.resource_list p in
      let last = (e.prev == null) && (e.next == null) in
      let s₁ =
        if (e.prev == null) && not (e.next == null)
        then set_owner s (s.slots p).resource (s.slots e.next).address
        else s in
      and_then (delete fuel s₁.resource_list p) (λ es.
        let s₂ = record s₁ { resource_list = es } in
        and_then (if last then destroy_resource s₂ p else some s₂)
          (λ s₃. some (clear_handlers s₃ p)))

-- copy_capability, in two steps: the copy in the resource list, and in a derivation list.
unfoldable pub copy_resource : Space → Ptr → Ptr → ℕ → ℕ → Space
copy_resource s source dest address depth =
    let c = s.slots source in
    let s₁ = set_slot (copy_slot s source dest) dest (record c {
      original = false;
      badged = false;
      address = record (c.address) { address = address; depth = depth };
    }) in
    record s₁ { resource_list = insert s₁.resource_list source dest }

unfoldable pub add_derivation : Space → Ptr → Ptr → Space
add_derivation s source dest =
    let first = (s.slots source).derivation in
    let s₁ = set_derived_from s dest source in
    if heads_derivations (s.slots source)
    then (if first == null
        then record (set_derivation s₁ source dest) {
          derivation_list = NoContainer.init s₁.derivation_list dest;
        }
        else record s₁ { derivation_list = insert s₁.derivation_list first dest })
    else record s { derivation_list = insert s.derivation_list source dest }

unfoldable pub copy_capability : Space → Ptr → Ptr → ℕ → ℕ → Space
copy_capability s source dest address depth =
    set_derivation (add_derivation (copy_resource s source dest address depth) source dest) dest
      null

-- `for (i = 0; i < 1 << node->slot_bits; i ++) if (slot->handlers != NULL) …`, with `n` rounds
-- left from the index `i` on.
unfoldable pub each_capability :
    (Space → ℕ → Ptr → Option Space) → ℕ → ℕ → Space → Ptr → Option Space
each_capability body zero i s node = some s
each_capability body (suc n) i s node =
    let slot = slot_at node i in
    and_then (if is_nothing (s.slots slot).handlers then some s else body s i slot)
      (λ s'. each_capability body n (suc i) s' node)

-- `(i << depth) | address`, and the depth with the bits of the node
abbrev pub address_in_node : Address → ℕ → ℕ → Address
address_in_node a bits i = record a {
  address = bit_or (i * 2 ^ a.depth % 2 ^ 32) a.address;
  depth = a.depth + bits;
}

-- update_capability_addresses: `fuel` bounds the depth of nesting.
unfoldable pub update_capability_addresses : ℕ → Space → Ptr → Address → ℕ → Option Space
update_capability_addresses zero s p a nesting = none
update_capability_addresses (suc fuel) s p a nesting =
    let s₁ = if (s.resource_list p).prev == null then set_owner s (s.slots p).resource a else s in
    let s₂ = set_slot s₁ p (record (s₁.slots p) { address = a }) in
    let node = (s₂.slots p).resource in
    let bits = (s₂.nodes node).slot_bits in
    let s₃ = record s₂ {
      nodes = at s₂.nodes node (record { slot_bits = bits; nested_nodes = nesting });
    } in
    let rest =
      each_capability
        (λ s' i slot.
          update_capability_addresses fuel s' slot (address_in_node a bits i) ((nesting + 1) % 256))
        (2 ^ bits) 0 s₃ node in
    if is_node (s₂.slots p).handlers then rest else some s₂
