-- ===== src/Kernel/Capabilities/Tests.antt =====
-- A small capability space: the slot at 10 leads to a node of 16 slots at 1000, whose slot 0 has an
-- endpoint and whose slot 1 has a node of 4 slots at 3000. Runs in it, and the theorems there.
use cenix.Base.{ℕ, ◌+◌, Ptr, null, ◌≡◌, refl, true, false, not, none, some, [], arith, Option, Bool}
use mathlib.Core.Option
use cenix.Kernel.State.{heap_lock, heap_unlock}
use cenix.Kernel.Capabilities.{search_node, unlock_looked_up_capability}
use cenix.Kernel.Capabilities.Populate.{
  populate_capability_slot, look_up_capability_relative, populate_found,
}
use cenix.Kernel.Capabilities.Reached.{HasSlots, Location, Leads, Reaches}
use cenix.Kernel.Capabilities.Populated.{Populated, populate_capability_slot-Populated}
use cenix.Kernel.Capabilities.Invoke.{Handler, invoke_capability, invoke_found}
use cenix.Kernel.Capabilities.Invoked.{Invoked, invoke_capability-Invoked}
use cenix.NoContainer as NoContainer
use cenix.NoContainer.{
  Entry, Entries, insert, insert_second, insert_before_end, delete, delete_start, delete_end,
  end_along,
}
use cenix.Kernel.State.{Kernel, at}
use cenix.Kernel.Scheduler.Tests.{busy}
use cenix.Kernel.Capabilities.{Space, Capability, Handlers, slot_at, look_up_capability, is_nothing}
use cenix.Kernel.Capabilities.Slots.{
  copy_capability, add_derivation, copy_resource, delete_capability, walk,
}
use cenix.Kernel.Capabilities.Nodes.{
  CopyArgs, node_copy, node_delete, node_revoke, revoke_all, revoke_one,
}
use cenix.Kernel.Capabilities.Locking.{Outcome, look_up_capability-Outcome}
use cenix.Kernel.Capabilities.Paths.{IsPath, look_up_capability-IsPath}
use cenix.Kernel.Capabilities.Copied.{IsAlone, IsCopy, IsUndone, node_copy-node_delete}

abbrev capability : Handlers → Ptr → Capability
capability handlers resource = record {
  handlers = handlers;
  resource = resource;
  is_heap_managed = true;
  is_root = false;
  badged = false;
  original = true;
  badge = 0;
  access_rights = 255;
  derived_from = null;
  derivation = null;
  address = record { thread_id = 1; bucket_number = 58; address = 0; depth = 4 };
  heap = null;
}

abbrev alone : Entries
alone p = record { prev = null; next = null; start = p; end = p }

abbrev space : Space
space = record {
  slots =
      at
        (at
          (at (λ p. capability Handlers.no_handlers null) 10
            (capability Handlers.node_handlers 1000))
          1002 (capability Handlers.endpoint_handlers 5000))
        1074 (capability Handlers.node_handlers 3000);
  resource_list = alone;
  derivation_list = alone;
  nodes =
      at (λ p. record { slot_bits = 4; nested_nodes = 1 }) 3000
        (record { slot_bits = 2; nested_nodes = 2 });
  owners = λ p. record { thread_id = 0; bucket_number = 0; address = 0; depth = 0 };
  freed = [];
}

-- slot 2 of the inner node, by index 1 in the lowest 4 bits and index 2 above
inner : IsPath space 1000 33 6 3000 3146 2
inner =
    IsPath.via 1000 1 2 2 3000 3146 1 (omega arith) refl (omega arith)
      (IsPath.last 3000 2 (omega arith))

look_up_capability-IsPath_example :
    (k' : Kernel) × (b : Bool) × (look_up_capability space 2 busy 10 33 6
      ≡ some (some (record { slot = 3146; depth = 6; container = 3000; should_unlock = b }), k'))
look_up_capability-IsPath_example =
    look_up_capability-IsPath space 2 busy 10 33 6 3000 3146 2 refl inner (omega arith)
      (omega arith)

look_up_capability-Outcome_example : Outcome busy (look_up_capability space 2 busy 10 33 6)
look_up_capability-Outcome_example = look_up_capability-Outcome space 2 busy 10 33 6

endpoint-IsAlone : IsAlone space 1002 (slot_at 1000 2)
endpoint-IsAlone = record {
  other = omega arith;
  there = omega arith;
  original = refl;
  plain = refl;
  filled = refl;
  uncopied = refl;
  list = refl;
}

abbrev nothing_to_do : Space → Ptr → Option Space
nothing_to_do s p = some s

-- the running thread is the one whose root capability is the slot at 10
abbrev running : Kernel
running = record busy { current_thread = 10 }

space-HasSlots : HasSlots space
space-HasSlots p = ground arith

abbrev copy_args : CopyArgs
copy_args = record {
  source_address = 0;
  source_depth = 4;
  dest_slot = 2;
  access_rights = 1;
  badge = 0;
  should_set_badge = false;
}

abbrev endpoint_at : Location
endpoint_at = record { slot = 1002; container = 1000; depth = 4 }

endpoint-Reaches : Reaches space running 0 4 (some endpoint_at)
endpoint-Reaches =
    Reaches.from_root (some endpoint_at) (omega arith) refl (Leads.here 1000 0 4 0 refl)

node_copy-node_delete_example :
    (s' : Space) × (node_copy 5 running space 1000 0 4 copy_args ≡ some (0, running, s'))
    × IsCopy space s' 1002 (slot_at 1000 2)
    × ((s'' : Space) × (node_delete nothing_to_do 2 s' 1000 2 ≡ some (0, s''))
        × IsUndone space s'' 1002 (slot_at 1000 2))
node_copy-node_delete_example =
    node_copy-node_delete nothing_to_do space running 1000 0 4 5 0 copy_args endpoint_at
      space-HasSlots (omega arith) endpoint-Reaches endpoint-IsAlone refl (omega arith) refl

-- Four copies of the endpoint, in the slots 2 to 5
abbrev copies : Space
copies =
    copy_capability
      (copy_capability
        (copy_capability (copy_capability space 1002 (slot_at 1000 2) 32 8) 1002 (slot_at 1000 3) 48
          8)
        1002 (slot_at 1000 4) 64 8)
      1002 (slot_at 1000 5) 80 8

abbrev left_in : ℕ → Option (ℕ × Space) → Bool
left_in p none = false
left_in p (some (status, s)) = not (is_nothing (s.slots p).handlers)

-- Revoking the endpoint misses the third of its four copies.
revoke_misses : left_in (slot_at 1000 4) (node_revoke nothing_to_do 9 copies 1000 0) ≡ true
unfolding node_revoke revoke_all revoke_one copy_capability add_derivation copy_resource
    delete_capability walk delete insert NoContainer.init insert_second insert_before_end
    delete_start delete_end end_along
revoke_misses = refl

populate_capability_slot-Populated_example :
    Populated running space null 2 4 6000 Handlers.untyped_handlers true
      (populate_capability_slot 5 running space null 2 4 6000 Handlers.untyped_handlers true)
populate_capability_slot-Populated_example =
    populate_capability_slot-Populated 5 running space null 2 4 6000 Handlers.untyped_handlers true
      space-HasSlots (omega arith)

-- the slot at index 2 has been filled
populate_fills :
    Option.map
      (λ r. r.0)
      (populate_capability_slot 5 running space null 2 4 6000 Handlers.untyped_handlers true)
    ≡ some 0
unfolding populate_capability_slot look_up_capability_relative look_up_capability search_node
    populate_found heap_lock heap_unlock unlock_looked_up_capability
populate_fills = refl

abbrev answer : Handlers → ℕ → Handler
answer h number address depth slot argument k s = some (argument + 1, k, s)

invoke_capability-Invoked_example :
    Invoked answer running space 0 4 1 70 (invoke_capability answer 5 running space 0 4 1 70)
invoke_capability-Invoked_example =
    invoke_capability-Invoked answer 5 running space 0 4 1 70 space-HasSlots (omega arith)

invoke_answers : Option.map (λ r. r.0) (invoke_capability answer 5 running space 0 4 1 70) ≡ some 71
unfolding invoke_capability look_up_capability_relative look_up_capability search_node invoke_found
    heap_lock heap_unlock unlock_looked_up_capability
invoke_answers = refl
