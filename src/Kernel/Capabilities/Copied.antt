-- ===== src/Kernel/Capabilities/Copied.antt =====
-- A capability that is copied out of an original one, and deleted again (node_copy and node_delete
-- of core/kernel/capabilities.c).
use cenix.Base.{
  ℕ, suc, ◌+◌, ◌<◌, ◌^◌, Ptr, null, ◌≡◌, refl, sym, none, ap, subst, ◌∙◌, ◌≢◌, true, false, Option,
  some, [], ◌∷◌, arith, ◌==◌, ==-refl,
}
use cenix.NoContainer as NoContainer
use cenix.NoContainer.{Entry, Entries, and_then, insert, delete}
use cenix.NoContainer.Insert.{IsShared, insert-alone, delete-second, delete-alone}
use cenix.Kernel.State.{at}
use cenix.Kernel.State.{Kernel}
use cenix.Kernel.Capabilities.{
  Space, Capability, LookUpResult, is_node, is_nothing, slot_at, unlock_looked_up_capability,
}
use cenix.Kernel.Capabilities.Populate.{look_up_capability_relative}
use cenix.Kernel.Capabilities.Reached.{
  HasSlots, Location, Reaches, Reaches-unique, LookedUp, missed, reached,
  look_up_capability_relative-LookedUp,
}
use cenix.Kernel.Capabilities.Slots.{
  set_derived_from, set_derivation, copy_resource, add_derivation, copy_capability,
  merge_child_list, merge_derivation_lists, delete_capability, clear_handlers,
}
use cenix.Kernel.Capabilities.Nodes.{
  CopyArgs, node_copy, copy_into, slot_address, outside, node_delete, merge_and_delete,
}

-- `source` is the only capability for its resource, an original one that has not been copied, and
-- `dest` is another slot.
pub record IsAlone (s : Space) (source dest : Ptr) : Type 0 where
  pub other : source ≢ dest
  pub there : source ≢ null
  pub original : (s.slots source).original ≡ true
  pub plain : is_node (s.slots source).handlers ≡ false
  pub filled : is_nothing (s.slots source).handlers ≡ false
  pub uncopied : (s.slots source).derivation ≡ null
  pub list : IsShared s.resource_list (source ∷ [])

-- `dest` holds a copy of `source`, for the same resource, that is no original of its own and is
-- linked to `source` in the two lists.
pub record IsCopy (s s' : Space) (source dest : Ptr) : Type 0 where
  pub resource : (s'.slots dest).resource ≡ (s.slots source).resource
  pub handlers : (s'.slots dest).handlers ≡ (s.slots source).handlers
  pub access_rights : (s'.slots dest).access_rights ≡ (s.slots source).access_rights
  pub derived : (s'.slots dest).original ≡ false
  pub unbadged : (s'.slots dest).badged ≡ false
  pub parent : (s'.slots dest).derived_from ≡ source
  pub childless : (s'.slots dest).derivation ≡ null
  pub source_slot : s'.slots source ≡ record (s.slots source) { derivation = dest }
  pub list : IsShared s'.resource_list (source ∷ dest ∷ [])
  pub derivations : IsShared s'.derivation_list (dest ∷ [])
  pub freed : s'.freed ≡ s.freed

module _ (s : Space) (source dest : Ptr) (alone : IsAlone s source dest) where
  apart : (source == dest) ≡ false
  apart = let ne = alone.other in ground arith

  copy_resource-source :
      (address depth : ℕ)
      → (copy_resource s source dest address depth).slots source ≡ s.slots source
  unfolding copy_resource
  copy_resource-source address depth = rw apart refl

  copy_resource-list :
      (address depth : ℕ)
      → IsShared (copy_resource s source dest address depth).resource_list (source ∷ dest ∷ [])
  unfolding copy_resource
  copy_resource-list address depth =
      insert-alone (at s.resource_list dest (s.resource_list source)) source dest
        (λ e. alone.other (sym e)) (rw apart alone.list)

  add_derivation-first :
      (s₁ : Space)
      → s₁.slots source ≡ s.slots source
      → add_derivation s₁ source dest
        ≡ record (set_derivation (set_derived_from s₁ dest source) source dest) {
          derivation_list = NoContainer.init s₁.derivation_list dest;
        }
  unfolding add_derivation
  add_derivation-first s₁ same = rw (same, alone.original, alone.uncopied) refl

  -- The space after a copy, step by step.
  abbrev first_copy : ℕ → ℕ → Space
  first_copy address depth =
      let s₁ = copy_resource s source dest address depth in
      record (set_derivation (set_derived_from s₁ dest source) source dest) {
        derivation_list = NoContainer.init s₁.derivation_list dest;
      }

  copy-first :
      (address depth : ℕ)
      → copy_capability s source dest address depth
        ≡ set_derivation (first_copy address depth) dest null
  unfolding copy_capability
  copy-first address depth =
      ap (λ z. set_derivation z dest null)
        (add_derivation-first (copy_resource s source dest address depth)
          (copy_resource-source address depth))

  copy-nodes : (address depth : ℕ) → (copy_capability s source dest address depth).nodes ≡ s.nodes
  unfolding copy_resource
  copy-nodes address depth = rw (copy-first address depth) refl

  swapped : (dest == source) ≡ false
  swapped = let ne = alone.other in ground arith

  copied_slot :
      (address depth : ℕ)
      → (set_derivation (first_copy address depth) dest null).slots dest ≡ record (s.slots source) {
        original = false;
        badged = false;
        address = record ((s.slots source).address) { address = address; depth = depth };
        derived_from = source;
        derivation = null;
      }
  unfolding copy_resource
  copied_slot address depth = rw (==-refl dest, swapped) refl

  kept_slot :
      (address depth : ℕ)
      → (set_derivation (first_copy address depth) dest null).slots source
        ≡ record (s.slots source) { derivation = dest }
  unfolding copy_resource
  kept_slot address depth = rw (apart, ==-refl source) refl

  copy_capability-IsCopy :
      (address depth : ℕ) → IsCopy s (copy_capability s source dest address depth) source dest
  unfolding NoContainer.init copy_resource
  copy_capability-IsCopy address depth =
      let d = copied_slot address depth in
      rw (copy-first address depth) (record {
        resource = ap (λ c. c.resource) d;
        handlers = ap (λ c. c.handlers) d;
        access_rights = ap (λ c. c.access_rights) d;
        derived = ap (λ c. c.original) d;
        unbadged = ap (λ c. c.badged) d;
        parent = ap (λ c. c.derived_from) d;
        childless = ap (λ c. c.derivation) d;
        source_slot = kept_slot address depth;
        list = copy_resource-list address depth;
        derivations = rw (==-refl dest) refl;
        freed = refl;
      })

-- The capability in `dest` is gone, and `source` is as it was before the copy.
pub record IsUndone (s s' : Space) (source dest : Ptr) : Type 0 where
  pub gone : is_nothing (s'.slots dest).handlers ≡ true
  pub source_slot : s'.slots source ≡ s.slots source
  pub list : IsShared s'.resource_list (source ∷ [])
  pub freed : s'.freed ≡ s.freed

module _ (destroy : Space → Ptr → Option Space) (s s' : Space) (source dest : Ptr)
    (alone : IsAlone s source dest) (copy : IsCopy s s' source dest) (fuel : ℕ) where
  unmerged : merge_child_list (suc (suc fuel)) s' dest ≡ some s'
  unfolding merge_child_list
  unmerged = rw (copy.unbadged) refl

  merged : merge_derivation_lists (suc (suc fuel)) s' dest ≡ some (set_derivation s' source null)
  unfolding merge_derivation_lists
  merged =
      let there : (source == null) ≡ false = (let ne = alone.there in ground arith) in
      rw
        (
          unmerged,
          copy.parent,
          copy.derivations,
          there,
          delete-alone s'.derivation_list dest (suc (suc fuel)) copy.derivations,
        )
        refl

  abbrev deleted : Entries → Space
  deleted es = clear_handlers (record (set_derivation s' source null) { resource_list = es }) dest

  delete-copy :
      (es : Entries)
      → delete (suc (suc fuel)) s'.resource_list dest ≡ some es
      → delete_capability destroy (suc (suc fuel)) (set_derivation s' source null) dest
        ≡ some (deleted es)
  unfolding delete_capability
  delete-copy es h =
      let there : (source == null) ≡ false = (let ne = alone.there in ground arith) in
      rw (copy.list.1, there, h) refl

  undone : (es : Entries) → IsShared es (source ∷ []) → IsUndone s (deleted es) source dest
  undone es one =
      let apart_ : (source == dest) ≡ false = (let ne = alone.other in ground arith) in
      record {
        gone = rw (==-refl dest) refl;
        source_slot =
            rw (apart_, ==-refl source)
              (ap (λ (c : Capability). record c { derivation = null }) copy.source_slot
                ∙ ap (λ (d : Ptr). record (s.slots source) { derivation = d })
                    (sym alone.uncopied));
        list = one;
        freed = copy.freed;
      }

  pub delete-IsUndone :
      (s'' : Space) × (merge_and_delete destroy (suc (suc fuel)) s' dest ≡ some s'')
      × IsUndone s s'' source dest
  unfolding merge_and_delete
  delete-IsUndone =
      let (es, h, one) = delete-second s'.resource_list source dest fuel alone.there copy.list in
      (deleted es, rw (merged, delete-copy es h) refl, undone es one)

copy_into-copies :
    (s : Space) (source dest address depth : ℕ) (args : CopyArgs)
    → IsAlone s source dest
    → args.should_set_badge ≡ false
    → copy_into s source dest address depth args ≡ (0, copy_capability s source dest address depth)
unfolding copy_into
copy_into-copies s source dest address depth args alone unbadged = rw (alone.plain, unbadged) refl

node_copy-copies :
    (s : Space) (k k₁ : Kernel) (node address depth look_fuel : ℕ) (args : CopyArgs)
    (result : LookUpResult)
    → look_up_capability_relative s look_fuel k args.source_address args.source_depth
      ≡ some (some result, k₁)
    → unlock_looked_up_capability k₁ result ≡ k
    → IsAlone s result.slot (slot_at node args.dest_slot)
    → args.should_set_badge ≡ false
    → args.dest_slot < 2 ^ (s.nodes node).slot_bits
    → is_nothing (s.slots (slot_at node args.dest_slot)).handlers ≡ true
    → node_copy look_fuel k s node address depth args
      ≡ some (
        0,
        k,
        copy_capability s result.slot
            (slot_at node args.dest_slot)
            (slot_address address depth args.dest_slot)
            (depth + (s.nodes node).slot_bits),
      )
unfolding node_copy
node_copy-copies s k k₁ node address depth look_fuel args result found back alone unbadged inside
      empty =
    let fits : outside s node args.dest_slot ≡ false = ground arith in
    let copied =
      copy_into-copies s result.slot (slot_at node args.dest_slot)
        (slot_address address depth args.dest_slot) (depth + (s.nodes node).slot_bits) args alone
        unbadged in
    rw (fits, empty, found, copied, back) refl

node_delete-copy :
    (destroy : Space → Ptr → Option Space) (s' s'' : Space) (node i fuel : ℕ)
    → i < 2 ^ (s'.nodes node).slot_bits
    → is_nothing (s'.slots (slot_at node i)).handlers ≡ false
    → merge_and_delete destroy fuel s' (slot_at node i) ≡ some s''
    → node_delete destroy fuel s' node i ≡ some (0, s'')
unfolding node_delete
node_delete-copy destroy s' s'' node i fuel inside filled h =
    let fits : outside s' node i ≡ false = ground arith in rw (fits, filled, h) refl

node_copy-Reaches :
    (s : Space) (k : Kernel) (node address depth look_fuel : ℕ) (args : CopyArgs) (l : Location)
    → Reaches s k args.source_address args.source_depth (some l)
    → IsAlone s l.slot (slot_at node args.dest_slot)
    → args.should_set_badge ≡ false
    → args.dest_slot < 2 ^ (s.nodes node).slot_bits
    → is_nothing (s.slots (slot_at node args.dest_slot)).handlers ≡ true
    → (r : Option (Option LookUpResult × Kernel))
    → look_up_capability_relative s look_fuel k args.source_address args.source_depth ≡ r
    → LookedUp s k args.source_address args.source_depth r
    → node_copy look_fuel k s node address depth args
      ≡ some (
        0,
        k,
        copy_capability s l.slot
            (slot_at node args.dest_slot)
            (slot_address address depth args.dest_slot)
            (depth + (s.nodes node).slot_bits),
      )
node_copy-Reaches s k node address depth look_fuel args l there alone unbadged inside empty r found
      (missed nowhere_) =
    let e = Reaches-unique s k _ _ _ _ there nowhere_ in cc
node_copy-Reaches s k node address depth look_fuel args l there alone unbadged inside empty r found
      (reached result k₁ there' held back) =
    let same : result.slot ≡ l.slot =
      ap (λ (o : Option Location). elim o [ none ↦ null | some l' ↦ l'.slot ])
        (Reaches-unique s k _ _ _ _ there' there) in
    let alone' : IsAlone s result.slot (slot_at node args.dest_slot) =
      subst (λ p. IsAlone s p (slot_at node args.dest_slot)) (sym same) alone in
    node_copy-copies s k k₁ node address depth look_fuel args result found back alone' unbadged
      inside empty
    ∙ rw same refl

-- If the source address leads, in the space of the running thread, to an original capability that has
-- not been copied and is the only one for its resource, node_copy of it into an empty slot, with no
-- badge, answers 0, leaves the locks as they were, and makes a copy that is no original, with all the
-- access rights of the source, whichever are asked for; node_delete of that copy answers 0, frees no
-- resource, and gives the source back as it was before. The look-up returns, as its fuel is more than
-- the depth of the source address and every node has slots.
pub node_copy-node_delete :
    (destroy : Space → Ptr → Option Space) (s : Space) (k : Kernel)
    (node address depth look_fuel fuel : ℕ) (args : CopyArgs) (l : Location)
    → HasSlots s
    → args.source_depth < look_fuel
    → Reaches s k args.source_address args.source_depth (some l)
    → IsAlone s l.slot (slot_at node args.dest_slot)
    → args.should_set_badge ≡ false
    → args.dest_slot < 2 ^ (s.nodes node).slot_bits
    → is_nothing (s.slots (slot_at node args.dest_slot)).handlers ≡ true
    → (s' : Space) × (node_copy look_fuel k s node address depth args ≡ some (0, k, s'))
      × IsCopy s s' l.slot (slot_at node args.dest_slot)
      × ((s'' : Space) × (node_delete destroy (suc (suc fuel)) s' node args.dest_slot
            ≡ some (0, s''))
          × IsUndone s s'' l.slot (slot_at node args.dest_slot))
node_copy-node_delete destroy s k node address depth look_fuel fuel args l slots enough there alone
      unbadged inside empty =
    let i = args.dest_slot in
    let dest = slot_at node i in
    let a = slot_address address depth i in
    let d = depth + (s.nodes node).slot_bits in
    let copy = copy_capability-IsCopy s l.slot dest alone a d in
    let still_inside : i < 2 ^ ((copy_capability s l.slot dest a d).nodes node).slot_bits =
      subst (λ f. i < 2 ^ (f node).slot_bits) (sym (copy-nodes s l.slot dest alone a d)) inside in
    let (s'', h, back) = delete-IsUndone destroy s _ l.slot dest alone copy fuel in
    (
      copy_capability s l.slot dest a d,
      node_copy-Reaches s k node address depth look_fuel args l there alone unbadged inside empty _
          refl
          (look_up_capability_relative-LookedUp s look_fuel k args.source_address args.source_depth
            slots enough),
      copy,
      (
        s'',
        node_delete-copy destroy _ s'' node i (suc (suc fuel)) still_inside
            (ap is_nothing copy.handlers ∙ alone.filled) h,
        back,
      ),
    )
