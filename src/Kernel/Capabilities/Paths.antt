-- ===== src/Kernel/Capabilities/Paths.antt =====
-- The look-up of a capability by the address that its slot has (core/kernel/capabilities.c).
use native.Mathlib.Nat.{
  pow-suc, add-mul-mod_self_left, add-mul-div_left, mod-eq_of_lt, div-eq_of_lt, one-le-pow,
}
use cenix.Base.{
  ℕ, zero, suc, ◌+◌, ◌-◌, ◌*◌, ◌/◌, ◌%◌, ◌^◌, ◌<◌, ◌≤◌, Ptr, ◌≡◌, refl, sym, ap, ◌∙◌, Bool, true,
  false, some, arith, ◌==◌, ltb, ==-refl,
}
use cenix.Kernel.State.{Kernel, heap_lock}
use cenix.Kernel.Capabilities.{
  Space, LookUpResult, slot_at, size_max, is_node, unlock_if, search_node, look_up_capability,
}

-- From `node`, the address `address` of `depth` bits leads through nested nodes to `slot` of the
-- node `container`. The index into the first node is in the lowest bits.
pub data IsPath (space : Space) : Ptr → ℕ → ℕ → Ptr → Ptr → ℕ → Type 0 where
  last :
      (node i : ℕ)
      → i < 2 ^ (space.nodes node).slot_bits
      → IsPath space node i (space.nodes node).slot_bits node (slot_at node i) 1
  via :
      (node i address depth : ℕ) (container slot : Ptr) (n : ℕ)
      → i < 2 ^ (space.nodes node).slot_bits
      → is_node (space.slots (slot_at node i)).handlers ≡ true
      → 0 < depth
      → IsPath space (space.slots (slot_at node i)).resource address depth container slot n
      → IsPath space node
          (i + 2 ^ (space.nodes node).slot_bits * address)
          ((space.nodes node).slot_bits + depth)
          container
          slot
          (suc n)

pow-pos : (n : ℕ) → 0 < 2 ^ n
pow-pos n = one-le-pow n 2 (omega arith)

index : (i b a : ℕ) → i < 2 ^ b → (i + 2 ^ b * a) % 2 ^ b ≡ i
index i b a h = add-mul-mod_self_left i (2 ^ b) a ∙ mod-eq_of_lt h

rest : (i b a : ℕ) → i < 2 ^ b → (i + 2 ^ b * a) / 2 ^ b ≡ a
rest i b a h = add-mul-div_left i a (pow-pos b) ∙ omega (arith, div-eq_of_lt h)

no_more : (m : ℕ) → m + 0 ≡ m
no_more m = omega arith

pow-add : (m n : ℕ) → 2 ^ (m + n) ≡ 2 ^ m * 2 ^ n
pow-add m zero = omega (arith, ap (λ t. 2 ^ t) (no_more m))
pow-add m (suc n) =
    ap (λ t. 2 ^ t) (shift m n)
    ∙ pow-suc 2 (m + n)
    ∙ ap (λ t. t * 2) (pow-add m n)
    ∙ times (2 ^ m) (2 ^ n)
    ∙ ap (λ t. 2 ^ m * t) (sym (pow-suc 2 n))
  where
    shift : (m n : ℕ) → m + suc n ≡ suc (m + n)
    shift m n = omega arith

    times : (a b : ℕ) → a * b * 2 ≡ a * (b * 2)
    times a b = omega arith

below_product : (i p a d : ℕ) → i < p → a < d → i + p * a < p * d
below_product i p a d h l =
    let e : d ≡ suc a + (d - suc a) = omega arith in rw e (omega (arith, spread p a (d - suc a), h))
  where
    spread : (p a k : ℕ) → p * (suc a + k) ≡ p + p * a + p * k
    spread p a k = omega arith

-- An address of `depth` bits fits in `depth` bits.
IsPath-lt :
    {space : Space} {node address depth container slot n : ℕ}
    → IsPath space node address depth container slot n
    → address < 2 ^ depth
IsPath-lt (last node i h) = h
IsPath-lt {space} (via node i address depth container slot n h e d p) =
    rw (pow-add (space.nodes node).slot_bits depth)
      (below_product i (2 ^ (space.nodes node).slot_bits) address (2 ^ depth) h (IsPath-lt p))

search_node-IsPath :
    (space : Space) (fuel : ℕ) (k : Kernel) (node address depth actual container slot n : ℕ)
    (locked : Bool)
    → IsPath space node address depth container slot n
    → n ≤ fuel
    → (k' : Kernel) × (b : Bool) × (search_node space false fuel k node address depth actual locked
        ≡ some (
          some (record {
            slot = slot;
            depth = actual + depth;
            container = container;
            should_unlock = b;
          }),
          k',
        ))
unfolding search_node
search_node-IsPath space zero k _ _ _ actual _ _ _ locked (last node i h) l = absurd (omega arith)
search_node-IsPath space (suc fuel) k _ _ _ actual _ _ _ locked (last node i h) l =
    (k, locked, rw (mod-eq_of_lt h, ==-refl (space.nodes node).slot_bits) refl)
search_node-IsPath space zero k _ _ _ actual _ _ _ locked
      (via node i address depth container slot n h e d p) l =
    absurd (omega arith)
search_node-IsPath space (suc fuel) k _ _ _ actual _ _ _ locked
      (via node i address depth container slot n h e d p) l =
    let bits = (space.nodes node).slot_bits in
    let more : (bits + depth == bits) ≡ false = ground arith in
    let deep : ltb (bits + depth) bits ≡ false = ground arith in
    let less : bits + depth - bits ≡ depth = omega arith in
    let sum : actual + (bits + depth) ≡ actual + bits + depth = omega arith in
    let next = (space.slots (slot_at node i)).resource in
    let k₁ = unlock_if locked (heap_lock k next).1 node in
    let (k', b, q) =
      search_node-IsPath space fuel k₁ next address depth (actual + bits) container slot n
        (heap_lock k next).0 p (omega arith) in
    (k', b, rw (index i bits address h, rest i bits address h, more, deep, less, e, sum) q)

-- The address of a slot, its index in each node from the root on with the first in the lowest
-- bits, leads look_up_capability to that slot, with the number of bits and the node that holds it,
-- given fuel for each of the nodes on the way.
pub look_up_capability-IsPath :
    (space : Space) (fuel : ℕ) (k : Kernel) (root address depth container slot n : ℕ)
    → is_node (space.slots root).handlers ≡ true
    → IsPath space (space.slots root).resource address depth container slot n
    → depth < size_max
    → n ≤ fuel
    → (k' : Kernel) × (b : Bool) × (look_up_capability space fuel k root address depth
        ≡ some (
          some (record { slot = slot; depth = depth; container = container; should_unlock = b }),
          k',
        ))
unfolding look_up_capability
look_up_capability-IsPath space fuel k root address depth container slot n e p d l =
    let short : (depth == size_max) ≡ false = ground arith in
    let node = (space.slots root).resource in
    let (k', b, q) =
      search_node-IsPath space fuel (heap_lock k node).1 node address depth 0 container slot n
        (heap_lock k node).0 p l in
    let zero_add : 0 + depth ≡ depth = omega arith in
    let result : ℕ → LookUpResult =
      λ d. record { slot = slot; depth = d; container = container; should_unlock = b } in
    (
      k',
      b,
      rw (short, mod-eq_of_lt (IsPath-lt p), e) (q ∙ ap (λ d. some (some (result d), k')) zero_add),
    )
