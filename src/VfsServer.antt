-- ===== src/VfsServer.antt =====
-- core/vfs_server: the server's view of its memory and of the kernel, and structures.c, which keeps
-- bitsets of used slots.
pub mod Slots
pub mod MountLists
pub mod Namespaces
mod Tests
use cenix.Base.{
  ℕ, zero, suc, ◌+◌, ◌*◌, ◌/◌, ◌%◌, ◌^◌, Ptr, null, Bool, true, false, not, List, [], ◌∷◌, ◌==◌,
  leb, if◌then◌else◌,
}
use Prim.Native.Nat.{bit_or}
use cenix.Base.Bits.{set_bit, clear_bit}
use cenix.Base.Memory.{offset}
use cenix.Errors.{enomem}
use cenix.Kernel.State.{at}
use cenix.Kernel.Threads.{ptr_bits, size_max, first_clear}
use cenix.Kernel.Capabilities.Populate.{AllocArgs}

-- The system calls of the server, by what syscall_invoke is asked for.
pub data Call : Type 0 where
  lock : (address : ℕ) → Call
  unlock : (address : ℕ) → Call
  alloc : (args : AllocArgs) → Call
  node_delete : (address depth slot : ℕ) → Call
  node_move : (address depth source slot : ℕ) → Call

-- The words of the memory that the server can reach, by address, and the calls it has made, the last
-- one first.
pub record World : Type 0 where
  pub words : ℕ → ℕ
  pub calls : List Call

-- What the kernel answers to a call, and what it leaves in the memory.
abbrev pub System : Type 0
System = World → Call → ℕ × (ℕ → ℕ)

unfoldable pub syscall_invoke : System → World → Call → ℕ × World
syscall_invoke system w c =
    let (answer, words) = system w c in (answer, record { words = words; calls = c ∷ w.calls })

-- INIT_NODE_DEPTH
abbrev pub init_node_depth : ℕ
init_node_depth = 4

-- `(id << INIT_NODE_DEPTH) | slot`
unfoldable pub structure_address : ℕ → ℕ → ℕ
structure_address slot id = bit_or slot (id * 2 ^ init_node_depth % 2 ^ ptr_bits)

-- The loop of find_slot_for over `n` words, with `i` words before them: the id, where the pointer
-- ends, and the words.
unfoldable pub search_words : (ℕ → ℕ) → ℕ → Ptr → ℕ → ℕ × Ptr × (ℕ → ℕ)
search_words words zero p i = (0, p, words)
search_words words (suc n) p i =
    let rest = search_words words n (offset p 4) (suc i) in
    let value = words p in
    let bit = first_clear ptr_bits 0 value in
    if value == size_max then rest else (i * ptr_bits + bit, p, at words p (set_bit value bit))

-- `pointer[id / SIZE_BITS] &= ~((size_t) 1 << (id % SIZE_BITS))`
unfoldable pub clear_slot : (ℕ → ℕ) → Ptr → ℕ → ℕ → ℕ
clear_slot words p id =
    let q = offset p (4 * (id / ptr_bits)) in at words q (clear_bit (words q) (id % ptr_bits))

-- What find_slot_for does after its loop.
unfoldable pub use_slot :
    System → ℕ → (ℕ → World → ℕ × World) → World → ℕ × Ptr × (ℕ → ℕ) → ℕ × World
use_slot system used fn w (id, p, words) =
    let (result, w₂) = fn id (record w { words = words }) in
    let w₃ = if result == size_max then record w₂ { words = clear_slot w₂.words p id } else w₂ in
    (result, (syscall_invoke system w₃ (unlock used)).1)

-- find_slot_for, with the callback on its data as `fn`
unfoldable pub find_slot_for : System → World → ℕ → ℕ → (ℕ → World → ℕ × World) → ℕ × World
find_slot_for system w used max_items fn =
    let (pointer, w₁) = syscall_invoke system w (lock used) in
    if pointer == null
    then (size_max, w₁)
    else use_slot system used fn w₁ (search_words w₁.words (max_items / ptr_bits) pointer 0)

unfoldable pub mark_slot_unused : System → World → ℕ → ℕ → ℕ → ℕ × World
mark_slot_unused system w used max_items slot =
    let (pointer, w₁) = syscall_invoke system w (lock used) in
    let (refused, w₂) = syscall_invoke system w₁ (unlock used) in
    let w₃ = record w₁ { words = clear_slot w₁.words pointer slot } in
    if pointer == null
    then (enomem, w₁)
    else if leb max_items slot
    then (if refused == 0 then 1 else refused, w₂)
    else syscall_invoke system w₃ (unlock used)

abbrev pub alloc_args : ℕ → ℕ → ℕ → AllocArgs
alloc_args type size address = record {
  type = type;
  size = size;
  address = address;
  depth = size_max;
}

-- alloc_structure_callback, with untyped memory of `size` bytes to allocate
unfoldable pub alloc_structure_callback : System → ℕ → ℕ → ℕ → World → ℕ × World
alloc_structure_callback system node size id w =
    let address = structure_address node id in
    let (answer, w') = syscall_invoke system w (alloc (alloc_args 0 size address)) in
    (if answer == 0 then address else size_max, w')

unfoldable pub alloc_structure : System → World → ℕ → ℕ → ℕ → ℕ → ℕ × World
alloc_structure system w used node max_items size =
    find_slot_for system w used max_items (alloc_structure_callback system node size)

unfoldable pub free_structure : System → World → ℕ → ℕ → ℕ → ℕ → ℕ × World
free_structure system w used node max_items address =
    let slot = address / 2 ^ init_node_depth in
    let (result, w₁) = syscall_invoke system w (node_delete node init_node_depth slot) in
    if result == 0 then mark_slot_unused system w₁ used max_items slot else (result, w₁)
