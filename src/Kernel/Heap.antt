-- ===== src/Kernel/Heap.antt =====
-- The block list of core/kernel/heap.c: headers by address, in a record of their own. A header takes
-- 26 bytes on the 68000, and a size_t has 32 bits.
pub mod Tiled
pub mod Split
pub mod Search
pub mod Ends
mod Tests
use cenix.Base.{
  ℕ, zero, suc, ◌+◌, ◌-◌, ◌*◌, ◌/◌, ◌%◌, ◌^◌, Ptr, null, Bool, true, false, not, ◌&&◌, ◌||◌, Option,
  none, some, ◌==◌, ltb, leb, if◌then◌else◌,
}
use cenix.Kernel.State.{Kind, at}

-- struct heap_header, less the reference that a move updates. `old_kind` has the two bits above
-- the kind in the flags.
pub record Header : Type 0 where
  pub size : ℕ
  pub kind : Kind
  pub old_kind : Kind
  pub next : Ptr
  pub prev : Ptr

-- struct heap, and the headers in its memory
pub record Heap : Type 0 where
  pub heap_base : Ptr
  pub total_memory : ℕ
  pub used_memory : ℕ
  pub headers : Ptr → Header

abbrev pub header_size : ℕ
header_size = 26

-- Subtraction of size_t values
abbrev pub minus : ℕ → ℕ → ℕ
minus a b = (a + (2 ^ 32 - b)) % 2 ^ 32

abbrev pub plus : ℕ → ℕ → ℕ
plus a b = (a + b) % 2 ^ 32

abbrev pub is_available : Kind → Bool
is_available Kind.available = true
is_available _ = false

abbrev pub is_movable : Kind → Bool
is_movable Kind.movable = true
is_movable _ = false

abbrev pub put : Heap → Ptr → Header → Heap
put heap p h = record heap { headers = at heap.headers p h }

-- `header->next->prev = p`, unless next is NULL
abbrev pub link_back : (Ptr → Header) → Ptr → Ptr → Ptr → Header
link_back hs next p = if next == null then hs else at hs next (record (hs next) { prev = p })

-- The new header that split_header makes, `cut` bytes after the start of the old one
unfoldable pub split_headers : (Ptr → Header) → Ptr → ℕ → Ptr → Header
split_headers hs header cut =
    let new = header + cut in
    let h = hs header in
    let hs₁ = at hs new (record {
      size = minus h.size cut;
      kind = Kind.available;
      old_kind = Kind.available;
      next = h.next;
      prev = header;
    }) in
    let hs₂ = link_back hs₁ h.next new in
    at hs₂ header (record (hs₂ header) { size = cut; next = new })

-- Whether split_header leaves the block alone
abbrev pub too_small : Header → ℕ → Bool
too_small h cut = leb (minus h.size header_size) cut || leb cut header_size

unfoldable pub split_header : Heap → Ptr → ℕ → Bool × Heap
split_header heap header cut =
    if too_small (heap.headers header) cut
    then (false, heap)
    else (true, record heap { headers = split_headers heap.headers header cut })

-- The loop of heap_alloc that looks for blocks: what it has, and where it stands.
pub record Run : Type 0 where
  pub first : Ptr
  pub last : Ptr
  pub total_size : ℕ
  pub to_move : ℕ
  pub available : ℕ

-- `start_header = end_header = p; total_size = p->size; to_move = 0; available_memory = …`
abbrev pub start_at : Heap → Ptr → Run
start_at heap p = record {
  first = p;
  last = p;
  total_size = (heap.headers p).size;
  to_move = 0;
  available = minus heap.total_memory heap.used_memory;
}

-- The switch on the kind of the last block, for the two kinds that can be part of an allocation
abbrev pub count : Heap → Run → Run
count heap run =
    let h = heap.headers run.last in
    if is_available h.kind
    then record run { available = minus run.available h.size }
    else record run { to_move = plus run.to_move h.size }

abbrev pub extend : Heap → Run → Run
extend heap run =
    let next = (heap.headers run.last).next in
    record run { last = next; total_size = plus run.total_size (heap.headers next).size }

abbrev pub is_immovable : Kind → Bool
is_immovable Kind.immovable = true
is_immovable _ = false

-- `while (1) …`: the blocks found, or NULL; the outer `none` means that the fuel ran out.
unfoldable pub find_blocks : ℕ → Heap → ℕ → Run → Option (Option Run)
find_blocks zero heap size run = none
find_blocks (suc fuel) heap size run =
    let h = heap.headers run.last in
    let counted = count heap run in
    let from_next = find_blocks fuel heap size (start_at heap h.next) in
    let from_here = find_blocks fuel heap size (start_at heap run.last) in
    let further = find_blocks fuel heap size (extend heap counted) in
    if is_immovable h.kind
    then (if h.next == null then some none else from_next)
    else if leb size counted.total_size
    then (if leb counted.to_move counted.available then some (some counted) else from_here)
    else if h.next == null
    then some none
    else further

-- `((actual_size + sizeof(struct heap_header)) + 3) & ~3`
abbrev pub rounded : ℕ → ℕ
rounded actual_size = plus (plus actual_size header_size) 3 / 4 * 4

-- Where the last block is split: `split_pos`, which is 0 if there is nothing to split off
abbrev pub split_position : Heap → ℕ → Run → ℕ
split_position heap size run =
    let h = heap.headers run.last in
    let pos = minus size (minus run.total_size h.size) in if leb h.size pos then 0 else pos

-- The split of the last block, if it is available
unfoldable pub split_last : Heap → ℕ → Run → Heap
split_last heap size run =
    if is_available (heap.headers run.last).kind
    then (split_header heap run.last (split_position heap size run)).1
    else heap

-- The new header over all the blocks found, where nothing had to be moved, and the split of what
-- is too much
unfoldable pub set_up : Heap → ℕ → Run → Heap × Ptr
set_up heap size run =
    let last = heap.headers run.last in
    let whole = minus (plus run.last last.size) run.first in
    let hs = at heap.headers run.first (record {
      size = whole;
      kind = Kind.immovable;
      old_kind = Kind.available;
      next = last.next;
      prev = (heap.headers run.first).prev;
    }) in
    let heap₁ = record heap {
      headers = link_back hs last.next run.first;
      used_memory = if run.to_move == 0 then plus heap.used_memory whole else heap.used_memory;
    } in
    let (split, heap₂) = split_header heap₁ run.first size in
    let rest = (heap₂.headers (run.first + size)).size in
    (
      if split then record heap₂ { used_memory = minus heap₂.used_memory rest } else heap₂,
      run.first + header_size,
    )

-- The loop that marks the blocks found as immovable and keeps their kinds
unfoldable pub mark_run : ℕ → Heap → Ptr → Ptr → Option Heap
mark_run zero heap p last = none
mark_run (suc fuel) heap p last =
    let h = heap.headers p in
    let heap₁ = put heap p (record h { kind = Kind.immovable; old_kind = h.kind }) in
    let heap₂ = record heap₁ {
      used_memory =
          if is_available h.kind then plus heap₁.used_memory h.size else heap₁.used_memory;
    } in
    let rest = mark_run fuel heap₂ h.next last in if p == last then some heap₂ else rest

-- The loop that gives the blocks their kinds back
unfoldable pub revert_run : ℕ → Heap → Ptr → Ptr → Option Heap
revert_run zero heap p last = none
revert_run (suc fuel) heap p last =
    let h = heap.headers p in
    let heap₁ = put heap p (record h { kind = h.old_kind }) in
    let heap₂ = record heap₁ {
      used_memory =
          if is_available h.old_kind then minus heap₁.used_memory h.size else heap₁.used_memory;
    } in
    let rest = revert_run fuel heap₂ h.next last in if p == last then some heap₂ else rest

-- The loop that moves the movable blocks out of the way, with `alloc` for the call of heap_alloc;
-- the inner `none` means that this failed. What the blocks hold and the references to them are no
-- part of this state.
unfoldable pub move_run :
    (Heap → ℕ → Option (Heap × Ptr)) → ℕ → Heap → Ptr → Ptr → Option (Bool × Heap)
move_run alloc zero heap p last = none
move_run alloc (suc fuel) heap p last =
    let h = heap.headers p in
    let skipped = move_run alloc fuel heap h.next last in
    if not (is_movable h.old_kind)
    then (if p == last then some (true, heap) else skipped)
    else elim (alloc heap (minus h.size header_size)) [
      | none ↦ none
      | some (heap₁, dest) ↦
          let moved = heap₁.headers p in
          let heap₂ = put heap₁ p (record moved { old_kind = Kind.available }) in
          let d = dest - header_size in
          let heap₃ = put heap₂ d (record (heap₂.headers d) { kind = Kind.movable }) in
          let rest = move_run alloc fuel heap₃ moved.next last in
          if dest == null
          then some (false, heap₁)
          else if p == last
          then some (true, heap₃)
          else rest
    ]

-- The part of heap_alloc for `to_move > 0`; on failure, the result of the outer call
unfoldable pub move_out : (Heap → ℕ → Option (Heap × Ptr)) → ℕ → Heap → Run → Option (Bool × Heap)
move_out alloc fuel heap run = elim (mark_run fuel heap run.first run.last) [
  | none ↦ none
  | some heap₁ ↦ elim (move_run alloc fuel heap₁ run.first run.last) [
    | none ↦ none
    | some (true, heap₂) ↦ some (true, heap₂)
    | some (false, heap₂) ↦ elim (revert_run fuel heap₂ run.first run.last) [
      | none ↦ none
      | some heap₃ ↦ some (false, heap₃)
    ]
  ]
]

-- heap_alloc: `fuel` bounds the depth of its calls of itself and each of its loops.
unfoldable pub heap_alloc : ℕ → Heap → ℕ → Option (Heap × Ptr)
heap_alloc zero heap actual_size = none
heap_alloc (suc fuel) heap actual_size =
    let size = rounded actual_size in
    let found = find_blocks fuel heap size (start_at heap heap.heap_base) in
    if not (leb size (minus heap.total_memory heap.used_memory))
    then some (heap, null)
    else elim found [
      | none ↦ none
      | some none ↦ some (heap, null)
      | some (some run) ↦
          let heap₁ = split_last heap size run in
          if run.to_move == 0
          then some (set_up heap₁ size run)
          else elim (move_out (heap_alloc fuel) fuel heap₁ run) [
            | none ↦ none
            | some (false, heap₂) ↦ some (heap₂, null)
            | some (true, heap₂) ↦ some (set_up heap₂ size run)
          ]
    ]

-- heap_free, on the header of the object
unfoldable pub merge_next : Heap → Ptr → Heap
merge_next heap header =
    let h = heap.headers header in
    let next = h.next in
    let after = (heap.headers next).next in
    let heap₁ = put heap header (record h { size = plus h.size (heap.headers next).size }) in
    if not (next == null) && is_available (heap.headers next).kind
    then record heap₁ { headers = link_back heap₁.headers (heap₁.headers after).next header }
    else heap

unfoldable pub merge_prev : Heap → Ptr → Heap
merge_prev heap header =
    let h = heap.headers header in
    let p = heap.headers h.prev in
    let heap₁ = put heap h.prev (record p { size = plus p.size h.size; next = h.next }) in
    if not (h.prev == null) && is_available p.kind
    then record heap₁ { headers = link_back heap₁.headers h.next h.prev }
    else heap

unfoldable pub heap_free : Heap → Ptr → Heap
heap_free heap ptr =
    let header = ptr - header_size in
    let h = heap.headers header in
    let heap₁ = put heap header (record h { kind = Kind.available; old_kind = Kind.available }) in
    merge_prev (merge_next (record heap₁ { used_memory = minus heap₁.used_memory h.size }) header)
      header

unfoldable pub heap_sizeof : Heap → Ptr → ℕ
heap_sizeof heap ptr = minus (heap.headers (ptr - header_size)).size header_size
