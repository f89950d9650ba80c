-- ===== src/Kernel/Heap/Search.antt =====
-- The search of heap_alloc (core/kernel/heap.c) for blocks that are big enough together.
use cenix.Base.{
  ℕ, zero, suc, ◌+◌, ◌-◌, ◌%◌, ◌^◌, ◌≤◌, Ptr, null, ◌≡◌, refl, sym, subst, ◌≢◌, inl, inr, false,
  Option, none, some, arith, ◌==◌, leb, if◌then◌else◌, Bool-cases,
}
use cenix.Kernel.Heap.{Heap, Run, plus, is_available, is_immovable, start_at, count, find_blocks}

-- The memory of the heap that is not in use, and what is left of it once a block is given away: a
-- block that is available is part of it.
abbrev pub unused : Heap → ℕ
unused heap = (heap.total_memory + (2 ^ 32 - heap.used_memory)) % 2 ^ 32

abbrev pub less : Heap → Ptr → ℕ → ℕ
less heap p left =
    if is_available (heap.headers p).kind
    then (left + (2 ^ 32 - (heap.headers p).size)) % 2 ^ 32
    else left

-- From block `p` the `next` links lead to block `q`, over blocks that are not immovable, which have
-- `total` bytes together, `moved` of them in blocks to be moved; without the available ones of them,
-- `left` bytes of the heap are unused.
pub data Blocks (heap : Heap) : Ptr → Ptr → ℕ → ℕ → ℕ → Type 0 where
  one :
      (p : Ptr) (moved left : ℕ)
      → is_immovable (heap.headers p).kind ≡ false
      → moved ≡ (if is_available (heap.headers p).kind then 0 else plus 0 (heap.headers p).size)
      → left ≡ less heap p (unused heap)
      → Blocks heap p p (heap.headers p).size moved left
  more :
      (p q next total moved moved' left left' : ℕ)
      → Blocks heap p q total moved left
      → (heap.headers q).next ≡ next
      → next ≢ null
      → is_immovable (heap.headers next).kind ≡ false
      → moved' ≡ (
          if is_available (heap.headers next).kind
          then moved
          else plus moved (heap.headers next).size)
      → left' ≡ less heap next left
      → Blocks heap p next (plus total (heap.headers next).size) moved' left'

-- A run of which the last block has not been counted yet.
data Pending (heap : Heap) : Run → Type 0 where
  fresh : (p : Ptr) → Pending heap (start_at heap p)
  going :
      (p q total moved available : ℕ)
      → Blocks heap p q total moved available
      → (heap.headers q).next ≢ null
      → Pending heap (record {
        first = p;
        last = (heap.headers q).next;
        total_size = plus total (heap.headers (heap.headers q).next).size;
        to_move = moved;
        available = available;
      })

-- What the search can come to: it runs out of fuel, it gives up, or it has blocks with room for
-- `size` bytes, of which those to be moved fit into the memory that is left.
pub data Outcome (heap : Heap) (size : ℕ) : Option (Option Run) → Type 0 where
  out_of_fuel : Outcome heap size none
  no_room : Outcome heap size (some none)
  found :
      (run : Run) (left : ℕ)
      → Blocks heap run.first run.last run.total_size run.to_move left
      → size ≤ run.total_size
      → run.to_move ≤ left
      → Outcome heap size (some (some run))

count-Blocks :
    (heap : Heap) (run : Run)
    → Pending heap run
    → is_immovable (heap.headers run.last).kind ≡ false
    → Blocks heap run.first run.last run.total_size
        (count heap run).to_move
        (count heap run).available
count-Blocks heap _ (fresh p) free = one p _ _ free (ground arith) (ground arith)
count-Blocks heap _ (going p q total moved available b ne) free =
    more p q (heap.headers q).next total moved _ available _ b refl ne free (ground arith)
      (ground arith)

count-first : (heap : Heap) (run : Run) → (count heap run).first ≡ run.first
count-first heap run = ground arith

pub count-last : (heap : Heap) (run : Run) → (count heap run).last ≡ run.last
count-last heap run = ground arith

count-total_size : (heap : Heap) (run : Run) → (count heap run).total_size ≡ run.total_size
count-total_size heap run = ground arith

-- The same, for the run with its last block counted.
counted-Blocks :
    (heap : Heap) (run : Run)
    → Pending heap run
    → is_immovable (heap.headers run.last).kind ≡ false
    → let c = count heap run in Blocks heap c.first c.last c.total_size c.to_move c.available
counted-Blocks heap run pending free =
    rw (count-first heap run, count-last heap run, count-total_size heap run)
      (count-Blocks heap run pending free)

find_blocks-Pending :
    (fuel : ℕ) (heap : Heap) (size : ℕ) (run : Run)
    → Pending heap run
    → Outcome heap size (find_blocks fuel heap size run)
unfolding find_blocks
find_blocks-Pending zero heap size run pending = out_of_fuel
find_blocks-Pending (suc fuel) heap size run pending =
    let h = heap.headers run.last in
    let c = count heap run in
    elim (Bool-cases (is_immovable h.kind)) [
      | inl fixed ↦ rw fixed (elim (Bool-cases (h.next == null)) [
        | inl e ↦ rw e no_room
        | inr e ↦ rw e (find_blocks-Pending fuel heap size _ (fresh h.next))
      ])
      | inr free ↦ rw free (elim (Bool-cases (leb size c.total_size)) [
        | inl big ↦ rw big (elim (Bool-cases (leb c.to_move c.available)) [
          | inl fits ↦ rw fits (
              found c c.available (counted-Blocks heap run pending free) (ground arith)
                (ground arith))
          | inr no_fit ↦ rw no_fit (find_blocks-Pending fuel heap size _ (fresh run.last))
        ])
        | inr small ↦ rw small (elim (Bool-cases (h.next == null)) [
          | inl e ↦ rw e no_room
          | inr e ↦ rw e (
              find_blocks-Pending fuel heap size _ (
                going c.first c.last c.total_size c.to_move c.available
                  (counted-Blocks heap run pending free)
                  (subst (λ l. (heap.headers l).next ≢ null) (sym (count-last heap run))
                    (ground arith))))
        ])
      ])
    ]

-- When the search of heap_alloc ends with blocks, these are linked one after the other, none of
-- them is immovable, they have room for the size asked for, and what has to be moved out of them
-- fits into the memory that is unused once the available ones among them are given away.
pub find_blocks-Outcome :
    (fuel : ℕ) (heap : Heap) (size : ℕ) (p : Ptr)
    → Outcome heap size (find_blocks fuel heap size (start_at heap p))
find_blocks-Outcome fuel heap size p =
    find_blocks-Pending fuel heap size (start_at heap p) (fresh p)
