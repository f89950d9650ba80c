-- ===== src/Kernel/Heap/Tests.antt =====
-- A heap of two blocks, an immovable one at 100 and an available one at 300, and the theorems there.
use cenix.Base.{
  ℕ, Ptr, null, ◌+◌, ◌<◌, ◌≡◌, ◌⊎◌, refl, true, false, Option, none, some, [], ◌∷◌, arith, has,
}
use cenix.Kernel.State.{Kind, at}
use cenix.Kernel.Heap.{
  Heap, Header, header_size, split_header, split_headers, find_blocks, start_at, is_movable,
  heap_alloc, set_up, split_last,
}
use cenix.Kernel.Heap.Tiled.{Tiled}
use cenix.Kernel.Heap.Split.{split_header-Tiled}
use cenix.Kernel.Heap.Search.{Outcome, find_blocks-Outcome}
use cenix.Kernel.Heap.Ends.{Returns, find_blocks-Returns, find_blocks-stuck}

abbrev block : Kind → ℕ → Ptr → Ptr → Header
block kind size prev next = record {
  size = size;
  kind = kind;
  old_kind = Kind.available;
  next = next;
  prev = prev;
}

abbrev heap : Heap
heap = record {
  heap_base = 100;
  total_memory = 600;
  used_memory = 200;
  headers =
      at (at (λ a. block Kind.available 0 null null) 100 (block Kind.immovable 200 null 300)) 300
        (block Kind.available 400 100 null);
}

heap-Tiled : Tiled heap.headers null 100 100 700 (100 ∷ 300 ∷ [])
heap-Tiled = (
  refl,
  refl,
  omega arith,
  omega arith,
  refl,
  (refl, refl, omega arith, omega arith, refl, (refl, refl)),
)

split_header-Tiled_example :
    let (done, heap') = split_header heap 300 100 in
    ((done ≡ false) × (heap' ≡ heap))
    ⊎ ((done ≡ true)
        × (header_size < 100)
        × (100 + header_size < 400)
        × Tiled heap'.headers null 100 100 700 (100 ∷ 300 ∷ 400 ∷ []))
split_header-Tiled_example =
    split_header-Tiled heap null 100 100 700 300 100 (100 ∷ 300 ∷ []) refl (omega arith) heap-Tiled

find_blocks-Outcome_example : Outcome heap 100 (find_blocks 2 heap 100 (start_at heap 100))
find_blocks-Outcome_example = find_blocks-Outcome 2 heap 100 100

unmoved : (a : Ptr) → has a (100 ∷ 300 ∷ []) ≡ true → is_movable (heap.headers a).kind ≡ false
unmoved a i = ground arith

find_blocks-Returns_example : Returns 2 heap 100 (start_at heap 100)
find_blocks-Returns_example =
    find_blocks-Returns 2 heap 100 100 700 100 (300 ∷ []) heap-Tiled unmoved (omega arith)

-- The allocation of 50 bytes takes 76 with the header, from the block at 300.
abbrev given : Option (Heap × Ptr) → Ptr
given none = null
given (some (h, p)) = p

alloc_50 : given (heap_alloc 3 heap 50) ≡ 326
unfolding heap_alloc find_blocks split_last split_header split_headers set_up
alloc_50 = refl

-- a movable block of 500 bytes, with 100 bytes left
abbrev crowded : Heap
crowded = record heap {
  used_memory = 500;
  headers =
      at (at heap.headers 100 (block Kind.movable 500 null 600)) 600
        (block Kind.available 100 100 null);
}

find_blocks-stuck_example : find_blocks 1000 crowded 80 (start_at crowded 100) ≡ none
find_blocks-stuck_example =
    find_blocks-stuck 1000 crowded 80 100 refl (omega arith) (omega arith) (omega arith)
