-- ===== src/Kernel/Heap/Ends.antt =====
-- Whether the search of heap_alloc (core/kernel/heap.c) ends.
use cenix.Base.{
  ℕ, zero, suc, ◌+◌, ◌^◌, ◌≤◌, ◌<◌, Ptr, null, ◌≡◌, refl, sym, ◌∙◌, subst, ◌⊎◌, inl, inr, true,
  false, Option, none, some, List, [], ◌∷◌, arith, ◌==◌, leb, has, length, Bool-cases,
}
use cenix.Kernel.State.{Kind}
use cenix.Kernel.Heap.{
  Heap, Run, minus, plus, is_available, is_movable, is_immovable, start_at, count, extend,
  find_blocks,
}
use cenix.Kernel.Heap.Tiled.{Tiled}
use cenix.Kernel.Heap.Search.{count-last}

-- An available block leaves what is to be moved as it is.
count-still :
    (heap : Heap) (run : Run)
    → is_available (heap.headers run.last).kind ≡ true
    → (count heap run).to_move ≡ run.to_move
count-still heap run e = ground (arith, e)

Kind-available : (v : Kind) → is_immovable v ≡ false → is_movable v ≡ false → is_available v ≡ true
Kind-available Kind.available i m = refl
Kind-available Kind.immovable i m = cc
Kind-available Kind.movable i m = cc

zero_count :
    (heap : Heap) (run : Run)
    → is_movable (heap.headers run.last).kind ≡ false
    → run.to_move ≡ 0
    → is_immovable (heap.headers run.last).kind ≡ false
    → (count heap run).to_move ≡ 0
zero_count heap run still zero_move free =
    count-still heap run (Kind-available (heap.headers run.last).kind free still) ∙ zero_move

no_move :
    (heap : Heap) (run : Run)
    → is_movable (heap.headers run.last).kind ≡ false
    → run.to_move ≡ 0
    → is_immovable (heap.headers run.last).kind ≡ false
    → leb (count heap run).to_move (count heap run).available ≡ true
no_move heap run still zero_move free = rw (zero_count heap run still zero_move free) (ground arith)

abbrev pub Returns : ℕ → Heap → ℕ → Run → Type 0
Returns fuel heap size run = (o : Option Run) × (find_blocks fuel heap size run ≡ some o)

-- One round at a block that is not movable, when nothing has to be moved: the search returns at
-- once, or goes on behind the block.
find_blocks-round :
    (fuel : ℕ) (heap : Heap) (size : ℕ) (run : Run)
    → is_movable (heap.headers run.last).kind ≡ false
    → run.to_move ≡ 0
    → ((heap.headers run.last).next ≡ null)
      ⊎ (Returns fuel heap size (start_at heap (heap.headers run.last).next)
          × (is_immovable (heap.headers run.last).kind ≡ false
              → Returns fuel heap size (extend heap (count heap run))))
    → Returns (suc fuel) heap size run
unfolding find_blocks
find_blocks-round fuel heap size run still zero_move (inl e) =
    elim (Bool-cases (is_immovable (heap.headers run.last).kind)) [
      | inl fixed ↦ (none, rw (fixed, e) refl)
      | inr free ↦ elim (Bool-cases (leb size (count heap run).total_size)) [
        | inl big ↦
            let fits : leb (count heap run).to_move (count heap run).available ≡ true =
              no_move heap run still zero_move free in
            (some (count heap run), rw (free, big, fits) refl)
        | inr small ↦ (none, rw (free, small, e) refl)
      ]
    ]
find_blocks-round fuel heap size run still zero_move (inr ((o, q), further)) =
    elim (Bool-cases (is_immovable (heap.headers run.last).kind)) [
      | inl fixed ↦ elim (Bool-cases ((heap.headers run.last).next == null)) [
        | inl e ↦ (none, rw (fixed, e) refl)
        | inr e ↦ (o, rw (fixed, e) q)
      ]
      | inr free ↦ elim (Bool-cases (leb size (count heap run).total_size)) [
        | inl big ↦
            let fits : leb (count heap run).to_move (count heap run).available ≡ true =
              no_move heap run still zero_move free in
            (some (count heap run), rw (free, big, fits) refl)
        | inr small ↦ elim (Bool-cases ((heap.headers run.last).next == null)) [
          | inl e ↦ (none, rw (free, small, e) refl)
          | inr e ↦ let (o', q') = further free in (o', rw (free, small, e) q')
        ]
      ]
    ]

find_blocks-ends :
    (fuel : ℕ) (heap : Heap) (size : ℕ) (run : Run) (before start limit : ℕ) (b : Ptr)
    (bs : List Ptr)
    → Tiled heap.headers before run.last start limit (b ∷ bs)
    → ((a : Ptr) → has a (b ∷ bs) ≡ true → is_movable (heap.headers a).kind ≡ false)
    → run.to_move ≡ 0
    → length (b ∷ bs) ≤ fuel
    → Returns fuel heap size run
find_blocks-ends zero heap size run before start limit b bs t still zero_move l =
    absurd (omega arith)
find_blocks-ends (suc fuel) heap size run before start limit b [] (e, s, nz, room, back, t) still
      zero_move l =
    find_blocks-round fuel heap size run
      (subst (λ z. is_movable (heap.headers z).kind ≡ false) (sym e) (still b (ground arith)))
      zero_move (inl (subst (λ z. (heap.headers z).next ≡ null) (sym e) t.0))
find_blocks-ends (suc fuel) heap size run before start limit b (d ∷ ds) (e, s, nz, room, back, t)
      still zero_move l =
    let here : is_movable (heap.headers run.last).kind ≡ false =
      subst (λ z. is_movable (heap.headers z).kind ≡ false) (sym e) (still b (ground arith)) in
    let next = (heap.headers run.last).next in
    let t' : Tiled heap.headers b next (b + (heap.headers b).size) limit (d ∷ ds) =
      subst
        (λ z. Tiled heap.headers b (heap.headers z).next (b + (heap.headers b).size) limit (d ∷ ds))
        (sym e) t in
    let still' : (a : Ptr) → has a (d ∷ ds) ≡ true → is_movable (heap.headers a).kind ≡ false =
      λ a i. still a (ground (arith, i)) in
    find_blocks-round fuel heap size run here zero_move (
      inr (
        find_blocks-ends fuel heap size (start_at heap next) b (b + (heap.headers b).size) limit d
            ds t' still' refl (omega arith),
        λ free.
            find_blocks-ends fuel heap size (extend heap (count heap run)) b
              (b + (heap.headers b).size) limit d ds
              (subst
                (λ z.
                  Tiled heap.headers b (heap.headers z).next (b + (heap.headers b).size) limit
                    (d ∷ ds))
                (sym (count-last heap run)) t')
              still' (zero_count heap run here zero_move free) (omega arith),
      ))

-- On blocks that fill the memory, of which none is movable, the search of heap_alloc ends, with
-- blocks or without, in at most as many rounds as there are blocks.
pub find_blocks-Returns :
    (fuel : ℕ) (heap : Heap) (size start limit : ℕ) (b : Ptr) (bs : List Ptr)
    → Tiled heap.headers null heap.heap_base start limit (b ∷ bs)
    → ((a : Ptr) → has a (b ∷ bs) ≡ true → is_movable (heap.headers a).kind ≡ false)
    → length (b ∷ bs) ≤ fuel
    → Returns fuel heap size (start_at heap heap.heap_base)
find_blocks-Returns fuel heap size start limit b bs t still l =
    find_blocks-ends fuel heap size (start_at heap heap.heap_base) null start limit b bs t still
      refl l

-- Where the search stands at a movable block that is large enough for the allocation, but larger
-- than the memory that is left, it never ends, whatever the fuel.
pub find_blocks-stuck :
    (fuel : ℕ) (heap : Heap) (size : ℕ) (p : Ptr)
    → (heap.headers p).kind ≡ Kind.movable
    → (heap.headers p).size < 2 ^ 32
    → size ≤ (heap.headers p).size
    → minus heap.total_memory heap.used_memory < (heap.headers p).size
    → find_blocks fuel heap size (start_at heap p) ≡ none
unfolding find_blocks
find_blocks-stuck zero heap size p kind small big left = refl
find_blocks-stuck (suc fuel) heap size p kind small big left =
    let enough : leb size (heap.headers p).size ≡ true = ground arith in
    let too_much : leb (plus 0 (heap.headers p).size) (minus heap.total_memory heap.used_memory)
        ≡ false =
      ground arith in
    rw (kind, enough, too_much) (find_blocks-stuck fuel heap size p kind small big left)
