-- ===== src/LinkedList/Stale.antt =====
-- LIST_POP_FROM_START clears the links of the item that it takes off, and leaves the `prev`
-- pointer of the new first item, which LIST_REMOVE reads.
use cenix.Base.{Ptr, ◌≡◌, ◌∷◌, List, arith}
use cenix.LinkedList.{Container, Links, pop_from_start, remove}
use cenix.LinkedList.Shape.{IsList}

-- After a pop from a list of two or more items, the new first item still names the item popped as
-- its predecessor, and a LIST_REMOVE of that first item leaves the container starting with it.
pub pop-remove-stale :
    (links : Links) (c : Container) (x y : Ptr) (ys : List Ptr)
    → IsList links c (x ∷ y ∷ ys)
    → let (got, c', links') = pop_from_start c links in
      ((links' y).prev ≡ x) × (c'.start ≡ y) × ((remove c' links' y).0.start ≡ y)
unfolding pop_from_start remove
pop-remove-stale links c x y ys l = ground (arith, l.chain, l.back)
