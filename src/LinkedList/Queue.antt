-- ===== src/LinkedList/Queue.antt =====
-- LIST_APPEND and LIST_POP_FROM_START as the operations of a FIFO queue.
use cenix.Base.{
  Ptr, null, ◌≡◌, refl, ◌≢◌, none, some, true, false, List, [], ◌∷◌, ◌++◌, arith, ◌==◌, has,
  last_or, has-append, has-last_or, last_or-append, if◌then◌else◌,
}
use cenix.LinkedList.{Container, Links, write, init, append, pop_from_start, can_pop}
use cenix.LinkedList.Shape.{Forward, Backward, IsQueue, IsList, frame-Forward}

-- The links after an append to a list that is not empty.
abbrev appended : Links → Ptr → Ptr → Links
appended links last item =
    write (write links last (record { prev = (links last).prev; next = item })) item
      (record { prev = last; next = null })

appended-Forward :
    (links : Links) (p item x : Ptr) (xs : List Ptr)
    → item ≢ null
    → has item (x ∷ xs) ≡ false
    → Forward links p (x ∷ xs)
    → Forward (appended links (last_or x xs) item) p (x ∷ xs ++ item ∷ [])
unfolding write
appended-Forward links p item x [] ne new (e, ex, out, f) = ground arith
appended-Forward links p item x (y ∷ ys) ne new (e, ex, out, f) = (
  e,
  ex,
  rw (has-append x (y ∷ ys) (item ∷ [])) (ground arith),
  ground (
    arith,
    appended-Forward links (links x).next item y ys ne (ground arith) f,
    has-last_or y ys,
  ),
)

appended-Backward :
    (links : Links) (p q item x : Ptr) (xs : List Ptr)
    → has item (x ∷ xs) ≡ false
    → Forward links p (x ∷ xs)
    → Backward links q (x ∷ xs)
    → Backward (appended links (last_or x xs) item) q (x ∷ xs ++ item ∷ [])
unfolding write
appended-Backward links p q item x [] new f b = ground arith
appended-Backward links p q item x (y ∷ ys) new (e, ex, out, f) (eb, b) = (
  ground (arith, has-last_or y ys),
  appended-Backward links (links x).next x item y ys (ground arith) f b,
)

last-ne-null :
    (links : Links) (p x : Ptr) (xs : List Ptr)
    → Forward links p (x ∷ xs)
    → (last_or x xs == null) ≡ false
last-ne-null links p x [] (e, ex, out, f) = ground arith
last-ne-null links p x (y ∷ ys) (e, ex, out, f) = last-ne-null links (links x).next y ys f

pub ne_test : (x : Ptr) → x ≢ null → (x == null) ≡ false
ne_test x h = ground arith

module _ (links : Links) (item : Ptr) (ne : item ≢ null) where
  -- LIST_APPEND on a walkable queue adds the item at its end.
  pub append-IsQueue :
      (c : Container) (xs : List Ptr)
      → has item xs ≡ false
      → IsQueue links c xs
      → IsQueue (append c links item).1 (append c links item).0 (xs ++ item ∷ [])
  unfolding append write
  append-IsQueue c [] new q = rw (q.last) (record { chain = ground arith; last = refl })
  append-IsQueue c (x ∷ xs) new q =
      rw (q.last, last-ne-null links c.start x xs q.chain)
        (record {
          chain = appended-Forward links c.start item x xs ne new q.chain;
          last = rw (last_or-append x xs item);
        })

  -- On a list that can be walked both ways, LIST_APPEND keeps the `prev` pointers right too.
  pub append-IsList :
      (c : Container) (xs : List Ptr)
      → has item xs ≡ false
      → IsList links c xs
      → IsList (append c links item).1 (append c links item).0 (xs ++ item ∷ [])
  unfolding append write
  append-IsList c [] new q =
      rw (q.last) (record { chain = ground arith; back = ground arith; last = refl })
  append-IsList c (x ∷ xs) new q =
      rw (q.last, last-ne-null links c.start x xs q.chain)
        (record {
          chain = appended-Forward links c.start item x xs ne new q.chain;
          back = appended-Backward links c.start null item x xs new q.chain q.back;
          last = rw (last_or-append x xs item);
        })

-- What is left of a queue when its first item is taken off and cleared.
popped-IsQueue :
    (links : Links) (c : Container) (x : Ptr) (xs : List Ptr)
    → IsQueue links c (x ∷ xs)
    → IsQueue
        (write links x (record { prev = null; next = null }))
        (record { start = (links x).next; end = if (links x).next == null then null else c.end })
        xs
unfolding write
popped-IsQueue links c x [] q = record { chain = q.chain.3; last = rw (q.chain.3) }
popped-IsQueue links c x (y ∷ ys) q = record {
  chain = frame-Forward links cleared (links x).next (y ∷ ys) q.chain.3 (λ a i. ground arith);
  last = ground arith;
}
  where
    cleared : Links
    cleared = write links x (record { prev = null; next = null })

-- Popping a queue that is not empty yields its first item, clears that item's links alone, and
-- leaves the rest of the queue.
pub pop-IsQueue :
    (links : Links) (c : Container) (x : Ptr) (xs : List Ptr)
    → IsQueue links c (x ∷ xs)
    → let (got, c', links') = pop_from_start c links in
      (got ≡ some x)
      × IsQueue links' c' xs
      × (links' ≡ write links x (record { prev = null; next = null }))
unfolding pop_from_start
pop-IsQueue links c x xs q =
    rw (q.chain.0, ne_test x q.chain.1) (refl, popped-IsQueue links c x xs q, refl)

pub pop-nil :
    (links : Links) (c : Container) → IsQueue links c [] → pop_from_start c links ≡ (none, c, links)
unfolding pop_from_start
pop-nil links c q = rw (q.chain)

pub IsList→IsQueue :
    (links : Links) (c : Container) (xs : List Ptr) → IsList links c xs → IsQueue links c xs
IsList→IsQueue links c xs l = record { chain = l.chain; last = l.last }

pub can_pop-cons :
    (links : Links) (c : Container) (x : Ptr) (xs : List Ptr)
    → IsQueue links c (x ∷ xs)
    → can_pop c ≡ true
unfolding can_pop
can_pop-cons links c x xs q = ground arith

pub can_pop-nil : (links : Links) (c : Container) → IsQueue links c [] → can_pop c ≡ false
unfolding can_pop
can_pop-nil links c q = ground arith

-- A list just initialised is empty.
pub init-IsList : (links : Links) → IsList links init []
unfolding init
init-IsList links = record { chain = refl; back = tt; last = refl }
