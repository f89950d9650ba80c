-- ===== src/LinkedList/Elsewhere.antt =====
-- Where LIST_APPEND and LIST_REMOVE leave the links alone, so that one link field can serve many
-- lists, as the buckets of a hash table.
use cenix.Base.{
  Ptr, null, ◌≡◌, ◌≢◌, true, false, List, [], ◌∷◌, arith, has, last_or, has-last_or, ◌⊎◌, ne_of_has,
  inl, inr,
}
use cenix.LinkedList.{Container, Links, write, append, remove}
use cenix.LinkedList.Shape.{IsList, frame-Forward, frame-Backward}
use cenix.LinkedList.Remove.{next-has, prev-has}

-- A list is kept by links that agree at its items.
pub frame-IsList :
    (links links' : Links) (c : Container) (xs : List Ptr)
    → IsList links c xs
    → ((a : Ptr) → has a xs ≡ true → links' a ≡ links a)
    → IsList links' c xs
frame-IsList links links' c xs l same = record {
  chain = frame-Forward links links' c.start xs l.chain same;
  back = frame-Backward links links' null xs l.back same;
  last = l.last;
}

pub append-elsewhere :
    (links : Links) (c : Container) (t a : Ptr) (xs : List Ptr)
    → IsList links c xs
    → a ≢ t
    → has a xs ≡ false
    → (append c links t).1 a ≡ links a
unfolding append write
append-elsewhere links c t a [] l ne out = rw (l.last) (ground (arith, ne))
append-elsewhere links c t a (x ∷ xs) l ne out =
    let other : last_or x xs ≢ a = ne_of_has (last_or x xs) a (x ∷ xs) (has-last_or x xs) out in
    ground (arith, l.last, other, ne)

write-two :
    (links : Links) (c : Container) (t a : Ptr)
    → t ≢ a
    → ((links t).next ≡ null) ⊎ ((links t).next ≢ a)
    → ((links t).prev ≡ null) ⊎ ((links t).prev ≢ a)
    → (remove c links t).1 a ≡ links a
unfolding remove write
write-two links c t a ne (inl n) (inl p) = ground (arith, n, p, ne)
write-two links c t a ne (inl n) (inr p) = ground (arith, n, p, ne)
write-two links c t a ne (inr n) (inl p) = ground (arith, n, p, ne)
write-two links c t a ne (inr n) (inr p) = ground (arith, n, p, ne)

pub remove-elsewhere :
    (links : Links) (c : Container) (t a : Ptr) (xs : List Ptr)
    → IsList links c xs
    → has t xs ≡ true
    → has a xs ≡ false
    → (remove c links t).1 a ≡ links a
remove-elsewhere links c t a [] l i out = cc
remove-elsewhere links c t a (x ∷ xs) l i out =
    write-two links c t a (ne_of_has t a (x ∷ xs) i out)
      (avoid_next (next-has links c.start t (x ∷ xs) l.chain i))
      (avoid_prev (prev-has links null t x xs l.back i))
  where
    avoid_next :
        ((links t).next ≡ null) ⊎ (has (links t).next (x ∷ xs) ≡ true)
        → ((links t).next ≡ null) ⊎ ((links t).next ≢ a)
    avoid_next (inl e) = inl e
    avoid_next (inr h) = inr (ne_of_has (links t).next a (x ∷ xs) h out)

    avoid_prev :
        ((x ≡ t) × ((links t).prev ≡ null)) ⊎ (has (links t).prev (x ∷ xs) ≡ true)
        → ((links t).prev ≡ null) ⊎ ((links t).prev ≢ a)
    avoid_prev (inl e) = inl e.1
    avoid_prev (inr h) = inr (ne_of_has (links t).prev a (x ∷ xs) h out)
