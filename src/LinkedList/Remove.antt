-- ===== src/LinkedList/Remove.antt =====
-- LIST_REMOVE on a list that can be walked both ways.
use cenix.Base.{
  Ptr, null, ◌≡◌, refl, ◌≢◌, ◌⊎◌, Bool-cases, inl, inr, true, false, List, [], ◌∷◌, arith, ◌==◌,
  if◌then◌else◌, has, erase, last_or, has-erase, subst, fun_ext,
}
use cenix.LinkedList.{Container, Links, remove}
use cenix.LinkedList.Shape.{Forward, Backward, IsList, frame-Forward, frame-Backward, not-has-null}

-- The links after a removal, field by field.
abbrev unlinked : Links → Ptr → Links
unlinked links t a = record {
  prev =
      if (links t).next == null
      then (links a).prev
      else if a == (links t).next
      then (links t).prev
      else (links a).prev;
  next =
      if (links t).prev == null
      then (links a).next
      else if a == (links t).prev
      then (links t).next
      else (links a).next;
}

-- Without self-links, LIST_REMOVE writes just that.
remove-unlinked :
    (c : Container) (links : Links) (t : Ptr)
    → (links t).prev ≢ t
    → (a : Ptr) → (remove c links t).1 a ≡ unlinked links t a
unfolding remove
remove-unlinked c links t h a = ground arith

remove-Container :
    (c : Container) (links : Links) (t : Ptr)
    → (links t).prev ≢ t
    → (remove c links t).0 ≡ record {
      start = if (links t).prev == null then (links t).next else c.start;
      end = if (links t).next == null then (links t).prev else c.end;
    }
unfolding remove
remove-Container c links t h = ground arith

-- The neighbours of an item are items.
pub next-has :
    (links : Links) (p t : Ptr) (xs : List Ptr)
    → Forward links p xs
    → has t xs ≡ true
    → ((links t).next ≡ null) ⊎ (has (links t).next xs ≡ true)
next-has links p t [] f i = cc
next-has links p t (x ∷ []) (e, ne, out, f) i = ground arith
next-has links p t (x ∷ y ∷ ys) (e, ne, out, f) i =
    ground (arith, next-has links (links x).next t (y ∷ ys) f)

pub prev-has :
    (links : Links) (q t x : Ptr) (xs : List Ptr)
    → Backward links q (x ∷ xs)
    → has t (x ∷ xs) ≡ true
    → ((x ≡ t) × ((links t).prev ≡ q)) ⊎ (has (links t).prev (x ∷ xs) ≡ true)
prev-has links q t x [] (e, b) i = ground arith
prev-has links q t x (y ∷ ys) (e, b) i = ground (arith, prev-has links x t y ys b)

-- The list that is left, from the predecessor `q` on.
abbrev Left : Links → Ptr → Ptr → Ptr → List Ptr → Type 0
Left links t q x xs =
    Forward (unlinked links t) (if x == t then (links t).next else x) (erase t (x ∷ xs))
    × Backward (unlinked links t) q (erase t (x ∷ xs))
    × ((if (links t).next == null then (links t).prev else last_or x xs)
        ≡ last_or q (erase t (x ∷ xs)))

unlinked-here :
    (links : Links) (p q t x : Ptr) (xs : List Ptr)
    → (x == t) ≡ true
    → has q (x ∷ xs) ≡ false
    → Forward links p (x ∷ xs)
    → Backward links q (x ∷ xs)
    → Left links t q x xs
unlinked-here links p q t x [] hit out f b = ground arith
unlinked-here links p q t x (y ∷ ys) hit out f b = rw hit (
  (
    ground arith,
    ground arith,
    ground arith,
    subst (λ k. Forward (unlinked links t) k ys) (ground arith)
        (frame-Forward links (unlinked links t) (links y).next ys f.3.3 same),
  ),
  (ground arith, frame-Backward links (unlinked links t) y ys b.1.1 same),
  ground arith,
)
  where
    same : (a : Ptr) → has a ys ≡ true → unlinked links t a ≡ links a
    same a i = ground arith

unlinked-there :
    (links : Links) (q t x y : Ptr) (ys : List Ptr)
    → (x == t) ≡ false
    → x ≢ null
    → has q (x ∷ y ∷ ys) ≡ false
    → has x (y ∷ ys) ≡ false
    → (links x).next ≡ y
    → (links x).prev ≡ q
    → (links y).prev ≡ x
    → ((links t).next ≡ null) ⊎ (has (links t).next (y ∷ ys) ≡ true)
    → ((y ≡ t) × ((links t).prev ≡ x)) ⊎ (has (links t).prev (y ∷ ys) ≡ true)
    → has null (y ∷ ys) ≡ false
    → Left links t x y ys
    → Left links t q x (y ∷ ys)
unlinked-there links q t x y ys miss ne out new en ep ey nx pv nonnull (f, b, l) = rw miss (
  (
    refl,
    ne,
    has-erase x t (y ∷ ys) new,
    subst (λ k. Forward (unlinked links t) k (erase t (y ∷ ys))) (ground arith) f,
  ),
  (ground arith, b),
  l,
)

unlinked-Left :
    (links : Links) (p q t x : Ptr) (xs : List Ptr)
    → has q (x ∷ xs) ≡ false
    → Forward links p (x ∷ xs)
    → Backward links q (x ∷ xs)
    → has t (x ∷ xs) ≡ true
    → Left links t q x xs
unlinked-Left links p q t x [] out f b i = unlinked-here links p q t x [] (ground arith) out f b
unlinked-Left links p q t x (y ∷ ys) out f b i = elim (Bool-cases (x == t)) [
  | inl hit ↦ unlinked-here links p q t x (y ∷ ys) hit out f b
  | inr miss ↦
      unlinked-there links q t x y ys miss f.1 out f.2 f.3.0 b.0 b.1.0
        (next-has links (links x).next t (y ∷ ys) f.3 (ground arith))
        (prev-has links x t y ys b.1 (ground arith))
        (not-has-null links (links x).next (y ∷ ys) f.3)
        (unlinked-Left links (links x).next x t y ys f.2 f.3 b.1 (ground arith))
]

-- An item is not its own predecessor.
pub prev-ne :
    (links : Links) (p q t x : Ptr) (xs : List Ptr)
    → has q (x ∷ xs) ≡ false
    → Forward links p (x ∷ xs)
    → Backward links q (x ∷ xs)
    → has t (x ∷ xs) ≡ true
    → (links t).prev ≢ t
prev-ne links p q t x [] out f b i = ground arith
prev-ne links p q t x (y ∷ ys) out f b i =
    ground (arith, prev-ne links (links x).next x t y ys f.2 f.3 b.1)

Left-IsList :
    (links : Links) (c : Container) (t x : Ptr) (xs : List Ptr)
    → IsList links c (x ∷ xs)
    → ((x ≡ t) × ((links t).prev ≡ null)) ⊎ (has (links t).prev (x ∷ xs) ≡ true)
    → has null (x ∷ xs) ≡ false
    → Left links t null x xs
    → IsList
        (unlinked links t)
        (record {
          start = if (links t).prev == null then (links t).next else c.start;
          end = if (links t).next == null then (links t).prev else c.end;
        })
        (erase t (x ∷ xs))
Left-IsList links c t x xs l pv nonnull (f, b, e) = record {
  chain = subst (λ k. Forward (unlinked links t) k (erase t (x ∷ xs))) (ground (arith, l.back.0)) f;
  back = b;
  last = rw (l.last) e;
}

-- LIST_REMOVE of an item takes it out, and leaves the other items in their order.
pub remove-IsList :
    (links : Links) (c : Container) (t : Ptr) (xs : List Ptr)
    → has t xs ≡ true
    → IsList links c xs
    → IsList (remove c links t).1 (remove c links t).0 (erase t xs)
remove-IsList links c t [] i l = cc
remove-IsList links c t (x ∷ xs) i l =
    let none_null = not-has-null links c.start (x ∷ xs) l.chain in
    let apart = prev-ne links c.start null t x xs none_null l.chain l.back i in
    rw (remove-Container c links t apart, fun_ext (remove-unlinked c links t apart))
      (Left-IsList links c t x xs l (prev-has links null t x xs l.back i) none_null
        (unlinked-Left links c.start null t x xs none_null l.chain l.back i))
