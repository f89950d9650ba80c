-- ===== src/LinkedList/Moved.antt =====
-- LIST_UPDATE_ADDRESS after the heap has moved an item from `old` to `new`.
use cenix.Base.{
  Ptr, null, ◌≡◌, refl, ◌≢◌, ◌⊎◌, true, false, List, [], ◌∷◌, arith, ◌==◌, if◌then◌else◌, has,
  last_or, ne_of_has, has-last_or, fun_ext, subst,
}
use cenix.LinkedList.{Container, Links, update_address}
use cenix.LinkedList.Shape.{Forward, Backward, IsList, not-has-null}
use cenix.LinkedList.Remove.{next-has, prev-has, prev-ne}

abbrev renamed : Ptr → Ptr → Ptr → Ptr
renamed old new a = if a == old then new else a

-- The sequence with the item's new address.
abbrev pub rename : Ptr → Ptr → List Ptr → List Ptr
rename old new [] = []
rename old new (x ∷ xs) = renamed old new x ∷ rename old new xs

-- An item's successor points back to it, and its predecessor to it.
next-prev :
    (links : Links) (p t : Ptr) (xs : List Ptr) (q : Ptr)
    → Forward links p xs
    → Backward links q xs
    → has t xs ≡ true
    → ((links t).next ≡ null) ⊎ ((links (links t).next).prev ≡ t)
next-prev links p t [] q f b i = cc
next-prev links p t (x ∷ []) q f b i = ground arith
next-prev links p t (x ∷ y ∷ ys) q f b i =
    ground (arith, next-prev links (links x).next t (y ∷ ys) x f.3 b.1)

prev-next :
    (links : Links) (p t x : Ptr) (xs : List Ptr) (q : Ptr)
    → Forward links p (x ∷ xs)
    → Backward links q (x ∷ xs)
    → has t (x ∷ xs) ≡ true
    → ((x ≡ t) × ((links t).prev ≡ q)) ⊎ ((links (links t).prev).next ≡ t)
prev-next links p t x [] q f b i = ground arith
prev-next links p t x (y ∷ ys) q f b i =
    ground (arith, prev-next links (links x).next t y ys x f.3 b.1)

-- The last item is the one with no successor.
last-next :
    (links : Links) (p t x : Ptr) (xs : List Ptr)
    → Forward links p (x ∷ xs)
    → has t (x ∷ xs) ≡ true
    → (((links t).next ≡ null) × (last_or x xs ≡ t))
      ⊎ (((links t).next ≢ null) × (last_or x xs ≢ t))
last-next links p t x [] f i = ground arith
last-next links p t x (y ∷ ys) f i =
    ground (arith, last-next links (links x).next t y ys f.3, has-last_or y ys)

-- The links after the update, field by field.
abbrev moved : Links → Ptr → Links
moved links new a = record {
  prev =
      if (links new).next == null
      then (links a).prev
      else if a == (links new).next
      then new
      else (links a).prev;
  next =
      if (links new).prev == null
      then (links a).next
      else if a == (links new).prev
      then new
      else (links a).next;
}

-- A renaming that fits the links at every item carries a list over.
module _ (links links' : Links) (old new : Ptr) where
  abbrev FitsAt : Ptr → Type 0
  FitsAt x =
      ((links' (renamed old new x)).next ≡ renamed old new (links x).next)
      × ((links' (renamed old new x)).prev ≡ renamed old new (links x).prev)

  has-rename :
      (x : Ptr) (xs : List Ptr)
      → has new (x ∷ xs) ≡ false
      → has x xs ≡ false
      → has (renamed old new x) (rename old new xs) ≡ false
  has-rename x [] out h = refl
  has-rename x (y ∷ ys) out h = ground (arith, has-rename x ys)

  rename-Forward :
      (p : Ptr) (xs : List Ptr)
      → old ≢ null
      → new ≢ null
      → has new xs ≡ false
      → ((x : Ptr) → has x xs ≡ true → FitsAt x)
      → Forward links p xs
      → Forward links' (renamed old new p) (rename old new xs)
  rename-Forward p [] nz ne out fits f = ground arith
  rename-Forward p (x ∷ xs) nz ne out fits (e, ex, h, f) = (
    ground arith,
    ground arith,
    has-rename x xs out h,
    rw ((fits x (ground arith)).0)
        (rename-Forward (links x).next xs nz ne (ground arith) (λ a i. fits a (ground arith)) f),
  )

  rename-Backward :
      (q : Ptr) (xs : List Ptr)
      → ((x : Ptr) → has x xs ≡ true → FitsAt x)
      → Backward links q xs
      → Backward links' (renamed old new q) (rename old new xs)
  rename-Backward q [] fits b = tt
  rename-Backward q (x ∷ xs) fits (e, b) =
      (ground (arith, fits x), rename-Backward x xs (λ a i. fits a (ground arith)) b)

  last_or-rename :
      (x : Ptr) (xs : List Ptr)
      → last_or (renamed old new x) (rename old new xs) ≡ renamed old new (last_or x xs)
  last_or-rename x [] = refl
  last_or-rename x (y ∷ ys) = last_or-rename y ys

-- The update fits at every item.
moved-FitsAt :
    (links : Links) (p old new y x : Ptr) (ys : List Ptr)
    → Forward links p (y ∷ ys)
    → Backward links null (y ∷ ys)
    → has old (y ∷ ys) ≡ true
    → has new (y ∷ ys) ≡ false
    → new ≢ null
    → links new ≡ links old
    → has x (y ∷ ys) ≡ true
    → FitsAt links (moved links new) old new x
moved-FitsAt links p old new y x ys f b io out ne same i = ground (
  arith,
  next-prev links p old (y ∷ ys) null f b,
  next-prev links p x (y ∷ ys) null f b,
  prev-next links p old y ys null f b,
  prev-next links p x y ys null f b,
  prev-ne links p null old y ys,
  next-has links p old (y ∷ ys) f,
  prev-has links null old y ys b,
  not-has-null links p (y ∷ ys) f,
)

update_address-moved :
    (c : Container) (links : Links) (new : Ptr)
    → (links new).prev ≢ new
    → (links new).next ≢ new
    → update_address c links new ≡ (
      record {
        start = if (links new).prev == null then new else c.start;
        end = if (links new).next == null then new else c.end;
      },
      moved links new,
    )
unfolding update_address
update_address-moved c links new hp hn = λ i. (ends i, fun_ext (λ a. pointwise a) i)
  where
    ends : (update_address c links new).0 ≡ record {
      start = if (links new).prev == null then new else c.start;
      end = if (links new).next == null then new else c.end;
    }
    ends = ground arith

    pointwise : (a : Ptr) → (update_address c links new).1 a ≡ moved links new a
    pointwise a = ground arith

-- After an item has been copied from `old` to `new`, LIST_UPDATE_ADDRESS leaves a list that can be
-- walked both ways and holds the same items, the moved one under its new address.
pub update_address-IsList :
    (links : Links) (c : Container) (old new : Ptr) (xs : List Ptr)
    → has old xs ≡ true
    → has new xs ≡ false
    → new ≢ null
    → links new ≡ links old
    → IsList links c xs
    → IsList (update_address c links new).1 (update_address c links new).0 (rename old new xs)
update_address-IsList links c old new [] io out ne same l = cc
update_address-IsList links c old new (y ∷ ys) io out ne same l =
    rw (update_address-moved c links new hp hn) (record {
      chain =
          subst (λ k. Forward (moved links new) k (rename old new (y ∷ ys))) starts
            (rename-Forward links (moved links new) old new c.start (y ∷ ys) nz ne out fits
              l.chain);
      back =
          subst (λ k. Backward (moved links new) k (rename old new (y ∷ ys))) (ground (arith, nz))
            (rename-Backward links (moved links new) old new null (y ∷ ys) fits l.back);
      last = ends;
    })
  where
    nonnull : has null (y ∷ ys) ≡ false
    nonnull = not-has-null links c.start (y ∷ ys) l.chain

    nz : old ≢ null
    nz = ne_of_has old null (y ∷ ys) io nonnull

    fits : (x : Ptr) → has x (y ∷ ys) ≡ true → FitsAt links (moved links new) old new x
    fits x i = moved-FitsAt links c.start old new y x ys l.chain l.back io out ne same i

    hp : (links new).prev ≢ new
    hp = ground (arith, prev-has links null old y ys l.back)

    hn : (links new).next ≢ new
    hn = ground (arith, next-has links c.start old (y ∷ ys) l.chain)

    starts : renamed old new c.start ≡ (if (links new).prev == null then new else c.start)
    starts = ground (
      arith,
      prev-next links c.start old y ys null l.chain l.back,
      prev-has links null old y ys l.back,
      nonnull,
      nz,
    )

    ends :
        (if (links new).next == null then new else c.end) ≡ last_or null (rename old new (y ∷ ys))
    ends =
        rw (last_or-rename links (moved links new) old new y ys)
          (ground (arith, last-next links c.start old y ys l.chain io, same, l.last))
