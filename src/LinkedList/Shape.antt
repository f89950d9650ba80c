-- ===== src/LinkedList/Shape.antt =====
-- What a container and a map of links stand for: the sequence of the items' addresses.
use cenix.Base.{Ptr, null, ◌≡◌, refl, ◌≢◌, true, false, List, [], ◌∷◌, arith, has, last_or}
use cenix.LinkedList.{Container, Links}

-- From `p` the `next` pointers lead through the distinct items `xs` to NULL.
abbrev pub Forward : Links → Ptr → List Ptr → Type 0
Forward links p [] = p ≡ null
Forward links p (x ∷ xs) =
    (p ≡ x) × (x ≢ null) × (has x xs ≡ false) × Forward links (links x).next xs

-- The `prev` pointers of `xs` lead back, that of the first to `q`.
abbrev pub Backward : Links → Ptr → List Ptr → Type 0
Backward links q [] = Unit {0}
Backward links q (x ∷ xs) = ((links x).prev ≡ q) × Backward links x xs

-- A queue that can be walked forward, with its last item at hand.
pub record IsQueue (links : Links) (c : Container) (xs : List Ptr) : Type 0 where
  pub chain : Forward links c.start xs
  pub last : c.end ≡ last_or null xs

-- A list that can be walked both ways.
pub record IsList (links : Links) (c : Container) (xs : List Ptr) : Type 0 where
  pub chain : Forward links c.start xs
  pub back : Backward links null xs
  pub last : c.end ≡ last_or null xs

-- Each predicate depends on the links of its own items alone.
pub frame-Forward :
    (links links' : Links) (p : Ptr) (xs : List Ptr)
    → Forward links p xs
    → ((a : Ptr) → has a xs ≡ true → links' a ≡ links a)
    → Forward links' p xs
frame-Forward links links' p [] f same = f
frame-Forward links links' p (x ∷ xs) (e, ne, out, f) same = (
  e,
  ne,
  out,
  rw (same x (ground arith))
      (frame-Forward links links' (links x).next xs f (λ a i. same a (ground arith))),
)

pub frame-Backward :
    (links links' : Links) (q : Ptr) (xs : List Ptr)
    → Backward links q xs
    → ((a : Ptr) → has a xs ≡ true → links' a ≡ links a)
    → Backward links' q xs
frame-Backward links links' q [] b same = tt
frame-Backward links links' q (x ∷ xs) (e, b) same = (
  rw (same x (ground arith)) e,
  frame-Backward links links' x xs b (λ a i. same a (ground arith)),
)

-- No item is NULL.
pub not-has-null :
    (links : Links) (p : Ptr) (xs : List Ptr) → Forward links p xs → has null xs ≡ false
not-has-null links p [] f = refl
not-has-null links p (x ∷ xs) (e, ne, out, f) =
    ground (arith, not-has-null links (links x).next xs f)
