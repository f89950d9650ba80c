-- ===== src/NoContainer/Insert.antt =====
-- LIST_INIT_NO_CONTAINER, LIST_INSERT_NO_CONTAINER and LIST_DELETE_NO_CONTAINER on short lists, and
-- what LIST_INSERT_NO_CONTAINER does to longer ones.
use cenix.Base.{
  ℕ, suc, Ptr, null, ◌≡◌, refl, ◌≢◌, false, some, List, [], ◌∷◌, arith, ◌==◌, last_or, ==-refl, sym,
  ◌∙◌, true, ◌++◌, has, has-append, ne_of_has, subst,
}
use cenix.NoContainer.{
  Entries, set_next, set_end, insert, insert_second, insert_before_end, end_along, delete,
  delete_start, delete_end,
}

-- The items, the first of which comes after `before`, are linked both ways and know their ends.
abbrev pub Along : Entries → Ptr → Ptr → Ptr → List Ptr → Type 0
Along es first last before [] = Unit {0}
Along es first last before (x ∷ []) =
    es x ≡ record { prev = before; next = null; start = first; end = last }
Along es first last before (x ∷ y ∷ ys) =
    (es x ≡ record { prev = before; next = y; start = first; end = last })
    × Along es first last x (y ∷ ys)

-- A whole list, from its first item to its last.
abbrev pub IsShared : Entries → List Ptr → Type 0
IsShared es [] = Unit {0}
IsShared es (x ∷ xs) = Along es x (last_or x xs) null (x ∷ xs)

pub insert-alone :
    (es : Entries) (c item : Ptr)
    → item ≢ c
    → es c ≡ record { prev = null; next = null; start = c; end = c }
    → IsShared (insert es c item) (c ∷ item ∷ [])
unfolding insert insert_second
insert-alone es c item ne one =
    let other : (c == item) ≡ false = ground arith in
    rw (one, ==-refl c, other, ==-refl item) (rw (==-refl c) refl, refl)

delete_end-second :
    (es : Entries) (c item : Ptr) (fuel : ℕ)
    → c ≢ null
    → IsShared es (c ∷ item ∷ [])
    → delete_end (suc (suc fuel)) es item ≡ some (set_end (set_next es c null) c c)
unfolding delete_end end_along
delete_end-second es c item fuel nc (qc, qi) =
    let there : (c == null) ≡ false = ground arith in rw (qi, there, ==-refl c, qc) refl

pub delete-second :
    (es : Entries) (c item : Ptr) (fuel : ℕ)
    → c ≢ null
    → IsShared es (c ∷ item ∷ [])
    → (es' : Entries) × (delete (suc (suc fuel)) es item ≡ some es') × IsShared es' (c ∷ [])
unfolding delete delete_start
delete-second es c item fuel nc (qc, qi) =
    let there : (c == null) ≡ false = ground arith in
    (
      set_end (set_next es c null) c c,
      rw (qi, there) (delete_end-second es c item fuel nc (qc, qi)),
      rw (==-refl c, qc) refl,
    )

-- Deleting the only item of a list changes nothing.
pub delete-alone :
    (es : Entries) (c : Ptr) (fuel : ℕ) → IsShared es (c ∷ []) → delete fuel es c ≡ some es
unfolding delete delete_start delete_end
delete-alone es c fuel one = rw one (rw one refl)

-- An item put into a list of one follows it, and deleting it again leaves the list of one.
pub insert-delete :
    (es : Entries) (c item : Ptr) (fuel : ℕ)
    → c ≢ null
    → item ≢ c
    → IsShared es (c ∷ [])
    → IsShared (insert es c item) (c ∷ item ∷ [])
      × ((es' : Entries) × (delete (suc (suc fuel)) (insert es c item) item ≡ some es')
          × IsShared es' (c ∷ []))
insert-delete es c item fuel nc ne one =
    let two = insert-alone es c item ne one in
    (two, delete-second (insert es c item) c item fuel nc two)

longer :
    (es : Entries) (c item : Ptr)
    → (es c).start ≢ (es c).end
    → insert es c item ≡ insert_before_end es c item
unfolding insert
longer es c item ne = let h : ((es c).start == (es c).end) ≡ false = ground arith in rw h refl

-- What LIST_ITER_NO_CONTAINER meets: from `p` on, the `next` pointers lead along the items and end.
abbrev pub Walk : Entries → Ptr → List Ptr → Type 0
Walk es p [] = p ≡ null
Walk es p (x ∷ xs) = (p ≡ x) × Walk es (es x).next xs

-- The `next` pointers after two insertions into a list of two or more.
insert-twice :
    (es : Entries) (before last c a b : Ptr)
    → (es c).start ≢ last
    → (es c).end ≡ last
    → (es last).prev ≡ before
    → a ≢ last
    → a ≢ c
    → b ≢ before
    → b ≢ last
    → last ≢ before
    → let es' = insert (insert es c a) c b in
      ((es' before).next ≡ b)
      × ((es' b).next ≡ last)
      × ((es' last).next ≡ (es last).next)
      × ((p : Ptr) → p ≢ before → p ≢ a → p ≢ b → (es' p).next ≡ (es p).next)
unfolding insert_before_end
insert-twice es before last c a b start end back al ac bb bl lb =
    let es₁ = insert_before_end es c a in
    let first : insert es c a ≡ es₁ = longer es c a (λ e. start (e ∙ end)) in
    let end₁ : (es₁ c).end ≡ last = ground arith in
    let start₁ : (es₁ c).start ≡ (es c).start = ground arith in
    let back₁ : (es₁ last).prev ≡ before = ground arith in
    let next₁ : (es₁ last).next ≡ (es last).next = ground arith in
    rw (first, longer es₁ c b (λ e. start (sym start₁ ∙ e ∙ end₁)), end₁, back₁)
      (ground arith, ground arith, ground arith, λ p np na nb. ground arith)

-- A walk over items whose `next` pointers are the same goes on in the same way.
Walk-replace :
    (es es' : Entries) (p q : Ptr) (xs rest rest' : List Ptr)
    → ((x : Ptr) → has x xs ≡ true → (es' x).next ≡ (es x).next)
    → ((r : Ptr) → Walk es r (q ∷ rest) → Walk es' r (q ∷ rest'))
    → Walk es p (xs ++ q ∷ rest)
    → Walk es' p (xs ++ q ∷ rest')
Walk-replace es es' p q [] rest rest' same tail h = tail p h
Walk-replace es es' p q (x ∷ xs) rest rest' same tail (e, h) = (
  e,
  subst (λ r. Walk es' r (xs ++ q ∷ rest')) (sym (same x (ground arith)))
      (Walk-replace es es' (es x).next q xs rest rest' (λ y i. same y (ground (arith, i))) tail h),
)

Walk-starts :
    (es : Entries) (p q : Ptr) (xs rest : List Ptr)
    → Walk es p (xs ++ q ∷ rest)
    → has p (xs ++ q ∷ []) ≡ true
Walk-starts es p q [] rest (e, h) = ground (arith, e)
Walk-starts es p q (x ∷ xs) rest (e, h) = ground (arith, e)

-- Two items put into a list of two or more through any of its items `c`: the first one put in is
-- not met on the walk from the start of the list any more, which goes from `before` to the second
-- one, `b`, and from there to the last item.
pub insert-forgets :
    (es : Entries) (start before last c a b : Ptr) (xs : List Ptr)
    → Walk es start (xs ++ before ∷ last ∷ [])
    → has before xs ≡ false
    → has last (xs ++ before ∷ []) ≡ false
    → (es last).prev ≡ before
    → has c (xs ++ before ∷ last ∷ []) ≡ true
    → (es c).start ≡ start
    → (es c).end ≡ last
    → has a (xs ++ before ∷ last ∷ []) ≡ false
    → has b (xs ++ before ∷ last ∷ []) ≡ false
    → a ≢ b
    → let es' = insert (insert es c a) c b in
      Walk es' start (xs ++ before ∷ b ∷ last ∷ []) × (has a (xs ++ before ∷ b ∷ last ∷ []) ≡ false)
insert-forgets es start before last c a b xs walk nb nl back ic sc ec na nb' ab =
    let items = xs ++ before ∷ last ∷ [] in
    let es' = insert (insert es c a) c b in
    let last_in : has last items ≡ true = ground (arith, has-append last xs (before ∷ last ∷ [])) in
    let before_in : has before items ≡ true =
      ground (arith, has-append before xs (before ∷ last ∷ [])) in
    let before_first : has before (xs ++ before ∷ []) ≡ true =
      ground (arith, has-append before xs (before ∷ [])) in
    let start_ne =
      ne_of_has start last (xs ++ before ∷ []) (Walk-starts es start before xs (last ∷ []) walk)
        nl in
    let in_items : (x : Ptr) → has x xs ≡ true → has x items ≡ true =
      λ x i. ground (arith, i, has-append x xs (before ∷ last ∷ [])) in
    let (n₁, n₂, n₃, others) =
      insert-twice es before last c a b (λ e. start_ne (sym sc ∙ e)) ec back
        (λ e. ne_of_has last a items last_in na (sym e)) (λ e. ne_of_has c a items ic na (sym e))
        (λ e. ne_of_has before b items before_in nb' (sym e))
        (λ e. ne_of_has last b items last_in nb' (sym e))
        (λ e. ne_of_has before last (xs ++ before ∷ []) before_first nl (sym e)) in
    (
      Walk-replace es es' start before xs (last ∷ []) (b ∷ last ∷ [])
          (λ x i.
            others x (ne_of_has x before xs i nb) (ne_of_has x a items (in_items x i) na)
              (ne_of_has x b items (in_items x i) nb'))
          (λ r h. (h.0, (n₁, (n₂, n₃ ∙ h.1.1)))) walk,
      ground (
        arith,
        ab,
        na,
        has-append a xs (before ∷ b ∷ last ∷ []),
        has-append a xs (before ∷ last ∷ []),
      ),
    )
