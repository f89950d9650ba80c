-- ===== src/Kernel/Threads/Ids.antt =====
-- The bitmap of thread ids: what alloc_thread and thread_destructor of core/kernel/threads.c do
-- with it.
use cenix.Base.{
  ℕ, zero, suc, ◌+◌, ◌-◌, ◌*◌, ◌/◌, ◌%◌, ◌^◌, ◌≤◌, ◌<◌, ◌≡◌, refl, sym, ap, subst, ◌∙◌, ◌⊎◌, inl,
  inr, Bool, true, false, Option, none, some, List, [], ◌∷◌, arith, ◌==◌, ltb, if◌then◌else◌,
  length, get_or, Bool-cases, get_or-set_self, get_or-set_ne,
}
use cenix.Base.Bits.{
  test_bit, set_bit, clear_bit, all_bits, all_ones, set_bit-lt, test_bit-set_bit,
  test_bit-clear_bit, clear_bit-set_bit,
}
use cenix.Kernel.Threads.{ptr_bits, size_max, first_clear, alloc_id, release_id}

-- Whether the bitmap marks `id` as used.
abbrev pub used : List ℕ → ℕ → Bool
used ws id = test_bit (get_or ws (id / ptr_bits) 0) (id % ptr_bits)

abbrev pub IsWords : List ℕ → Type 0
IsWords [] = Unit
IsWords (w ∷ ws) = (w < 2 ^ ptr_bits) × IsWords ws

-- The id `id` can be handed out of the bitmap `ws`, which leaves `ws'`.
pub record Fresh (ws : List ℕ) (id : ℕ) (ws' : List ℕ) : Type 0 where
  pub free : used ws id ≡ false
  pub lowest : (j : ℕ) → j < id → used ws j ≡ true
  pub bounded : id < length ws * ptr_bits
  pub marked : (j : ℕ) → used ws' j ≡ (if j == id then true else used ws j)
  pub words : IsWords ws'
  pub undone : release_id ws' id ≡ ws

index_here : (k : ℕ) → k < ptr_bits → (k / ptr_bits ≡ 0) × (k % ptr_bits ≡ k)
index_here k h = (omega arith, omega arith)

index_later :
    (k : ℕ)
    → ((ptr_bits + k) / ptr_bits ≡ suc (k / ptr_bits)) × ((ptr_bits + k) % ptr_bits ≡ k % ptr_bits)
index_later k = (omega arith, omega arith)

used-here : (w : ℕ) (ws : List ℕ) (k : ℕ) → k < ptr_bits → used (w ∷ ws) k ≡ test_bit w k
used-here w ws k h = rw ((index_here k h).0, (index_here k h).1)

used-later : (w : ℕ) (ws : List ℕ) (k : ℕ) → used (w ∷ ws) (ptr_bits + k) ≡ used ws k
used-later w ws k = rw ((index_later k).0, (index_later k).1)

-- An id is in the first word or in a later one.
word_cases : (j : ℕ) → (j < ptr_bits) ⊎ ((k : ℕ) × (j ≡ ptr_bits + k))
word_cases j = elim (Bool-cases (ltb j ptr_bits)) [
  | inl e ↦ inl (ground arith)
  | inr e ↦ inr (j - ptr_bits, ground arith)
]

bits_to_suc :
    (w bit : ℕ)
    → ((i : ℕ) → i < bit → test_bit w i ≡ true)
    → test_bit w bit ≡ true
    → (i : ℕ) → i < suc bit
    → test_bit w i ≡ true
bits_to_suc w bit h e i l = elim (Bool-cases (i == bit)) [
  | inl same ↦ ground (arith, e)
  | inr other ↦ h i (ground arith)
]

first_clear-lem :
    (n bit w : ℕ)
    → ((i : ℕ) → i < bit → test_bit w i ≡ true)
    → let b = first_clear n bit w in
      ((i : ℕ) → i < b → test_bit w i ≡ true) × (b ≤ bit + n) × (b < bit + n → test_bit w b ≡ false)
unfolding first_clear
first_clear-lem zero bit w h = (h, omega arith, λ l. absurd (omega arith))
first_clear-lem (suc n) bit w h = elim (Bool-cases (test_bit w bit)) [
  | inl e ↦
      let (below, bound, clear) = first_clear-lem n (suc bit) w (bits_to_suc w bit h e) in
      rw e (below, omega (arith, bound), λ l. clear (omega arith))
  | inr e ↦ rw e (h, omega arith, λ l. e)
]

-- In a word that is not full, the search stops at a bit that is clear.
pub first_clear-lt :
    (w : ℕ)
    → w < 2 ^ ptr_bits
    → (w == size_max) ≡ false
    → let b = first_clear ptr_bits 0 w in
      (b < ptr_bits) × (test_bit w b ≡ false) × ((i : ℕ) → i < b → test_bit w i ≡ true)
first_clear-lt w h e =
    let (below, bound, clear) = first_clear-lem ptr_bits 0 w (λ i l. absurd (omega arith)) in
    elim (Bool-cases (ltb (first_clear ptr_bits 0 w) ptr_bits)) [
      | inl l ↦ (ground arith, clear (ground arith), below)
      | inr l ↦ absurd (ground (arith, all_bits ptr_bits w h (λ i li. below i (ground arith))))
    ]

full_word : (w : ℕ) (ws : List ℕ) (j : ℕ) → w ≡ size_max → j < ptr_bits → used (w ∷ ws) j ≡ true
full_word w ws j e h = used-here w ws j h ∙ all_ones ptr_bits w j (omega arith) h

-- The words of a bitmap whose first word is full.
skip-Fresh :
    (w : ℕ) (ws : List ℕ) (id : ℕ) (ws' : List ℕ)
    → w ≡ size_max
    → Fresh ws id ws'
    → Fresh (w ∷ ws) (ptr_bits + id) (w ∷ ws')
unfolding release_id
skip-Fresh w ws id ws' e f = record {
  free = used-later w ws id ∙ f.free;
  lowest = λ j l. elim (word_cases j) [
    | inl h ↦ full_word w ws j e h
    | inr (m, em) ↦
        subst (λ t. used (w ∷ ws) t ≡ true) (sym em) (used-later w ws m ∙ f.lowest m (omega arith))
  ];
  bounded = omega (arith, f.bounded);
  marked = λ j. elim (word_cases j) [
    | inl h ↦ ground (arith, used-here w ws' j h, used-here w ws j h)
    | inr (m, em) ↦
        subst (λ t. used (w ∷ ws') t ≡ (if t == ptr_bits + id then true else used (w ∷ ws) t))
          (sym em) (ground (arith, used-later w ws' m, used-later w ws m, f.marked m))
  ];
  words = (omega arith, f.words);
  undone = rw ((index_later id).0, (index_later id).1) (ap (λ t. w ∷ t) f.undone);
}

take-Fresh :
    (w : ℕ) (ws : List ℕ) (b : ℕ)
    → IsWords (w ∷ ws)
    → b < ptr_bits
    → test_bit w b ≡ false
    → ((i : ℕ) → i < b → test_bit w i ≡ true)
    → Fresh (w ∷ ws) b (set_bit w b ∷ ws)
unfolding release_id
take-Fresh w ws b (hw, hws) l clear below = record {
  free = used-here w ws b l ∙ clear;
  lowest = λ j lj. used-here w ws j (omega arith) ∙ below j lj;
  bounded = omega arith;
  marked = λ j. elim (word_cases j) [
    | inl h ↦
        ground (arith, used-here (set_bit w b) ws j h, used-here w ws j h, test_bit-set_bit w b j)
    | inr (m, em) ↦
        subst (λ t. used (set_bit w b ∷ ws) t ≡ (if t == b then true else used (w ∷ ws) t)) (sym em)
          (ground (arith, used-later (set_bit w b) ws m, used-later w ws m))
  ];
  words = (set_bit-lt ptr_bits w b l hw, hws);
  undone = rw ((index_here b l).0, (index_here b l).1, clear_bit-set_bit w b clear);
}

-- The outcome of the search for an id: none, if all ids are in use.
pub data Search (ws : List ℕ) (i : ℕ) : Option (ℕ × List ℕ) → Type 0 where
  full : ((j : ℕ) → j < length ws * ptr_bits → used ws j ≡ true) → Search ws i none
  found :
      (n id : ℕ) (ws' : List ℕ)
      → n ≡ i * ptr_bits + id
      → Fresh ws id ws'
      → Search ws i (some (n, ws'))

-- From any word of the bitmap on, the search of alloc_thread for an id ends in one of two ways.
-- Either every id is in use and there is none, or it yields the lowest id that is free, as a
-- number below the number of ids, with the bitmap in which that id alone is marked afresh; to
-- release the id gives the bitmap from before back.
pub alloc_id-Search : (ws : List ℕ) (i : ℕ) → IsWords ws → Search ws i (alloc_id ws i)
unfolding alloc_id
alloc_id-Search [] i h = full (λ j l. absurd (omega arith))
alloc_id-Search (w ∷ ws) i h = elim (Bool-cases (w == size_max)) [
  | inl e ↦
      rw e
        (skip-Search w ws i (ground arith) (alloc_id ws (suc i)) (alloc_id-Search ws (suc i) h.1))
  | inr e ↦
      let (l, clear, below) = first_clear-lt w h.0 e in
      rw e (
        found _ (first_clear ptr_bits 0 w) _ refl
          (take-Fresh w ws (first_clear ptr_bits 0 w) h l clear below))
]
  where
    skip-Search :
        (w : ℕ) (ws : List ℕ) (i : ℕ)
        → w ≡ size_max
        → (o : Option (ℕ × List ℕ)) → Search ws (suc i) o
        → Search (w ∷ ws) i (elim o [ none ↦ none | some (id, ws') ↦ some (id, w ∷ ws') ])
    skip-Search w ws i e none (full f) = full (λ j l. elim (word_cases j) [
      | inl h ↦ full_word w ws j e h
      | inr (m, em) ↦
          subst (λ t. used (w ∷ ws) t ≡ true) (sym em) (used-later w ws m ∙ f m (omega arith))
    ])
    skip-Search w ws i e _ (found n id ws' en f) =
        found n (ptr_bits + id) (w ∷ ws') (omega arith) (skip-Fresh w ws id ws' e f)

-- Releasing an id of the bitmap marks it as free, and no other id.
pub used-release_id :
    (ws : List ℕ) (id j : ℕ)
    → id < length ws * ptr_bits
    → used (release_id ws id) j ≡ (if j == id then false else used ws j)
unfolding release_id
used-release_id ws id j h =
    let w = get_or ws (id / ptr_bits) 0 in
    let v = clear_bit w (id % ptr_bits) in
    elim (Bool-cases (id / ptr_bits == j / ptr_bits)) [
      | inl e ↦
          let same : id / ptr_bits ≡ j / ptr_bits = ground arith in
          rw
            (
              sym same,
              get_or-set_self ws (id / ptr_bits) v 0 (omega arith),
              test_bit-clear_bit w (id % ptr_bits) (j % ptr_bits),
            )
            (ground arith)
      | inr e ↦
          rw (get_or-set_ne ws (id / ptr_bits) (j / ptr_bits) v 0 (λ q. ground arith))
            (ground arith)
    ]

test_bit-zero : (i : ℕ) → test_bit 0 i ≡ false
unfolding test_bit
test_bit-zero zero = refl
test_bit-zero (suc i) = test_bit-zero i

get_or-out : (ws : List ℕ) (i : ℕ) → length ws ≤ i → get_or ws i 0 ≡ 0
get_or-out [] i h = refl
get_or-out (w ∷ ws) zero h = absurd (omega arith)
get_or-out (w ∷ ws) (suc i) h = get_or-out ws i (omega arith)

-- Only ids of the bitmap are in use.
pub used-lt : (ws : List ℕ) (id : ℕ) → used ws id ≡ true → id < length ws * ptr_bits
used-lt ws id h = elim (Bool-cases (ltb (id / ptr_bits) (length ws))) [
  | inl l ↦ ground arith
  | inr l ↦
      let out : get_or ws (id / ptr_bits) 0 ≡ 0 = get_or-out ws (id / ptr_bits) (ground arith) in
      let none_set : used ws id ≡ false = rw out (test_bit-zero (id % ptr_bits)) in
      absurd (ground (arith, none_set, h))
]
