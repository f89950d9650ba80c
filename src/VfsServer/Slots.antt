-- ===== src/VfsServer/Slots.antt =====
-- The bitset of used slots of core/vfs_server/structures.c, as words in memory.
use cenix.Base.{
  ℕ, zero, suc, ◌+◌, ◌*◌, ◌/◌, ◌%◌, ◌^◌, ◌≤◌, ◌<◌, ◌≡◌, ◌≢◌, refl, sym, ap, subst, ◌∙◌, inl, inr,
  Ptr, null, true, false, Option, none, some, List, [], ◌∷◌, arith, ◌==◌, length, get_or, set, ltb,
  Bool-cases,
}
use cenix.Base.Bits.{test_bit, set_bit}
use cenix.Base.Memory.{offset-lt}
use cenix.Kernel.State.{at}
use cenix.Kernel.Threads.{ptr_bits, size_max, first_clear, alloc_id, release_id}
use cenix.Kernel.Threads.Ids.{
  used, IsWords, Fresh, Search, full, found, first_clear-lt, alloc_id-Search,
}
use cenix.VfsServer.{
  World, System, Call, search_words, clear_slot, syscall_invoke, use_slot, find_slot_for,
}

-- The words `ws` lie at `p`.
abbrev pub Words : (ℕ → ℕ) → Ptr → List ℕ → Type 0
Words m p [] = Unit
Words m p (w ∷ ws) = (m p ≡ w) × Words m (4 + p) ws

-- The `n` words at `p` are the same in both memories.
abbrev pub Same : Ptr → ℕ → (ℕ → ℕ) → (ℕ → ℕ) → Type 0
Same p n m m' = (j : ℕ) → j < n → m' (p + 4 * j) ≡ m (p + 4 * j)

Same-next : (p n : ℕ) (m m' : ℕ → ℕ) → Same p (suc n) m m' → Same (4 + p) n m m'
Same-next p n m m' s j l = subst (λ q. m' q ≡ m q) (omega arith) (s (suc j) (omega arith))

Words-Same :
    (m m' : ℕ → ℕ) (p : ℕ) (ws : List ℕ) → Same p (length ws) m m' → Words m p ws → Words m' p ws
Words-Same m m' p [] s h = tt
Words-Same m m' p (w ∷ ws) s (e, h) = (
  subst (λ q. m' q ≡ m q) (omega arith) (s 0 (omega arith)) ∙ e,
  Words-Same m m' (4 + p) ws (Same-next p (length ws) m m' s) h,
)

Words-get :
    (m : ℕ → ℕ) (p : ℕ) (ws : List ℕ) (j : ℕ)
    → Words m p ws
    → j < length ws
    → m (p + 4 * j) ≡ get_or ws j 0
Words-get m p [] j h l = absurd (omega arith)
Words-get m p (w ∷ ws) zero (e, h) l = subst (λ q. m q ≡ w) (omega arith) e
Words-get m p (w ∷ ws) (suc j) (e, h) l =
    subst (λ q. m q ≡ get_or ws j 0) (omega arith) (Words-get m (4 + p) ws j h (omega arith))

-- A write before the words, or at one of them.
Words-before : (m : ℕ → ℕ) (p q v : ℕ) (ws : List ℕ) → q < p → Words m p ws → Words (at m q v) p ws
Words-before m p q v [] l h = tt
Words-before m p q v (w ∷ ws) l (e, h) =
    (ground (arith, e), Words-before m (4 + p) q v ws (omega arith) h)

Words-set :
    (m : ℕ → ℕ) (p v : ℕ) (ws : List ℕ) (j : ℕ)
    → Words m p ws
    → j < length ws
    → Words (at m (p + 4 * j) v) p (set ws j v)
Words-set m p v [] j h l = absurd (omega arith)
Words-set m p v (w ∷ ws) zero (e, h) l =
    (ground arith, Words-before m (4 + p) (p + 4 * 0) v ws (omega arith) h)
Words-set m p v (w ∷ ws) (suc j) (e, h) l = (
  ground (arith, e),
  subst (λ q. Words (at m q v) (4 + p) (set ws j v)) (omega arith)
      (Words-set m (4 + p) v ws j h (omega arith)),
)

-- Clearing the bit of a slot in memory is what release_id does on the words.
pub clear_slot-release_id :
    (m : ℕ → ℕ) (p id : ℕ) (ws : List ℕ)
    → Words m p ws
    → id < length ws * ptr_bits
    → p + 4 * length ws < 2 ^ 32
    → Words (clear_slot m p id) p (release_id ws id)
unfolding clear_slot release_id
clear_slot-release_id m p id ws h l b =
    let j = id / ptr_bits in
    let e = Words-get m p ws j h (omega arith) in
    rw (offset-lt p (4 * j) (omega arith), e) (Words-set m p _ ws j h (omega arith))

-- What the search in memory leaves, against the search in the list of words.
data Searched (m : ℕ → ℕ) (p i : ℕ) (ws : List ℕ)
    : Option (ℕ × List ℕ) → ℕ × Ptr × (ℕ → ℕ) → Type 0 where
  all_used : (q : Ptr) → Searched m p i ws none (0, q, m)
  taken :
      (id j : ℕ) (ws' : List ℕ) (q : Ptr) (m' : ℕ → ℕ)
      → q ≡ p + 4 * j
      → id / ptr_bits ≡ i + j
      → j < length ws
      → length ws' ≡ length ws
      → Words m' p ws'
      → ((a : ℕ) → a < p → m' a ≡ m a)
      → Searched m p i ws (some (id, ws')) (id, q, m')

Searched-skip :
    (m : ℕ → ℕ) (p i w : ℕ) (ws : List ℕ) (o : Option (ℕ × List ℕ)) (r : ℕ × Ptr × (ℕ → ℕ))
    → m p ≡ w
    → Searched m (4 + p) (suc i) ws o r
    → Searched m p i (w ∷ ws) (elim o [ none ↦ none | some (id, ws') ↦ some (id, w ∷ ws') ]) r
Searched-skip m p i w ws _ _ e (all_used q) = all_used q
Searched-skip m p i w ws _ _ e (taken id j ws' q m' eq ei l el h before) =
    taken id (suc j) (w ∷ ws') q m' (omega arith) (omega arith) (omega arith) (omega arith)
      (before p (omega arith) ∙ e, h) (λ a la. before a (omega arith))

Searched-here :
    (m : ℕ → ℕ) (p i w bit : ℕ) (ws : List ℕ)
    → bit < ptr_bits
    → Words m (4 + p) ws
    → Searched m p i
        (w ∷ ws)
        (some (i * ptr_bits + bit, set_bit w bit ∷ ws))
        (i * ptr_bits + bit, p, at m p (set_bit w bit))
Searched-here m p i w bit ws l h =
    taken _ 0 _ p _ (omega arith) (omega arith) (omega arith) refl
      (ground arith, Words-before m (4 + p) p (set_bit w bit) ws (omega arith) h)
      (λ a la. ground arith)

search_words-alloc_id :
    (m : ℕ → ℕ) (p i : ℕ) (ws : List ℕ)
    → IsWords ws
    → Words m p ws
    → p + 4 * length ws < 2 ^ 32
    → Searched m p i ws (alloc_id ws i) (search_words m (length ws) p i)
unfolding search_words alloc_id
search_words-alloc_id m p i [] hw h b = all_used p
search_words-alloc_id m p i (w ∷ ws) hw (e, h) b = elim (Bool-cases (w == size_max)) [
  | inl f ↦
      rw (e, f, offset-lt p 4 (omega arith))
        (Searched-skip m p i w ws (alloc_id ws (suc i)) _ e (
          subst
            (λ q.
              Searched m (4 + p) (suc i) ws (alloc_id ws (suc i))
                (search_words m (length ws) q (suc i)))
            (omega arith) (search_words-alloc_id m (4 + p) (suc i) ws hw.1 h (omega arith))))
  | inr f ↦
      rw (e, f) (Searched-here m p i w (first_clear ptr_bits 0 w) ws (first_clear-lt w hw.0 f).0 h)
]

-- What find_slot_for may count on: at the address where the kernel locks the bitset lie the words
-- `ws`, as many as it has items for, and neither the callback nor the unlocking changes them.
pub record IsBitset (system : System) (w : World) (slots max_items : ℕ) (fn : ℕ → World → ℕ × World)
    (p : Ptr) (ws : List ℕ) : Type 0 where
  pub pointer : (system w (Call.lock slots)).0 ≡ p
  pub not_null : p ≢ null
  pub words : Words (system w (Call.lock slots)).1 p ws
  pub are_words : IsWords ws
  pub size : max_items / ptr_bits ≡ length ws
  pub fits : p + 8 * length ws < 2 ^ 32
  pub callback : (id : ℕ) (v : World) → Same p (length ws) v.words (fn id v).1.words
  pub unlocking : (v : World) → Same p (length ws) v.words (system v (Call.unlock slots)).1

-- What find_slot_for does, with `v` where it calls the callback.
pub data Claimed (fn : ℕ → World → ℕ × World) (p : Ptr) (ws : List ℕ) : ℕ × World → Type 0 where
  all_used :
      (v v' : World)
      → ((j : ℕ) → j < length ws * ptr_bits → used ws j ≡ true)
      → Claimed fn p ws ((fn 0 v).0, v')
  claimed :
      (id : ℕ) (ws' : List ℕ) (v v' : World)
      → Fresh ws id ws'
      → Words v.words p ws'
      → (fn id v).0 ≢ size_max
      → Words v'.words p ws'
      → Claimed fn p ws ((fn id v).0, v')
  undone :
      (id : ℕ) (v v' : World)
      → id < ptr_bits
      → used ws id ≡ false
      → (fn id v).0 ≡ size_max
      → Words v'.words p ws
      → Claimed fn p ws ((fn id v).0, v')
  lost :
      (id : ℕ) (v v' : World)
      → ptr_bits ≤ id
      → used ws id ≡ false
      → (fn id v).0 ≡ size_max
      → test_bit (v'.words (p + 4 * (id / ptr_bits))) (id % ptr_bits) ≡ true
      → Claimed fn p ws ((fn id v).0, v')

ne_test : {p : ℕ} → p ≢ null → (p == null) ≡ false
ne_test h = ground (arith, h)

-- The words after the callback and the unlocking.
Same-trans : (p n : ℕ) (m m₁ m₂ : ℕ → ℕ) → Same p n m m₁ → Same p n m₁ m₂ → Same p n m m₂
Same-trans p n m m₁ m₂ s t j l = t j l ∙ s j l

-- A slot of the first word of the bitset, given back.
cleared_first :
    (m : ℕ → ℕ) (p id : ℕ) (ws ws' : List ℕ)
    → Fresh ws id ws'
    → length ws' ≡ length ws
    → Words m p ws'
    → p + 8 * length ws < 2 ^ 32
    → Words (clear_slot m p id) p ws
cleared_first m p id ws ws' f el h b =
    subst (λ t. Words (clear_slot m p id) p t) f.undone
      (clear_slot-release_id m p id ws' h (omega (arith, f.bounded)) (omega arith))

-- A slot of a later word: the bit that is cleared is another one.
cleared_wrong :
    (m : ℕ → ℕ) (p id : ℕ) (ws ws' : List ℕ)
    → Fresh ws id ws'
    → length ws' ≡ length ws
    → Words m p ws'
    → p + 8 * length ws < 2 ^ 32
    → ptr_bits ≤ id
    → test_bit (clear_slot m (p + 4 * (id / ptr_bits)) id (p + 4 * (id / ptr_bits))) (id % ptr_bits)
      ≡ true
unfolding clear_slot
cleared_wrong m p id ws ws' f el h b l =
    let j = id / ptr_bits in
    let lj : j < length ws = omega (arith, f.bounded) in
    let other : ((p + 4 * j) == (p + 4 * j + 4 * j)) ≡ false = ground arith in
    rw (offset-lt (p + 4 * j) (4 * j) (omega arith), other, Words-get m p ws' j h (omega arith))
      (f.marked id ∙ ground arith)

at_first : (p q j n : ℕ) → q ≡ p + 4 * j → n / ptr_bits ≡ 0 + j → ltb n ptr_bits ≡ true → p ≡ q
at_first p q j n eq ei l = ground (arith, eq, ei)

use_slot-Claimed :
    (system : System) (w : World) (slots max_items : ℕ) (fn : ℕ → World → ℕ × World) (p : Ptr)
    (ws : List ℕ) (v : World) (o : Option (ℕ × List ℕ)) (r : ℕ × Ptr × (ℕ → ℕ))
    → IsBitset system w slots max_items fn p ws
    → Search ws 0 o
    → Searched v.words p 0 ws o r
    → Claimed fn p ws (use_slot system slots fn v r)
unfolding use_slot syscall_invoke
use_slot-Claimed system w slots max_items fn p ws v _ _ b (full f) (all_used q) = all_used _ _ f
use_slot-Claimed system w slots max_items fn p ws v _ _ b (found n k ws' en fresh)
      (taken _ j _ q m' eq ei l el h before) =
    let f : Fresh ws n ws' = subst (λ t. Fresh ws t ws') (omega arith) fresh in
    let v₁ : World = record v { words = m' } in
    let v₂ = (fn n v₁).1 in
    let back = λ (x : ℕ → ℕ). λ (s : Same p (length ws) m' x).
      Words-Same m' x p ws' (subst (λ t. Same p t m' x) (sym el) s) h in
    let h₂ = back v₂.words (b.callback n v₁) in
    let after : World → World = λ x. (syscall_invoke system x (Call.unlock slots)).1 in
    let v₃ : World = record v₂ { words = clear_slot v₂.words q n } in
    elim (Bool-cases ((fn n v₁).0 == size_max)) [
      | inl e ↦ rw e (elim (Bool-cases (ltb n ptr_bits)) [
        | inl l₁ ↦ undone n v₁ (after v₃) (ground arith) f.free (ground arith) (
            Words-Same v₃.words (after v₃).words p ws (b.unlocking v₃) (
              subst (λ t. Words (clear_slot v₂.words t n) p ws) (at_first p q j n eq ei l₁)
                (cleared_first v₂.words p n ws ws' f el h₂ b.fits)))
        | inr l₁ ↦ lost n v₁ (after v₃) (ground arith) f.free (ground arith) (
            ap (λ t. test_bit t (n % ptr_bits)) (b.unlocking v₃ (n / ptr_bits) (omega arith))
            ∙ subst
                (λ t.
                  test_bit (clear_slot v₂.words t n (p + 4 * (n / ptr_bits))) (n % ptr_bits) ≡ true)
                (omega arith) (cleared_wrong v₂.words p n ws ws' f el h₂ b.fits (ground arith)))
      ])
      | inr e ↦ rw e (
          claimed n ws' v₁ (after v₂) f h (λ c. absurd (ground (arith, c, e)))
            (back (after v₂).words (
              Same-trans p (length ws) m' v₂.words (after v₂).words (b.callback n v₁)
                (b.unlocking v₂))))
    ]

-- On a bitset in memory, find_slot_for calls the callback with the lowest free slot, which alone is
-- marked afresh by then, or with 0 if all are in use, and answers what the callback does. The slot
-- stays marked if that is no failure. After a failure the bitset is as before if the slot stands in
-- the first word; a slot of a later word stays marked, as the bit of another word is cleared.
pub find_slot_for-Claimed :
    (system : System) (w : World) (slots max_items : ℕ) (fn : ℕ → World → ℕ × World) (p : Ptr)
    (ws : List ℕ)
    → IsBitset system w slots max_items fn p ws
    → Claimed fn p ws (find_slot_for system w slots max_items fn)
unfolding find_slot_for syscall_invoke
find_slot_for-Claimed system w slots max_items fn p ws b =
    rw (b.pointer, b.size, ne_test b.not_null)
      (use_slot-Claimed system w slots max_items fn p ws _ (alloc_id ws 0) _ b
        (alloc_id-Search ws 0 b.are_words)
        (search_words-alloc_id _ p 0 ws b.are_words b.words (omega (arith, b.fits))))
