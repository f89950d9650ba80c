-- ===== src/Kernel/Heap/Tiled.antt =====
-- What a correct block list of the heap is: the blocks lie side by side in memory.
use cenix.Base.{
  ℕ, ◌+◌, ◌≤◌, ◌<◌, Ptr, null, ◌≡◌, ◌⊎◌, inl, inr, true, List, [], ◌∷◌, arith, has, ◌==◌,
  Bool-cases, sym, subst, ◌∙◌,
}
use cenix.Kernel.Heap.{Header, header_size}

-- From `p`, which is linked back to `before`, the blocks `bs` fill the memory from `start` to
-- `limit`, each with room for its header.
abbrev pub Tiled : (Ptr → Header) → Ptr → Ptr → ℕ → ℕ → List Ptr → Type 0
Tiled hs before p start limit [] = (p ≡ null) × (start ≡ limit)
Tiled hs before p start limit (b ∷ bs) =
    (p ≡ b)
    × (b ≡ start)
    × (0 < b)
    × (header_size ≤ (hs b).size)
    × ((hs b).prev ≡ before)
    × Tiled hs b (hs b).next (b + (hs b).size) limit bs

-- Only the headers from the start on matter.
pub frame-Tiled :
    (hs hs' : Ptr → Header) (before p start limit : ℕ) (bs : List Ptr)
    → ((a : Ptr) → start ≤ a → hs' a ≡ hs a)
    → Tiled hs before p start limit bs
    → Tiled hs' before p start limit bs
frame-Tiled hs hs' before p start limit [] same t = t
frame-Tiled hs hs' before p start limit (b ∷ bs) same (e, s, nz, room, back, t) =
    rw (same b (omega arith)) (
      e,
      s,
      nz,
      room,
      back,
      frame-Tiled hs hs' b (hs b).next (b + (hs b).size) limit bs (λ a l. same a (omega arith)) t,
    )

-- A block of the list is not below its start.
pub start-le :
    (hs : Ptr → Header) (before p start limit h : ℕ) (bs : List Ptr)
    → has h bs ≡ true
    → Tiled hs before p start limit bs
    → start ≤ h
start-le hs before p start limit h [] i t = cc
start-le hs before p start limit h (b ∷ bs) i (e, s, nz, room, back, t) =
    ground (arith, start-le hs b (hs b).next (b + (hs b).size) limit h bs)

-- The block after a block of the list lies above it.
pub next-above :
    (hs : Ptr → Header) (before p start limit h : ℕ) (bs : List Ptr)
    → has h bs ≡ true
    → Tiled hs before p start limit bs
    → ((hs h).next ≡ null) ⊎ (h + (hs h).size ≡ (hs h).next)
next-above hs before p start limit h [] i t = cc
next-above hs before p start limit h (b ∷ []) i (e, s, nz, room, back, t) = ground (arith, t.0)
next-above hs before p start limit h (b ∷ c ∷ cs) i (e, s, nz, room, back, t) =
    elim (Bool-cases (h == b)) [
      | inl hit ↦ let h_b : h ≡ b = ground arith in inr (rw h_b (sym (t.0 ∙ t.1)))
      | inr miss ↦
          next-above hs b (hs b).next (b + (hs b).size) limit h (c ∷ cs) (ground (arith, i)) t
    ]

-- Every block has room for its header.
pub size-le :
    (hs : Ptr → Header) (before p start limit h : ℕ) (bs : List Ptr)
    → has h bs ≡ true
    → Tiled hs before p start limit bs
    → header_size ≤ (hs h).size
size-le hs before p start limit h [] i t = cc
size-le hs before p start limit h (b ∷ bs) i (e, s, nz, room, back, t) =
    elim (Bool-cases (h == b)) [
      | inl hit ↦
          let h_b : h ≡ b = ground arith in subst (λ z. header_size ≤ (hs z).size) (sym h_b) room
      | inr miss ↦ size-le hs b (hs b).next (b + (hs b).size) limit h bs (ground (arith, i)) t
    ]
