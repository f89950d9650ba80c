-- ===== src/Kernel/Heap/Split.antt =====
-- split_header of core/kernel/heap.c.
use cenix.Base.{
  ℕ, ◌+◌, ◌-◌, ◌^◌, ◌≤◌, ◌<◌, Ptr, null, ◌≡◌, refl, sym, ap, ◌∙◌, ◌≢◌, ◌⊎◌, inl, inr, true, false,
  List, [], ◌∷◌, arith, ◌==◌, if◌then◌else◌, has, Bool-cases, ==-refl, subst,
}
use cenix.Kernel.State.{Kind, at}
use cenix.Kernel.Heap.{
  Heap, Header, header_size, minus, too_small, link_back, split_headers, split_header,
}
use cenix.Kernel.Heap.Tiled.{Tiled, frame-Tiled, start-le, next-above, size-le}

-- The blocks with the new one after `h`.
abbrev pub with_new : Ptr → Ptr → List Ptr → List Ptr
with_new h new [] = []
with_new h new (b ∷ bs) = if b == h then b ∷ new ∷ bs else b ∷ with_new h new bs

module _ (hs : Ptr → Header) (h cut : ℕ) where
  -- Addresses that split_header does not write to.
  split_headers-elsewhere :
      (a : Ptr)
      → a ≢ h
      → a ≢ h + cut
      → ((hs h).next ≡ null) ⊎ (a ≢ (hs h).next)
      → split_headers hs h cut a ≡ hs a
  unfolding split_headers
  split_headers-elsewhere a na nn (inl e) = ground arith
  split_headers-elsewhere a na nn (inr ne) = ground arith

link_back-other :
    (hs : Ptr → Header) (next p a : Ptr) → (next ≡ null) ⊎ (a ≢ next) → link_back hs next p a ≡ hs a
link_back-other hs next p a (inl e) = ground arith
link_back-other hs next p a (inr ne) = ground arith

link_back-there :
    (hs : Ptr → Header) (next p : Ptr)
    → next ≢ null
    → link_back hs next p next ≡ record (hs next) { prev = p }
link_back-there hs next p ne =
    let there : (next == null) ≡ false = ground arith in rw (there, ==-refl next) refl

module _ (hs : Ptr → Header) (h cut : ℕ)
    (above : ((hs h).next ≡ null) ⊎ (h + (hs h).size ≡ (hs h).next)) (room : header_size < cut)
    (fits : cut + header_size < (hs h).size) (small : (hs h).size < 2 ^ 32) where
  abbrev new_header : Header
  new_header = record {
    size = (hs h).size - cut;
    kind = Kind.available;
    old_kind = Kind.available;
    next = (hs h).next;
    prev = h;
  }

  not-next : (a : Ptr) → a < h + (hs h).size → ((hs h).next ≡ null) ⊎ (a ≢ (hs h).next)
  not-next a l = elim above [ inl e ↦ inl e | inr e ↦ inr (λ q. absurd (omega (arith, e, q))) ]

  cut-size : minus (hs h).size cut ≡ (hs h).size - cut
  cut-size = omega arith

  other : (h + cut == h) ≡ false
  other = ground arith

  other' : (h == h + cut) ≡ false
  other' = ground arith

  -- The headers before the old one is cut.
  abbrev between : Ptr → Header
  between = at hs (h + cut) (record new_header { size = minus (hs h).size cut })

  split_headers-old : split_headers hs h cut h ≡ record (hs h) { size = cut; next = h + cut }
  unfolding split_headers
  split_headers-old =
      let as_before : between h ≡ hs h = rw other' refl in
      let kept : link_back between (hs h).next (h + cut) h ≡ hs h =
        link_back-other between (hs h).next (h + cut) h (not-next h (omega arith)) ∙ as_before in
      rw (==-refl h, kept) refl

  split_headers-new : split_headers hs h cut (h + cut) ≡ new_header
  unfolding split_headers
  split_headers-new = rw other (
      link_back-other between (hs h).next (h + cut) (h + cut) (not-next (h + cut) (omega arith))
      ∙ rw (==-refl (h + cut), cut-size) refl)

  split_headers-next :
      (hs h).next ≢ null
      → split_headers hs h cut (hs h).next ≡ record (hs (hs h).next) { prev = h + cut }
  unfolding split_headers
  split_headers-next ne =
      let not_h : ((hs h).next == h) ≡ false = after h (omega arith) in
      let not_new : ((hs h).next == h + cut) ≡ false = after (h + cut) (omega arith) in
      let as_before : between (hs h).next ≡ hs (hs h).next = rw not_new refl in
      rw not_h (
        link_back-there between (hs h).next (h + cut) ne
        ∙ ap (λ (v : Header). record v { prev = h + cut }) as_before)
    where
      after : (a : Ptr) → a < h + (hs h).size → ((hs h).next == a) ≡ false
      after a l = elim (not-next a l) [ inl e ↦ absurd (ne e) | inr n ↦ ground arith ]

  -- The new block and the rest of the list.
  split-rest :
      (limit : ℕ) (bs : List Ptr)
      → 0 < h
      → Tiled hs h (hs h).next (h + (hs h).size) limit bs
      → Tiled (split_headers hs h cut) h (h + cut) (h + cut) limit ((h + cut) ∷ bs)
  split-rest limit bs nz t =
      rw split_headers-new (refl, refl, omega arith, omega arith, refl, rest bs t)
    where
      rest :
          (bs : List Ptr)
          → Tiled hs h (hs h).next (h + (hs h).size) limit bs
          → Tiled
              (split_headers hs h cut)
              (h + cut)
              (hs h).next
              (h + cut + ((hs h).size - cut))
              limit
              bs
      rest [] (e, l) = (e, omega (arith, l))
      rest (c ∷ cs) (e, s, cz, big, back, t) =
          let ne : (hs h).next ≢ null = ground arith in
          let at_c : split_headers hs h cut c ≡ record (hs c) { prev = h + cut } =
            subst (λ z. split_headers hs h cut z ≡ record (hs z) { prev = h + cut }) e
              (split_headers-next ne) in
          rw at_c (
            e,
            omega (arith, s),
            cz,
            big,
            refl,
            frame-Tiled hs (split_headers hs h cut) c (hs c).next (c + (hs c).size) limit cs
                (λ a l.
                  split_headers-elsewhere hs h cut a (omega (arith, s, big)) (omega (arith, s, big))
                    (inr (omega (arith, s, e, big))))
                t,
          )

  -- A split in a list of blocks that fill the memory.
  split-Tiled :
      (before p start limit : ℕ) (bs : List Ptr)
      → has h bs ≡ true
      → Tiled hs before p start limit bs
      → Tiled (split_headers hs h cut) before p start limit (with_new h (h + cut) bs)
  split-Tiled before p start limit [] i t = cc
  split-Tiled before p start limit (b ∷ bs) i (e, s, nz, big, back, t) =
      elim (Bool-cases (b == h)) [
        | inl hit ↦
            let b_h : b ≡ h = ground arith in
            rw hit (
              subst (λ z. Tiled (split_headers hs h cut) before p start limit (z ∷ (h + cut) ∷ bs))
                (sym b_h)
                (here before p start limit bs (
                  subst (λ z. Tiled hs before p start limit (z ∷ bs)) b_h
                    (e, s, nz, big, back, t))))
        | inr miss ↦
            let i' : has h bs ≡ true = ground (arith, i) in
            let below : b + (hs b).size ≤ h =
              start-le hs b (hs b).next (b + (hs b).size) limit h bs i' t in
            let at_b : split_headers hs h cut b ≡ hs b =
              split_headers-elsewhere hs h cut b (omega (arith, below, big))
                (omega (arith, below, big)) (not-next b (omega (arith, below, big))) in
            rw (miss, at_b)
              (e, s, nz, big, back, split-Tiled b (hs b).next (b + (hs b).size) limit bs i' t)
      ]
    where
      here :
          (before p start limit : ℕ) (bs : List Ptr)
          → Tiled hs before p start limit (h ∷ bs)
          → Tiled (split_headers hs h cut) before p start limit (h ∷ (h + cut) ∷ bs)
      here before p start limit bs (e, s, nz, big, back, t) =
          rw split_headers-old (e, s, nz, omega (arith, room), back, split-rest limit bs nz t)

-- On blocks that fill the memory from `start` to `limit`, split_header either reports that it did
-- nothing, and changes nothing, or it puts a new block after the one that it cuts, and the blocks
-- fill the memory as before.
pub split_header-Tiled :
    (heap : Heap) (before p start limit h cut : ℕ) (bs : List Ptr)
    → has h bs ≡ true
    → (heap.headers h).size < 2 ^ 32
    → Tiled heap.headers before p start limit bs
    → let (done, heap') = split_header heap h cut in
      ((done ≡ false) × (heap' ≡ heap))
      ⊎ ((done ≡ true)
          × (header_size < cut)
          × (cut + header_size < (heap.headers h).size)
          × Tiled heap'.headers before p start limit (with_new h (h + cut) bs))
unfolding split_header
split_header-Tiled heap before p start limit h cut bs i small t =
    elim (Bool-cases (too_small (heap.headers h) cut)) [
      | inl e ↦ rw e (inl (refl, refl))
      | inr e ↦
          let big : header_size ≤ (heap.headers h).size =
            size-le heap.headers before p start limit h bs i t in
          let room : header_size < cut = ground (arith, e) in
          let fits : cut + header_size < (heap.headers h).size = ground (arith, e, big) in
          rw e (
            inr (
              refl,
              room,
              fits,
              split-Tiled heap.headers h cut (next-above heap.headers before p start limit h bs i t)
                  room fits small before p start limit bs i t,
            ))
    ]
