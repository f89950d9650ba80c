-- ===== src/VfsServer/MountLists/Iterated.antt =====
-- iterate_over_mounted_list of core/vfs_server/mount_lists.c against a walk along the list of the slots
-- that are in use.
use mathlib.Core.Option
use cenix.Base.{
  ℕ, zero, suc, ◌<◌, ◌≡◌, ◌≢◌, refl, ap, inl, inr, Ptr, null, Bool, false, Option, none, some, List,
  [], ◌∷◌, ◌++◌, arith, ◌==◌, if◌then◌else◌, length, Bool-cases, Option-cases,
}
use cenix.Base.Bits.{test_bit}
use cenix.Errors.{enoent}
use cenix.Kernel.Threads.{ptr_bits, size_max}
use cenix.VfsServer.{Call, World, System, syscall_invoke}
use cenix.VfsServer.MountLists.{
  used_slots, create_flagged_slots, next_index, mounted_list_info_address, mounted_list_slot,
  Callback, visit_slots, iterate_over_mounted_list,
}

-- A node of a list: its index, and its masks of used slots and of those with MOUNT_CREATE.
pub record ListNode : Type 0 where
  pub index : ℕ
  pub used : ℕ
  pub create_flagged : ℕ

-- The addresses of the used ones among `n` slots from the slot `i` on, with their flags.
abbrev pub slots_from : ListNode → ℕ → ℕ → List (ℕ × Bool)
slots_from node zero i = []
slots_from node (suc n) i =
    let rest = slots_from node n (suc i) in
    if test_bit node.used i
    then (mounted_list_slot node.index i, test_bit node.create_flagged i) ∷ rest
    else rest

abbrev pub slots : List ListNode → List (ℕ × Bool)
slots [] = []
slots (node ∷ nodes) = slots_from node ptr_bits 0 ++ slots nodes

-- A walk along slots until the callback stops it; `none` if it never does.
abbrev pub walk_slots {ℓ} :
    {D : Type ℓ} → (D → ℕ → Bool → Bool × ℕ × D) → List (ℕ × Bool) → D → Option ℕ × D
walk_slots step [] d = (none, d)
walk_slots step ((address, flagged) ∷ rest) d =
    let (goes_on, result, d') = step d address flagged in
    let later = walk_slots step rest d' in if goes_on then later else (some result, d')

-- The nodes of the list that starts at an index, where the info of each lies at `place`.
abbrev pub IsMountList : (ℕ → Ptr) → (ℕ → ℕ) → ℕ → List ListNode → Type 0
IsMountList place m index [] = index ≡ size_max
IsMountList place m index (node ∷ nodes) =
    (index ≡ node.index)
    × (node.index ≢ size_max)
    × (place node.index ≢ null)
    × (used_slots m (place node.index) ≡ node.used)
    × (create_flagged_slots m (place node.index) ≡ node.create_flagged)
    × IsMountList place m (next_index m (place node.index)) nodes

-- Every list of the one memory is one of the other.
abbrev pub Keeps : (ℕ → Ptr) → (ℕ → ℕ) → (ℕ → ℕ) → Type 0
Keeps place m m' =
    (index : ℕ) (nodes : List ListNode)
    → IsMountList place m index nodes
    → IsMountList place m' index nodes

-- The kernel locks the info of each node at its place, where it stays, and a callback does to its
-- data what `step` does; neither changes a list.
pub record IsWalk {D : Type 0} (system : System) (place : ℕ → Ptr) (fn : Callback D)
    (step : D → ℕ → Bool → Bool × ℕ × D) : Type 0 where
  pub lock : (w : World) (i : ℕ) → (system w (Call.lock (mounted_list_info_address i))).0 ≡ place i
  pub locked :
      (w : World) (i : ℕ)
      → Keeps place w.words (system w (Call.lock (mounted_list_info_address i))).1
  pub unlocked :
      (w : World) (i : ℕ)
      → Keeps place w.words (system w (Call.unlock (mounted_list_info_address i))).1
  pub called :
      (d : D) (address : ℕ) (flagged : Bool) (w : World)
      → (w' : World) × (fn d address flagged w ≡ (
        (step d address flagged).0,
        (step d address flagged).1,
        (step d address flagged).2,
        w',
      ))
        × Keeps place w.words w'.words

ne_test : {p q : ℕ} → p ≢ q → (p == q) ≡ false
ne_test h = ground (arith, h)

module _ {D : Type 0} (step : D → ℕ → Bool → Bool × ℕ × D) where
  walk_slots-append_on :
      (xs ys : List (ℕ × Bool)) (d : D)
      → (walk_slots step xs d).0 ≡ none
      → walk_slots step (xs ++ ys) d ≡ walk_slots step ys (walk_slots step xs d).1
  walk_slots-append_on [] ys d = λ h. refl
  walk_slots-append_on ((address, flagged) ∷ xs) ys d =
      elim (Bool-cases (step d address flagged).0) [
        | inl e ↦ rw e (walk_slots-append_on xs ys (step d address flagged).2)
        | inr e ↦ rw e (λ h. cc)
      ]

  walk_slots-append_stop :
      (xs ys : List (ℕ × Bool)) (d : D) (result : ℕ)
      → (walk_slots step xs d).0 ≡ some result
      → walk_slots step (xs ++ ys) d ≡ (some result, (walk_slots step xs d).1)
  walk_slots-append_stop [] ys d result = λ h. cc
  walk_slots-append_stop ((address, flagged) ∷ xs) ys d result =
      elim (Bool-cases (step d address flagged).0) [
        | inl e ↦ rw e (walk_slots-append_stop xs ys (step d address flagged).2 result)
        | inr e ↦ rw e (λ h. ap (λ t. (t, (step d address flagged).2)) h)
      ]

module _ {D : Type 0} (system : System) (place : ℕ → Ptr) (fn : Callback D)
    (step : D → ℕ → Bool → Bool × ℕ × D) (v : IsWalk system place fn step) where
  -- The slots of one node.
  visit_slots-walk_slots :
      (n i : ℕ) (node : ListNode) (nodes : List ListNode) (first : ℕ) (d : D) (w : World)
      → IsMountList place w.words first (node ∷ nodes)
      → (w' : World) × (visit_slots fn n i (place node.index) node.index d w ≡ (
        (walk_slots step (slots_from node n i) d).0,
        (walk_slots step (slots_from node n i) d).1,
        w',
      ))
        × Keeps place w.words w'.words
  unfolding visit_slots
  visit_slots-walk_slots zero i node nodes first d w h = (w, refl, λ index ns k. k)
  visit_slots-walk_slots (suc n) i node nodes first d w h =
      let (e, ne, place_ne, eu, ec, rest) = h in
      elim (Bool-cases (test_bit node.used i)) [
        | inr f ↦ rw (eu, f) (visit_slots-walk_slots n (suc i) node nodes first d w h)
        | inl f ↦
            let address = mounted_list_slot node.index i in
            let flagged = test_bit node.create_flagged i in
            let (w', ew, k) = v.called d address flagged w in
            elim (Bool-cases (step d address flagged).0) [
              | inl g ↦
                  let (w'', ev, k') =
                    visit_slots-walk_slots n (suc i) node nodes first (step d address flagged).2 w'
                      (k first (node ∷ nodes) h) in
                  rw (eu, f, ec, ew, g) (w'', ev, λ index ns p. k' index ns (k index ns p))
              | inr g ↦ rw (eu, f, ec, ew, g) (w', refl, k)
            ]
      ]

  -- On a list of mounts in memory, iterate_over_mounted_list ends, given more fuel than the list has
  -- nodes, and does to the data what a walk along the used slots of the nodes does, in the order of
  -- the nodes and of their bits, each with its flag: it answers what the callback stops with, or
  -- ENOENT if it never stops.
  pub iterate_over_mounted_list-walk_slots :
      (fuel index : ℕ) (nodes : List ListNode) (d : D) (w : World)
      → IsMountList place w.words index nodes
      → length nodes < fuel
      → (w' : World) × (iterate_over_mounted_list system fn fuel w index d
          ≡ some (
            Option.get_or (walk_slots step (slots nodes) d).0 enoent,
            (walk_slots step (slots nodes) d).1,
            w',
          ))
  unfolding iterate_over_mounted_list syscall_invoke
  iterate_over_mounted_list-walk_slots zero index nodes d w h l = absurd (omega arith)
  iterate_over_mounted_list-walk_slots (suc fuel) index [] d w h l = (w, rw h refl)
  iterate_over_mounted_list-walk_slots (suc fuel) index (node ∷ nodes) d w h l =
      let (e, ne, place_ne, eu, ec, rest) = h in
      let i = node.index in
      let w₁ = (syscall_invoke system w (Call.lock (mounted_list_info_address i))).1 in
      let k₁ = v.locked w i index (node ∷ nodes) h in
      let (w₂, ev, keep) = visit_slots-walk_slots ptr_bits 0 node nodes index d w₁ k₁ in
      let w₃ = (syscall_invoke system w₂ (Call.unlock (mounted_list_info_address i))).1 in
      let next = next_index w₁.words (place i) in
      let k₃ = v.unlocked w₂ i next nodes (keep next nodes k₁.5) in
      let (stopped, d') = walk_slots step (slots_from node ptr_bits 0) d in
      let (w₄, done) =
        iterate_over_mounted_list-walk_slots fuel next nodes d' w₃ k₃ (omega arith) in
      let here = slots_from node ptr_bits 0 in
      rw (e, ne_test ne, v.lock w i, ne_test place_ne, ev)
        (elim (Option-cases stopped) [
          | inl on ↦
              rw (walk_slots-append_on step here (slots nodes) d on, on)
                (rw (e, v.lock w i, ev) (w₄, done))
          | inr (result, stop) ↦
              rw (walk_slots-append_stop step here (slots nodes) d result stop, stop)
                (rw (e, v.lock w i, ev) (w₃, refl))
        ])
