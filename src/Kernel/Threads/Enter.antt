-- ===== src/Kernel/Threads/Enter.antt =====
-- alloc_thread of core/kernel/threads.c on the table of threads.
use cenix.Base.{
  ℕ, ◌*◌, ◌<◌, Ptr, null, ◌≡◌, sym, ap, ◌∙◌, subst, ◌≢◌, ◌⊎◌, inl, inr, Bool, true, false, Option,
  none, some, List, [], ◌∷◌, ◌++◌, arith, ◌==◌, if◌then◌else◌, length, has, has-append, ne_of_has,
  Bool-cases, ==-refl,
}
use cenix.LinkedList.{append}
use cenix.LinkedList.Shape.{IsList}
use cenix.LinkedList.Queue.{append-IsList}
use cenix.LinkedList.Elsewhere.{frame-IsList, append-elsewhere}
use cenix.Kernel.State.{Kernel, at, heap_lock}
use cenix.Kernel.Threads.{
  bucket_of, add_thread, alloc_thread, alloc_id, release_id, new_thread, no_link,
  look_up_thread_by_id,
}
use cenix.Kernel.Threads.Ids.{used, IsWords, Fresh, Search, alloc_id-Search}
use cenix.Kernel.Threads.Table.{id_of, IsTable, apart, LookUp, look_up_thread_by_id-LookUp}

-- The buckets after a thread has been entered.
abbrev pub entered : (ℕ → List Ptr) → Ptr → ℕ → ℕ → List Ptr
entered buckets p id b = if b == bucket_of id then buckets b ++ p ∷ [] else buckets b

-- The thread table before the id `id` is given to a thread at `p`.
pub record IsRoom (k : Kernel) (buckets : ℕ → List Ptr) (p : Ptr) (id : ℕ) : Type 0 where
  pub table : IsTable k buckets
  pub there : p ≢ null
  pub outside : (b : ℕ) → has p (buckets b) ≡ false
  pub taken : used k.used_thread_ids id ≡ true
  pub nobody : (b : ℕ) (t : Ptr) → has t (buckets b) ≡ true → id_of k t ≢ id

module _ (k : Kernel) (buckets : ℕ → List Ptr) (p : Ptr) (id : ℕ)
    (room : IsRoom k buckets p id) where
  cleared-lists : (b : ℕ) → IsList (at k.table_entry p no_link) (k.thread_hash_table b) (buckets b)
  cleared-lists b =
      frame-IsList k.table_entry (at k.table_entry p no_link) (k.thread_hash_table b) (buckets b)
        (room.table.lists b)
        (λ a i. let ne : a ≢ p = ne_of_has a p (buckets b) i (room.outside b) in ground (arith, ne))

  add_thread-lists :
      (b : ℕ)
      → IsList
          (add_thread k p id).table_entry
          ((add_thread k p id).thread_hash_table b)
          (entered buckets p id b)
  unfolding add_thread
  add_thread-lists b =
      let b₀ = bucket_of id in
      let links = at k.table_entry p no_link in
      elim (Bool-cases (b == b₀)) [
        | inl same ↦
            let b_b₀ : b ≡ b₀ = ground arith in
            rw same (
              subst
                (λ z.
                  IsList (append (k.thread_hash_table b₀) links p).1
                    (append (k.thread_hash_table b₀) links p).0 (buckets z ++ p ∷ []))
                (sym b_b₀)
                (append-IsList links p room.there (k.thread_hash_table b₀) (buckets b₀)
                  (room.outside b₀) (cleared-lists b₀)))
        | inr other ↦ rw other (
            frame-IsList links _ (k.thread_hash_table b) (buckets b) (cleared-lists b) (λ a i.
              append-elsewhere links (k.thread_hash_table b₀) p a (buckets b₀) (cleared-lists b₀)
                (ne_of_has a p (buckets b) i (room.outside b))
                (apart k buckets b b₀ a room.table (λ e. ground arith) i)))
      ]

  -- What the new kernel says of the threads: the one at `p`, and the ones before.
  add_thread-id : (t : Ptr) → id_of (add_thread k p id) t ≡ (if t == p then id else id_of k t)
  unfolding add_thread
  add_thread-id t = ground arith

  has-entered :
      (b : ℕ) (t : Ptr)
      → has t (entered buckets p id b) ≡ true
      → ((t ≡ p) × (b ≡ bucket_of id)) ⊎ ((t ≢ p) × (has t (buckets b) ≡ true))
  has-entered b t i = elim (Bool-cases (t == p)) [
    | inl e ↦ elim (Bool-cases (b == bucket_of id)) [
      | inl eb ↦ inl (ground arith, ground arith)
      | inr nb ↦ absurd (other_bucket b t (ground arith) nb i)
    ]
    | inr ne ↦ inr (ground arith, old b t ne i)
  ]
    where
      other_bucket :
          (b : ℕ) (t : Ptr)
          → t ≡ p
          → (b == bucket_of id) ≡ false
          → has t (entered buckets p id b) ≡ true
          → ⊥
      other_bucket b t e nb i = ne_of_has t p (buckets b) (ground (arith, i)) (room.outside b) e

      old :
          (b : ℕ) (t : Ptr)
          → (t == p) ≡ false
          → has t (entered buckets p id b) ≡ true
          → has t (buckets b) ≡ true
      old b t ne i = ground (arith, i, has-append t (buckets b) (p ∷ []))

  kept : (t : Ptr) → t ≢ p → id_of k t ≡ id_of (add_thread k p id) t
  kept t ne = ground (arith, add_thread-id t)

  clash :
      (b : ℕ) (t u : Ptr)
      → t ≡ p
      → u ≢ p
      → has u (buckets b) ≡ true
      → id_of (add_thread k p id) t ≡ id_of (add_thread k p id) u
      → ⊥
  clash b t u e ne i same = room.nobody b u i (ground (arith, add_thread-id t, add_thread-id u))

  abbrev Placed : Kernel → ℕ → Ptr → Type 0
  Placed k b t =
      (bucket_of (id_of k t) ≡ b)
      × ((k.threads t).bucket_number ≡ b)
      × (used k.used_thread_ids (id_of k t) ≡ true)

  Placed-new : (b : ℕ) (t : Ptr) → t ≡ p → b ≡ bucket_of id → Placed (add_thread k p id) b t
  unfolding add_thread
  Placed-new b t e eb =
      let new : (add_thread k p id).threads t ≡ new_thread id = ground arith in
      subst
        (λ v.
          (bucket_of v.thread_id ≡ b)
          × (v.bucket_number ≡ b)
          × (used k.used_thread_ids v.thread_id ≡ true))
        (sym new) (sym eb, sym eb, room.taken)

  Placed-old : (b : ℕ) (t : Ptr) → t ≢ p → Placed k b t → Placed (add_thread k p id) b t
  unfolding add_thread
  Placed-old b t ne h =
      let old : (add_thread k p id).threads t ≡ k.threads t = ground arith in
      subst
        (λ v.
          (bucket_of v.thread_id ≡ b)
          × (v.bucket_number ≡ b)
          × (used k.used_thread_ids v.thread_id ≡ true))
        (sym old) h

  has-new : has p (entered buckets p id (bucket_of id)) ≡ true
  has-new =
      rw (==-refl (bucket_of id)) (ground (arith, has-append p (buckets (bucket_of id)) (p ∷ [])))

  new-id : id_of (add_thread k p id) p ≡ id
  new-id = ground (arith, add_thread-id p)

  -- A new thread in the table keeps the table right.
  pub add_thread-IsTable : IsTable (add_thread k p id) (entered buckets p id)
  unfolding add_thread
  add_thread-IsTable = record {
    lists = add_thread-lists;
    placed = λ b t i. elim (has-entered b t i) [
      | inl (e, eb) ↦ Placed-new b t e eb
      | inr (ne, j) ↦ Placed-old b t ne (room.table.placed b t j)
    ];
    unique = λ b t u i j e. elim (has-entered b t i) [
      | inl (et, eb) ↦ elim (has-entered b u j) [
        | inl (eu, _) ↦ et ∙ sym eu
        | inr (nu, ju) ↦ absurd (clash b t u et nu ju e)
      ]
      | inr (nt, it) ↦ elim (has-entered b u j) [
        | inl (eu, _) ↦ absurd (clash b u t eu nt it (sym e))
        | inr (nu, ju) ↦ room.table.unique b t u it ju (kept t nt ∙ e ∙ sym (kept u nu))
      ]
    ];
  }

-- What is asked of heap_alloc: it keeps the used ids and the table, and the address that it gives,
-- unless it is NULL, is none of the table's.
pub record IsPlain (heap_alloc : Kernel → Kernel × Ptr) (k : Kernel) (buckets : ℕ → List Ptr)
    : Type 0 where
  pub ids : (heap_alloc k).0.used_thread_ids ≡ k.used_thread_ids
  pub table : IsTable k buckets → IsTable (heap_alloc k).0 buckets
  pub fresh : (b : ℕ) → has (heap_alloc k).1 (buckets b) ≡ false
  pub names : (t : Ptr) → id_of (heap_alloc k).0 t ≡ id_of k t

-- The kernel for which alloc_thread calls heap_alloc, with the bitmap in which the new id is marked.
abbrev pub marked : Kernel → List ℕ → Kernel
marked k ws = record k { used_thread_ids = ws }

-- What alloc_thread can come to, by its result.
pub data Allocated (heap_alloc : Kernel → Kernel × Ptr) (k : Kernel) (buckets : ℕ → List Ptr)
    : Kernel × Ptr → Type 0 where
  out_of_ids :
      ((j : ℕ) → j < length k.used_thread_ids * 32 → used k.used_thread_ids j ≡ true)
      → Allocated heap_alloc k buckets (k, null)
  out_of_memory :
      (id : ℕ) (ws : List ℕ)
      → Fresh k.used_thread_ids id ws
      → (heap_alloc (marked k ws)).1 ≡ null
      → Allocated heap_alloc k buckets
          (record (heap_alloc (marked k ws)).0 { used_thread_ids = k.used_thread_ids }, null)
  allocated :
      (k' : Kernel) (id : ℕ) (ws : List ℕ)
      → Fresh k.used_thread_ids id ws
      → (heap_alloc (marked k ws)).1 ≢ null
      → k'.used_thread_ids ≡ ws
      → IsTable k' (entered buckets (heap_alloc (marked k ws)).1 id)
      → ((fuel : ℕ)
          → length (entered buckets (heap_alloc (marked k ws)).1 id (bucket_of id)) < fuel
          → look_up_thread_by_id fuel id (bucket_of id) k'
            ≡ some (
              (heap_alloc (marked k ws)).1,
              (heap_lock k' (heap_alloc (marked k ws)).1).0,
              (heap_lock k' (heap_alloc (marked k ws)).1).1,
            ))
      → Allocated heap_alloc k buckets (k', (heap_alloc (marked k ws)).1)

found_there :
    (k : Kernel) (buckets : ℕ → List Ptr) (fuel id b : ℕ) (p : Ptr)
    → IsTable k buckets
    → length (buckets b) < fuel
    → has p (buckets b) ≡ true
    → id_of k p ≡ id
    → look_up_thread_by_id fuel id b k ≡ some (p, (heap_lock k p).0, (heap_lock k p).1)
found_there k buckets fuel id b p w l i e =
    go _ (look_up_thread_by_id-LookUp k buckets fuel id b w l)
  where
    go :
        (o : Option (Ptr × Bool × Kernel))
        → LookUp k id (buckets b) o
        → o ≡ some (p, (heap_lock k p).0, (heap_lock k p).1)
    go _ (LookUp.hit t it et one) =
        ap (λ (u : Ptr). some (u, (heap_lock k u).0, (heap_lock k u).1)) (sym (one p i e))
    go _ (LookUp.miss none_has) = absurd (none_has p i e)

-- A table is kept when ids are marked as used.
marked-IsTable :
    (k : Kernel) (buckets : ℕ → List Ptr) (ws : List ℕ)
    → IsTable k buckets
    → ((j : ℕ) → used k.used_thread_ids j ≡ true → used ws j ≡ true)
    → IsTable (record k { used_thread_ids = ws }) buckets
marked-IsTable k buckets ws w more = record {
  lists = w.lists;
  placed = λ b t i. let (pl, bn, us) = w.placed b t i in (pl, bn, more (id_of k t) us);
  unique = w.unique;
}

-- alloc_thread, with a heap_alloc that moves no thread: it gives up without a trace when all ids
-- are in use. Else it marks the lowest free id for heap_alloc; when that answers NULL, it releases
-- the id again, and otherwise the new thread, where heap_alloc has put it, has the id, stands in the
-- table, which is still right, and is found there by its id.
pub alloc_thread-Allocated :
    (heap_alloc : Kernel → Kernel × Ptr) (k : Kernel) (buckets : ℕ → List Ptr)
    → IsWords k.used_thread_ids
    → IsTable k buckets
    → ((ws : List ℕ) → IsPlain heap_alloc (record k { used_thread_ids = ws }) buckets)
    → Allocated heap_alloc k buckets (alloc_thread heap_alloc k)
unfolding alloc_thread add_thread
alloc_thread-Allocated heap_alloc k buckets words w plain =
    go (alloc_id k.used_thread_ids 0) (alloc_id-Search k.used_thread_ids 0 words)
  where
    after : List ℕ → Kernel × Ptr
    after ws = heap_alloc (record k { used_thread_ids = ws })

    result : Option (ℕ × List ℕ) → Kernel × Ptr
    result o = elim o [
      | none ↦ (k, null)
      | some (id, ws) ↦
          let (k₁, p) = after ws in
          if p == null
          then (record k₁ { used_thread_ids = release_id k₁.used_thread_ids id }, null)
          else (add_thread k₁ p id, p)
    ]

    room :
        (n : ℕ) (ws : List ℕ)
        → Fresh k.used_thread_ids n ws
        → (after ws).1 ≢ null
        → IsRoom (after ws).0 buckets (after ws).1 n
    room n ws f ne = record {
      table = (plain ws).table (marked-IsTable k buckets ws w (λ j h. ground (arith, f.marked j)));
      there = ne;
      outside = (plain ws).fresh;
      taken = rw ((plain ws).ids) (ground (arith, f.marked n));
      nobody = λ b t i e.
          let used_n : used k.used_thread_ids n ≡ true =
            subst (λ j. used k.used_thread_ids j ≡ true) (sym ((plain ws).names t) ∙ e)
              (w.placed b t i).2 in
          absurd (ground (arith, f.free));
    }

    ids_kept : (n : ℕ) (ws : List ℕ) → (add_thread (after ws).0 (after ws).1 n).used_thread_ids ≡ ws
    ids_kept n ws = (plain ws).ids

    got :
        (n : ℕ) (ws : List ℕ)
        → Fresh k.used_thread_ids n ws
        → Allocated heap_alloc k buckets (result (some (n, ws)))
    got n ws f =
        let p = (after ws).1 in
        let k₁ = (after ws).0 in
        elim (Bool-cases (p == null)) [
          | inl out ↦ rw out (
              subst (λ u. Allocated heap_alloc k buckets (record k₁ { used_thread_ids = u }, null))
                (sym (ap (λ u. release_id u n) ((plain ws).ids) ∙ f.undone))
                (out_of_memory n ws f (ground arith)))
          | inr here ↦
              let r = room n ws f (ground arith) in
              let table = add_thread-IsTable k₁ buckets p n r in
              rw here (
                allocated _ n ws f (ground arith) (ids_kept n ws) table (λ fuel l.
                  found_there (add_thread k₁ p n) (entered buckets p n) fuel n (bucket_of n) p table
                    l (has-new k₁ buckets p n r) (new-id k₁ buckets p n r)))
        ]

    go :
        (o : Option (ℕ × List ℕ))
        → Search k.used_thread_ids 0 o
        → Allocated heap_alloc k buckets (result o)
    go _ (Search.full all) = out_of_ids all
    go _ (Search.found n id ws en f) =
        let n_id : n ≡ id = omega arith in
        got n ws (subst (λ i. Fresh k.used_thread_ids i ws) (sym n_id) f)
