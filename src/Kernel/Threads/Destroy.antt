-- ===== src/Kernel/Threads/Destroy.antt =====
-- thread_destructor of core/kernel/threads.c on the table of threads.
use cenix.Base.{
  ℕ, Ptr, null, ◌≡◌, refl, sym, ap, ◌∙◌, subst, ◌≢◌, inl, inr, true, false, List, arith, ◌==◌,
  if◌then◌else◌, has, erase, Bool-cases, Option-cases,
}
use cenix.LinkedList.{remove}
use cenix.LinkedList.Shape.{Forward, IsList}
use cenix.LinkedList.Remove.{remove-IsList}
use cenix.LinkedList.Elsewhere.{frame-IsList, remove-elsewhere}
use cenix.Kernel.State.{Kernel}
use cenix.Kernel.Scheduler.Suspend.{has-erase_self}
use cenix.Kernel.Threads.{bucket_of, release_id}
use cenix.Kernel.Threads.Handlers.{
  unlink_runqueue, unlink_cpu_update, unlink_table, unlink_endpoint, thread_destructor,
}
use cenix.Kernel.Threads.Ids.{used, used-release_id, used-lt}
use cenix.Kernel.Threads.Table.{id_of, IsTable, apart}

-- Kernels with the same threads, table and ids.
record SameTable (k k' : Kernel) : Type 0 where
  threads : k'.threads ≡ k.threads
  table : k'.thread_hash_table ≡ k.thread_hash_table
  entries : k'.table_entry ≡ k.table_entry
  ids : k'.used_thread_ids ≡ k.used_thread_ids

unlink_runqueue-SameTable : (k : Kernel) (t : Ptr) → SameTable k (unlink_runqueue k t)
unfolding unlink_runqueue
unlink_runqueue-SameTable k t = elim (Option-cases (k.threads t).runqueue) [
  | inl e ↦
      rw (e, unlink_runqueue) (record { threads = refl; table = refl; entries = refl; ids = refl })
  | inr (q, e) ↦
      rw (e, unlink_runqueue) (record { threads = refl; table = refl; entries = refl; ids = refl })
]

unlink_cpu_update-SameTable : (k : Kernel) (t : Ptr) → SameTable k (unlink_cpu_update k t)
unfolding unlink_cpu_update
unlink_cpu_update-SameTable k t = elim (Bool-cases (k.threads t).flags.needs_cpu_update) [
  | inl e ↦ rw e (record { threads = refl; table = refl; entries = refl; ids = refl })
  | inr e ↦ rw e (record { threads = refl; table = refl; entries = refl; ids = refl })
]

unlink_endpoint-SameTable : (k : Kernel) (t : Ptr) → SameTable k (unlink_endpoint k t)
unfolding unlink_endpoint
unlink_endpoint-SameTable k t = elim (Bool-cases ((k.threads t).blocked_on == null)) [
  | inl e ↦ rw e (record { threads = refl; table = refl; entries = refl; ids = refl })
  | inr n ↦ rw n (elim (Bool-cases (k.threads t).flags.blocked_on_send) [
    | inl e ↦ rw e (record { threads = refl; table = refl; entries = refl; ids = refl })
    | inr e ↦ rw e (record { threads = refl; table = refl; entries = refl; ids = refl })
  ])
]

keep-IsTable :
    (k k' : Kernel) (buckets : ℕ → List Ptr)
    → SameTable k k'
    → IsTable k buckets
    → IsTable k' buckets
keep-IsTable k k' buckets s w = record {
  lists = λ b. rw (s.table, s.entries) (w.lists b);
  placed = λ b t i. rw (s.threads, s.ids) (w.placed b t i);
  unique = λ b t u i j e.
      w.unique b t u i j
        (ap (λ f. (f t).thread_id) (sym s.threads) ∙ e ∙ ap (λ f. (f u).thread_id) s.threads);
}

-- The buckets without the thread `t` of bucket `c`.
abbrev pub left : (ℕ → List Ptr) → Ptr → ℕ → ℕ → List Ptr
left buckets t c b = if b == c then erase t (buckets b) else buckets b

module _ (k : Kernel) (buckets : ℕ → List Ptr) (t : Ptr) (c : ℕ) (w : IsTable k buckets)
    (i : has t (buckets c) ≡ true) where
  unlink_table-lists :
      (b : ℕ)
      → IsList
          (unlink_table k t).table_entry
          ((unlink_table k t).thread_hash_table b)
          (left buckets t c b)
  unfolding unlink_table
  unlink_table-lists b = rw ((w.placed c t i).1) (elim (Bool-cases (b == c)) [
    | inl same ↦
        let b_c : b ≡ c = ground arith in
        rw same (
          subst
            (λ z.
              IsList (remove (k.thread_hash_table c) k.table_entry t).1
                (remove (k.thread_hash_table c) k.table_entry t).0 (erase t (buckets z)))
            (sym b_c)
            (remove-IsList k.table_entry (k.thread_hash_table c) t (buckets c) i (w.lists c)))
    | inr other ↦ rw other (
        frame-IsList k.table_entry _ (k.thread_hash_table b) (buckets b) (w.lists b) (λ a j.
          remove-elsewhere k.table_entry (k.thread_hash_table c) t a (buckets c) (w.lists c) i
            (apart k buckets b c a w (λ e. ground arith) j)))
  ])

  -- A thread that is left is another one than `t`, and was there before.
  has-left :
      (b : ℕ) (a : Ptr) → has a (left buckets t c b) ≡ true → (a ≢ t) × (has a (buckets b) ≡ true)
  has-left b a j = elim (Bool-cases (b == c)) [
    | inl same ↦ erased b a (w.lists b).chain (ground (arith, j))
    | inr other ↦
        let there : has a (buckets b) ≡ true = ground (arith, j) in
        (
          λ e.
              let both : has a (buckets c) ≡ true =
                subst (λ z. has z (buckets c) ≡ true) (sym e) i in
              let no_more : has a (buckets c) ≡ false =
                apart k buckets b c a w (λ eb. ground arith) there in
              ground arith,
          there,
        )
  ]
    where
      erased :
          (b : ℕ) (a : Ptr)
          → Forward k.table_entry (k.thread_hash_table b).start (buckets b)
          → has a (erase t (buckets b)) ≡ true
          → (a ≢ t) × (has a (buckets b) ≡ true)
      erased b a f j =
          let e = has-erase_self k.table_entry (k.thread_hash_table b).start a t (buckets b) f in
          (ground (arith, e), ground (arith, e))

  -- The other threads of the table have other ids.
  other_id : (b : ℕ) (a : Ptr) → a ≢ t → has a (buckets b) ≡ true → id_of k a ≢ id_of k t
  other_id b a ne j e =
      let b_c : b ≡ c = sym (w.placed b a j).0 ∙ ap bucket_of e ∙ (w.placed c t i).0 in
      ne (w.unique c a t (subst (λ z. has a (buckets z) ≡ true) b_c j) i e)

  abbrev released : List ℕ
  released = release_id k.used_thread_ids (id_of k t)

  used-released :
      (j : ℕ) → used released j ≡ (if j == id_of k t then false else used k.used_thread_ids j)
  used-released j = used-release_id k.used_thread_ids (id_of k t) j (used-lt _ _ (w.placed c t i).2)

  unlink_table-IsTable :
      IsTable (record (unlink_table k t) { used_thread_ids = released }) (left buckets t c)
  unfolding unlink_table
  unlink_table-IsTable = record {
    lists = unlink_table-lists;
    placed = λ b a j.
        let (ne, there) = has-left b a j in
        let (pl, bn, us) = w.placed b a there in
        let others : id_of k a ≢ id_of k t = other_id b a ne there in
        (pl, bn, ground (arith, used-released (id_of k a), us, others));
    unique = λ b a u j l e. w.unique b a u (has-left b a j).1 (has-left b u l).1 e;
  }

-- Once its root capability is gone, which leaves the table as it was, the destruction of a thread
-- of the table takes it out of its bucket, with the table still right, and frees its id alone.
pub thread_destructor-IsTable :
    (delete_root : Kernel → Ptr → Kernel) (k : Kernel) (t : Ptr) (buckets : ℕ → List Ptr) (c : ℕ)
    → IsTable (delete_root k t) buckets
    → has t (buckets c) ≡ true
    → let k₀ = delete_root k t in
      let k' = thread_destructor delete_root k t in
      IsTable k' (left buckets t c)
      × ((j : ℕ)
          → used k'.used_thread_ids j
            ≡ (if j == id_of k₀ t then false else used k₀.used_thread_ids j))
unfolding thread_destructor unlink_table
thread_destructor-IsTable delete_root k t buckets c w i =
    let k₀ = delete_root k t in
    let k₁ = unlink_runqueue k₀ t in
    let k₂ = unlink_cpu_update k₁ t in
    let w₁ = keep-IsTable k₀ k₁ buckets (unlink_runqueue-SameTable k₀ t) w in
    let w₂ = keep-IsTable k₁ k₂ buckets (unlink_cpu_update-SameTable k₁ t) w₁ in
    let s₁ = unlink_runqueue-SameTable k₀ t in
    let s₂ = unlink_cpu_update-SameTable k₁ t in
    let k₃ = unlink_table k₂ t in
    let s = unlink_endpoint-SameTable k₃ t in
    let r = release_id k₂.used_thread_ids (id_of k₂ t) in
    let ids_r : (thread_destructor delete_root k t).used_thread_ids ≡ r =
      rw (s.ids, s.threads) refl in
    (
      keep-IsTable (record k₃ { used_thread_ids = r }) (thread_destructor delete_root k t)
          (left buckets t c)
          (record { threads = s.threads; table = s.table; entries = s.entries; ids = ids_r })
          (unlink_table-IsTable k₂ buckets t c w₂ i),
      λ j.
          ap (λ u. used u j) ids_r
          ∙ used-released k₂ buckets t c w₂ i j
          ∙ rw (s₂.threads, s₂.ids, s₁.threads, s₁.ids) refl,
    )
