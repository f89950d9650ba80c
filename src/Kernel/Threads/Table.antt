-- ===== src/Kernel/Threads/Table.antt =====
-- The hash table of threads of core/kernel/threads.c, as a sequence of threads per bucket.
use cenix.Base.{
  ℕ, zero, suc, ◌<◌, Ptr, null, ◌≡◌, sym, ap, ◌∙◌, ◌≢◌, inl, inr, Bool, true, false, Option, none,
  some, List, [], ◌∷◌, arith, ◌==◌, if◌then◌else◌, length, has, Bool-cases,
}
use cenix.LinkedList.Shape.{Forward, IsList}
use cenix.LinkedList.Queue.{ne_test}
use cenix.Kernel.State.{Kernel, heap_lock}
use cenix.Kernel.Threads.{bucket_of, find_thread, look_up_thread_by_id}
use cenix.Kernel.Threads.Ids.{used}

abbrev pub id_of : Kernel → Ptr → ℕ
id_of k t = (k.threads t).thread_id

-- Bucket `b` holds the threads `buckets b`; each is in the bucket of its id, its id is marked as
-- used, and no two threads have the same id.
pub record IsTable (k : Kernel) (buckets : ℕ → List Ptr) : Type 0 where
  pub lists : (b : ℕ) → IsList k.table_entry (k.thread_hash_table b) (buckets b)
  pub placed :
      (b : ℕ) (t : Ptr)
      → has t (buckets b) ≡ true
      → (bucket_of (id_of k t) ≡ b)
        × ((k.threads t).bucket_number ≡ b)
        × (used k.used_thread_ids (id_of k t) ≡ true)
  pub unique :
      (b : ℕ) (t u : Ptr)
      → has t (buckets b) ≡ true
      → has u (buckets b) ≡ true
      → id_of k t ≡ id_of k u
      → t ≡ u

-- The answer to a search for the thread with the id `id` among `xs`.
pub data Found (k : Kernel) (id : ℕ) (xs : List Ptr) : Option Ptr → Type 0 where
  here : (t : Ptr) → has t xs ≡ true → id_of k t ≡ id → t ≢ null → Found k id xs (some t)
  absent : ((t : Ptr) → has t xs ≡ true → id_of k t ≢ id) → Found k id xs (some null)

find_thread-Found :
    (fuel : ℕ) (p : Ptr) (id : ℕ) (k : Kernel) (xs : List Ptr)
    → length xs < fuel
    → Forward k.table_entry p xs
    → Found k id xs (find_thread fuel p id k)
unfolding find_thread
find_thread-Found zero p id k xs l f = absurd (omega arith)
find_thread-Found (suc fuel) p id k [] l f = rw f (absent (λ t i. cc))
find_thread-Found (suc fuel) p id k (x ∷ xs) l (e, ne, out, f) =
    elim (Bool-cases (id_of k x == id)) [
      | inl hit ↦ rw (e, ne_test x ne, hit) (here x (ground arith) (ground arith) ne)
      | inr miss ↦
          rw (e, ne_test x ne, miss)
            (later miss _ (find_thread-Found fuel (k.table_entry x).next id k xs (omega arith) f))
    ]
  where
    later : (id_of k x == id) ≡ false → (o : Option Ptr) → Found k id xs o → Found k id (x ∷ xs) o
    later miss _ (here t i h n) = here t (ground arith) h n
    later miss _ (absent none_has) = absent (λ t i h. elim (Bool-cases (t == x)) [
      | inl same ↦
          let t_x : t ≡ x = ground arith in
          let id_x : id_of k x ≡ id = ap (id_of k) (sym t_x) ∙ h in absurd (ground arith)
      | inr other ↦ none_has t (ground arith) h
    ])

-- The answer of look_up_thread_by_id in a bucket of the threads `xs`: the one thread that has the
-- id, locked, or NULL and the kernel as it was.
pub data LookUp (k : Kernel) (id : ℕ) (xs : List Ptr) : Option (Ptr × Bool × Kernel) → Type 0 where
  hit :
      (t : Ptr)
      → has t xs ≡ true
      → id_of k t ≡ id
      → ((u : Ptr) → has u xs ≡ true → id_of k u ≡ id → u ≡ t)
      → LookUp k id xs (some (t, (heap_lock k t).0, (heap_lock k t).1))
  miss : ((t : Ptr) → has t xs ≡ true → id_of k t ≢ id) → LookUp k id xs (some (null, false, k))

-- With more fuel than the bucket has threads, look_up_thread_by_id gives the one thread of the
-- bucket that has the id, locked, or NULL and the kernel as it was if none has it.
pub look_up_thread_by_id-LookUp :
    (k : Kernel) (buckets : ℕ → List Ptr) (fuel id bucket : ℕ)
    → IsTable k buckets
    → length (buckets bucket) < fuel
    → LookUp k id (buckets bucket) (look_up_thread_by_id fuel id bucket k)
unfolding look_up_thread_by_id
look_up_thread_by_id-LookUp k buckets fuel id bucket w l = go _ (
    find_thread-Found fuel (k.thread_hash_table bucket).start id k (buckets bucket) l
      (w.lists bucket).chain)
  where
    go :
        (o : Option Ptr)
        → Found k id (buckets bucket) o
        → LookUp k id (buckets bucket) (elim o [
          | none ↦ none
          | some t ↦
              let (locked, k') = heap_lock k t in
              if t == null then some (null, false, k) else some (t, locked, k')
        ])
    go _ (here t i h n) =
        rw (ne_test t n) (hit t i h (λ u iu hu. w.unique bucket u t iu i (hu ∙ sym h)))
    go _ (absent none_has) = miss none_has

-- A thread of one bucket is in no other one.
pub apart :
    (k : Kernel) (buckets : ℕ → List Ptr) (b c : ℕ) (t : Ptr)
    → IsTable k buckets
    → b ≢ c
    → has t (buckets b) ≡ true
    → has t (buckets c) ≡ false
apart k buckets b c t w ne i = elim (Bool-cases (has t (buckets c))) [
  | inl j ↦ absurd (ne (sym (w.placed b t i).0 ∙ (w.placed c t j).0))
  | inr j ↦ j
]
