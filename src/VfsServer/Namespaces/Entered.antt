-- ===== src/VfsServer/Namespaces/Entered.antt =====
-- A mount point that add_mount_point_to_namespace of core/vfs_server/namespaces.c enters into a bucket.
use cenix.Base.{
  ℕ, suc, ◌<◌, length, some, ==-refl, ◌≡◌, ◌≢◌, refl, sym, ap, subst, ◌∙◌, Ptr, null, true, false,
  List, [], ◌∷◌, arith, ◌==◌,
}
use cenix.Kernel.State.{at}
use cenix.Kernel.Threads.{size_max}
use cenix.VfsServer.{Call, World, System, syscall_invoke, structure_address}
use cenix.VfsServer.Namespaces.{
  namespace_node_slot, find_mount_point, root_address, bucket_address, next_mount_point,
  enclosing_filesystem, mount_point_inode, push_mount_point, enter_mount_point,
}
use cenix.VfsServer.Namespaces.Found.{
  MountPoint, IsChain, IsServed, ne_test, search_mount_point, find_mount_point-search,
}

-- The address `q` is that of no word by which the mount points are found.
abbrev pub IsFree : (ℕ → Ptr) → Ptr → List MountPoint → Type 0
IsFree place q [] = Unit
IsFree place q (x ∷ xs) =
    (mount_point_inode (place x.address) ≢ q)
    × (enclosing_filesystem (place x.address) ≢ q)
    × (next_mount_point (place x.address) ≢ q)
    × IsFree place q xs

at_ne : (m : ℕ → ℕ) (q v p : ℕ) → p ≢ q → at m q v p ≡ m p
at_ne m q v p h = rw (ne_test h) refl

at_self : (m : ℕ → ℕ) (q v : ℕ) → at m q v q ≡ v
at_self m q v = ground arith

IsChain-at :
    (place : ℕ → Ptr) (m : ℕ → ℕ) (q v : ℕ) (xs : List MountPoint) (address : ℕ)
    → IsFree place q xs
    → IsChain place m address xs
    → IsChain place (at m q v) address xs
IsChain-at place m q v [] address f h = h
IsChain-at place m q v (x ∷ xs) address (fi, fe, fn, f) (e, ne, place_ne, ei, ee, rest) = (
  e,
  ne,
  place_ne,
  at_ne m q v _ fi ∙ ei,
  at_ne m q v _ fe ∙ ee,
  subst (λ n. IsChain place (at m q v) n xs) (sym (at_ne m q v _ fn))
      (IsChain-at place m q v xs _ f rest),
)

-- The first word of the first mount point of the bucket is none of the words that matter.
abbrev pub IsHeadApart : (ℕ → Ptr) → Ptr → MountPoint → List MountPoint → Type 0
IsHeadApart place bucket x [] = Unit
IsHeadApart place bucket x (y ∷ ys) =
    (bucket ≢ place y.address) × IsFree place (place y.address) (x ∷ y ∷ ys)

-- A new mount point `x` is in memory, linked to nothing, and it, the bucket and the mount points there
-- lie apart.
pub record IsNew (place : ℕ → Ptr) (m : ℕ → ℕ) (namespace : Ptr) (x : MountPoint)
    (xs : List MountPoint) : Type 0 where
  pub rooted : m (root_address namespace) ≢ size_max
  pub alone : IsChain place m x.address (x ∷ [])
  pub own :
      (mount_point_inode (place x.address) ≢ next_mount_point (place x.address))
      × (enclosing_filesystem (place x.address) ≢ next_mount_point (place x.address))
  pub bucket : IsChain place m (m (bucket_address namespace x.inode)) xs
  pub bucket_apart : IsFree place (bucket_address namespace x.inode) (x ∷ xs)
  pub link_apart : IsFree place (next_mount_point (place x.address)) xs
  pub head_apart : IsHeadApart place (bucket_address namespace x.inode) x xs

-- The two writes that put a mount point in front of a bucket.
pushed :
    (place : ℕ → Ptr) (m : ℕ → ℕ) (b : Ptr) (x : MountPoint) (xs : List MountPoint)
    → IsChain place m x.address (x ∷ [])
    → (mount_point_inode (place x.address) ≢ next_mount_point (place x.address))
      × (enclosing_filesystem (place x.address) ≢ next_mount_point (place x.address))
    → IsChain place m (m b) xs
    → IsFree place b (x ∷ xs)
    → IsFree place (next_mount_point (place x.address)) xs
    → let m' = at (at m (next_mount_point (place x.address)) (m b)) b x.address in
      IsChain place m' (m' b) (x ∷ xs)
pushed place m b x xs (e, ne, place_ne, ei, ee, last) (oi, oe) h (fi, fe, fn, f) g =
    let next = next_mount_point (place x.address) in
    let m₁ = at m next (m b) in
    let linked = at_ne m₁ b x.address next fn ∙ at_self m next (m b) in
    (
      at_self m₁ b x.address,
      ne,
      place_ne,
      at_ne m₁ b x.address _ fi ∙ at_ne m next (m b) _ oi ∙ ei,
      at_ne m₁ b x.address _ fe ∙ at_ne m next (m b) _ oe ∙ ee,
      subst (λ n. IsChain place (at m₁ b x.address) n xs) (sym linked)
          (IsChain-at place m₁ b x.address xs (m b) f (IsChain-at place m next (m b) xs (m b) g h)),
    )

module _ (system : System) (place : ℕ → Ptr) (v : IsServed system place) where
  -- A new mount point that is entered into a bucket comes before those that were there, which stay as
  -- they were.
  pub enter_mount_point-IsChain :
      (w : World) (namespace : Ptr) (x : MountPoint) (xs : List MountPoint)
      → IsNew place w.words namespace x xs
      → (w' : World) × (enter_mount_point system w namespace (place x.address) x.address
          ≡ (true, w'))
        × IsChain place w'.words (w'.words (bucket_address namespace x.inode)) (x ∷ xs)
  unfolding enter_mount_point push_mount_point syscall_invoke
  enter_mount_point-IsChain w namespace x [] n =
      let b = bucket_address namespace x.inode in
      let here : (w.words b == size_max) ≡ true = ground (arith, n.bucket) in
      let (e, ne, place_ne, ei, ee, last) =
        IsChain-at place w.words b x.address (x ∷ []) x.address n.bucket_apart n.alone in
      rw (ne_test n.rooted, n.alone.3, here)
        (
          record w { words = at w.words b x.address },
          refl,
          (at_self w.words b x.address, ne, place_ne, ei, ee, last),
        )
  enter_mount_point-IsChain w namespace x (y ∷ ys) n =
      let b = bucket_address namespace x.inode in
      let (ey, ney, py, iy, ency, rest) = n.bucket in
      let (head_ne, (fx, fxe, fxn, fh)) = n.head_apart in
      let old = w.words b in
      let w₁ = (syscall_invoke system w (Call.lock old)).1 in
      let w₂ : World = record w₁ { words = at w₁.words (place old) x.address } in
      let w₃ = (syscall_invoke system w₂ (Call.unlock (w₂.words b))).1 in
      let a = x.address in
      let next = next_mount_point (place a) in
      let m₁ = at w.words (place y.address) a in
      let same : w₃.words ≡ m₁ =
        v.unlocked w₂ (w₂.words b)
        ∙ ap (λ m. at m (place old) a) (v.locked w old)
        ∙ ap (λ t. at w.words (place t) a) ey in
      let entered =
        pushed place m₁ b x (y ∷ ys)
          (IsChain-at place w.words (place y.address) a (x ∷ []) a (fx, fxe, fxn, tt) n.alone) n.own
          (subst (λ t. IsChain place m₁ t (y ∷ ys))
            (sym (at_ne w.words (place y.address) a b head_ne))
            (IsChain-at place w.words (place y.address) a (y ∷ ys) old fh n.bucket))
          n.bucket_apart n.link_apart in
      let not_empty : (w.words b == size_max) ≡ false = ground (arith, ey, ney) in
      let there : (place old == null) ≡ false = ne_test (subst (λ t. place t ≢ null) (sym ey) py) in
      let w₄ : World = record w₃ { words = at (at w₃.words next (w₃.words b)) b a } in
      rw (ne_test n.rooted, n.alone.3, not_empty, v.lock w old, there)
        (
          w₄,
          refl,
          subst
              (λ m.
                IsChain place (at (at m next (m b)) b a) (at (at m next (m b)) b a b) (x ∷ y ∷ ys))
              (sym same) entered,
        )

  -- A new mount point that is entered into a bucket of a namespace, in front of whatever is there, is
  -- what find_mount_point gives for its inode and its enclosing file system.
  pub enter_mount_point-find_mount_point :
      (fuel id : ℕ) (w : World) (x : MountPoint) (xs : List MountPoint)
      → place (structure_address namespace_node_slot id) ≢ null
      → IsNew place w.words (place (structure_address namespace_node_slot id)) x xs
      → suc (length xs) < fuel
      → (w' : World) × (w'' : World) × (enter_mount_point system w
            (place (structure_address namespace_node_slot id))
            (place x.address)
            x.address
          ≡ (true, w'))
        × (find_mount_point system fuel w' id x.inode x.enclosing ≡ some (x.address, w''))
  enter_mount_point-find_mount_point fuel id w x xs ne n l =
      let (w', entered, chain) =
        enter_mount_point-IsChain w (place (structure_address namespace_node_slot id)) x xs n in
      let (w'', found, kept) =
        find_mount_point-search system place v fuel w' id x.inode x.enclosing (x ∷ xs) ne chain l in
      let first : search_mount_point (x ∷ xs) x.inode x.enclosing ≡ x.address =
        rw (==-refl x.inode, ==-refl x.enclosing) refl in
      (w', w'', entered, found ∙ ap (λ t. some (t, w'')) first)
