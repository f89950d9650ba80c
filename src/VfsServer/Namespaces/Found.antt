-- ===== src/VfsServer/Namespaces/Found.antt =====
-- find_mount_point of core/vfs_server/namespaces.c against a search in a list of mount points.
use cenix.Base.{
  ℕ, zero, suc, ◌<◌, ◌≡◌, ◌≢◌, refl, sym, ap, subst, ◌∙◌, inl, inr, Ptr, null, false, ◌&&◌, some,
  List, [], ◌∷◌, arith, ◌==◌, if◌then◌else◌, length, Bool-cases,
}
use cenix.Kernel.Threads.{size_max}
use cenix.VfsServer.{Call, World, System, syscall_invoke, structure_address}
use cenix.VfsServer.Namespaces.{
  namespace_node_slot, bucket_address, next_mount_point, enclosing_filesystem, mount_point_inode,
  find_from, find_mount_point,
}

-- A mount point: its address in the capability space, and what it is found by.
pub record MountPoint : Type 0 where
  pub address : ℕ
  pub inode : ℕ
  pub enclosing : ℕ

-- The address of the first mount point that matches, or -1.
abbrev pub search_mount_point : List MountPoint → ℕ → ℕ → ℕ
search_mount_point [] inode enclosing = size_max
search_mount_point (x ∷ xs) inode enclosing =
    let rest = search_mount_point xs inode enclosing in
    if (x.inode == inode) && (x.enclosing == enclosing) then x.address else rest

-- The mount points that are linked from an address on, where each lies at `place`.
abbrev pub IsChain : (ℕ → Ptr) → (ℕ → ℕ) → ℕ → List MountPoint → Type 0
IsChain place m address [] = address ≡ size_max
IsChain place m address (x ∷ xs) =
    (address ≡ x.address)
    × (x.address ≢ size_max)
    × (place x.address ≢ null)
    × (m (mount_point_inode (place x.address)) ≡ x.inode)
    × (m (enclosing_filesystem (place x.address)) ≡ x.enclosing)
    × IsChain place m (m (next_mount_point (place x.address))) xs

-- The kernel locks each object at its place, and to lock or to unlock changes no memory.
pub record IsServed (system : System) (place : ℕ → Ptr) : Type 0 where
  pub lock : (w : World) (a : ℕ) → (system w (Call.lock a)).0 ≡ place a
  pub locked : (w : World) (a : ℕ) → (system w (Call.lock a)).1 ≡ w.words
  pub unlocked : (w : World) (a : ℕ) → (system w (Call.unlock a)).1 ≡ w.words

pub ne_test : {p q : ℕ} → p ≢ q → (p == q) ≡ false
ne_test h = ground (arith, h)

module _ (system : System) (place : ℕ → Ptr) (v : IsServed system place) where
  find_from-search :
      (fuel : ℕ) (w : World) (address inode enclosing : ℕ) (xs : List MountPoint)
      → IsChain place w.words address xs
      → length xs < fuel
      → (w' : World) × (find_from system fuel w address inode enclosing
          ≡ some (search_mount_point xs inode enclosing, w'))
        × (w'.words ≡ w.words)
  unfolding find_from syscall_invoke
  find_from-search zero w address inode enclosing xs h l = absurd (omega arith)
  find_from-search (suc fuel) w address inode enclosing [] h l = (w, rw h refl, refl)
  find_from-search (suc fuel) w address inode enclosing (x ∷ xs) h l =
      let (e, ne, place_ne, ei, ee, rest) = h in
      let a = x.address in
      let w₁ = (syscall_invoke system w (Call.lock a)).1 in
      let w₂ = (syscall_invoke system w₁ (Call.unlock a)).1 in
      let same : w₂.words ≡ w.words = v.unlocked w₁ a ∙ v.locked w a in
      let (w₃, found, kept) =
        find_from-search fuel w₂ (w.words (next_mount_point (place a))) inode enclosing xs
          (subst (λ m. IsChain place m (w.words (next_mount_point (place a))) xs) (sym same) rest)
          (omega arith) in
      let read = λ (q : Ptr). ap (λ m. m q) (v.locked w a) in
      let ei' = read (mount_point_inode (place a)) ∙ ei in
      let ee' = read (enclosing_filesystem (place a)) ∙ ee in
      elim (Bool-cases ((x.inode == inode) && (x.enclosing == enclosing))) [
        | inl f ↦ rw (e, ne_test ne, v.lock w a, ne_test place_ne, ei', ee', f) (w₂, refl, same)
        | inr f ↦
            rw
              (
                e,
                ne_test ne,
                v.lock w a,
                ne_test place_ne,
                ei',
                ee',
                f,
                read (next_mount_point (place a)),
              )
              (w₃, found, kept ∙ same)
      ]

  -- With a locked namespace in memory, find_mount_point ends, given more fuel than its bucket has
  -- mount points, and gives the address of the first one in the bucket with the inode and the
  -- enclosing file system, or -1, and leaves the memory as it was.
  pub find_mount_point-search :
      (fuel : ℕ) (w : World) (id inode enclosing : ℕ) (xs : List MountPoint)
      → place (structure_address namespace_node_slot id) ≢ null
      → IsChain place w.words
          (w.words (bucket_address (place (structure_address namespace_node_slot id)) inode))
          xs
      → length xs < fuel
      → (w' : World) × (find_mount_point system fuel w id inode enclosing
          ≡ some (search_mount_point xs inode enclosing, w'))
        × (w'.words ≡ w.words)
  unfolding find_mount_point syscall_invoke
  find_mount_point-search fuel w id inode enclosing xs ne h l =
      let a = structure_address namespace_node_slot id in
      let w₁ = (syscall_invoke system w (Call.lock a)).1 in
      let same = v.locked w a in
      let first = bucket_address (place a) inode in
      let (w₂, found, kept) =
        find_from-search fuel w₁ (w.words first) inode enclosing xs
          (subst (λ m. IsChain place m (w.words first) xs) (sym same) h) l in
      rw (v.lock w a, ne_test ne, ap (λ m. m first) same, found)
        ((syscall_invoke system w₂ (Call.unlock a)).1, refl, v.unlocked w₂ a ∙ kept ∙ same)
