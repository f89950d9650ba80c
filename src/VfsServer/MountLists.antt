-- ===== src/VfsServer/MountLists.antt =====
-- core/vfs_server/mount_lists.c: the lists of the directories that are mounted at a place.
pub mod Iterated
use mathlib.Core.Option
use cenix.Base.{
  ℕ, zero, suc, ◌+◌, ◌*◌, ◌/◌, ◌%◌, ◌^◌, Ptr, null, Bool, true, false, not, Option, none, some,
  ◌==◌, if◌then◌else◌,
}
use Prim.Native.Nat.{bit_or}
use cenix.Base.Bits.{test_bit, set_bit}
use cenix.Base.Memory.{offset}
use cenix.Errors.{eunknown, enomem, enoent}
use cenix.Kernel.State.{at}
use cenix.Kernel.Threads.{ptr_bits, size_max, first_clear}
use cenix.VfsServer.{
  Call, World, System, syscall_invoke, init_node_depth, structure_address, alloc_args,
  alloc_structure, free_structure,
}

-- MOUNTED_FS_BITS and MAX_MOUNTED_FS
abbrev pub mounted_fs_bits : ℕ
mounted_fs_bits = 8

abbrev pub max_mounted_fs : ℕ
max_mounted_fs = 256

-- MOUNTED_LIST_INFO_SLOT, MOUNTED_LIST_NODE_SLOT and USED_MOUNTED_LISTS_SLOT
abbrev pub mounted_list_info_slot : ℕ
mounted_list_info_slot = 7

abbrev pub mounted_list_node_slot : ℕ
mounted_list_node_slot = 8

abbrev pub used_mounted_lists_slot : ℕ
used_mounted_lists_slot = 9

-- MOUNTED_LIST_INFO_ADDRESS, MOUNTED_LIST_NODE_ADDRESS and MOUNTED_LIST_SLOT
unfoldable pub mounted_list_info_address : ℕ → ℕ
mounted_list_info_address index = structure_address mounted_list_info_slot index

unfoldable pub mounted_list_node_address : ℕ → ℕ
mounted_list_node_address index = structure_address mounted_list_node_slot index

unfoldable pub mounted_list_slot : ℕ → ℕ → ℕ
mounted_list_slot index slot =
    bit_or (slot * 2 ^ mounted_fs_bits % 2 ^ ptr_bits) (mounted_list_node_address index)

-- struct mounted_list_info, where it lies in memory.
abbrev pub used_slots : (ℕ → ℕ) → Ptr → ℕ
used_slots words info = words info

abbrev pub create_flagged_slots : (ℕ → ℕ) → Ptr → ℕ
create_flagged_slots words info = words (offset info 4)

abbrev pub next_index : (ℕ → ℕ) → Ptr → ℕ
next_index words info = words (offset info 8)

-- `info->used_slots = 0; info->create_flagged_slots = 0; info->next_index = SIZE_MAX;`
abbrev pub init_info : (ℕ → ℕ) → Ptr → ℕ → ℕ
init_info words info = at (at (at words info 0) (offset info 4) 0) (offset info 8) size_max

abbrev pub free_info : System → World → ℕ → ℕ × World
free_info system w info_address =
    let (freed, w') =
      free_structure system w used_mounted_lists_slot mounted_list_info_slot max_mounted_fs
        info_address in
    (size_max, w')

unfoldable pub create_mounted_list_entry : System → World → ℕ × World
create_mounted_list_entry system w =
    let (info_address, w₁) =
      alloc_structure system w used_mounted_lists_slot mounted_list_info_slot max_mounted_fs 12 in
    let (info, w₂) = syscall_invoke system w₁ (Call.lock info_address) in
    let w₃ = record w₂ { words = init_info w₂.words info } in
    let (unlocked, w₄) = syscall_invoke system w₃ (Call.unlock info_address) in
    let index = info_address / 2 ^ init_node_depth in
    let (answer, w₅) =
      syscall_invoke system w₄ (Call.alloc (alloc_args 1 5 (mounted_list_node_address index))) in
    if info_address == size_max
    then (size_max, w₁)
    else if info == null
    then free_info system w₂ info_address
    else if not (answer == 0)
    then free_info system w₅ info_address
    else (index, w₅)

-- One round of the loop of mounted_list_insert, with the info locked: the result, the next index, and
-- the world.
unfoldable pub insert_round : System → World → Ptr → ℕ → ℕ → ℕ → ℕ → ℕ × ℕ × World
insert_round system w info index directory_fd mount_flags result =
    let next = next_index w.words info in
    let (created, w₁) = create_mounted_list_entry system w in
    let slot = first_clear ptr_bits 0 (used_slots w.words info) in
    let (moved, w₂) = syscall_invoke system w (
      Call.node_move (mounted_list_node_address index) (init_node_depth + mounted_fs_bits)
        directory_fd slot) in
    let used = at w₂.words info (set_bit (used_slots w₂.words info) slot) in
    let flagged = at used (offset info 4) (set_bit (create_flagged_slots used info) slot) in
    if used_slots w.words info == size_max
    then (if next == size_max
        then (enomem, created, record w₁ { words = at w₁.words (offset info 8) created })
        else (result, next, w))
    else if moved == 0
    then (0, size_max, record w₂ { words = if test_bit mount_flags 3 then flagged else used })
    else (moved, size_max, w₂)

-- The loop of mounted_list_insert.
unfoldable pub insert_from : System → ℕ → World → ℕ → ℕ → ℕ → ℕ → Option (ℕ × World)
insert_from system zero w index directory_fd mount_flags result = none
insert_from system (suc fuel) w index directory_fd mount_flags result =
    let (info, w₁) = syscall_invoke system w (Call.lock (mounted_list_info_address index)) in
    let (result', next, w₂) = insert_round system w₁ info index directory_fd mount_flags result in
    let (unlocked, w₃) = syscall_invoke system w₂ (Call.unlock (mounted_list_info_address index)) in
    let rest = insert_from system fuel w₃ next directory_fd mount_flags result' in
    if index == size_max then some (result, w) else if info == null then some (enomem, w₁) else rest

unfoldable pub mounted_list_insert : System → ℕ → World → ℕ → ℕ → ℕ → Option (ℕ × World)
mounted_list_insert system fuel w index directory_fd mount_flags =
    insert_from system fuel w index directory_fd mount_flags eunknown

-- A callback on data of type `D`: whether to go on, the result otherwise, and the data.
abbrev pub Callback : Type 0 → Type 0
Callback D = D → ℕ → Bool → World → Bool × ℕ × D × World

module _ {D : Type 0} where
  -- The loop over the slots of a node, from the slot `i` on; `none` if the callback always goes on.
  unfoldable pub visit_slots : Callback D → ℕ → ℕ → Ptr → ℕ → D → World → Option ℕ × D × World
  visit_slots fn zero i info index d w = (none, d, w)
  visit_slots fn (suc n) i info index d w =
      let flagged = test_bit (create_flagged_slots w.words info) i in
      let (goes_on, result, d', w') = fn d (mounted_list_slot index i) flagged w in
      let skipped = visit_slots fn n (suc i) info index d w in
      let rest = visit_slots fn n (suc i) info index d' w' in
      if not (test_bit (used_slots w.words info) i)
      then skipped
      else if goes_on
      then rest
      else (some result, d', w')

  unfoldable pub iterate_over_mounted_list :
      System → Callback D → ℕ → World → ℕ → D → Option (ℕ × D × World)
  iterate_over_mounted_list system fn zero w index d = none
  iterate_over_mounted_list system fn (suc fuel) w index d =
      let (info, w₁) = syscall_invoke system w (Call.lock (mounted_list_info_address index)) in
      let next = next_index w₁.words info in
      let (stopped, d', w₂) = visit_slots fn ptr_bits 0 info index d w₁ in
      let (unlocked, w₃) =
        syscall_invoke system w₂ (Call.unlock (mounted_list_info_address index)) in
      let rest = iterate_over_mounted_list system fn fuel w₃ next d' in
      if index == size_max
      then some (enoent, d, w)
      else if info == null
      then some (enomem, d, w₁)
      else elim stopped [ none ↦ rest | some result ↦ some (result, d', w₃) ]
