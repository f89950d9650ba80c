-- ===== src/VfsServer/Tests.antt =====
-- Runs of the VFS server, and the theorems at them.
use mathlib.Core.Option
use cenix.Base.{
  Bool, List, Option, Ptr, [], arith, if◌then◌else◌, none, not, refl, some, suc, true, ℕ, ◌%◌, ◌*◌,
  ◌+◌, ◌==◌, ◌∷◌, ◌≡◌,
}
use cenix.Errors.{enoent}
use cenix.Base.Bits.{set_bit, test_bit}
use cenix.Base.Memory.{offset}
use cenix.Kernel.Threads.{first_clear, size_max}
use cenix.VfsServer.{
  Call, World, System, syscall_invoke, structure_address, search_words, clear_slot, use_slot,
  find_slot_for, mark_slot_unused, alloc_structure, alloc_structure_callback,
}
use cenix.VfsServer.Slots.{IsBitset, Claimed, find_slot_for-Claimed}
use cenix.VfsServer.MountLists.{
  Callback, mounted_list_info_address, mounted_list_node_address, mounted_list_slot,
  iterate_over_mounted_list, mounted_list_insert, insert_from, insert_round,
  create_mounted_list_entry,
}
use cenix.VfsServer.MountLists.Iterated.{
  ListNode, slots, walk_slots, IsMountList, IsWalk, iterate_over_mounted_list-walk_slots,
}
use cenix.VfsServer.Namespaces.{hash, bucket_address, find_mount_point, enter_mount_point}
use cenix.VfsServer.Namespaces.Found.{
  MountPoint, IsChain, IsServed, search_mount_point, find_mount_point-search,
}
use cenix.VfsServer.Namespaces.Entered.{IsNew, enter_mount_point-find_mount_point}

-- The kernel locks every object at the address 64, where the first word of the bitset is full.
abbrev flat : System
flat w c = (64, w.words)

abbrev start : World
start = record { words = λ a. if a == 64 then size_max else 1; calls = [] }

abbrev give : ℕ → World → ℕ × World
give id v = (structure_address 12 id, v)

abbrev fail : ℕ → World → ℕ × World
fail id v = (size_max, v)

flat-IsBitset : IsBitset flat start 14 64 give 64 (size_max ∷ 1 ∷ [])
flat-IsBitset = record {
  pointer = refl;
  not_null = λ e. absurd (omega arith);
  words = (refl, (refl, tt));
  are_words = (omega arith, (omega arith, tt));
  size = refl;
  fits = omega arith;
  callback = λ id v j l. refl;
  unlocking = λ v j l. refl;
}

find_slot_for-Claimed_example :
    Claimed give 64 (size_max ∷ 1 ∷ []) (find_slot_for flat start 14 64 give)
find_slot_for-Claimed_example =
    find_slot_for-Claimed flat start 14 64 give 64 (size_max ∷ 1 ∷ []) flat-IsBitset

-- After a failure the second word still has the bit of slot 33, and the bit 1 of the word behind it
-- would be cleared.
slot_is_lost : (find_slot_for flat start 14 64 fail).1.words 68 ≡ 3
unfolding find_slot_for use_slot search_words clear_slot syscall_invoke first_clear set_bit offset
    test_bit
slot_is_lost = refl

-- The second slot of a list has the address of another list's node.
slots_overlap : mounted_list_slot 0 1 ≡ mounted_list_node_address 16
unfolding mounted_list_slot mounted_list_node_address structure_address
slots_overlap = refl

-- A list of two nodes, of the indices 0 and 1. The kernel locks an object at 16 times its address.
abbrev in_place : System
in_place w (Call.lock a) = (a * 16, w.words)
in_place w c = (0, w.words)

abbrev place : ℕ → Ptr
place i = mounted_list_info_address i * 16

abbrev mounts : World
mounts = record {
  words = λ a.
      if a == 112
      then 5
      else if a == 116
      then 4
      else if a == 120
      then 1
      else if a == 368
      then 1
      else if a == 376
      then size_max
      else 0;
  calls = [];
}

abbrev two_nodes : List ListNode
two_nodes =
    record { index = 0; used = 5; create_flagged = 4 }
    ∷ record { index = 1; used = 1; create_flagged = 0 }
    ∷ []

-- A callback that counts the slots, up to one with MOUNT_CREATE.
abbrev count_step : ℕ → ℕ → Bool → Bool × ℕ × ℕ
count_step n address flagged = (not flagged, address, suc n)

abbrev count_slots : Callback ℕ
count_slots n address flagged w = (not flagged, address, suc n, w)

mounts-IsMountList : IsMountList place mounts.words 0 two_nodes
unfolding mounted_list_info_address structure_address offset
mounts-IsMountList = (
  refl,
  λ e. absurd (omega arith),
  λ e. absurd (omega arith),
  refl,
  refl,
  (refl, λ e. absurd (omega arith), λ e. absurd (omega arith), refl, refl, refl),
)

count_slots-IsWalk : IsWalk in_place place count_slots count_step
count_slots-IsWalk = record {
  lock = λ w i. refl;
  locked = λ w i index nodes h. h;
  unlocked = λ w i index nodes h. h;
  called = λ d address flagged w. (w, refl, λ index nodes h. h);
}

iterate_over_mounted_list-walk_slots_example :
    (w : World) × (iterate_over_mounted_list in_place count_slots 3 mounts 0 0
      ≡ some (
        Option.get_or (walk_slots count_step (slots two_nodes) 0).0 enoent,
        (walk_slots count_step (slots two_nodes) 0).1,
        w,
      ))
iterate_over_mounted_list-walk_slots_example =
    iterate_over_mounted_list-walk_slots in_place place count_slots count_step count_slots-IsWalk 3
      0 two_nodes 0 mounts mounts-IsMountList (omega arith)

counts_two : (walk_slots count_step (slots two_nodes) 0).1 ≡ 2
unfolding test_bit
counts_two = refl

-- A namespace at 16 times its address, 160 + 256 * 16, with a root and one mount point, 21, for the
-- inode 3 in its bucket, and a new one, 37, with the same inode in another file system.
abbrev in_bucket : MountPoint
in_bucket = record { address = 21; inode = 3; enclosing = 1 }

abbrev added : MountPoint
added = record { address = 37; inode = 3; enclosing = 2 }

abbrev by_address : ℕ → Ptr
by_address a = a * 16

abbrev namespaces : World
namespaces = record {
  words = λ a.
      if a == 160 + 8 + 4 * (hash 3 % 128)
      then 21
      else if a == 336 + 4
      then size_max
      else if a == 336 + 12
      then 1
      else if a == 336 + 16
      then 3
      else if a == 592 + 4
      then size_max
      else if a == 592 + 12
      then 2
      else if a == 592 + 16
      then 3
      else 0;
  calls = [];
}

in_place-IsServed : IsServed in_place by_address
in_place-IsServed = record { lock = λ w a. refl; locked = λ w a. refl; unlocked = λ w a. refl }

in_bucket-IsChain :
    IsChain by_address namespaces.words (namespaces.words (bucket_address 160 3)) (in_bucket ∷ [])
unfolding hash bucket_address offset
in_bucket-IsChain = (refl, λ e. absurd (omega arith), λ e. absurd (omega arith), refl, refl, refl)

added-IsNew : IsNew by_address namespaces.words 160 added (in_bucket ∷ [])
unfolding hash bucket_address offset
added-IsNew = record {
  rooted = λ e. absurd (omega arith);
  alone = (refl, λ e. absurd (omega arith), λ e. absurd (omega arith), refl, refl, refl);
  own = (λ e. absurd (omega arith), λ e. absurd (omega arith));
  bucket = (refl, λ e. absurd (omega arith), λ e. absurd (omega arith), refl, refl, refl);
  bucket_apart = (
    λ e. absurd (omega arith),
    λ e. absurd (omega arith),
    λ e. absurd (omega arith),
    (λ e. absurd (omega arith), λ e. absurd (omega arith), λ e. absurd (omega arith), tt),
  );
  link_apart =
      (λ e. absurd (omega arith), λ e. absurd (omega arith), λ e. absurd (omega arith), tt);
  head_apart = (
    λ e. absurd (omega arith),
    (
      λ e. absurd (omega arith),
      λ e. absurd (omega arith),
      λ e. absurd (omega arith),
      (λ e. absurd (omega arith), λ e. absurd (omega arith), λ e. absurd (omega arith), tt),
    ),
  );
}

find_mount_point-search_example :
    (w : World) × (find_mount_point in_place 2 namespaces 0 3 1
      ≡ some (search_mount_point (in_bucket ∷ []) 3 1, w))
    × (w.words ≡ namespaces.words)
unfolding structure_address
find_mount_point-search_example =
    find_mount_point-search in_place by_address in_place-IsServed 2 namespaces 0 3 1
      (in_bucket ∷ []) (λ e. absurd (omega arith)) in_bucket-IsChain (omega arith)

enter_mount_point-find_mount_point_example :
    (w' : World) × (w'' : World) × (enter_mount_point in_place namespaces 160 592 37 ≡ (true, w'))
    × (find_mount_point in_place 3 w' 0 3 2 ≡ some (37, w''))
unfolding structure_address
enter_mount_point-find_mount_point_example =
    enter_mount_point-find_mount_point in_place by_address in_place-IsServed 3 0 namespaces added
      (in_bucket ∷ []) (λ e. absurd (omega arith)) added-IsNew (omega arith)

-- What a run answers, and a word that it leaves.
abbrev answer_and_word : Option (ℕ × World) → ℕ → Option (ℕ × ℕ)
answer_and_word none a = none
answer_and_word (some (answer, w)) a = some (answer, w.words a)

-- Another mount goes to the first free slot of the first node, with its flag.
inserts : answer_and_word (mounted_list_insert in_place 3 mounts 0 99 8) 112 ≡ some (0, 7)
unfolding mounted_list_insert insert_from insert_round create_mounted_list_entry alloc_structure
    alloc_structure_callback find_slot_for use_slot search_words syscall_invoke first_clear test_bit
    set_bit clear_slot mounted_list_info_address mounted_list_node_address structure_address offset
inserts = refl

inserts_flag : answer_and_word (mounted_list_insert in_place 3 mounts 0 99 8) 116 ≡ some (0, 6)
unfolding mounted_list_insert insert_from insert_round create_mounted_list_entry alloc_structure
    alloc_structure_callback find_slot_for use_slot search_words syscall_invoke first_clear test_bit
    set_bit clear_slot mounted_list_info_address mounted_list_node_address structure_address offset
inserts_flag = refl

-- A slot number out of range is refused, although the kernel answers 0.
out_of_range : (mark_slot_unused in_place mounts 7 256 300).0 ≡ 1
unfolding mark_slot_unused syscall_invoke
out_of_range = refl
