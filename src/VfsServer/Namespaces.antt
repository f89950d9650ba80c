-- ===== src/VfsServer/Namespaces.antt =====
-- core/vfs_server/namespaces.c: file system namespaces, each a hash table of mount points.
pub mod Found
pub mod Entered
use cenix.Base.{
  ℕ, zero, suc, ◌+◌, ◌-◌, ◌*◌, ◌/◌, ◌%◌, ◌^◌, Ptr, null, Bool, true, false, not, ◌&&◌, Option, none,
  some, List, [], ◌∷◌, ◌==◌, leb, get_or, if◌then◌else◌,
}
use Prim.Native.Nat.{bit_xor}
use cenix.Base.Memory.{offset}
use cenix.Errors.{enomem}
use cenix.Kernel.State.{at}
use cenix.Kernel.Threads.{size_max}
use cenix.VfsServer.{
  Call, World, System, syscall_invoke, structure_address, alloc_structure, free_structure,
}

-- MOUNT_POINTS_NODE_SLOT, USED_MOUNT_POINT_IDS_SLOT, NAMESPACE_NODE_SLOT and USED_NAMESPACES_SLOT
abbrev pub mount_points_node_slot : ℕ
mount_points_node_slot = 5

abbrev pub used_mount_point_ids_slot : ℕ
used_mount_point_ids_slot = 6

abbrev pub namespace_node_slot : ℕ
namespace_node_slot = 10

abbrev pub used_namespaces_slot : ℕ
used_namespaces_slot = 11

-- MAX_MOUNT_POINTS and MAX_NAMESPACES
abbrev pub max_mount_points : ℕ
max_mount_points = 256

abbrev pub max_namespaces : ℕ
max_namespaces = 256

-- NUM_BUCKETS
abbrev pub num_buckets : ℕ
num_buckets = 128

abbrev pub permutation_table : List ℕ
permutation_table =
    14 ∷ 132 ∷ 225 ∷ 182 ∷ 47 ∷ 210 ∷ 44 ∷ 79 ∷ 83 ∷ 145 ∷ 5 ∷ 135 ∷ 192 ∷ 162 ∷ 205 ∷ 91 ∷ 29 ∷ 55
    ∷ 48 ∷ 152 ∷ 246 ∷ 12 ∷ 117 ∷ 104 ∷ 211 ∷ 119 ∷ 49 ∷ 206 ∷ 36 ∷ 72 ∷ 24 ∷ 3 ∷ 227 ∷ 9 ∷ 41 ∷ 239
    ∷ 250 ∷ 61 ∷ 164 ∷ 200 ∷ 247 ∷ 184 ∷ 108 ∷ 161 ∷ 99 ∷ 185 ∷ 230 ∷ 126 ∷ 96 ∷ 70 ∷ 163 ∷ 170 ∷ 77
    ∷ 15 ∷ 43 ∷ 81 ∷ 76 ∷ 187 ∷ 52 ∷ 180 ∷ 178 ∷ 80 ∷ 86 ∷ 253 ∷ 141 ∷ 105 ∷ 157 ∷ 168 ∷ 93 ∷ 196
    ∷ 193 ∷ 13 ∷ 232 ∷ 125 ∷ 115 ∷ 183 ∷ 127 ∷ 51 ∷ 129 ∷ 222 ∷ 113 ∷ 251 ∷ 121 ∷ 101 ∷ 20 ∷ 169
    ∷ 94 ∷ 197 ∷ 229 ∷ 151 ∷ 218 ∷ 95 ∷ 114 ∷ 64 ∷ 124 ∷ 208 ∷ 147 ∷ 0 ∷ 27 ∷ 103 ∷ 50 ∷ 189 ∷ 252
    ∷ 238 ∷ 107 ∷ 173 ∷ 130 ∷ 235 ∷ 106 ∷ 33 ∷ 167 ∷ 30 ∷ 156 ∷ 237 ∷ 140 ∷ 57 ∷ 214 ∷ 249 ∷ 155
    ∷ 143 ∷ 78 ∷ 39 ∷ 203 ∷ 171 ∷ 2 ∷ 242 ∷ 219 ∷ 177 ∷ 215 ∷ 216 ∷ 54 ∷ 23 ∷ 191 ∷ 34 ∷ 84 ∷ 69
    ∷ 244 ∷ 176 ∷ 45 ∷ 241 ∷ 174 ∷ 158 ∷ 179 ∷ 6 ∷ 153 ∷ 65 ∷ 149 ∷ 68 ∷ 85 ∷ 195 ∷ 112 ∷ 234 ∷ 42
    ∷ 25 ∷ 58 ∷ 254 ∷ 102 ∷ 92 ∷ 100 ∷ 82 ∷ 220 ∷ 236 ∷ 1 ∷ 110 ∷ 56 ∷ 63 ∷ 194 ∷ 136 ∷ 16 ∷ 223
    ∷ 139 ∷ 209 ∷ 35 ∷ 37 ∷ 40 ∷ 87 ∷ 148 ∷ 199 ∷ 201 ∷ 233 ∷ 217 ∷ 255 ∷ 59 ∷ 146 ∷ 207 ∷ 190 ∷ 116
    ∷ 32 ∷ 7 ∷ 4 ∷ 98 ∷ 154 ∷ 97 ∷ 134 ∷ 60 ∷ 46 ∷ 38 ∷ 138 ∷ 22 ∷ 204 ∷ 175 ∷ 172 ∷ 17 ∷ 73 ∷ 133
    ∷ 142 ∷ 10 ∷ 213 ∷ 240 ∷ 11 ∷ 228 ∷ 66 ∷ 131 ∷ 224 ∷ 118 ∷ 74 ∷ 181 ∷ 160 ∷ 19 ∷ 159 ∷ 31 ∷ 53
    ∷ 248 ∷ 120 ∷ 88 ∷ 71 ∷ 90 ∷ 137 ∷ 166 ∷ 165 ∷ 21 ∷ 212 ∷ 122 ∷ 231 ∷ 226 ∷ 18 ∷ 123 ∷ 128 ∷ 109
    ∷ 221 ∷ 144 ∷ 186 ∷ 28 ∷ 243 ∷ 75 ∷ 26 ∷ 188 ∷ 67 ∷ 8 ∷ 89 ∷ 202 ∷ 111 ∷ 150 ∷ 198 ∷ 245 ∷ 62
    ∷ []

-- One round of the loop of hash.
abbrev pub permute : ℕ → ℕ → ℕ
permute result byte = get_or permutation_table (bit_xor result byte) 0

-- hash, over the four bytes of a word, in the order of the memory of a 68000
unfoldable pub hash : ℕ → ℕ
hash value =
    permute
      (permute (permute (permute 0 (value / 2 ^ 24 % 256)) (value / 2 ^ 16 % 256))
        (value / 2 ^ 8 % 256))
      (value % 256)

-- struct fs_namespace, where its words lie
abbrev pub root_address : Ptr → Ptr
root_address namespace = offset namespace 4

unfoldable pub bucket_address : Ptr → ℕ → Ptr
bucket_address namespace inode = offset namespace (8 + 4 * (hash inode % num_buckets))

-- struct mount_point, where its words lie
abbrev pub next_mount_point : Ptr → Ptr
next_mount_point mount_point = offset mount_point 4

abbrev pub enclosing_filesystem : Ptr → Ptr
enclosing_filesystem mount_point = offset mount_point 12

abbrev pub mount_point_inode : Ptr → Ptr
mount_point_inode mount_point = offset mount_point 16

-- The loop over the buckets of a new namespace, with `n` of them left at `p`.
unfoldable pub clear_buckets : ℕ → Ptr → (ℕ → ℕ) → ℕ → ℕ
clear_buckets zero p words = words
clear_buckets (suc n) p words = clear_buckets n (offset p 4) (at words p size_max)

abbrev pub free_mount_point : System → World → ℕ → ℕ × World
free_mount_point system w address =
    let (freed, w') =
      free_structure system w used_mount_point_ids_slot mount_points_node_slot max_mount_points
        address in
    (enomem, w')

unfoldable pub alloc_namespace : System → World → ℕ × World
alloc_namespace system w =
    let (address, w₁) =
      alloc_structure system w used_namespaces_slot namespace_node_slot max_namespaces 520 in
    let (namespace, w₂) = syscall_invoke system w₁ (Call.lock address) in
    let fresh = at (at w₂.words namespace 1) (root_address namespace) size_max in
    let w₃ = record w₂ { words = clear_buckets num_buckets (offset namespace 8) fresh } in
    let (unlocked, w₄) = syscall_invoke system w₃ (Call.unlock address) in
    let (freed, w₅) =
      free_structure system w₂ used_namespaces_slot namespace_node_slot max_namespaces address in
    if address == size_max
    then (size_max, w₁)
    else if namespace == null
    then (size_max, w₅)
    else (address, w₄)

unfoldable pub free_namespace : System → World → ℕ → World
free_namespace system w id =
    let address = structure_address namespace_node_slot id in
    let (namespace, w₁) = syscall_invoke system w (Call.lock address) in
    let references = w₁.words namespace in
    let should_free = leb references 1 in
    let w₂ =
      if should_free then w₁ else record w₁ { words = at w₁.words namespace (references - 1) } in
    let (unlocked, w₃) = syscall_invoke system w₂ (Call.unlock address) in
    let (freed, w₄) =
      free_structure system w₃ used_namespaces_slot namespace_node_slot max_namespaces address in
    if namespace == null then w₁ else if should_free then w₄ else w₃

-- `memcpy(new_mount_point, mount_point, sizeof(struct mount_point))`, with `n` words left
unfoldable pub copy_words : ℕ → Ptr → Ptr → (ℕ → ℕ) → ℕ → ℕ
copy_words zero to from words = words
copy_words (suc n) to from words =
    copy_words n (offset to 4) (offset from 4) (at words to (words from))

-- The branch of add_mount_point_to_namespace for a bucket that has mount points; the Boolean says
-- that the first of them could be locked.
unfoldable pub push_mount_point : System → World → Ptr → Ptr → ℕ → Bool × World
push_mount_point system w bucket new address =
    let old = w.words bucket in
    let (other, w₁) = syscall_invoke system w (Call.lock old) in
    let w₂ = record w₁ { words = at w₁.words other address } in
    let (unlocked, w₃) = syscall_invoke system w₂ (Call.unlock (w₂.words bucket)) in
    let linked = at w₃.words (next_mount_point new) (w₃.words bucket) in
    if other == null then (false, w₁) else (true, record w₃ { words = at linked bucket address })

-- What add_mount_point_to_namespace does with the new mount point in memory.
unfoldable pub enter_mount_point : System → World → Ptr → Ptr → ℕ → Bool × World
enter_mount_point system w namespace new address =
    let bucket = bucket_address namespace (w.words (mount_point_inode new)) in
    if w.words (root_address namespace) == size_max
    then (true, record w { words = at w.words (root_address namespace) address })
    else if w.words bucket == size_max
    then (true, record w { words = at w.words bucket address })
    else push_mount_point system w bucket new address

unfoldable pub add_mount_point_to_namespace : System → World → Ptr → Ptr → ℕ × World
add_mount_point_to_namespace system w namespace mount_point =
    let (address, w₁) =
      alloc_structure system w used_mount_point_ids_slot mount_points_node_slot max_mount_points
        24 in
    let (new, w₂) = syscall_invoke system w₁ (Call.lock address) in
    let w₃ = record w₂ { words = copy_words 6 new mount_point w₂.words } in
    let (entered, w₄) = enter_mount_point system w₃ namespace new address in
    let (unlocked, w₅) = syscall_invoke system w₄ (Call.unlock address) in
    if address == size_max
    then (enomem, w₁)
    else if new == null
    then free_mount_point system w₂ address
    else if not entered
    then free_mount_point system w₄ address
    else (0, w₅)

-- The loop of find_mount_point from the mount point at `address` on.
unfoldable pub find_from : System → ℕ → World → ℕ → ℕ → ℕ → Option (ℕ × World)
find_from system zero w address inode enclosing = none
find_from system (suc fuel) w address inode enclosing =
    let (mount_point, w₁) = syscall_invoke system w (Call.lock address) in
    let next = w₁.words (next_mount_point mount_point) in
    let (unlocked, w₂) = syscall_invoke system w₁ (Call.unlock address) in
    let rest = find_from system fuel w₂ next inode enclosing in
    if address == size_max
    then some (size_max, w)
    else if mount_point == null
    then some (size_max, w₁)
    else if (w₁.words (mount_point_inode mount_point) == inode)
        && (w₁.words (enclosing_filesystem mount_point) == enclosing)
    then some (address, w₂)
    else rest

unfoldable pub find_mount_point : System → ℕ → World → ℕ → ℕ → ℕ → Option (ℕ × World)
find_mount_point system fuel w id inode enclosing =
    let address = structure_address namespace_node_slot id in
    let (namespace, w₁) = syscall_invoke system w (Call.lock address) in
    let first = w₁.words (bucket_address namespace inode) in
    if namespace == null
    then some (size_max, w₁)
    else elim (find_from system fuel w₁ first inode enclosing) [
      | none ↦ none
      | some (found, w₂) ↦ some (found, (syscall_invoke system w₂ (Call.unlock address)).1)
    ]
