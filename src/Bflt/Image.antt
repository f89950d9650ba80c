-- ===== src/Bflt/Image.antt =====
-- Where the bytes of a bFLT file are once its segments are loaded.
use cenix.Base.{
  ℕ, ◌+◌, ◌-◌, ◌^◌, ◌≤◌, ◌<◌, ◌≡◌, refl, ap, ◌⊎◌, inl, inr, Ptr, Bool, true, false, arith, ◌∙◌, ltb,
  if◌then◌else◌, Bool-cases,
}
use cenix.Base.Memory.{Memory, offset, offset-lt}
use cenix.Bflt.{
  BfltHeader, header_size, is_gotpic, sub_long, offset_to_address, text_start, data_start,
  load_segments, copy_bytes, set_bytes,
}

-- A sum that wraps around, less enough to undo that.
sub_long-offset :
    (p o d : ℕ) → d ≤ p + o → d < 2 ^ 32 → p + o - d < 2 ^ 32 → sub_long (offset p o) d ≡ p + o - d
unfolding sub_long offset
sub_long-offset p o d l h b = omega arith

pub sub_long-le : (a b : ℕ) → b ≤ a → a < 2 ^ 32 → sub_long a b ≡ a - b
unfolding sub_long
sub_long-le a b l h = omega arith

-- The segments of the file follow one another, and the file and the memory that they are loaded into
-- lie apart, without wrapping around.
pub record IsImage (h : BfltHeader) (header allocation : Ptr) : Type 0 where
  pub header_first : header_size ≤ h.data_start
  pub data_second : h.data_start ≤ h.data_end
  pub bss_last : h.data_end ≤ h.bss_end
  pub file_fits : header + h.bss_end < 2 ^ 32
  pub memory_fits : allocation + h.bss_end < 2 ^ 32
  pub apart : (header + h.data_end ≤ allocation) ⊎ (allocation + h.bss_end ≤ header)

pub facts :
    {h : BfltHeader} {header allocation : Ptr}
    → IsImage h header allocation
    → (64 ≤ h.data_start)
      × (h.data_start ≤ h.data_end)
      × (h.data_end ≤ h.bss_end)
      × (header + h.bss_end < 2 ^ 32)
      × (allocation + h.bss_end < 2 ^ 32)
      × ((header + h.data_end ≤ allocation) ⊎ (allocation + h.bss_end ≤ header))
facts i = (i.header_first, i.data_second, i.bss_last, i.file_fits, i.memory_fits, i.apart)

-- The address that a relocation for the offset `o` is given.
abbrev pub place : BfltHeader → Ptr → Ptr → ℕ → Ptr
place h header allocation o =
    offset_to_address (text_start h header allocation) (data_start h allocation) false h.data_start
      o

-- What is read after a copy of `n` bytes and `z` zeros behind it.
read_copied :
    (m : Memory) (to from n z a : ℕ)
    → to ≤ a
    → a < to + n
    → set_bytes (copy_bytes m to from n) (to + n) 0 z a ≡ m (from + (a - to))
read_copied m to from n z a l h = ground arith

read_filled :
    (m : Memory) (to from n z a : ℕ)
    → to + n ≤ a
    → a < to + n + z
    → set_bytes (copy_bytes m to from n) (to + n) 0 z a ≡ 0
read_filled m to from n z a l h = ground arith

pub read_apart :
    (m : Memory) (to from n z a : ℕ)
    → (a < to) ⊎ (to + n + z ≤ a)
    → set_bytes (copy_bytes m to from n) (to + n) 0 z a ≡ m a
read_apart m to from n z a (inl l) = ground arith
read_apart m to from n z a (inr l) = ground arith

-- What is read at `k` behind the start, in the copy (`here`) or behind it.
read_segment :
    (m : Memory) (to from n z k : ℕ) (here : Bool) (q : Ptr)
    → from + k ≡ q
    → (here ≡ true → k < n)
    → (here ≡ false → (n ≤ k) × (k < n + z))
    → set_bytes (copy_bytes m to from n) (to + n) 0 z (to + k) ≡ (if here then m q else 0)
read_segment m to from n z k true q e l r =
    let lt = l refl in
    read_copied m to from n z (to + k) (omega arith) (omega arith) ∙ ap m (omega arith)
read_segment m to from n z k false q e l r =
    let (le, lt) = r refl in read_filled m to from n z (to + k) (omega arith) (omega arith)

-- The segments as one copy with zeros behind it.
pub segments_gotpic :
    (m : Memory) (h : BfltHeader) (header allocation : Ptr)
    → IsImage h header allocation
    → is_gotpic h ≡ true
    → load_segments m h header allocation
      ≡ set_bytes
          (copy_bytes m allocation (header + h.data_start) (h.data_end - h.data_start))
          (allocation + (h.data_end - h.data_start))
          0
          (h.bss_end - h.data_end)
unfolding load_segments
segments_gotpic m h header allocation i g =
    let (l₁, l₂, l₃, f₁, f₂, apart) = facts i in
    rw
      (
        g,
        offset-lt header h.data_start (omega arith),
        sub_long-le h.data_end h.data_start l₂ (omega arith),
        offset-lt allocation h.data_end (omega arith),
        sub_long-le (allocation + h.data_end) h.data_start (omega arith) (omega arith),
        sub_long-le h.bss_end h.data_end l₃ (omega arith),
      )
      (ap
        (λ t.
          set_bytes (copy_bytes m allocation (header + h.data_start) (h.data_end - h.data_start)) t
            0 (h.bss_end - h.data_end))
        (omega arith))

pub segments_ram :
    (m : Memory) (h : BfltHeader) (header allocation : Ptr)
    → IsImage h header allocation
    → is_gotpic h ≡ false
    → load_segments m h header allocation
      ≡ set_bytes
          (copy_bytes m allocation (header + 64) (h.data_end - 64))
          (allocation + (h.data_end - 64))
          0
          (h.bss_end - h.data_end)
unfolding load_segments
segments_ram m h header allocation i g =
    let (l₁, l₂, l₃, f₁, f₂, apart) = facts i in
    rw
      (
        g,
        offset-lt header 64 (omega arith),
        sub_long-le h.data_end 64 (omega arith) (omega arith),
        offset-lt allocation h.data_end (omega arith),
        sub_long-le (allocation + h.data_end) 64 (omega arith) (omega arith),
        sub_long-le h.bss_end h.data_end l₃ (omega arith),
      )
      (ap
        (λ t.
          set_bytes (copy_bytes m allocation (header + 64) (h.data_end - 64)) t 0
            (h.bss_end - h.data_end))
        (omega arith))

place_text :
    (h : BfltHeader) (header allocation : Ptr) (o : ℕ)
    → IsImage h header allocation
    → is_gotpic h ≡ true
    → o + 64 < h.data_start
    → place h header allocation o ≡ header + 64 + o
unfolding offset_to_address
place_text h header allocation o i g l =
    let (l₁, l₂, l₃, f₁, f₂, apart) = facts i in
    let here : ltb o (h.data_start - 64) ≡ true = ground arith in
    rw
      (
        g,
        sub_long-le h.data_start 64 l₁ (omega arith),
        here,
        offset-lt header 64 (omega arith),
        offset-lt (header + 64) o (omega arith),
      )
      refl

pub place_data :
    (h : BfltHeader) (header allocation : Ptr) (o : ℕ)
    → IsImage h header allocation
    → is_gotpic h ≡ true
    → h.data_start ≤ o + 64
    → o + 64 < h.bss_end
    → place h header allocation o ≡ allocation + (o + 64 - h.data_start)
unfolding offset_to_address
place_data h header allocation o i g l b =
    let (l₁, l₂, l₃, f₁, f₂, apart) = facts i in
    let here : ltb o (h.data_start - 64) ≡ false = ground arith in
    rw
      (
        g,
        sub_long-le h.data_start 64 l₁ (omega arith),
        here,
        offset-lt allocation o (omega arith),
        sub_long-le (allocation + o) (h.data_start - 64) (omega arith) (omega arith),
      )
      (omega arith)

pub place_ram :
    (h : BfltHeader) (header allocation : Ptr) (o : ℕ)
    → IsImage h header allocation
    → is_gotpic h ≡ false
    → o + 64 < h.bss_end
    → place h header allocation o ≡ allocation + o
unfolding offset_to_address
place_ram h header allocation o i g b =
    let (l₁, l₂, l₃, f₁, f₂, apart) = facts i in
    let ds = offset-lt allocation h.data_start (omega arith) in
    let start = sub_long-le (allocation + h.data_start) 64 (omega arith) (omega arith) in
    elim (Bool-cases (ltb o (h.data_start - 64))) [
      | inl e ↦
          rw
            (
              g,
              sub_long-le h.data_start 64 l₁ (omega arith),
              e,
              offset-lt allocation o (omega arith),
            )
            refl
      | inr e ↦
          rw
            (
              g,
              sub_long-le h.data_start 64 l₁ (omega arith),
              e,
              ds,
              start,
              sub_long-offset (allocation + h.data_start - 64) o (h.data_start - 64) (omega arith)
                  (omega arith) (omega arith),
            )
            (omega arith)
    ]

in_file :
    (h : BfltHeader) (header allocation : Ptr) (o : ℕ)
    → IsImage h header allocation
    → o + 64 < h.data_start
    → (header + 64 + o < allocation)
      ⊎ (allocation + (h.data_end - h.data_start) + (h.bss_end - h.data_end) ≤ header + 64 + o)
in_file h header allocation o i t =
    let (l₁, l₂, l₃, f₁, f₂, apart) = facts i in
    elim apart [ inl before ↦ inl (omega arith) | inr behind ↦ inr (omega arith) ]

-- A file offset before the end of the file's part of the image stands for the address where
-- the byte of the file is found after the segments are loaded, and one behind that, in the bss
-- segment, for an address with a 0, for a binary that runs in place as for one that is copied.
pub load_segments-offset_to_address :
    (m : Memory) (h : BfltHeader) (header allocation : Ptr) (o : ℕ)
    → IsImage h header allocation
    → o + header_size < h.bss_end
    → load_segments m h header allocation (place h header allocation o)
      ≡ (if ltb (o + header_size) h.data_end then m (header + header_size + o) else 0)
load_segments-offset_to_address m h header allocation o i l =
    let (l₁, l₂, l₃, f₁, f₂, apart) = facts i in
    elim (Bool-cases (is_gotpic h)) [
      | inl g ↦ elim (Bool-cases (ltb (o + 64) h.data_start)) [
        | inl t ↦
            let here : ltb (o + header_size) h.data_end ≡ true = ground arith in
            rw
              (
                segments_gotpic m h header allocation i g,
                place_text h header allocation o i g (ground arith),
                here,
              )
              (read_apart m allocation (header + h.data_start) (h.data_end - h.data_start)
                (h.bss_end - h.data_end) (header + 64 + o)
                (in_file h header allocation o i (ground arith)))
        | inr t ↦
            rw
              (
                segments_gotpic m h header allocation i g,
                place_data h header allocation o i g (ground arith) l,
              )
              (read_segment m allocation (header + h.data_start) (h.data_end - h.data_start)
                (h.bss_end - h.data_end) (o + 64 - h.data_start) (ltb (o + 64) h.data_end)
                (header + 64 + o) (ground arith) (λ e. ground arith) (λ e. ground arith))
      ]
      | inr g ↦
          rw (segments_ram m h header allocation i g, place_ram h header allocation o i g l)
            (read_segment m allocation (header + 64) (h.data_end - 64) (h.bss_end - h.data_end) o
              (ltb (o + 64) h.data_end) (header + 64 + o) (omega arith) (λ e. ground arith)
              (λ e. ground arith))
    ]
