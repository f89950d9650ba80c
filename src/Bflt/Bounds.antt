-- ===== src/Bflt/Bounds.antt =====
-- What memory bflt_load changes, and that it ends.
use cenix.Base.{
  ℕ, zero, suc, ◌+◌, ◌-◌, ◌*◌, ◌^◌, ◌≤◌, ◌<◌, ◌≡◌, refl, ap, subst, ◌∙◌, ◌⊎◌, inl, inr, Ptr, null,
  true, false, Option, none, some, arith, ◌==◌, ltb, if◌then◌else◌, Bool-cases,
}
use cenix.Base.Memory.{Memory, offset, offset-lt}
use cenix.Kernel.Arch.{Registers}
use cenix.Bflt.{
  BfltHeader, is_gotpic, offset_to_address, text_start, data_start, load_segments, read_long,
  write_long, relocate, fix_got, relocated, start_registers, bflt_load,
}
use cenix.Bflt.Image.{
  IsImage, facts, sub_long-le, read_apart, segments_gotpic, segments_ram, place_data, place_ram,
}

-- Two memories that are the same but between `lo` and `hi`.
abbrev pub Agree : Ptr → Ptr → Memory → Memory → Type 0
Agree lo hi m m' = (a : Ptr) → (a < lo) ⊎ (hi ≤ a) → m' a ≡ m a

Agree-then :
    (lo hi : Ptr) (m m' m'' : Memory) → Agree lo hi m m' → Agree lo hi m' m'' → Agree lo hi m m''
Agree-then lo hi m m' m'' f g a out = g a out ∙ f a out

-- Where an image ends: with its bss segment.
abbrev pub image_end : BfltHeader → Ptr → Ptr
image_end h allocation = allocation + (h.bss_end - (if is_gotpic h then h.data_start else 64))

write_long-Agree :
    (lo hi p v : ℕ) (m : Memory)
    → lo ≤ p
    → p + 4 ≤ hi
    → hi < 2 ^ 32
    → Agree lo hi m (write_long m p v)
unfolding write_long
write_long-Agree lo hi p v m l h b a (inl out) =
    rw (offset-lt p 1 (omega arith), offset-lt p 2 (omega arith), offset-lt p 3 (omega arith))
      (ground arith)
write_long-Agree lo hi p v m l h b a (inr out) =
    rw (offset-lt p 1 (omega arith), offset-lt p 2 (omega arith), offset-lt p 3 (omega arith))
      (ground arith)

-- A word that lies outside of what has changed.
abbrev IsOutside : Ptr → Ptr → Ptr → ℕ → Type 0
IsOutside lo hi p n = (p + n < 2 ^ 32) × ((p + n ≤ lo) ⊎ (hi ≤ p))

outside_at : (lo hi p n k : ℕ) → IsOutside lo hi p n → k < n → (p + k < lo) ⊎ (hi ≤ p + k)
outside_at lo hi p n k (b, inl l) h = inl (omega arith)
outside_at lo hi p n k (b, inr l) h = inr (omega arith)

read_long-Agree :
    (lo hi p : ℕ) (m m' : Memory)
    → IsOutside lo hi p 4
    → Agree lo hi m m'
    → read_long m' p ≡ read_long m p
unfolding read_long
read_long-Agree lo hi p m m' o f =
    let e₀ : m' p ≡ m p =
      subst (λ q. m' q ≡ m q) (omega arith) (f (p + 0) (outside_at lo hi p 4 0 o (omega arith))) in
    rw
      (
        offset-lt p 1 (omega arith),
        offset-lt p 2 (omega arith),
        offset-lt p 3 (omega arith),
        e₀,
        f (p + 1) (outside_at lo hi p 4 1 o (omega arith)),
        f (p + 2) (outside_at lo hi p 4 2 o (omega arith)),
        f (p + 3) (outside_at lo hi p 4 3 o (omega arith)),
      )
      refl

end_gotpic :
    (h : BfltHeader) (allocation : Ptr)
    → is_gotpic h ≡ true
    → image_end h allocation ≡ allocation + (h.bss_end - h.data_start)
end_gotpic h allocation g = rw g refl

end_ram :
    (h : BfltHeader) (allocation : Ptr)
    → is_gotpic h ≡ false
    → image_end h allocation ≡ allocation + (h.bss_end - 64)
end_ram h allocation g = rw g refl

behind : {lo hi e q a : ℕ} → hi ≡ e → (a < lo) ⊎ (hi ≤ a) → q ≤ e → (a < lo) ⊎ (q ≤ a)
behind e (inl l) h = inl l
behind e (inr l) h = inr (omega arith)

load_segments-Agree :
    (m : Memory) (h : BfltHeader) (header allocation : Ptr)
    → IsImage h header allocation
    → Agree allocation (image_end h allocation) m (load_segments m h header allocation)
load_segments-Agree m h header allocation i a out =
    let (l₁, l₂, l₃, f₁, f₂, apart) = facts i in
    elim (Bool-cases (is_gotpic h)) [
      | inl g ↦
          rw (segments_gotpic m h header allocation i g)
            (read_apart m _ _ _ _ a (behind (end_gotpic h allocation g) out (omega arith)))
      | inr g ↦
          rw (segments_ram m h header allocation i g)
            (read_apart m _ _ _ _ a (behind (end_ram h allocation g) out (omega arith)))
    ]

-- The words that the loop over the relocations reads: offsets of words of the image.
abbrev pub IsTable : Memory → BfltHeader → Ptr → ℕ → Type 0
IsTable m h p zero = Unit
IsTable m h p (suc n) = (read_long m p + 68 ≤ h.bss_end) × IsTable m h (4 + p) n

-- In a binary that runs in place, a relocation in the text is refused.
denied :
    (h : BfltHeader) (header allocation : Ptr) (o : ℕ)
    → IsImage h header allocation
    → is_gotpic h ≡ true
    → o + 64 < h.data_start
    → offset_to_address
        (text_start h header allocation)
        (data_start h allocation)
        (is_gotpic h)
        h.data_start
        o
      ≡ null
unfolding offset_to_address
denied h header allocation o i g l =
    let (l₁, l₂, l₃, f₁, f₂, apart) = facts i in
    let here : ltb o (h.data_start - 64) ≡ true = ground arith in
    rw (sub_long-le h.data_start 64 l₁ (omega arith), here, g) refl

allowed :
    (h : BfltHeader) (header allocation : Ptr) (o : ℕ)
    → IsImage h header allocation
    → is_gotpic h ≡ true
    → h.data_start ≤ o + 64
    → offset_to_address
        (text_start h header allocation)
        (data_start h allocation)
        (is_gotpic h)
        h.data_start
        o
      ≡ offset_to_address
          (text_start h header allocation)
          (data_start h allocation)
          false
          h.data_start
          o
unfolding offset_to_address
allowed h header allocation o i g l =
    let (l₁, l₂, l₃, f₁, f₂, apart) = facts i in
    let here : ltb o (h.data_start - 64) ≡ false = ground arith in
    rw (sub_long-le h.data_start 64 l₁ (omega arith), here) refl

at_word : {t w lo hi e : ℕ} → t ≡ w → lo ≤ w → hi ≡ e → w + 4 ≤ e → (lo ≤ t) × (t + 4 ≤ hi)
at_word p l q r = (omega arith, omega arith)

-- Where a relocation is applied: nowhere, or at a word of the image.
target-cases :
    (h : BfltHeader) (header allocation : Ptr) (o : ℕ)
    → IsImage h header allocation
    → o + 68 ≤ h.bss_end
    → let t =
        offset_to_address
          (text_start h header allocation)
          (data_start h allocation)
          (is_gotpic h)
          h.data_start
          o in
      (t ≡ null) ⊎ ((allocation ≤ t) × (t + 4 ≤ image_end h allocation))
target-cases h header allocation o i b =
    let (l₁, l₂, l₃, f₁, f₂, apart) = facts i in
    elim (Bool-cases (is_gotpic h)) [
      | inl g ↦ elim (Bool-cases (ltb (o + 64) h.data_start)) [
        | inl t ↦ inl (denied h header allocation o i g (ground arith))
        | inr t ↦
            let e = place_data h header allocation o i g (ground arith) (omega arith) in
            inr (
              at_word (allowed h header allocation o i g (ground arith) ∙ e) (omega arith)
                (end_gotpic h allocation g) (ground arith))
      ]
      | inr g ↦ inr (
          at_word
            (ap
                (λ d.
                  offset_to_address (text_start h header allocation) (data_start h allocation) d
                    h.data_start o)
                g
              ∙ place_ram h header allocation o i g (omega arith))
            (omega arith) (end_ram h allocation g) (omega arith))
    ]

end-bounded :
    (h : BfltHeader) (header allocation : Ptr)
    → IsImage h header allocation
    → image_end h allocation < 2 ^ 32
end-bounded h header allocation i =
    let (l₁, l₂, l₃, f₁, f₂, apart) = facts i in
    elim (Bool-cases (is_gotpic h)) [
      | inl g ↦ below (end_gotpic h allocation g) (omega arith)
      | inr g ↦ below (end_ram h allocation g) (omega arith)
    ]
  where
    below : {hi e : ℕ} → hi ≡ e → e < 2 ^ 32 → hi < 2 ^ 32
    below q l = omega arith

relocate-Agree :
    (n : ℕ) (m m' : Memory) (h : BfltHeader) (header allocation p : Ptr)
    → IsImage h header allocation
    → IsTable m h p n
    → IsOutside allocation (image_end h allocation) p (4 * n)
    → Agree allocation (image_end h allocation) m m'
    → Agree allocation (image_end h allocation) m (
        relocate
          (text_start h header allocation)
          (data_start h allocation)
          (is_gotpic h)
          h.data_start
          n
          p
          m')
unfolding relocate
relocate-Agree zero m m' h header allocation p i t o f = f
relocate-Agree (suc n) m m' h header allocation p i (b, t) o f =
    let lo = allocation in
    let hi = image_end h allocation in
    let same : read_long m' p ≡ read_long m p = read_long-Agree lo hi p m m' (first_word o) f in
    let target =
      offset_to_address (text_start h header allocation) (data_start h allocation) (is_gotpic h)
        h.data_start (read_long m p) in
    rw (same, offset-lt p 4 (rest_fits o))
      (relocate-Agree n m _ h header allocation (p + 4) i
        (subst (λ q. IsTable m h q n) (omega arith) t) (later_words o)
        (elim (Bool-cases (target == null)) [
          | inl e ↦ rw e f
          | inr e ↦ elim (target-cases h header allocation (read_long m p) i b) [
            | inl z ↦ absurd (ground arith)
            | inr (l, r) ↦ rw e (
                Agree-then lo hi m m' _ f
                  (write_long-Agree lo hi target _ m' l r (end-bounded h header allocation i)))
          ]
        ]))
  where
    first_word :
        IsOutside allocation (image_end h allocation) p (4 * suc n)
        → IsOutside allocation (image_end h allocation) p 4
    first_word (b, inl l) = (omega arith, inl (omega arith))
    first_word (b, inr l) = (omega arith, inr l)

    rest_fits : IsOutside allocation (image_end h allocation) p (4 * suc n) → p + 4 < 2 ^ 32
    rest_fits (b, l) = omega arith

    later_words :
        IsOutside allocation (image_end h allocation) p (4 * suc n)
        → IsOutside allocation (image_end h allocation) (p + 4) (4 * n)
    later_words (b, inl l) = (omega arith, inl (omega arith))
    later_words (b, inr l) = (omega arith, inr (omega arith))

-- The loop over the global offset table ends at the word that ends the table, or before it.
fix_got-Agree :
    (text d ds fuel k lo hi p : ℕ) (m : Memory)
    → k < fuel
    → read_long m (p + 4 * k) ≡ 0xffff_ffff
    → lo ≤ p
    → p + 4 * k + 4 ≤ hi
    → hi < 2 ^ 32
    → (m' : Memory) × (fix_got text d ds fuel p m ≡ some m') × Agree lo hi m m'
unfolding fix_got
fix_got-Agree text d ds zero k lo hi p m l e a b c = absurd (omega arith)
fix_got-Agree text d ds (suc fuel) zero lo hi p m l e a b c =
    let at_p : read_long m p ≡ 0xffff_ffff =
      subst (λ q. read_long m q ≡ 0xffff_ffff) (omega arith) e in
    let f : (read_long m p == 0xffff_ffff) ≡ true = ground (arith, at_p) in
    rw f (m, refl, λ q o. refl)
fix_got-Agree text d ds (suc fuel) (suc k) lo hi p m l e a b c =
    let v = offset_to_address text d false ds (read_long m p) in
    let m₁ = write_long m p v in
    let kept : read_long m₁ (p + 4 * suc k) ≡ read_long m (p + 4 * suc k) =
      read_long-Agree p (p + 4) (p + 4 * suc k) m m₁ (omega arith, inr (omega arith))
        (write_long-Agree p (p + 4) p v m (omega arith) (omega arith) (omega arith)) in
    let (m', ended, f) =
      fix_got-Agree text d ds fuel k lo hi (p + 4) m₁ (omega arith)
        (subst (λ q. read_long m₁ q ≡ 0xffff_ffff) (omega arith) (kept ∙ e)) (omega arith)
        (omega arith) c in
    elim (Bool-cases (read_long m p == 0xffff_ffff)) [
      | inl g ↦ rw g (m, refl, λ q o. refl)
      | inr g ↦
          rw (g, offset-lt p 4 (omega arith))
            (m', ended, Agree-then lo hi m m₁ m' (write_long-Agree lo hi p v m a (omega arith) c) f)
    ]

-- A binary that can be loaded: besides the image, the offsets of its relocations are those of words
-- in the image, their table is not in the way, and if there is a global offset table, a word of the
-- image ends it once the relocations are applied.
pub record IsLoadable (m : Memory) (h : BfltHeader) (header allocation : Ptr) (got_size : ℕ)
    : Type 0 where
  pub image : IsImage h header allocation
  pub table : IsTable m h (offset header h.relocations_start) h.num_relocations
  pub table_apart :
      (offset header h.relocations_start + 4 * h.num_relocations < 2 ^ 32)
      × ((offset header h.relocations_start + 4 * h.num_relocations ≤ allocation)
          ⊎ (image_end h allocation ≤ offset header h.relocations_start))
  pub got_end :
      is_gotpic h ≡ true
      → (read_long (relocated m h header allocation) (allocation + 4 * got_size) ≡ 0xffff_ffff)
        × (allocation + 4 * got_size + 4 ≤ image_end h allocation)

relocated-Agree :
    (m : Memory) (h : BfltHeader) (header allocation : Ptr) (got_size : ℕ)
    → IsLoadable m h header allocation got_size
    → Agree allocation (image_end h allocation) m (relocated m h header allocation)
unfolding relocated
relocated-Agree m h header allocation got_size l =
    relocate-Agree h.num_relocations m _ h header allocation _ l.image l.table l.table_apart
      (load_segments-Agree m h header allocation l.image)

-- bflt_load ends on a binary that can be loaded, given more fuel than its global offset table has
-- entries, and changes nothing but the image in the allocation, however many relocations and
-- entries there are; the registers are those that start the program.
pub bflt_load-Agree :
    (fuel : ℕ) (m : Memory) (h : BfltHeader) (header allocation : Ptr) (r : Registers)
    (got_size : ℕ)
    → IsLoadable m h header allocation got_size
    → got_size < fuel
    → (m' : Memory) × (bflt_load fuel m h header allocation r
        ≡ some (m', start_registers h header allocation r))
      × Agree allocation (image_end h allocation) m m'
unfolding bflt_load
bflt_load-Agree fuel m h header allocation r got_size l e =
    let hi = image_end h allocation in
    let m₁ = relocated m h header allocation in
    let text = text_start h header allocation in
    let segment = data_start h allocation in
    let f = relocated-Agree m h header allocation got_size l in
    elim (Bool-cases (is_gotpic h)) [
      | inl g ↦
          let (ends, fits) = l.got_end g in
          let (m', fixed, f') =
            fix_got-Agree text segment h.data_start fuel got_size allocation hi allocation m₁ e ends
              (omega arith) fits (end-bounded h header allocation l.image) in
          (
            m',
            with_registers (
                fixed_if (some m₁) g
                  (ap (λ t. fix_got text segment h.data_start fuel t m₁) (at_start g) ∙ fixed)),
            Agree-then allocation hi m m₁ m' f f',
          )
      | inr g ↦ (m₁, with_registers (not_fixed _ _ g), f)
    ]
  where
    with_registers :
        {fixed : Option Memory} {m' : Memory}
        → fixed ≡ some m'
        → let out : Option (Memory × Registers) = elim fixed [
          | none ↦ none
          | some m₂ ↦ some (m₂, start_registers h header allocation r)
        ] in
          out ≡ some (m', start_registers h header allocation r)
    with_registers q = rw q refl

    fixed_if :
        {x y : Option Memory} (z : Option Memory)
        → is_gotpic h ≡ true
        → x ≡ y
        → (if is_gotpic h then x else z) ≡ y
    fixed_if z g q = rw g q

    not_fixed : (x y : Option Memory) → is_gotpic h ≡ false → (if is_gotpic h then x else y) ≡ y
    not_fixed x y g = rw g refl

    at_start : is_gotpic h ≡ true → data_start h allocation ≡ allocation
    at_start g = rw g refl
