-- ===== src/Jax/Bounds.antt =====
-- Where jax_next_file of common/jax.c points to, on whatever bytes the memory has.
use cenix.Base.{
  ℕ, ◌+◌, ◌^◌, ◌≤◌, ◌<◌, Ptr, Bool, true, false, ◌≡◌, refl, ◌∙◌, leb, if◌then◌else◌, arith,
  Bool-cases, inl, inr,
}
use cenix.Base.Memory.{Memory, offset, offset-lt}
use cenix.Jax.{
  Iterator, File, i64_to_ne, u16_to_ne, ends_within, read_name, read_description, read_fields,
  jax_next_file,
}

abbrev pub IsBytes : Memory → Type 0
IsBytes m = (a : ℕ) → m a < 256

-- The fields of a file that the iterator has left behind.
pub record IsWithin (end : Ptr) (iter : Iterator) (file : File) : Type 0 where
  pub same_end : iter.end ≡ end
  pub name : file.name + file.name_length < end
  pub description : file.description + file.description_length < end
  pub contents : file.contents < end
  pub behind : offset file.contents file.size ≡ iter.start
  pub next : iter.start ≤ end

offset-offset : (p n k : ℕ) → offset (offset p n) k ≡ offset p (k + n)
unfolding offset
offset-offset p n k = omega arith

u16_to_ne-lt : (m : Memory) (p : Ptr) → IsBytes m → u16_to_ne m p < 2 ^ 16
unfolding u16_to_ne
u16_to_ne-lt m p b = omega (arith, b (offset p 0), b (offset p 1))

-- A guard that has not been taken: the bytes in front of the iterator are there.
not_ended :
    (iter : Iterator) (n : ℕ)
    → iter.end + n < 2 ^ 32
    → ends_within iter n ≡ false
    → (iter.start + n < iter.end) × (offset iter.start n ≡ iter.start + n)
unfolding offset
not_ended iter n r h = elim (Bool-cases (leb iter.end iter.start)) [
  | inl e ↦ absurd (ground arith)
  | inr e ↦ ground arith
]

guard_passed :
    (b : Bool) (i : Iterator) (f : File) (y : Bool × Iterator × File)
    → (if b then (false, i, f) else y).0 ≡ true
    → (b ≡ false) × (y.0 ≡ true) × ((if b then (false, i, f) else y) ≡ y)
guard_passed true i f y h = cc
guard_passed false i f y h = (refl, h, refl)

-- A file that jax_next_file accepts, of whatever bytes, has its name and its description before the
-- end of the archive, and its contents begin before the end; the iterator moves to the end of the
-- contents, wrapped around as a 32-bit pointer, which is not past the end of the archive.
pub jax_next_file-IsWithin :
    (m : Memory) (iter : Iterator) (file : File)
    → IsBytes m
    → iter.end + 2 ^ 17 < 2 ^ 32
    → (jax_next_file m iter file).0 ≡ true
    → let (found, iter', file') = jax_next_file m iter file in IsWithin iter.end iter' file'
unfolding jax_next_file read_name read_description read_fields
jax_next_file-IsWithin m iter file b r h =
    let (iter₁, file₁) = read_name m iter file in
    let (iter₂, file₂) = read_description m iter₁ file₁ in
    let (iter₃, file₃) = read_fields m iter₂ file₂ in
    let last : Bool × Iterator × File = (leb iter₃.start iter₃.end, iter₃, file₃) in
    let third : Bool × Iterator × File =
      if ends_within iter₂ 22 then (false, iter₂, file₂) else last in
    let second : Bool × Iterator × File =
      if ends_within iter₁ 2 then (false, iter₁, file₁) else third in
    let (open₁, h₁, e₁) = guard_passed (ends_within iter 3) iter file second h in
    let (open₂, h₂, e₂) = guard_passed (ends_within iter₁ 2) iter₁ file₁ third h₁ in
    let (open₃, h₃, e₃) = guard_passed (ends_within iter₂ 22) iter₂ file₂ last h₂ in
    let (l₁, o₁) = not_ended iter 3 (omega (arith, r)) open₁ in
    let (l₂, o₂) = not_ended iter₁ 2 (omega (arith, r)) open₂ in
    let (l₃, o₃) = not_ended iter₂ 22 (omega (arith, r)) open₃ in
    let n = u16_to_ne m (offset iter.start 1) in
    let d = u16_to_ne m iter₁.start in
    let n_small = u16_to_ne-lt m (offset iter.start 1) b in
    let d_small = u16_to_ne-lt m iter₁.start b in
    let s₁ : iter₁.start ≡ iter.start + n + 3 =
      offset-lt iter.start (n + 3) (omega (arith, r, n_small, l₁)) ∙ omega arith in
    let s₂ : iter₂.start ≡ iter₁.start + d + 2 =
      offset-lt iter₁.start (d + 2) (omega (arith, r, d_small, l₂)) ∙ omega arith in
    rw (e₁ ∙ e₂ ∙ e₃) (record {
      same_end = refl;
      name = omega (arith, o₁, s₁, l₂);
      description = omega (arith, o₂, s₂, l₃);
      contents = omega (arith, o₃, l₃);
      behind = offset-offset iter₂.start 22 (i64_to_ne m (offset iter₂.start 14));
      next = ground (arith, h₃);
    })
