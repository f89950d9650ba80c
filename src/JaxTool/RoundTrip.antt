-- ===== src/JaxTool/RoundTrip.antt =====
-- What jax_next_file of common/jax.c reads of the bytes that the jax utility writes for a file.
use native.Mathlib.Nat.{pow-suc, add-zero}
use cenix.Base.{
  ℕ, zero, suc, ◌+◌, ◌/◌, ◌%◌, ◌^◌, ◌≤◌, ◌<◌, true, false, leb, List, [], ◌∷◌, ◌++◌, length, take,
  arith, ◌≡◌, refl, ap, sym, ◌∙◌, subst, ◌≢◌, Ptr,
}
use cenix.Base.Memory.{Memory, offset, offset-lt, Holds, Holds-append}
use cenix.Jax.{
  File, u16_to_ne, i64_to_ne, read_name, read_description, read_fields, jax_next_file, byte,
  bytes_to_ne, ends_within,
}
use cenix.JaxTool.{
  DiskEntry, bytes_le, header, record_type, written_size, is_failure, u16_to_le, i64_to_le,
}

byte-cons :
    (m : Memory) (p i b : ℕ) (bs : List ℕ)
    → Holds m (p + i) (b ∷ bs)
    → p + i < 2 ^ 32
    → (byte m p i ≡ b) × Holds m (p + suc i) bs
byte-cons m p i b bs (e, h) l = rw (offset-lt p i l) (e, subst (λ a. Holds m a bs) (omega arith) h)

bytes_to_ne-bytes_le :
    (m : Memory) (p n i v : ℕ)
    → Holds m (p + i) (bytes_le n v)
    → p + i + n < 2 ^ 32
    → v < 256 ^ n
    → bytes_to_ne m p i n ≡ v
bytes_to_ne-bytes_le m p zero i v h l b = omega arith
bytes_to_ne-bytes_le m p (suc n) i v h l b =
    let (e, h') = byte-cons m p i (v % 256) (bytes_le n (v / 256)) h (omega arith) in
    omega (
      arith,
      e,
      bytes_to_ne-bytes_le m p n (suc i) (v / 256) h' (omega arith) (omega (arith, pow-suc 256 n)),
    )

i64_to_ne-i64_to_le :
    (m : Memory) (a v : ℕ)
    → Holds m a (i64_to_le v)
    → a + 8 < 2 ^ 32
    → v < 2 ^ 64
    → i64_to_ne m a ≡ v
unfolding i64_to_ne
i64_to_ne-i64_to_le m a v h l b =
    bytes_to_ne-bytes_le m a 8 0 v (subst (λ p. Holds m p (i64_to_le v)) (omega arith) h)
      (omega arith) (omega arith)

u16_to_ne-u16_to_le :
    (m : Memory) (a v : ℕ) → Holds m a (u16_to_le v) → a + 2 < 2 ^ 32 → u16_to_ne m a ≡ v % 2 ^ 16
unfolding u16_to_ne
u16_to_ne-u16_to_le m a v h l =
    let h₀ : Holds m (a + 0) (u16_to_le v) =
      subst (λ p. Holds m p (u16_to_le v)) (sym (add-zero a)) h in
    let (e, h₁) = byte-cons m a 0 (v % 256) (bytes_le 1 (v / 256)) h₀ (omega (arith, l)) in
    let (e', _) = byte-cons m a 1 (v / 256 % 256) [] h₁ (omega arith) in omega (arith, e, e')

-- Text without a zero byte.
abbrev pub IsText : List ℕ → Type 0
IsText [] = Unit
IsText (c ∷ cs) = (c ≢ 0) × IsText cs

-- A visited file with a name, with fields in their ranges, and with the contents that stat says.
pub record IsEntry (e : DiskEntry) : Type 0 where
  pub visited : is_failure e.visit ≡ false
  pub named : 0 < length e.name
  pub name : length e.name < 2 ^ 16
  pub text : IsText e.name
  pub mtime : e.mtime < 2 ^ 64
  pub small : length e.contents < 2 ^ 31
  pub size : written_size e ≡ length e.contents

-- The struct jax_file of a record at the address `a`.
abbrev pub described : Ptr → DiskEntry → File
described a e = record {
  type = record_type e.visit;
  name_length = length e.name;
  name = a + 3;
  description_length = 0;
  description = a + length e.name + 5;
  timestamp = e.mtime;
  mode = e.mode % 2 ^ 16;
  owner = e.uid % 2 ^ 16;
  group = e.gid % 2 ^ 16;
  size = length e.contents;
  contents = a + length e.name + 27;
}

take_all {ℓ} : {A : Type ℓ} (xs : List A) → take (length xs) xs ≡ xs
take_all [] = refl
take_all (x ∷ xs) = ap (λ t. x ∷ t) (take_all xs)

pub fields_bytes : DiskEntry → List ℕ
fields_bytes e =
    i64_to_le e.mtime
    ++ (u16_to_le e.mode ++ (u16_to_le e.uid ++ (u16_to_le e.gid ++ i64_to_le (length e.contents))))

pub header-parts :
    (e : DiskEntry)
    → IsEntry e
    → header e
      ≡ (record_type e.visit ∷ u16_to_le (length e.name))
        ++ (e.name ++ (u16_to_le 0 ++ fields_bytes e))
unfolding fields_bytes header
header-parts e v =
    let short : length e.name % 2 ^ 16 ≡ length e.name = omega (arith, v.name) in
    rw (short, take_all e.name, v.size)

read_name_lem :
    (m : Memory) (a end t n : ℕ) (f : File)
    → Holds m a (t ∷ u16_to_le n)
    → n < 2 ^ 16
    → a + n + 3 < 2 ^ 32
    → read_name m (record { start = a; end = end }) f ≡ (
      record { start = a + n + 3; end = end },
      record f { type = t; name_length = n; name = a + 3 },
    )
unfolding read_name
read_name_lem m a end t n f (e, h) l r =
    let at_length : u16_to_ne m (offset a 1) ≡ n = rw (offset-lt a 1 (omega arith)) (
      u16_to_ne-u16_to_le m (a + 1) n (subst (λ p. Holds m p (u16_to_le n)) (omega arith) h)
        (omega arith)
      ∙ omega arith) in
    let at_type : m (offset a 0) ≡ t = ap m (offset-lt a 0 (omega arith) ∙ omega arith) ∙ e in
    let at_end : offset a (n + 3) ≡ a + n + 3 = offset-lt a (n + 3) (omega arith) ∙ omega arith in
    rw (at_length, at_type, at_end, offset-lt a 3 (omega arith))

read_description_lem :
    (m : Memory) (a end : ℕ) (f : File)
    → Holds m a (u16_to_le 0)
    → a + 2 < 2 ^ 32
    → read_description m (record { start = a; end = end }) f ≡ (
      record { start = a + 2; end = end },
      record f { description_length = 0; description = a + 2 },
    )
unfolding read_description
read_description_lem m a end f h r = rw (u16_to_ne-u16_to_le m a 0 h r, offset-lt a 2 r)

read_fields_lem :
    (m : Memory) (a end : ℕ) (e : DiskEntry) (f : File)
    → IsEntry e
    → Holds m a (fields_bytes e)
    → a + length e.contents + 22 < 2 ^ 32
    → read_fields m (record { start = a; end = end }) f ≡ (
      record { start = a + length e.contents + 22; end = end },
      record f {
        timestamp = e.mtime;
        mode = e.mode % 2 ^ 16;
        owner = e.uid % 2 ^ 16;
        group = e.gid % 2 ^ 16;
        size = length e.contents;
        contents = a + 22;
      },
    )
unfolding read_fields fields_bytes
read_fields_lem m a end e f v h r =
    let n = length e.contents in
    let group_bytes = u16_to_le e.gid ++ i64_to_le n in
    let owner_bytes = u16_to_le e.uid ++ group_bytes in
    let (h₀, r₀) = Holds-append m a (i64_to_le e.mtime) (u16_to_le e.mode ++ owner_bytes) h in
    let (h₁, r₁) = Holds-append m (a + 8) (u16_to_le e.mode) owner_bytes r₀ in
    let (h₂, r₂) = Holds-append m (a + 8 + 2) (u16_to_le e.uid) group_bytes r₁ in
    let (h₃, h₄) = Holds-append m (a + 8 + 2 + 2) (u16_to_le e.gid) (i64_to_le n) r₂ in
    let p₁ : a + 8 + 2 ≡ a + 10 = omega arith in
    let p₂ : a + 8 + 2 + 2 ≡ a + 12 = omega arith in
    let p₃ : a + 8 + 2 + 2 + 2 ≡ a + 14 = omega arith in
    let h₂' = subst (λ p. Holds m p (u16_to_le e.uid)) p₁ h₂ in
    let h₃' = subst (λ p. Holds m p (u16_to_le e.gid)) p₂ h₃ in
    let h₄' = subst (λ p. Holds m p (i64_to_le n)) p₃ h₄ in
    let far : offset a (n + 22) ≡ a + n + 22 = offset-lt a (n + 22) (omega arith) ∙ omega arith in
    rw
      (
        offset-lt a 8 (omega arith),
        offset-lt a 10 (omega arith),
        offset-lt a 12 (omega arith),
        offset-lt a 14 (omega arith),
        offset-lt a 22 (omega arith),
        i64_to_ne-i64_to_le m a e.mtime h₀ (omega arith) v.mtime,
        u16_to_ne-u16_to_le m (a + 8) e.mode h₁ (omega arith),
        u16_to_ne-u16_to_le m (a + 10) e.uid h₂' (omega arith),
        u16_to_ne-u16_to_le m (a + 12) e.gid h₃' (omega arith),
        i64_to_ne-i64_to_le m (a + 14) n h₄' (omega arith) (omega (arith, v.small)),
        far,
      )
      refl

-- The number of bytes of a record.
abbrev pub record_size : DiskEntry → ℕ
record_size e = length e.name + length e.contents + 27

-- The record of `e` with its contents lies at `a`, before `end`, and is not the empty last one.
pub record IsAt (m : Memory) (a end : ℕ) (e : DiskEntry) : Type 0 where
  pub bytes : Holds m a (header e)
  pub contents : Holds m (a + length e.name + 27) e.contents
  pub inside : a + record_size e ≤ end
  pub more : a + length e.name + 27 < end
  pub reachable : end + 22 < 2 ^ 32

not-ends_within :
    (s end n : ℕ)
    → s + n < end
    → end < 2 ^ 32
    → ends_within (record { start = s; end = end }) n ≡ false
not-ends_within s end n h l = rw (offset-lt s n (omega arith)) (ground arith)

-- With a record of the jax utility in front of it, jax_next_file gives the struct of that file, and
-- moves on to the byte behind its contents; only a file without contents at the very end of the
-- archive is refused.
pub jax_next_file-header :
    (m : Memory) (a end : ℕ) (e : DiskEntry) (f : File)
    → IsEntry e
    → IsAt m a end e
    → jax_next_file m (record { start = a; end = end }) f
      ≡ (true, record { start = a + record_size e; end = end }, described a e)
unfolding jax_next_file
jax_next_file-header m a end e f v h =
    let n = length e.name in
    let (h₀, r₀) =
      Holds-append m a (record_type e.visit ∷ u16_to_le n)
        (e.name ++ (u16_to_le 0 ++ fields_bytes e))
        (subst (λ bs. Holds m a bs) (header-parts e v) h.bytes) in
    let (_, r₁) = Holds-append m (a + 3) e.name (u16_to_le 0 ++ fields_bytes e) r₀ in
    let (h₂, h₃) = Holds-append m (a + 3 + n) (u16_to_le 0) (fields_bytes e) r₁ in
    let p₂ : a + 3 + n ≡ a + n + 3 = omega arith in
    let p₃ : a + 3 + n + 2 ≡ a + n + 3 + 2 = omega arith in
    let name =
      read_name_lem m a end (record_type e.visit) n f h₀ v.name
        (omega (arith, h.inside, h.reachable)) in
    let h₂' = subst (λ p. Holds m p (u16_to_le 0)) p₂ h₂ in
    let h₃' = subst (λ p. Holds m p (fields_bytes e)) p₃ h₃ in
    let f₁ = record f { type = record_type e.visit; name_length = n; name = a + 3 } in
    let description =
      read_description_lem m (a + n + 3) end f₁ h₂' (omega (arith, h.inside, h.reachable)) in
    let f₂ = record f₁ { description_length = 0; description = a + n + 3 + 2 } in
    let fields =
      read_fields_lem m (a + n + 3 + 2) end e f₂ v h₃' (omega (arith, h.inside, h.reachable)) in
    let behind : a + n + 3 + 2 + length e.contents + 22 ≡ a + record_size e = omega arith in
    let reached : leb (a + record_size e) end ≡ true = ground (arith, h.inside) in
    let p : a + n + 3 + 2 ≡ a + n + 5 = omega arith in
    let q : a + n + 3 + 2 + 22 ≡ a + n + 27 = omega arith in
    rw
      (
        name,
        description,
        fields,
        not-ends_within a end 3 (omega (arith, h.more)) (omega (arith, h.reachable)),
        not-ends_within (a + n + 3) end 2 (omega (arith, h.more)) (omega (arith, h.reachable)),
        not-ends_within (a + n + 3 + 2) end 22 (omega (arith, h.more)) (omega (arith, h.reachable)),
        behind,
        reached,
      )
      (rw (q, p) refl)
