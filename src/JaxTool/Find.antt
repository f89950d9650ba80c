-- ===== src/JaxTool/Find.antt =====
-- jax_find of common/jax.c on an archive that the jax utility wrote.
use cenix.Base.{
  ℕ, zero, suc, ◌+◌, ◌^◌, ◌<◌, Bool, true, false, ◌&&◌, ◌||◌, ◌==◌, leb, if◌then◌else◌, List, [],
  ◌∷◌, ◌++◌, length, arith, ◌≡◌, refl, sym, subst, Ptr, Option, none, some, Bool-cases, inl, inr,
}
use cenix.Base.Memory.{Memory, offset, offset-lt, Holds, Holds-append}
use cenix.Jax.{File, jax_next_file, compare_name, find_file, jax_find, no_file}
use cenix.JaxTool.{DiskEntry, record_type, u16_to_le}
use cenix.JaxTool.RoundTrip.{
  IsText, IsEntry, IsAt, described, record_size, jax_next_file-header, header-parts, fields_bytes,
}

-- The records of the files lie one behind the other from `a` to `end`, and the last file has
-- contents.
abbrev pub IsArchive : Memory → Ptr → Ptr → List DiskEntry → Type 0
IsArchive m a end [] = (a ≡ end)
IsArchive m a end (e ∷ es) = IsEntry e × IsAt m a end e × IsArchive m (a + record_size e) end es

abbrev pub starts_with : List ℕ → List ℕ → Bool
starts_with [] name = true
starts_with (t ∷ ts) [] = false
starts_with (t ∷ ts) (c ∷ cs) = (c == t) && starts_with ts cs

-- The first file of the type, any for 0, whose name starts with the text: where its contents lie,
-- and their size.
abbrev pub find_entry : List ℕ → ℕ → Ptr → List DiskEntry → Option (Ptr × ℕ)
find_entry text type a [] = none
find_entry text type a (e ∷ es) =
    if ((type == 0) || (record_type e.visit == type)) && starts_with text e.name
    then some (a + length e.name + 27, length e.contents)
    else find_entry text type (a + record_size e) es

compare_name-starts_with :
    (m : Memory) (p q : Ptr) (name text : List ℕ)
    → Holds m p name
    → Holds m q (text ++ 0 ∷ [])
    → IsText text
    → p + length name < 2 ^ 32
    → q + length text < 2 ^ 32
    → (m (compare_name m p q (length name)) == 0) ≡ starts_with text name
unfolding compare_name
compare_name-starts_with m p q [] [] hp hq t lp lq = rw (hq.0) refl
compare_name-starts_with m p q [] (x ∷ text) hp hq t lp lq = rw (hq.0) (ground arith)
compare_name-starts_with m p q (c ∷ name) [] hp hq t lp lq = ground (arith, hq.0)
compare_name-starts_with m p q (c ∷ name) (x ∷ text) (e, hp) (d, hq) (ne, t) lp lq =
    let next : (m (compare_name m (offset p 1) (offset q 1) (length name)) == 0)
        ≡ starts_with text name =
      rw (offset-lt p 1 (omega arith), offset-lt q 1 (omega arith))
        (compare_name-starts_with m (p + 1) (q + 1) name text
          (subst (λ a. Holds m a name) (omega arith) hp)
          (subst (λ a. Holds m a (text ++ 0 ∷ [])) (omega arith) hq) t (omega arith)
          (omega arith)) in
    ground (arith, next)

pub name-Holds :
    (m : Memory) (a end : ℕ) (e : DiskEntry) → IsEntry e → IsAt m a end e → Holds m (a + 3) e.name
name-Holds m a end e v h =
    let rest = u16_to_le 0 ++ fields_bytes e in
    let (_, r) =
      Holds-append m a (record_type e.visit ∷ u16_to_le (length e.name)) (e.name ++ rest)
        (subst (λ bs. Holds m a bs) (header-parts e v) h.bytes) in
    (Holds-append m (a + 3) e.name rest r).0

pub jax_next_file_end :
    (m : Memory) (a : ℕ) (f : File)
    → jax_next_file m (record { start = a; end = a }) f ≡ (false, record { start = a; end = a }, f)
unfolding jax_next_file
jax_next_file_end m a f = let ended : leb a a ≡ true = ground arith in rw ended refl

find_file-find_entry :
    (m : Memory) (fuel a end : ℕ) (f : File) (q type : ℕ) (text : List ℕ) (es : List DiskEntry)
    → IsArchive m a end es
    → Holds m q (text ++ 0 ∷ [])
    → IsText text
    → q + length text < 2 ^ 32
    → length es < fuel
    → find_file m fuel (record { start = a; end = end }) f q type ≡ some (find_entry text type a es)
unfolding find_file
find_file-find_entry m zero a end f q type text es h hq t l b = absurd (omega arith)
find_file-find_entry m (suc fuel) a end f q type text [] h hq t l b =
    rw (sym h, jax_next_file_end m a f) refl
find_file-find_entry m (suc fuel) a end f q type text (e ∷ es) (v, at, h) hq t l b =
    let file = described a e in
    let rest =
      find_file-find_entry m fuel (a + record_size e) end file q type text es h hq t l
        (omega arith) in
    let named =
      compare_name-starts_with m (a + 3) q e.name text (name-Holds m a end e v at) hq t
        (omega (arith, at.inside, at.reachable)) l in
    rw (jax_next_file-header m a end e f v at, rest) ground (arith, named, v.small)

-- A leading slash of the text is skipped.
abbrev pub without_slash : List ℕ → List ℕ
without_slash [] = []
without_slash (c ∷ cs) = if c == b'/' then cs else c ∷ cs

-- On an archive of the jax utility whose last file is not empty, jax_find ends, and gives the place
-- and size of the contents of the first file of the asked type whose name starts with the text after
-- its leading slash, or nothing if there is none.
pub jax_find-find_entry :
    (m : Memory) (fuel a end : ℕ) (q type : ℕ) (text : List ℕ) (es : List DiskEntry)
    → IsArchive m a end es
    → Holds m q (text ++ 0 ∷ [])
    → IsText text
    → q + length text + 1 < 2 ^ 32
    → length es < fuel
    → jax_find m fuel (record { start = a; end = end }) q type
      ≡ some (find_entry (without_slash text) type a es)
unfolding jax_find
jax_find-find_entry m fuel a end q type [] es h hq t l b =
    rw (hq.0) (find_file-find_entry m fuel a end no_file q type [] es h hq t (omega arith) b)
jax_find-find_entry m fuel a end q type (c ∷ text) es h (e, hq) (ne, t) l b =
    rw e (elim (Bool-cases (c == b'/')) [
      | inl slash ↦
          rw (slash, offset-lt q 1 (omega arith))
            (find_file-find_entry m fuel a end no_file (q + 1) type text es h
              (subst (λ a. Holds m a (text ++ 0 ∷ [])) (omega arith) hq) t (omega arith) b)
      | inr plain ↦ rw plain (
          find_file-find_entry m fuel a end no_file q type (c ∷ text) es h (e, hq) (ne, t)
            (omega arith) b)
    ])
