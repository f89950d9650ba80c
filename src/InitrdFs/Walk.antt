-- ===== src/InitrdFs/Walk.antt =====
-- next_file_in_dir of core/initrd_fs/main.c on an archive that the jax utility wrote.
use cenix.Base.{
  ℕ, zero, suc, ◌+◌, ◌-◌, ◌^◌, ◌<◌, Bool, false, not, ◌||◌, ◌==◌, ltb, if◌then◌else◌, List, [], ◌∷◌,
  ◌++◌, length, arith, ◌≡◌, refl, ap, sym, ◌∙◌, subst, Ptr, null, Option, none, some, Bool-cases,
  inl, inr, has,
}
use cenix.Base.Memory.{Memory, offset, offset-lt, Holds}
use cenix.Jax.{File}
use cenix.JaxTool.{DiskEntry}
use cenix.JaxTool.RoundTrip.{described, record_size, jax_next_file-header}
use cenix.JaxTool.Find.{IsArchive, name-Holds, jax_next_file_end}
use cenix.InitrdFs.{Found, next_file, has_separator, same_prefix, is_in_dir, walk_dir}

-- What is left of a name behind a prefix.
abbrev pub strip : List ℕ → List ℕ → Option (List ℕ)
strip [] name = some name
strip (d ∷ ds) [] = none
strip (d ∷ ds) (c ∷ cs) = if d == c then strip ds cs else none

abbrev pub is_simple : Option (List ℕ) → Bool
is_simple none = false
is_simple (some name) = not (has b'/' name)

abbrev pub path_prefix : List ℕ → List ℕ
path_prefix [] = []
path_prefix (d ∷ ds) = (d ∷ ds) ++ b'/' ∷ []

-- The name is the path of the directory, a separator, and one more component; or just that
-- component for the root, whose path is empty.
abbrev pub in_dir : List ℕ → List ℕ → Bool
in_dir dir name = is_simple (strip (path_prefix dir) name)

has_separator-has :
    (m : Memory) (p : Ptr) (name : List ℕ)
    → Holds m p name
    → p + length name < 2 ^ 32
    → has_separator m p (length name) ≡ has b'/' name
unfolding has_separator
has_separator-has m p [] h l = refl
has_separator-has m p (c ∷ cs) (e, h) l =
    let rest : has_separator m (offset p 1) (length cs) ≡ has b'/' cs =
      rw (offset-lt p 1 (omega arith)) (
        has_separator-has m (p + 1) cs (subst (λ a. Holds m a cs) (omega arith) h) (omega arith)) in
    ground (arith, rest, e)

-- The tests for a directory other than the root.
below : Memory → Ptr → Ptr → ℕ → ℕ → Bool
below m dir name n length =
    if ltb length (n + 1)
    then false
    else if not (same_prefix m dir name n) || not (m (offset name n) == b'/')
    then false
    else not (has_separator m (offset name (n + 1)) (length - (n + 1)))

below-strip :
    (m : Memory) (p q : Ptr) (dir name : List ℕ)
    → Holds m p dir
    → Holds m q name
    → p + length dir < 2 ^ 32
    → q + length name < 2 ^ 32
    → below m p q (length dir) (length name) ≡ is_simple (strip (dir ++ b'/' ∷ []) name)
unfolding below same_prefix
below-strip m p q [] [] hp hq lp lq = ground arith
below-strip m p q [] (c ∷ name) hp (e, hq) lp lq =
    let rest : has_separator m (offset q 1) (length name) ≡ has b'/' name =
      rw (offset-lt q 1 (omega arith)) (
        has_separator-has m (q + 1) name (subst (λ a. Holds m a name) (omega arith) hq)
          (omega arith)) in
    let first : m (offset q 0) ≡ c = ap m (offset-lt q 0 (omega arith) ∙ omega arith) ∙ e in
    let less : suc (length name) - 1 ≡ length name = omega arith in
    rw (first, less, rest) (ground arith)
below-strip m p q (d ∷ dir) [] hp hq lp lq = ground arith
below-strip m p q (d ∷ dir) (c ∷ name) (ep, hp) (eq, hq) lp lq =
    let rest =
      below-strip m (p + 1) (q + 1) dir name (subst (λ a. Holds m a dir) (omega arith) hp)
        (subst (λ a. Holds m a name) (omega arith) hq) (omega arith) (omega arith) in
    let n = length dir in
    let at_separator : offset q (suc n) ≡ offset (q + 1) n = unfold offset in omega arith in
    let behind : offset q (suc n + 1) ≡ offset (q + 1) (n + 1) = unfold offset in omega arith in
    let less : suc (length name) - (suc n + 1) ≡ length name - (n + 1) = omega arith in
    rw
      (at_separator, behind, less, ep, eq, offset-lt p 1 (omega arith), offset-lt q 1 (omega arith))
      (ground (arith, rest))

-- The struct is that of the directory with the path `dir`, empty for the root.
pub record IsDirectory (m : Memory) (file : File) (dir : List ℕ) : Type 0 where
  pub length : file.name_length ≡ length dir
  pub name : Holds m file.name dir
  pub reachable : file.name + file.name_length < 2 ^ 32

is_in_dir-in_dir :
    (m : Memory) (dir_file : File) (dir : List ℕ) (a : Ptr) (e : DiskEntry)
    → IsDirectory m dir_file dir
    → Holds m (a + 3) e.name
    → a + 3 + length e.name < 2 ^ 32
    → is_in_dir m dir_file (described a e) ≡ in_dir dir e.name
unfolding is_in_dir below
is_in_dir-in_dir m dir_file [] a e d h l =
    rw (d.length) (ap not (has_separator-has m (a + 3) e.name h l))
is_in_dir-in_dir m dir_file (c ∷ dir) a e d h l =
    let r = d.reachable in
    let s = d.length in
    let nested : (suc (length dir) == 0) ≡ false = ground arith in
    rw (d.length, nested)
      (below-strip m dir_file.name (a + 3) (c ∷ dir) e.name d.name h (omega arith) l)

-- Where the walk from `a` on ends.
abbrev pub walked : List ℕ → Ptr → List DiskEntry → File → Found
walked dir a [] f = record { next = null; file = f; file_address = null }
walked dir a (e ∷ es) f =
    if in_dir dir e.name
    then record { next = a + record_size e; file = described a e; file_address = a }
    else walked dir (a + record_size e) es (described a e)

-- The walk ends at the first file of the directory that lies at `a` or behind it, and at NULL if
-- there is none.
pub walk_dir-walked :
    (m : Memory) (fuel : ℕ) (dir_file : File) (dir : List ℕ) (a end : Ptr) (f : File)
    (es : List DiskEntry)
    → IsDirectory m dir_file dir
    → IsArchive m a end es
    → length es < fuel
    → walk_dir m fuel dir_file a end f ≡ some (walked dir a es f)
unfolding walk_dir next_file
walk_dir-walked m zero dir_file dir a end f es d h b = absurd (omega arith)
walk_dir-walked m (suc fuel) dir_file dir a end f [] d h b =
    rw (sym h, jax_next_file_end m a f) refl
walk_dir-walked m (suc fuel) dir_file dir a end f (e ∷ es) d (v, at, h) b =
    let there : (a + record_size e == null) ≡ false = ground arith in
    let tests =
      is_in_dir-in_dir m dir_file dir a e d (name-Holds m a end e v at)
        (omega (arith, at.inside, at.reachable)) in
    let rest =
      walk_dir-walked m fuel dir_file dir (a + record_size e) end (described a e) es d h
        (omega arith) in
    rw (jax_next_file-header m a end e f v at, there, tests)
      (elim (Bool-cases (in_dir dir e.name)) [
        | inl found ↦ rw found refl
        | inr other ↦ rw other rest
      ])
