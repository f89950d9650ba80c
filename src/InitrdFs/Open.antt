-- ===== src/InitrdFs/Open.antt =====
-- FD_OPEN of core/initrd_fs/main.c in a directory of an archive that the jax utility wrote.
use cenix.Base.{
  ℕ, zero, suc, ◌+◌, ◌-◌, ◌^◌, ◌<◌, Bool, true, false, ◌&&◌, ◌==◌, if◌then◌else◌, List, [], ◌∷◌,
  ◌++◌, length, arith, ◌≡◌, ◌≢◌, refl, ap, ◌∙◌, subst, Ptr, null, Option, none, some, Bool-cases,
  inl, inr, Option-cases, length-append,
}
use cenix.Base.Memory.{Memory, Holds, Holds-append, Holds-join, offset, offset-lt}
use cenix.Jax.{File}
use cenix.JaxTool.{DiskEntry, record_type, u16_to_le}
use cenix.JaxTool.RoundTrip.{
  IsText, IsEntry, IsAt, described, record_size, header-parts, fields_bytes,
}
use cenix.InitrdFs.{Server}
use cenix.InitrdFs.Walk.{IsDirectory, strip, path_prefix, in_dir}
use cenix.InitrdFs.Directory.{
  Serves, Serves-later, children-First, next_file_in_dir-walked, same, is_child, find_child,
}
use cenix.Errors.{erofs, enoent}
use cenix.Base.Bits.{test_bit}
use cenix.InitrdFs.Handlers.{
  names_file, is_named, find_named, Answers, Call, Reply, Request, handle_open, reply_open,
  no_reply, calling,
}

-- The byte behind a name in an archive of the jax utility is 0, the lowest of the length of the
-- description.
name-Holds :
    (m : Memory) (a end : ℕ) (e : DiskEntry)
    → IsEntry e
    → IsAt m a end e
    → Holds m (a + 3) (e.name ++ 0 ∷ [])
name-Holds m a end e v h =
    let rest = u16_to_le 0 ++ fields_bytes e in
    let (_, r) =
      Holds-append m a (record_type e.visit ∷ u16_to_le (length e.name)) (e.name ++ rest)
        (subst (λ bs. Holds m a bs) (header-parts e v) h.bytes) in
    let (name, behind) = Holds-append m (a + 3) e.name rest r in
    Holds-join m (a + 3) e.name (0 ∷ []) name (behind.0, tt)

strip-Holds :
    (m : Memory) (p : Ptr) (pre name rest zs : List ℕ)
    → strip pre name ≡ some rest
    → Holds m p (name ++ zs)
    → Holds m (p + length pre) (rest ++ zs) × (length name ≡ length pre + length rest)
strip-Holds m p [] name rest zs e h =
    let whole : name ≡ rest = cc in
    (
      subst (λ n. Holds m (p + 0) (n ++ zs)) whole
          (subst (λ q. Holds m q (name ++ zs)) (omega arith) h),
      ap length whole ∙ omega arith,
    )
strip-Holds m p (d ∷ pre) [] rest zs e h = cc
strip-Holds m p (d ∷ pre) (c ∷ name) rest zs e h = elim (Bool-cases (d == c)) [
  | inl y ↦
      let inner : strip pre name ≡ some rest = rw y at e in
      let (k, l) = strip-Holds m (suc p) pre name rest zs inner h.1 in
      (subst (λ q. Holds m q (rest ++ zs)) (omega arith) k, omega (arith, l))
  | inr n ↦ let bad : ◌≡◌ {A = Option (List ℕ)} none (some rest) = rw n at e in cc
]

names_file-same :
    (m : Memory) (p q : Ptr) (name text : List ℕ)
    → Holds m p (name ++ 0 ∷ [])
    → Holds m q (text ++ 0 ∷ [])
    → IsText name
    → IsText text
    → p + length name < 2 ^ 32
    → q + length text < 2 ^ 32
    → names_file m p q (length name) ≡ same name text
unfolding names_file
names_file-same m p q [] [] hp hq tp tq lp lq = rw (hp.0, hq.0) refl
names_file-same m p q [] (x ∷ text) hp hq tp (ne, tq) lp lq = rw (hp.0, hq.0) (ground arith)
names_file-same m p q (c ∷ name) [] hp hq (ne, tp) tq lp lq = rw (hp.0, hq.0) (ground arith)
names_file-same m p q (c ∷ name) (x ∷ text) (ep, hp) (eq, hq) (np, tp) (nq, tq) lp lq =
    rw (ep, eq, offset-lt p 1 (omega arith), offset-lt q 1 (omega arith))
      (ap (λ b. (c == x) && b)
        (names_file-same m (p + 1) (q + 1) name text
          (subst (λ a. Holds m a (name ++ 0 ∷ [])) (omega arith) hp)
          (subst (λ a. Holds m a (text ++ 0 ∷ [])) (omega arith) hq) tp tq (omega arith)
          (omega arith)))

-- The bytes of a name that is a text are not 0 behind the prefix either.
strip-IsText : (pre name rest : List ℕ) → strip pre name ≡ some rest → IsText name → IsText rest
strip-IsText [] name rest e t = let whole : name ≡ rest = cc in subst IsText whole t
strip-IsText (d ∷ pre) [] rest e t = cc
strip-IsText (d ∷ pre) (c ∷ name) rest e (ne, t) = elim (Bool-cases (d == c)) [
  | inl y ↦ let inner : strip pre name ≡ some rest = rw y at e in strip-IsText pre name rest inner t
  | inr n ↦ let bad : ◌≡◌ {A = Option (List ℕ)} none (some rest) = rw n at e in cc
]

length-path_prefix :
    (dir : List ℕ) → (if length dir == 0 then 0 else length dir + 1) ≡ length (path_prefix dir)
length-path_prefix [] = refl
length-path_prefix (d ∷ dir) = rw (length-append dir (b'/' ∷ [])) (ground arith)

-- In a file of the directory, the tests of handle_open compare the name behind the prefix.
is_named-is_child :
    (m : Memory) (dir_file : File) (dir text : List ℕ) (q a end : Ptr) (e : DiskEntry)
    → IsDirectory m dir_file dir
    → IsEntry e
    → IsAt m a end e
    → in_dir dir e.name ≡ true
    → Holds m q (text ++ 0 ∷ [])
    → IsText text
    → q + length text < 2 ^ 32
    → is_named m dir_file q (described a e) ≡ is_child dir text e.name
is_named-is_child m dir_file dir text q a end e d v at inside hq t l =
    elim (Option-cases (strip (path_prefix dir) e.name)) [
      | inl missing ↦ let bad : false ≡ true = rw missing at inside in cc
      | inr (rest, e') ↦
          let pre = path_prefix dir in
          let (h, sizes) =
            strip-Holds m (a + 3) pre e.name rest (0 ∷ []) e' (name-Holds m a end e v at) in
          let same_name =
            names_file-same m (a + 3 + length pre) q rest text h hq
              (strip-IsText pre e.name rest e' v.text) t
              (omega (arith, sizes, at.inside, at.reachable)) l in
          let left : length e.name - length pre ≡ length rest = omega (arith, sizes) in
          let far : offset (a + 3) (length pre) ≡ a + 3 + length pre =
            offset-lt (a + 3) (length pre) (omega (arith, sizes, at.inside, at.reachable)) in
          rw (d.length, length-path_prefix dir, left, far, same_name, inside, e') refl
    ]

-- The search of handle_open gives the address of the first file of the directory with the name, among
-- the files from `a` on.
find_named-find_child :
    (m : Memory) (fuel : ℕ) (server : Server) (junk dir_file : File) (dir text : List ℕ) (q a : Ptr)
    (es : List DiskEntry)
    → Serves m server dir_file dir a es
    → Holds m q (text ++ 0 ∷ [])
    → IsText text
    → q + length text < 2 ^ 32
    → length es < fuel
    → find_named m fuel server dir_file junk q a ≡ some (find_child dir text a es)
unfolding find_named
find_named-find_child m zero server junk dir_file dir text q a es s hq t l b = absurd (omega arith)
find_named-find_child m (suc fuel) server junk dir_file dir text q a es s hq t l b =
    let walk = next_file_in_dir-walked m (suc fuel) server junk dir_file dir a es s b in
    elim (children-First m dir a server.initrd_end es junk s.archive) [
      | inl missing ↦ rw (walk, find_named, missing.ended, missing.named text) refl
      | inr r ↦
          let next = r.at + record_size r.entry in
          let there : (next == null) ≡ false = ground arith in
          let tests =
            is_named-is_child m dir_file dir text q r.at server.initrd_end r.entry s.directory
              r.valid r.lies r.inside hq t l in
          let rest =
            find_named-find_child m fuel server (described r.at r.entry) dir_file dir text q next
              r.rest (Serves-later m server dir_file dir a es junk s r) hq t l
              (omega (arith, r.fewer)) in
          rw (walk ∙ ap some r.found, find_named, there, tests, rest, r.named text)
            (elim (Bool-cases (is_child dir text r.entry.name)) [
              | inl yes_named ↦ rw yes_named refl
              | inr no_named ↦ rw no_named refl
            ])
    ]

abbrev open_value : Answers → ℕ → Option Ptr → ℕ
open_value answers flags none = if test_bit flags 0 then erofs else enoent
open_value answers flags (some p) = answers (Call.node_copy p)

abbrev open_calls : Option Ptr → List Call
open_calls none = Call.lock_name ∷ Call.unlock_name ∷ []
open_calls (some p) = Call.lock_name ∷ Call.node_copy p ∷ Call.unlock_name ∷ []

abbrev gives_fd : Answers → Option Ptr → Bool
gives_fd answers none = false
gives_fd answers (some p) = answers (Call.node_copy p) == 0

-- The reply to FD_OPEN, by the address of the file that is opened.
pub record Opened (answers : Answers) (flags : ℕ) (found : Option Ptr) (reply : Reply)
    : Type 0 where
  pub value : reply.return_value ≡ open_value answers flags found
  pub fd : reply.has_fd ≡ gives_fd answers found
  pub calls : reply.calls ≡ open_calls found

-- FD_OPEN for reading, in a directory of an archive of the jax utility, with the name at `q`: the
-- endpoint is copied with the address of the first file of the directory with that name as its badge,
-- and given to the caller if the copy succeeds; without such a file the answer is ENOENT, or EROFS if
-- it should be created. The name is locked before and unlocked after that, and all the searches end.
pub handle_open-Opened :
    (m : Memory) (answers : Answers) (fuel : ℕ) (server : Server) (received : Request)
    (junk dir_file : File) (dir text : List ℕ) (q a : Ptr) (es : List DiskEntry)
    → Serves m server dir_file dir a es
    → Holds m q (text ++ 0 ∷ [])
    → IsText text
    → q + length text < 2 ^ 32
    → length es < fuel
    → answers Call.lock_name ≡ q
    → q ≢ null
    → test_bit received.open_flags 1 ≡ false
    → test_bit received.open_mode 2 ≡ false
    → test_bit received.open_mode 3 ≡ false
    → (reply : Reply) × (handle_open m answers fuel server received junk dir_file a no_reply
        ≡ some reply)
      × Opened answers received.open_flags (find_child dir text a es) reply
unfolding handle_open reply_open
handle_open-Opened m answers fuel server received junk dir_file dir text q a es s hq t l b name
      there x w p =
    let locked : (q == null) ≡ false = ground (arith, there) in
    let search = find_named-find_child m fuel server junk dir_file dir text q a es s hq t l b in
    (
      reply_open answers received.open_flags (find_child dir text a es)
          (calling no_reply Call.lock_name),
      rw (s.type, x, w, p, name, locked, search) refl,
      elim (Option-cases (find_child dir text a es)) [
        | inl e ↦ rw (e) (record { value = refl; fd = refl; calls = refl })
        | inr (f, e) ↦ rw (e) (record { value = refl; fd = refl; calls = refl })
      ],
    )
