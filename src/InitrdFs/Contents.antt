-- ===== src/InitrdFs/Contents.antt =====
-- Reading a file of the initrd: handle_read of core/initrd_fs/main.c on an archive that the jax
-- utility wrote.
use cenix.Base.{
  ℕ, zero, suc, ◌+◌, ◌-◌, ◌^◌, ◌%◌, ◌<◌, false, ◌==◌, leb, if◌then◌else◌, min, List, [], ◌∷◌,
  length, take, drop, arith, ◌≡◌, refl, ap, subst, Ptr, some, Bool-cases, inl, inr,
}
use cenix.Base.Memory.{Memory, Holds, offset, offset-lt}
use cenix.Jax.{File, type_directory}
use cenix.JaxTool.{DiskEntry}
use cenix.JaxTool.RoundTrip.{IsEntry, IsAt, described}
use cenix.InitrdFs.{Server}
use cenix.InitrdFs.Handlers.{Contents, slice, read_file, handle_read}

slice-take :
    (m : Memory) (p k n : ℕ) (bytes : List ℕ)
    → Holds m p bytes
    → p + length bytes < 2 ^ 32
    → k ≡ min n (length bytes)
    → slice m p k ≡ take n bytes
slice-take m p zero zero bytes h l e = refl
slice-take m p zero (suc n) [] h l e = refl
slice-take m p zero (suc n) (x ∷ bytes) h l e = absurd (omega arith)
slice-take m p (suc k) zero bytes h l e = absurd (omega arith)
slice-take m p (suc k) (suc n) [] h l e = absurd (omega arith)
slice-take m p (suc k) (suc n) (x ∷ bytes) (d, h) l e =
    rw (d, offset-lt p 1 (omega arith))
      (ap (λ t. x ∷ t)
        (slice-take m (p + 1) k n bytes (subst (λ a. Holds m a bytes) (omega arith) h) (omega arith)
          (omega arith)))

take_none : (k : ℕ) (bytes : List ℕ) → length bytes ≡ 0 → take k bytes ≡ []
take_none zero bytes e = refl
take_none (suc k) [] e = refl
take_none (suc k) (x ∷ bytes) e = absurd (omega arith)

drop-Holds :
    (m : Memory) (p k : ℕ) (bytes : List ℕ) → Holds m p bytes → Holds m (p + k) (drop k bytes)
drop-Holds m p zero bytes h = subst (λ a. Holds m a bytes) (omega arith) h
drop-Holds m p (suc k) [] h = tt
drop-Holds m p (suc k) (x ∷ bytes) h =
    subst (λ a. Holds m a (drop k bytes)) (omega arith) (drop-Holds m (suc p) k bytes h.1)

length-drop : (k : ℕ) (bytes : List ℕ) → length (drop k bytes) ≡ length bytes - k
length-drop zero bytes = omega arith
length-drop (suc k) [] = omega arith
length-drop (suc k) (x ∷ bytes) = omega (arith, length-drop k bytes)

length-take : (k : ℕ) (bytes : List ℕ) → length (take k bytes) ≡ min k (length bytes)
length-take zero bytes = omega arith
length-take (suc k) [] = omega arith
length-take (suc k) (x ∷ bytes) = omega (arith, length-take k bytes)

-- A read of a file that is no directory, at a position and with a size whose sum is a size_t, gives
-- the bytes of the file from the position on, as many as were asked for or as there are, and their
-- number.
pub handle_read-take :
    (m : Memory) (fuel : ℕ) (server : Server) (badge : ℕ) (junk : File) (a end : Ptr)
    (e : DiskEntry) (position read_size : ℕ)
    → IsEntry e
    → IsAt m a end e
    → ((described a e).type == type_directory) ≡ false
    → position + read_size < 2 ^ 32
    → let part = take read_size (drop position e.contents) in
      handle_read m fuel server badge junk (described a e) position read_size
      ≡ some (0, length part, Contents.bytes part)
unfolding handle_read read_file
handle_read-take m fuel server badge junk a end e position read_size v at file small =
    let n = length e.contents in
    let p = a + length e.name + 27 in
    let rest = drop position e.contents in
    let size : n % 2 ^ 32 ≡ n = omega (arith, v.small) in
    let sum : (position + read_size) % 2 ^ 32 ≡ position + read_size = omega arith in
    let left = length-drop position e.contents in
    let got = length-take read_size rest in
    rw (file, size, sum)
      (elim (Bool-cases (leb n position)) [
        | inl behind ↦ rw (behind, take_none read_size rest (ground (arith, left, behind))) refl
        | inr before ↦
            let far : offset p position ≡ p + position =
              offset-lt p position (ground (arith, at.inside, at.reachable, before)) in
            let count : (if leb n (position + read_size) then n - position else read_size)
                ≡ min read_size (length rest) =
              ground (arith, left, before) in
            rw (before, far, count, got)
              (ap (λ t. some (0, min read_size (length rest), Contents.bytes t))
                (slice-take m (p + position) (min read_size (length rest)) read_size rest
                  (drop-Holds m p position e.contents at.contents)
                  (ground (arith, left, before, at.inside, at.reachable)) refl))
      ])
