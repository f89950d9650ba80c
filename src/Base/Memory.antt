-- ===== src/Base/Memory.antt =====
-- A memory of bytes behind 32-bit pointers, and what it means that bytes lie at an address.
use Prim.Native.Nat.{ℕ, suc, ◌+◌, ◌%◌, ◌^◌, ◌<◌}
use mathlib.Core.Path.{◌≡◌, subst}
use mathlib.Core.List.{List, [], ◌∷◌, ◌++◌}
use native.Mathlib.Omega.{arith}
use cenix.Base.Lists.{length}

abbrev pub Memory : Type 0
Memory = ℕ → ℕ

-- `p + n` for a pointer `p`
unfoldable pub offset : ℕ → ℕ → ℕ
offset p n = (p + n) % 2 ^ 32

pub offset-lt : (p n : ℕ) → p + n < 2 ^ 32 → offset p n ≡ p + n
unfolding offset
offset-lt p n h = omega arith

-- The bytes `bs` lie at the address `a`.
abbrev pub Holds : Memory → ℕ → List ℕ → Type 0
Holds m a [] = Unit
Holds m a (b ∷ bs) = (m a ≡ b) × Holds m (suc a) bs

pub Holds-append :
    (m : Memory) (a : ℕ) (xs ys : List ℕ)
    → Holds m a (xs ++ ys)
    → Holds m a xs × Holds m (a + length xs) ys
Holds-append m a [] ys h = (tt, subst (λ p. Holds m p ys) (omega arith) h)
Holds-append m a (x ∷ xs) ys (e, h) =
    let (l, r) = Holds-append m (suc a) xs ys h in
    ((e, l), subst (λ p. Holds m p ys) (omega arith) r)

pub Holds-join :
    (m : Memory) (a : ℕ) (xs ys : List ℕ)
    → Holds m a xs
    → Holds m (a + length xs) ys
    → Holds m a (xs ++ ys)
Holds-join m a [] ys h k = subst (λ p. Holds m p ys) (omega arith) k
Holds-join m a (x ∷ xs) ys (e, h) k =
    (e, Holds-join m (suc a) xs ys h (subst (λ p. Holds m p ys) (omega arith) k))
