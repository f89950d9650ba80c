-- ===== src/Base/Bits.antt =====
-- Bits of a machine word, by index: `w & (1 << i)`, `w |= 1 << i` and `w &= ~(1 << i)`.
use Prim.Native.Nat.{ℕ, zero, suc, ◌+◌, ◌*◌, ◌/◌, ◌%◌, ◌^◌, ◌<◌}
use mathlib.Core.Path.{◌≡◌, ap, ◌∙◌}
use mathlib.Core.Bool.{Bool, true, false}
use native.Mathlib.Nat.{pow-suc}
use native.Mathlib.Omega.{arith}
use cenix.Base.Tests.{◌==◌, if◌then◌else◌}

-- `(w & ((size_t) 1 << i)) != 0`
unfoldable pub test_bit : ℕ → ℕ → Bool
test_bit w zero = w % 2 == 1
test_bit w (suc i) = test_bit (w / 2) i

-- `w | ((size_t) 1 << i)`
unfoldable pub set_bit : ℕ → ℕ → ℕ
set_bit w zero = 2 * (w / 2) + 1
set_bit w (suc i) = 2 * set_bit (w / 2) i + w % 2

-- `w & ~((size_t) 1 << i)`
unfoldable pub clear_bit : ℕ → ℕ → ℕ
clear_bit w zero = 2 * (w / 2)
clear_bit w (suc i) = 2 * clear_bit (w / 2) i + w % 2

half_double : (a b : ℕ) → b < 2 → (2 * a + b) / 2 ≡ a
half_double a b h = omega arith

pub test_bit-set_bit :
    (w i j : ℕ) → test_bit (set_bit w i) j ≡ (if i == j then true else test_bit w j)
unfolding test_bit set_bit
test_bit-set_bit w zero zero = ground arith
test_bit-set_bit w zero (suc j) =
    ground (arith, ap (λ k. test_bit k j) (half_double (w / 2) 1 (omega arith)))
test_bit-set_bit w (suc i) zero = ground arith
test_bit-set_bit w (suc i) (suc j) =
    ap (λ k. test_bit k j) (half_double (set_bit (w / 2) i) (w % 2) (omega arith))
    ∙ ground (arith, test_bit-set_bit (w / 2) i j)

pub test_bit-clear_bit :
    (w i j : ℕ) → test_bit (clear_bit w i) j ≡ (if i == j then false else test_bit w j)
unfolding test_bit clear_bit
test_bit-clear_bit w zero zero = ground arith
test_bit-clear_bit w zero (suc j) =
    ground (arith, ap (λ k. test_bit k j) (half_double (w / 2) 0 (omega arith)))
test_bit-clear_bit w (suc i) zero = ground arith
test_bit-clear_bit w (suc i) (suc j) =
    ap (λ k. test_bit k j) (half_double (clear_bit (w / 2) i) (w % 2) (omega arith))
    ∙ ground (arith, test_bit-clear_bit (w / 2) i j)

-- Clearing a bit that was set afresh gives the word back.
pub clear_bit-set_bit : (w i : ℕ) → test_bit w i ≡ false → clear_bit (set_bit w i) i ≡ w
unfolding test_bit set_bit clear_bit
clear_bit-set_bit w zero h = ground arith
clear_bit-set_bit w (suc i) h = omega (
  arith,
  ap (λ k. clear_bit k i) (half_double (set_bit (w / 2) i) (w % 2) (omega arith)),
  clear_bit-set_bit (w / 2) i h,
)

odd_of_test : (w : ℕ) → test_bit w 0 ≡ true → w % 2 ≡ 1
unfolding test_bit
odd_of_test w h = ground arith

-- A word with all of its `n` bits set is the largest of `n` bits.
pub all_bits : (n w : ℕ) → w < 2 ^ n → ((i : ℕ) → i < n → test_bit w i ≡ true) → suc w ≡ 2 ^ n
unfolding test_bit
all_bits zero w h t = omega arith
all_bits (suc n) w h t = omega (
  arith,
  pow-suc 2 n,
  all_bits n (w / 2) (omega (arith, pow-suc 2 n)) (λ i l. t (suc i) (omega arith)),
  odd_of_test w (t zero (omega arith)),
)

pub set_bit-lt : (n w i : ℕ) → i < n → w < 2 ^ n → set_bit w i < 2 ^ n
unfolding set_bit
set_bit-lt zero w i hi hw = absurd (omega arith)
set_bit-lt (suc n) w zero hi hw = omega (arith, pow-suc 2 n)
set_bit-lt (suc n) w (suc i) hi hw =
    omega (arith, pow-suc 2 n, set_bit-lt n (w / 2) i (omega arith) (omega (arith, pow-suc 2 n)))

odd_test : (w : ℕ) → w % 2 ≡ 1 → test_bit w 0 ≡ true
unfolding test_bit
odd_test w h = ground arith

-- The largest word of `n` bits has all of them set.
pub all_ones : (n w i : ℕ) → suc w ≡ 2 ^ n → i < n → test_bit w i ≡ true
unfolding test_bit
all_ones zero w i h l = absurd (omega arith)
all_ones (suc n) w zero h l = odd_test w (omega (arith, pow-suc 2 n))
all_ones (suc n) w (suc i) h l = all_ones n (w / 2) i (omega (arith, pow-suc 2 n)) (omega arith)
