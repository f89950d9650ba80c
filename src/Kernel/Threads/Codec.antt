-- ===== src/Kernel/Threads/Codec.antt =====
-- The register block in memory: what read_registers and write_registers of core/kernel/threads.c
-- copy, and what sanitize_registers of core/kernel/arch/68000/arch.h leaves of it.
use Prim.Native.Nat.{bit_and, digits, bit_and-bitwise}
use native.Mathlib.Nat.{pow-suc}
use cenix.Base.{
  ℕ, zero, suc, ◌+◌, ◌*◌, ◌/◌, ◌%◌, ◌^◌, min, ◌≤◌, ◌<◌, Ptr, ◌≡◌, refl, sym, ap, subst, List, [],
  ◌∷◌, ◌++◌, arith, ◌≢◌, ==-refl, length, take, drop, length-append, take-length,
}
use cenix.Kernel.Arch.{Registers, sanitize_registers}
use cenix.Kernel.State.{Kernel, set_thread}
use cenix.Kernel.Threads.Locks.{while_locked-kinds}
use cenix.Kernel.Threads.Handlers.{
  long_bytes, short_bytes, longs_bytes, long_at, longs_at, registers_bytes, registers_from,
  registers_size, memcpy, copied_size, read_registers, write_registers,
}

-- The lowest `n` binary digits.
low : ℕ → ℕ → ℕ
low zero a = 0
low (suc n) a = low n (a / 2) * 2 + a % 2

low-zero : (k : ℕ) → low k 0 ≡ 0
unfolding low
low-zero zero = refl
low-zero (suc k) = omega (arith, low-zero k)

digits-zero : (n a : ℕ) → digits (λ b. 0) min n a 0 ≡ 0
digits-zero zero a = refl
digits-zero (suc n) zero = refl
digits-zero (suc n) (suc a) = omega (arith, digits-zero n (suc a / 2))

digits-mask : (n a k m : ℕ) → a ≤ n → suc m ≡ 2 ^ k → digits (λ b. 0) min n a m ≡ low k a
unfolding low
digits-mask zero zero k m h e = sym (low-zero k)
digits-mask zero (suc a) k m h e = absurd (omega arith)
digits-mask (suc n) zero k m h e = sym (low-zero k)
digits-mask (suc n) (suc a) zero m h e =
    let m_zero : m ≡ 0 = omega arith in rw (m_zero) (digits-zero (suc n) (suc a))
digits-mask (suc n) (suc a) (suc k) m h e = omega (
  arith,
  digits-mask n (suc a / 2) k (m / 2) (omega arith) (omega (arith, pow-suc 2 k)),
  pow-suc 2 k,
)

bit_and-31 : (a : ℕ) → bit_and a 31 ≡ a % 32
unfolding low
bit_and-31 a = simp bit_and-bitwise (omega (arith, digits-mask a a 5 31 (omega arith) refl))

-- Registers of the widths that the struct gives them.
abbrev pub AreLongs : List ℕ → Type 0
AreLongs [] = Unit
AreLongs (n ∷ ns) = (n < 2 ^ 32) × AreLongs ns

pub record IsRegisters (r : Registers) : Type 0 where
  pub stack : r.stack_pointer < 2 ^ 32
  pub longs : (length r.data_registers ≡ 8) × AreLongs r.data_registers
  pub address : (length r.address_registers ≡ 7) × AreLongs r.address_registers
  pub status : r.status_register < 2 ^ 16
  pub counter : r.program_counter < 2 ^ 32

long_value :
    (n : ℕ)
    → n < 2 ^ 32
    → ((n / 16777216 % 256 * 256 + n / 65536 % 256) * 256 + n / 256 % 256) * 256 + n % 256 ≡ n
long_value n h = omega arith

short_value : (n : ℕ) → n < 2 ^ 16 → n / 256 % 256 * 256 + n % 256 ≡ n
short_value n h = omega arith

long_at-long_bytes : (n : ℕ) (m : List ℕ) → n < 2 ^ 32 → long_at (long_bytes n ++ m) ≡ n
long_at-long_bytes n m h = omega arith

longs_at-longs_bytes :
    (ns m : List ℕ) → AreLongs ns → longs_at (length ns) (longs_bytes ns ++ m) ≡ ns
longs_at-longs_bytes [] m h = refl
longs_at-longs_bytes (n ∷ ns) m (h, hs) =
    rw (long_at-long_bytes n (longs_bytes ns ++ m) h, longs_at-longs_bytes ns m hs)

drop-longs_bytes :
    (ns m : List ℕ) (k : ℕ) → drop (length ns * 4 + k) (longs_bytes ns ++ m) ≡ drop k m
drop-longs_bytes [] m k = ap (λ t. drop t m) (omega arith)
drop-longs_bytes (n ∷ ns) m k =
    let four : suc (length ns) * 4 + k ≡ suc (suc (suc (suc (length ns * 4 + k)))) = omega arith in
    rw four (drop-longs_bytes ns m k)

-- The same, for as many words as there are registers.
drop-registers :
    (n : ℕ) (ns m : List ℕ) (k : ℕ)
    → length ns ≡ n
    → drop (n * 4 + k) (longs_bytes ns ++ m) ≡ drop k m
drop-registers n ns m k e =
    subst (λ t. drop (t * 4 + k) (longs_bytes ns ++ m) ≡ drop k m) e (drop-longs_bytes ns m k)

longs_at-registers :
    (n : ℕ) (ns m : List ℕ) → length ns ≡ n → AreLongs ns → longs_at n (longs_bytes ns ++ m) ≡ ns
longs_at-registers n ns m e h =
    subst (λ t. longs_at t (longs_bytes ns ++ m) ≡ ns) e (longs_at-longs_bytes ns m h)

-- The block is laid out so that reading it gives the registers back.
pub registers_from-registers_bytes :
    (r : Registers) → IsRegisters r → registers_from (registers_bytes r) ≡ r
unfolding registers_from registers_bytes
registers_from-registers_bytes r w =
    let last = short_bytes r.status_register ++ long_bytes r.program_counter in
    let rest = longs_bytes r.address_registers ++ last in
    rw
      (
        (drop-registers 8 r.data_registers rest 0 w.longs.0),
        (drop-registers 8 r.data_registers rest 28 w.longs.0),
        (drop-registers 8 r.data_registers rest 30 w.longs.0),
        (drop-registers 7 r.address_registers last 0 w.address.0),
        (drop-registers 7 r.address_registers last 2 w.address.0),
        longs_at-registers 8 r.data_registers rest w.longs.0 w.longs.1,
        longs_at-registers 7 r.address_registers last w.address.0 w.address.1,
      )
      (rw (
        long_value r.stack_pointer w.stack,
        short_value r.status_register w.status,
        long_value r.program_counter w.counter,
      ))

length-longs_bytes : (ns : List ℕ) → length (longs_bytes ns) ≡ length ns * 4
length-longs_bytes [] = refl
length-longs_bytes (n ∷ ns) = omega (arith, length-longs_bytes ns)

length-registers_bytes :
    (r : Registers) → IsRegisters r → length (registers_bytes r) ≡ registers_size
unfolding registers_bytes
length-registers_bytes r w =
    let last = short_bytes r.status_register ++ long_bytes r.program_counter in
    omega (
      arith,
      length-append (longs_bytes r.data_registers) (longs_bytes r.address_registers ++ last),
      length-append (longs_bytes r.address_registers) last,
      length-longs_bytes r.data_registers,
      length-longs_bytes r.address_registers,
      w.longs.0,
      w.address.0,
    )

-- What write_registers leaves of the registers `r`.
abbrev pub user_registers : Registers → Registers
user_registers r = record r { status_register = r.status_register % 32 }

sanitize-user_registers : (r : Registers) → sanitize_registers r ≡ user_registers r
unfolding sanitize_registers
sanitize-user_registers r =
    ap (λ s. record r { status_register = s }) (bit_and-31 r.status_register)

append-nil : (xs : List ℕ) → xs ++ [] ≡ xs
append-nil [] = refl
append-nil (x ∷ xs) = ap (λ t. x ∷ t) (append-nil xs)

drop-all : (n : ℕ) (xs : List ℕ) → length xs ≡ n → drop n xs ≡ []
drop-all zero [] e = refl
drop-all zero (x ∷ xs) e = absurd (omega arith)
drop-all (suc n) [] e = refl
drop-all (suc n) (x ∷ xs) e = drop-all n xs (omega arith)

take-all : (n : ℕ) (xs rest : List ℕ) → length xs ≡ n → take n (xs ++ rest) ≡ xs
take-all n xs rest e = subst (λ m. take m (xs ++ rest) ≡ xs) e (take-length xs rest)

take-whole : (n : ℕ) (xs : List ℕ) → length xs ≡ n → take n xs ≡ xs
take-whole n xs e = subst (λ t. take n t ≡ xs) (append-nil xs) (take-all n xs [] e)

copied_size-all : (size : ℕ) → registers_size ≤ size → copied_size size ≡ registers_size
copied_size-all size h = omega arith

user_registers-IsRegisters : (r : Registers) → IsRegisters r → IsRegisters (user_registers r)
user_registers-IsRegisters r w = record {
  stack = w.stack;
  longs = w.longs;
  address = w.address;
  status = omega (arith, w.status);
  counter = w.counter;
}

-- memcpy of a whole block over another of its size.
memcpy-all :
    (old new rest : List ℕ) (n : ℕ)
    → length old ≡ n
    → length new ≡ n
    → memcpy old (new ++ rest) n ≡ new
memcpy-all old new rest n eo en = rw (take-all n new rest en, drop-all n old eo) (append-nil new)

-- The kernel after write_registers.
abbrev written : Kernel → Ptr → List ℕ → ℕ → Kernel
written k t buffer size =
    let old = registers_bytes (k.threads t).registers in
    let new = registers_from (memcpy old buffer (copied_size size)) in
    set_thread k t (record (k.threads t) { registers = sanitize_registers new })

write_registers-written :
    (k : Kernel) (t : Ptr) (buffer : List ℕ) (size : ℕ)
    → write_registers k t buffer size ≡ (0, written k t buffer size)
unfolding write_registers
write_registers-written k t buffer size =
    while_locked-kinds t (λ k. (0, written k t buffer size)) k (λ k'. refl)

read_registers-lem :
    (k : Kernel) (t : Ptr) (buffer : List ℕ) (size : ℕ)
    → read_registers k t buffer size
      ≡ (memcpy buffer (registers_bytes (k.threads t).registers) (copied_size size), k)
unfolding read_registers
read_registers-lem k t buffer size =
    while_locked-kinds t
      (λ k. (memcpy buffer (registers_bytes (k.threads t).registers) (copied_size size), k)) k
      (λ k'. refl)

-- Whatever is written, and however much of it, write_registers leaves only the condition codes
-- in the thread's status register, and changes no other thread.
pub write_registers-user :
    (k : Kernel) (t : Ptr) (buffer : List ℕ) (size : ℕ)
    → let (status, k') = write_registers k t buffer size in
      (status ≡ 0)
      × ((k'.threads t).registers.status_register < 32)
      × ((a : Ptr) → a ≢ t → k'.threads a ≡ k.threads a)
write_registers-user k t buffer size =
    rw (write_registers-written k t buffer size)
      (refl, rw (==-refl t, sanitize-user_registers _) (omega arith), λ a ne. ground (arith, ne))

-- After a whole block of registers has been written to a thread, reading a whole block gives the
-- same bytes back, but for a status register that is cut down to its condition codes.
pub write-read_registers :
    (k : Kernel) (t : Ptr) (r : Registers) (rest buffer : List ℕ) (size size' : ℕ)
    → IsRegisters (k.threads t).registers
    → IsRegisters r
    → registers_size ≤ size
    → registers_size ≤ size'
    → (read_registers (write_registers k t (registers_bytes r ++ rest) size).1 t buffer size').0
      ≡ registers_bytes (user_registers r) ++ drop registers_size buffer
write-read_registers k t r rest buffer size size' ok w h h' =
    rw
      (
        write_registers-written k t (registers_bytes r ++ rest) size,
        read_registers-lem _ t buffer size',
        ==-refl t,
        copied_size-all size h,
        copied_size-all size' h',
        memcpy-all _ (registers_bytes r) rest registers_size (length-registers_bytes _ ok)
            (length-registers_bytes r w),
        registers_from-registers_bytes r w,
        sanitize-user_registers r,
      )
      (ap (λ b. b ++ drop registers_size buffer)
        (take-whole registers_size _
          (length-registers_bytes (user_registers r) (user_registers-IsRegisters r w))))
