-- ===== src/Kernel/Arch.antt =====
-- The register block of the 68000 port: core/include/sys/arch/68000.h and sanitize_registers of
-- core/kernel/arch/68000/arch.h.
use cenix.Base.{ℕ, ◌%◌, ◌^◌, List, set}
use Prim.Native.Nat.{bit_and}

-- struct thread_registers. `data` has 8 entries and `address` has 7.
pub record Registers : Type 0 where
  pub stack_pointer : ℕ
  pub data_registers : List ℕ
  pub address_registers : List ℕ
  pub status_register : ℕ
  pub program_counter : ℕ

unfoldable pub set_program_counter : Registers → ℕ → Registers
set_program_counter r pc = record r { program_counter = pc % 2 ^ 32 }

unfoldable pub set_stack_pointer : Registers → ℕ → Registers
set_stack_pointer r sp = record r { stack_pointer = sp % 2 ^ 32 }

unfoldable pub set_got_pointer : Registers → ℕ → Registers
set_got_pointer r got = record r { address_registers = set r.address_registers 5 (got % 2 ^ 32) }

-- Only the condition codes are left to user code.
unfoldable pub sanitize_registers : Registers → Registers
sanitize_registers r = record r { status_register = bit_and r.status_register 0x001f }
