-- ===== src/Syscall.antt =====
-- src/arch/x86_64/syscall.c, src/syscall/syscall.c, src/syscall/syscalls/print.c and
-- src/include/sipaa/syscall.h: system calls by number. `print` is `ConIO_Print` over a world `W`.
pub mod Number
pub mod Execute
use sipaa_kernel.Prelude.{ℕ, ◌-◌, ◌^◌, ◌==◌, ltb, if◌then◌else◌, Option, none, some, pos}
use sipaa_kernel.Sched.{Registers}
use sipaa_kernel.Idt.{Idt, set_isr_handler}

-- `Syscall_ArgumentsT`
pub record Arguments : Type 0 where
  pub argument1 : ℕ
  pub argument2 : ℕ
  pub argument3 : ℕ
  pub argument4 : ℕ
  pub argument5 : ℕ
  pub argument6 : ℕ

abbrev pub syscall_table_size : ℕ
syscall_table_size = 256

-- `Syscall_Function`: what it returns and what becomes of the world
abbrev pub SyscallFunction : Type 0 → Type 0
SyscallFunction W = Arguments → W → ℕ × W

module _ {W : Type 0} (print : ℕ → W → W) where
  -- `Syscall_Print`
  unfoldable pub syscall_print : SyscallFunction W
  syscall_print args w = (0, print args.argument1 w)

  -- `syscall_table`; `beyond` is what a read past its end gives, as no test guards the index
  unfoldable pub syscall_table :
      (beyond : ℕ → Option (SyscallFunction W)) → ℕ → Option (SyscallFunction W)
  unfolding syscall_print
  syscall_table beyond n =
      if n == 0 then some syscall_print else if ltb n syscall_table_size then none else beyond n

  -- the two ends of `Syscall_Handler`
  unfoldable pub answer_call : Option (SyscallFunction W) → Registers → W → Registers × W
  answer_call none regs w = (record regs { rax = 2 ^ 64 - 999999999 }, w)
  answer_call (some f) regs w =
      let (result, w1) =
        f
          (record {
            argument1 = regs.rdi;
            argument2 = regs.rsi;
            argument3 = regs.rdx;
            argument4 = regs.r10;
            argument5 = regs.r8;
            argument6 = regs.r9;
          })
          w in
      (record regs { rax = result }, w1)

  -- `Syscall_Handler`
  unfoldable pub syscall_handler :
      (beyond : ℕ → Option (SyscallFunction W)) → Registers → W → Registers × W
  unfolding answer_call syscall_table
  syscall_handler beyond regs w = answer_call (syscall_table beyond regs.rax) regs w

-- `Syscall_Initialize`; `handler` is the address of `Syscall_Handler`.
unfoldable pub syscall_initialize : (handler : ℕ) → Idt → Idt
unfolding set_isr_handler
syscall_initialize handler d = set_isr_handler (pos 128) handler d
