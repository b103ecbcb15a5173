-- ===== src/Syscall/Execute.antt =====
-- `execute_syscall` of src/init/init.c: a system call from C, through interrupt 128.
use sipaa_kernel.Prelude.{ℕ, Option, none, some, ◌==◌, if◌then◌else◌}
use sipaa_kernel.Prelude.Run.{Run, done, ◌>>=◌}
use sipaa_kernel.Sched.{Registers, Services, Scheduler}
use sipaa_kernel.Idt.{Idt, After, returned, halted, reschedule, general_interrupt_handler}
use sipaa_kernel.Syscall.{Arguments}

-- one round of the loop over the arguments
abbrev pub param : ℕ → ℕ
param p = if p == 0 then 0 else p

-- the registers at the interrupt, whose stub stores the vector
abbrev pub at_interrupt : (num : ℕ) → Arguments → Registers → Registers
at_interrupt num a regs = record regs {
  rax = num;
  rdi = param a.argument1;
  rsi = param a.argument2;
  rdx = param a.argument3;
  r10 = param a.argument4;
  r8 = param a.argument5;
  r9 = param a.argument6;
  int_no = 128;
}

module _ {W : Type 0} (k : Services W) (current_address_space : W → ℕ)
    (run_isr : ℕ → Registers → Idt → Scheduler W → Registers × Idt × Scheduler W) where
  -- the result in `rax`; `none` where the interrupt does not come back
  result : After W → Option (ℕ × Idt × Scheduler W)
  result (returned r d s) = some (r.rax, d, s)
  result halted = none
  result (reschedule s) = none

  unfoldable pub execute_syscall :
      (fuel num : ℕ)
      → Arguments
      → Registers
      → Idt
      → Scheduler W
      → Run (Option (ℕ × Idt × Scheduler W))
  unfolding result general_interrupt_handler
  execute_syscall f num a regs d s = do
    after ←
        general_interrupt_handler k current_address_space run_isr f (at_interrupt num a regs) d s
    done (result after)
