-- ===== src/Syscall/Number.antt =====
-- What a system call does, by its number.
use sipaa_kernel.Prelude.{ℕ, ◌<◌, ◌≡◌, ◌≢◌, arith, Option, pos, ◌==◌, if◌then◌else◌, ap, ◌∙◌}
use sipaa_kernel.Prelude.Run.{done}
use sipaa_kernel.Sched.{Registers, Services, Scheduler}
use sipaa_kernel.Idt.{Idt, set_isr_handler}
use sipaa_kernel.Idt.Dispatch.{handle, set_isr_handler_runs, acknowledged}
use sipaa_kernel.Syscall.{
  SyscallFunction, syscall_handler, syscall_print, syscall_table, answer_call, syscall_initialize,
}

-- the value that an invalid call leaves in `rax`, -999999999 as a 64-bit word
abbrev pub invalid : ℕ
invalid = 0xFFFFFFFFC4653601

module _ {W : Type 0} (print : ℕ → W → W) (beyond : ℕ → Option (SyscallFunction W)) (k : Services W)
    (current_address_space : W → ℕ)
    (run_isr : ℕ → Registers → Idt → Scheduler W → Registers × Idt × Scheduler W) where
  -- the handler at the address `handler` is `Syscall_Handler`; the console is part of the world
  abbrev pub IsHandler : (handler : ℕ) → Type 0
  IsHandler handler =
      (regs : Registers) (d : Idt) (s : Scheduler W)
      → run_isr handler regs d s ≡ (
        (syscall_handler print beyond regs s.world).0,
        d,
        record s { world = (syscall_handler print beyond regs s.world).1 },
      )

  -- After `Syscall_Initialize`, where vector 128 had no handler, interrupt 128 is a system call:
  -- with 0 in `rax` it prints the string at `rdi` and returns 0, with 1 to 255 it changes nothing
  -- and returns -999999999; all other registers are kept. In both cases the interrupt controllers
  -- get their end of interrupt.
  pub syscall_initialize_answers :
      (f handler : ℕ) (regs : Registers) (d : Idt) (s : Scheduler W)
      → IsHandler handler
      → d.isrh 128 ≡ 0
      → handler ≢ 0
      → regs.int_no ≡ 128
      → regs.rax < 256
      → let d' : Idt = syscall_initialize handler d in
        handle k current_address_space run_isr f regs d' s
        ≡ done (
            acknowledged k current_address_space run_isr (
              if regs.rax == 0
              then (record regs { rax = 0 }, d', record s { world = print regs.rdi s.world })
              else (record regs { rax = invalid }, d', s)))
  unfolding syscall_initialize syscall_handler answer_call syscall_table syscall_print
  syscall_initialize_answers f handler regs d s is vacant real e small =
      let d' : Idt = set_isr_handler (pos 128) handler d in
      (set_isr_handler_runs k current_address_space run_isr f 128 handler handler regs d s
        (omega arith) vacant real e).0
      ∙ ap (λ r. done (acknowledged k current_address_space run_isr r))
          (is regs d' s ∙ ground arith)
