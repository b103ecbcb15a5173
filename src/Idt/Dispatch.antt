-- ===== src/Idt/Dispatch.antt =====
-- `Idt_SetIsrHandler` and `general_interrupt_handler`.
use sipaa_kernel.Prelude.{
  ℕ, ◌≤◌, ◌<◌, ◌≡◌, ◌≢◌, refl, false, arith, List, ◌++◌, ◌⊎◌, ℤ, pos, negsuc,
}
use sipaa_kernel.Prelude.Run.{Run, done}
use sipaa_kernel.Sched.{Registers, Services, Scheduler}
use sipaa_kernel.Sched.Exit.{Exited}
use sipaa_kernel.Idt.{
  Idt, set_isr_handler, After, returned, halted, reschedule, general_interrupt_handler,
  end_of_interrupt, interrupt,
}

module _ {W : Type 0} (k : Services W) (current_address_space : W → ℕ)
    (run_isr : ℕ → Registers → Idt → Scheduler W → Registers × Idt × Scheduler W) where
  abbrev pub handle : ℕ → Registers → Idt → Scheduler W → Run (After W)
  handle = general_interrupt_handler k current_address_space run_isr

  -- the end of an interrupt whose handler ran
  abbrev pub acknowledged : Registers × Idt × Scheduler W → After W
  acknowledged (r, d, s) = returned r (record d { outs = d.outs ++ end_of_interrupt }) s

  -- A handler other than `NULL` that is set for a vector from 32 on that has none is run by each
  -- interrupt of that vector, on the registers of the interrupt, and then both interrupt
  -- controllers get an end of interrupt. A second handler set for that vector changes nothing.
  pub set_isr_handler_runs :
      (f v isr other : ℕ) (regs : Registers) (d : Idt) (s : Scheduler W)
      → 32 ≤ v
      → d.isrh v ≡ 0
      → isr ≢ 0
      → regs.int_no ≡ v
      → let d' : Idt = set_isr_handler (pos v) isr d in
        (handle f regs d' s ≡ done (acknowledged (run_isr isr regs d' s)))
        × (set_isr_handler (pos v) other d' ≡ d')
  unfolding set_isr_handler general_interrupt_handler interrupt
  set_isr_handler_runs f v isr other regs d s high vacant real e = ground arith

  -- No handler that is set, for any vector, changes what an exception does.
  pub set_isr_handler-exception :
      (f isr : ℕ) (v : ℤ) (regs : Registers) (d : Idt) (s : Scheduler W)
      → regs.int_no < 32
      → d.pending_reboot ≡ false
      → handle f regs (set_isr_handler v isr d) s ≡ handle f regs d s
  unfolding set_isr_handler general_interrupt_handler interrupt
  set_isr_handler-exception f isr (negsuc n) regs d s low running = refl
  set_isr_handler-exception f isr (pos v) regs d s low running = ground arith

  -- how an exception ends: a page fault in the address space of the current process ends that
  -- process, and everything else halts the machine
  pub data Caught (regs : Registers) (s : Scheduler W) (xs : List ℕ) : Run (After W) → Type 0 where
    killed :
        (after : Scheduler W)
        → regs.int_no ≡ 14
        → current_address_space s.world ≡ (s.procs s.current_process).pml4
        → Exited k s s.current_process xs (done after)
        → Caught regs s xs (done (reschedule after))
    stops :
        (regs.int_no ≢ 14) ⊎ (current_address_space s.world ≢ (s.procs s.current_process).pml4)
        → Caught regs s xs (done halted)
