-- ===== src/Idt.antt =====
-- src/arch/x86_64/idt.c and the entry of src/include/sipaa/x86_64/idt.h: the interrupt table, the
-- handlers that drivers register, and what an interrupt does.
-- Output to ports is a list of writes. Logging and the dump of a crash are left out.
pub mod Entry
pub mod Dispatch
pub mod Backtrace
use sipaa_kernel.Prelude.{
  ℕ, zero, suc, ◌+◌, ◌-◌, ◌/◌, ◌%◌, ◌^◌, Bool, true, false, ◌==◌, ltb, not, ◌&&◌, if◌then◌else◌,
  List, [], ◌∷◌, ◌++◌, bit_and, ℤ, pos, negsuc,
}
use sipaa_kernel.Prelude.Run.{Run, done, out_of_fuel, ◌>>=◌}
use sipaa_kernel.Sched.{Registers, Process, Services, Scheduler, exit_process}

pub record IdtEntry : Type 0 where
  pub offset_low : ℕ
  pub selector : ℕ
  pub ist : ℕ
  pub types_attr : ℕ
  pub offset_mid : ℕ
  pub offset_high : ℕ
  pub zero_bits : ℕ

abbrev pub set {ℓ} : {A : Type ℓ} → (ℕ → A) → ℕ → A → ℕ → A
set f i v j = if j == i then v else f j

-- `Idt_SetEntry`
unfoldable pub set_entry : (i base sel flags : ℕ) → (ℕ → IdtEntry) → ℕ → IdtEntry
set_entry i base sel flags idt = set idt i (record {
  offset_low = bit_and base (2 ^ 16 - 1) % 2 ^ 16;
  offset_mid = bit_and (base / 2 ^ 16) (2 ^ 16 - 1) % 2 ^ 16;
  offset_high = (base / 2 ^ 32) % 2 ^ 32;
  selector = sel;
  ist = 0;
  types_attr = flags;
  zero_bits = 0;
})

-- the numbers from `i` on, `k` of them
abbrev pub upto : (i k : ℕ) → List ℕ
upto i zero = []
upto i (suc k) = i ∷ upto (i + 1) k

-- the vectors that `Idt_Initialize` sets, in its order
abbrev pub vectors : List ℕ
vectors = upto 0 15 ++ upto 16 33 ++ 128 ∷ []

-- its calls of `Idt_SetEntry`; `isr` has the address of each stub
unfoldable pub install : (isr : ℕ → ℕ) → List ℕ → (ℕ → IdtEntry) → ℕ → IdtEntry
unfolding set_entry
install isr [] idt = idt
install isr (v ∷ vs) idt = install isr vs (set_entry v (isr v) 0x08 0x8E idt)

-- a write of a byte to a port
pub record Out : Type 0 where
  pub port : ℕ
  pub value : ℕ

-- `Idt_PicRemap`, with the masks `a1` and `a2` that it reads and restores
unfoldable pub pic_remap : (a1 a2 : ℕ) → List Out
pic_remap a1 a2 =
    record { port = 0x20; value = 0x11 }
    ∷ record { port = 0xA0; value = 0x11 }
    ∷ record { port = 0x21; value = 0x20 }
    ∷ record { port = 0xA1; value = 8 }
    ∷ record { port = 0x21; value = 4 }
    ∷ record { port = 0xA1; value = 2 }
    ∷ record { port = 0x21; value = 1 }
    ∷ record { port = 0xA1; value = 1 }
    ∷ record { port = 0x21; value = a1 }
    ∷ record { port = 0xA1; value = a2 }
    ∷ []

-- `Idt_EndOfInterrupt`
abbrev pub end_of_interrupt : List Out
end_of_interrupt = record { port = 0x20; value = 0x20 } ∷ record { port = 0xA0; value = 0x20 } ∷ []

-- the table, `isrh` by vector, 0 where no handler is set, and `Idt_PendingReboot`
pub record Idt : Type 0 where
  pub idt : ℕ → IdtEntry
  pub isrh : ℕ → ℕ
  pub pending_reboot : Bool
  pub outs : List Out

abbrev pub prepare_reboot : Idt → Idt
prepare_reboot d = record d { pending_reboot = true }

-- `Idt_Initialize`, but for `Idt_Load`
unfoldable pub initialize : (isr : ℕ → ℕ) → (a1 a2 : ℕ) → Idt → Idt
unfolding pic_remap install
initialize isr a1 a2 d = record d {
  idt = install isr vectors d.idt;
  isrh = λ i. if ltb i 256 then 0 else d.isrh i;
  outs =
      d.outs
      ++ pic_remap a1 a2
      ++ record { port = 0x21; value = 0 } ∷ record { port = 0xA1; value = 0 } ∷ [];
}

-- `Idt_SetIsrHandler`
unfoldable pub set_isr_handler : (vector : ℤ) → (isr : ℕ) → Idt → Idt
set_isr_handler (negsuc n) isr d = d
set_isr_handler (pos vector) isr d =
    if ltb vector 32
    then d
    else (if not (d.isrh vector == 0) then d else record d { isrh = set d.isrh vector isr })

-- how `general_interrupt_handler` ends: it returns, it halts the machine, or it raises
-- interrupt 32 after the current process is gone
pub data After (W : Type 0) : Type 0 where
  returned : Registers → Idt → Scheduler W → After W
  halted : After W
  reschedule : Scheduler W → After W

module _ {W : Type 0} (k : Services W) (current_address_space : W → ℕ)
    (run_isr : ℕ → Registers → Idt → Scheduler W → Registers × Idt × Scheduler W) where
  -- the part for the vectors of exceptions
  exception : ℕ → Registers → Scheduler W → Run (After W)
  unfolding exit_process
  exception f regs s =
      let gone : Run (After W) = do s' ← exit_process k f s.current_process s; done (reschedule s')
      in if (regs.int_no == 14)
          && (current_address_space s.world == (s.procs s.current_process).pml4)
        then gone
        else done halted

  -- the part for all others
  interrupt : Registers → Idt → Scheduler W → After W
  interrupt regs d s =
      let isr : ℕ = d.isrh regs.int_no in
      let (regs', d', s') = if not (isr == 0) then run_isr isr regs d s else (regs, d, s) in
      returned regs' (record d' { outs = d'.outs ++ end_of_interrupt }) s'

  unfoldable pub general_interrupt_handler : ℕ → Registers → Idt → Scheduler W → Run (After W)
  unfolding exception interrupt
  general_interrupt_handler f regs d s =
      if ltb regs.int_no 32 && not d.pending_reboot
      then exception f regs s
      else done (interrupt regs d s)
