-- ===== src/Tests/Calls.antt =====
-- System calls and the backtrace.
use sipaa_kernel.Prelude.{ℕ, ◌*◌, refl, arith, [], ◌∷◌, ◌==◌, ltb, none, if◌then◌else◌}
use sipaa_kernel.Mem.{Mem}
use sipaa_kernel.Mem.Words.{load_word}
use sipaa_kernel.Sched.{Registers, Scheduler}
use sipaa_kernel.Idt.{Idt}
use sipaa_kernel.Idt.Backtrace.{
  HasFrames, above, bottom, Dumped, dump_back_trace, dump_back_trace-Dumped,
}
use sipaa_kernel.Ksym.{Sym, Tables}
use sipaa_kernel.Syscall.{Arguments, syscall_handler}
use sipaa_kernel.Tests.Kernel.{regs_of}

-- the console is the number of the last string that it got
abbrev console : ℕ → ℕ → ℕ
console text w = text

abbrev only_syscalls : ℕ → Registers → Idt → Scheduler ℕ → Registers × Idt × Scheduler ℕ
only_syscalls isr regs d s = (
  (syscall_handler console (λ n. none) regs s.world).0,
  d,
  record s { world = (syscall_handler console (λ n. none) regs s.world).1 },
)

abbrev given : Arguments
given = record {
  argument1 = 4096;
  argument2 = 0;
  argument3 = 3;
  argument4 = 0;
  argument5 = 5;
  argument6 = 0;
}

-- ten functions of 200 bytes, one at each multiple of 1000
abbrev symbols : ℕ → Sym
symbols i = record { st_name = 8 * i; st_value = if ltb i 10 then 1000 * i else 0; st_size = 200 }

abbrev ten : Tables
ten = record { sym_table = 0x5000; str_table = 0x6000; sym_count = 10 }

-- a frame at 16 with the instruction 1050, below one at 40 with the instruction 500
abbrev stack : Mem
stack a =
    if a == 16
    then 40
    else if a == 24
    then 26
    else if a == 25
    then 4
    else if a == 48
    then 244
    else if a == 49
    then 1
    else 0

stack-HasFrames : HasFrames ten symbols stack 16 (1050 ∷ 500 ∷ [])
unfolding load_word
stack-HasFrames =
    above 16 40 1050 (λ e. ground (arith, e)) refl refl (omega arith)
      (above 40 0 500 (λ e. ground (arith, e)) refl refl (omega arith) bottom)

dump_back_trace-Dumped_example :
    Dumped ten symbols
      (1050 ∷ 500 ∷ [])
      (dump_back_trace ten symbols 3 (record (regs_of 14 0) { rbp = 16 }) stack)
dump_back_trace-Dumped_example =
    dump_back_trace-Dumped ten symbols stack (λ j. (ground arith, omega arith)) 3
      (record (regs_of 14 0) { rbp = 16 }) (1050 ∷ 500 ∷ []) stack-HasFrames (omega arith)
