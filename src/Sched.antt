-- ===== src/Sched.antt =====
-- src/arch/x86_64/sched.c, with `Registers` of src/include/sipaa/x86_64/idt.h and the process of
-- src/include/sipaa/sched.h: a ring of processes, and what the timer interrupt does to it.
-- Processes live in a store by address, their names in the byte memory. The heap and the address
-- spaces are an interface, `Services`, over a world `W`. Logging is left out.
pub mod Ring
pub mod Create
pub mod Exit
pub mod Schedule
pub mod Entry
use sipaa_kernel.Prelude.{ℕ, zero, suc, ◌+◌, ◌-◌, ◌%◌, ◌^◌, ◌==◌, if◌then◌else◌, List, [], ◌∷◌}
use sipaa_kernel.Prelude.Run.{Run, done, out_of_fuel, ◌>>=◌}
use sipaa_kernel.Mem.{Mem}
use sipaa_kernel.Strings.{copy_string_n}

pub record Registers : Type 0 where
  pub r15 : ℕ
  pub r14 : ℕ
  pub r13 : ℕ
  pub r12 : ℕ
  pub r11 : ℕ
  pub r10 : ℕ
  pub r9 : ℕ
  pub r8 : ℕ
  pub rdi : ℕ
  pub rsi : ℕ
  pub rbp : ℕ
  pub rbx : ℕ
  pub rdx : ℕ
  pub rcx : ℕ
  pub rax : ℕ
  pub int_no : ℕ
  pub err_code : ℕ
  pub rip : ℕ
  pub cs : ℕ
  pub rflags : ℕ
  pub rsp : ℕ
  pub ss : ℕ

-- `ProcessT`; its name is the `process_name_size` bytes at the address of the process.
pub record Process : Type 0 where
  pub regs : Registers
  pub stack_ptr : ℕ
  pub next : ℕ
  pub pml4 : ℕ
  pub pid : ℕ

-- `PROCESS_NAME_SIZE` and `sizeof(ProcessT)`
abbrev pub process_name_size : ℕ
process_name_size = 128

abbrev pub process_size : ℕ
process_size = 336

abbrev pub stack_bytes : ℕ
stack_bytes = 4096

-- `KHeap_Allocate`, `KHeap_Free`, `Vmm_NewAddressSpace` and `Vmm_SwitchAddressSpaces`
pub record Services (W : Type 0) : Type 0 where
  pub allocate : ℕ → W → ℕ × W
  pub free : ℕ → W → W
  pub new_address_space : W → ℕ × W
  pub switch_address_spaces : ℕ → W → W

pub record Scheduler (W : Type 0) : Type 0 where
  pub pid_counter : ℕ
  pub current_process : ℕ
  pub process_list : ℕ
  pub procs : ℕ → Process
  pub bytes : Mem
  pub world : W

abbrev pub put : (ℕ → Process) → ℕ → Process → ℕ → Process
put procs p v a = if a == p then v else procs a

-- the loop of `Scheduler_ExitProcess`: the process whose successor is `proc`
unfoldable pub find_prev : ℕ → (ℕ → Process) → (proc prev : ℕ) → Run ℕ
find_prev zero procs proc prev = out_of_fuel
find_prev (suc f) procs proc prev =
    let rest = find_prev f procs proc (procs prev).next in
    if (procs prev).next == proc then done prev else rest

module _ {W : Type 0} (k : Services W) where
  -- the registers a new process starts with, over what its memory holds
  abbrev pub start_regs : (scheduler_entry entry_point stack : ℕ) → Registers → Registers
  start_regs scheduler_entry entry_point stack r = record r {
    rip = scheduler_entry;
    rdi = entry_point;
    cs = 8;
    rflags = 514;
    rsp = stack;
    ss = 16;
  }

  unfoldable pub create_process :
      (scheduler_entry name entry_point : ℕ) → Scheduler W → ℕ × Scheduler W
  create_process scheduler_entry name entry_point s =
      let (p, w1) = k.allocate process_size s.world in
      let bytes : Mem = copy_string_n process_name_size p name s.bytes in
      let (base, w2) = k.allocate stack_bytes w1 in
      let stack : ℕ = (base + stack_bytes) % 2 ^ 64 in
      let (space, w3) = k.new_address_space w2 in
      let fresh : Process = record (s.procs p) {
        stack_ptr = stack;
        pml4 = space;
        pid = s.pid_counter % 2 ^ 32;
        regs = start_regs scheduler_entry entry_point stack (s.procs p).regs;
      } in
      let filled : ℕ → Process = put s.procs p fresh in
      let chained : ℕ → Process =
        put filled p (record (filled p) { next = (filled s.process_list).next }) in
      (
        p,
        record s {
          pid_counter = (s.pid_counter + 1) % 2 ^ 64;
          procs = put chained s.process_list (record (chained s.process_list) { next = p });
          bytes = bytes;
          world = w3;
        },
      )

  -- `idle` and `idle_task` are the addresses of the literal "idle" and of `Scheduler_IdleTask`.
  unfoldable pub initialize : (scheduler_entry idle idle_task : ℕ) → Scheduler W → Scheduler W
  unfolding create_process
  initialize scheduler_entry idle idle_task s =
      let (p, w1) = k.allocate process_size s.world in
      let (space, w2) = k.new_address_space w1 in
      let first : Process = record (s.procs p) { pml4 = space; next = p; pid = 2 ^ 32 - 1 } in
      (create_process scheduler_entry idle idle_task (record s {
        current_process = p;
        process_list = p;
        procs = put s.procs p first;
        world = w2;
      })).1

  unfoldable pub exit_process : ℕ → (proc : ℕ) → Scheduler W → Run (Scheduler W)
  unfolding find_prev
  exit_process f proc s = do
    prev ← find_prev f s.procs proc s.process_list
    done (
        let procs = put s.procs prev (record (s.procs prev) { next = (s.procs proc).next }) in
        record s {
          procs = procs;
          world =
              k.free proc
                (k.free (((procs proc).stack_ptr + (2 ^ 64 - stack_bytes)) % 2 ^ 64) s.world);
        })

  -- the registers are those `Scheduler_ContextSwitch` loads
  unfoldable pub schedule : Registers → Scheduler W → Registers × Scheduler W
  schedule regs s =
      let procs =
        put s.procs s.current_process (record (s.procs s.current_process) { regs = regs }) in
      let next = (procs s.current_process).next in
      (
        (procs next).regs,
        record s {
          current_process = next;
          procs = procs;
          world = k.switch_address_spaces (procs next).pml4 s.world;
        },
      )

  -- `Scheduler_Entry`: `entry` is the program, and `regs` what the interrupt 32 at the end saves, whose
  -- handler counts a tick, calls `Scheduler_Schedule` and ends the interrupt; the tick is `Pit`'s
  unfoldable pub scheduler_entry :
      (fuel : ℕ) (entry : Scheduler W → ℕ × Scheduler W)
      → Registers
      → Scheduler W
      → Run (Registers × Scheduler W)
  unfolding exit_process schedule
  scheduler_entry fuel entry regs s =
      let s1 : Scheduler W = (entry s).1 in
      do s2 ← exit_process fuel s1.current_process s1; done (schedule regs s2)
