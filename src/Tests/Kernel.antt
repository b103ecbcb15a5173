-- ===== src/Tests/Kernel.antt =====
-- Files, processes, locks and interrupts.
use sipaa_kernel.Prelude.{
  ℕ, zero, suc, ◌+◌, ◌<◌, ◌≡◌, ◌≢◌, refl, [], ◌∷◌, ◌++◌, ◌==◌, if◌then◌else◌, arith, false, none,
}
use sipaa_kernel.Prelude.Run.{done}
use sipaa_kernel.Mem.{Mem}
use sipaa_kernel.Vfs.{FilesystemNode, vfs_open}
use sipaa_kernel.Vfs.Open.{selected, dot, vfs_open-selected}
use sipaa_kernel.Sched.{
  Registers, Process, Services, Scheduler, create_process, exit_process, scheduler_entry,
}
use sipaa_kernel.Sched.Create.{Created, create_process-IsRing}
use sipaa_kernel.Sched.Exit.{Exited, exit_process-IsRing}
use sipaa_kernel.Sched.Entry.{Ended, scheduler_entry-Ended}
use sipaa_kernel.Sched.Schedule.{turns, saved, turns-IsRing}
use sipaa_kernel.Spinlock.{Spinlock, unlocked, try}
use sipaa_kernel.Spinlock.Ends.{found}
use sipaa_kernel.Spinlock.Exclusion.{
  System, enter, spin, here, next, start, goes, tried, spinning, IsExclusive, Reach-IsExclusive,
}
use sipaa_kernel.Pci.{box_device}
use sipaa_kernel.Pci.Address.{Boxed, box_device-Boxed}
use sipaa_kernel.Idt.{IdtEntry, Idt}

-- "." at 0, ".." at 2 and "..a" at 5
abbrev pub names : Mem
names a =
    if a == 0
    then 46
    else (if a == 2
        then 46
        else (if a == 3
            then 46
            else (if a == 5 then 46 else (if a == 6 then 46 else (if a == 7 then 97 else 0)))))

abbrev nodes : ℕ → FilesystemNode ℕ
nodes n = record {
  name = 0;
  parent = n + 1;
  open_flag = false;
  permissions = 0;
  kind = 1;
  size = 0;
  inode = 0;
  read = none;
  write = none;
  read_directory = none;
  find_directory = none;
}

names-byte : (a : ℕ) → names a < 256
names-byte a = ground arith

vfs_open-selected_example :
    vfs_open 4 nodes 0 2 4096 10 5 names ≡ done (selected 10 11 5 (dot ∷ dot ∷ 97 ∷ []))
vfs_open-selected_example =
    vfs_open-selected 4 0 2 4096 10 5 nodes names (dot ∷ dot ∷ 97 ∷ []) (ground arith)
      (ground arith) (ground arith) (ground arith) names-byte (omega arith)

-- a heap that never reuses memory, at the number that it goes on from
abbrev pub bump : Services ℕ
bump = record {
  allocate = λ size w. (w, w + size);
  free = λ p w. w;
  new_address_space = λ w. (1, w);
  switch_address_spaces = λ p w. w;
}

abbrev pub regs_of : (int_no rax : ℕ) → Registers
regs_of int_no rax = record {
  r15 = 0;
  r14 = 0;
  r13 = 0;
  r12 = 0;
  r11 = 0;
  r10 = 0;
  r9 = 0;
  r8 = 0;
  rdi = 0;
  rsi = 0;
  rbp = 0;
  rbx = 0;
  rdx = 0;
  rcx = 0;
  rax = rax;
  int_no = int_no;
  err_code = 0;
  rip = 0;
  cs = 8;
  rflags = 514;
  rsp = 0;
  ss = 16;
}

-- the processes 1, 2 and 3, each with its number in `rax`
abbrev pub ring : ℕ → Process
ring p = record {
  regs = regs_of 32 p;
  stack_ptr = 9096;
  next = if p == 3 then 1 else p + 1;
  pml4 = 1;
  pid = p;
}

abbrev pub running : Scheduler ℕ
running = record {
  pid_counter = 3;
  current_process = 2;
  process_list = 1;
  procs = ring;
  bytes = names;
  world = 20000;
}

create_process-IsRing_example :
    Created bump 77 running 88 20000 20336 1 (2 ∷ 3 ∷ []) (create_process bump 77 0 88 running)
create_process-IsRing_example =
    create_process-IsRing bump 77 0 88 running (2 ∷ 3 ∷ []) (ground arith) (omega arith) refl

exit_process-IsRing_example : Exited bump running 3 (2 ∷ []) (exit_process bump 2 3 running)
exit_process-IsRing_example =
    exit_process-IsRing bump 2 3 running (2 ∷ []) [] (ground arith) (omega arith)

scheduler_entry-Ended_example :
    Ended bump running [] (3 ∷ []) (scheduler_entry bump 1 (λ s. (0, s)) (regs_of 32 70) running)
scheduler_entry-Ended_example =
    scheduler_entry-Ended bump 1 (λ s. (0, s)) (regs_of 32 70) running [] (3 ∷ []) (ground arith)
      (omega arith)

turns-IsRing_example :
    ((turns bump (regs_of 32 70 ∷ regs_of 32 71 ∷ regs_of 32 72 ∷ []) running).0
      ≡ saved bump ring (3 ∷ 1 ∷ []) ++ regs_of 32 70 ∷ [])
    × ((turns bump (regs_of 32 70 ∷ regs_of 32 71 ∷ regs_of 32 72 ∷ []) running).1.current_process
        ≡ 2)
turns-IsRing_example =
    turns-IsRing bump (regs_of 32 70) (regs_of 32 71 ∷ regs_of 32 72 ∷ []) running (3 ∷ 1 ∷ [])
      (ground arith) refl

-- a lock that another processor frees before the second try
abbrev held : Spinlock
held = record { lock = 1; last_acquirer = 9 }

abbrev frees : ℕ → Spinlock → Spinlock
frees i l = unlocked

busy_first : (i : ℕ) → i < 1 → (found frees 5 i held).lock ≢ 0
busy_first zero h = omega arith
busy_first (suc i) h = omega arith

abbrev keeps : ℕ → Spinlock → Spinlock
keeps i l = l

found-held : (i : ℕ) → found keeps 5 i held ≡ held
found-held zero = refl
found-held (suc i) = found-held i

abbrev caller : ℕ → ℕ
caller i = 100 + i

-- processor 3 has entered and taken the lock
abbrev waiting : System
waiting = record start { phase = goes start.phase 3 (spinning 0) }

abbrev owned : System
owned = record {
  lock = (try 0 waiting.lock).1;
  phase = goes waiting.phase 3 (tried (try 0 waiting.lock).0);
}

Reach-IsExclusive_example : IsExclusive caller owned
Reach-IsExclusive_example =
    Reach-IsExclusive caller owned (next (next here (enter 3 refl)) (spin 3 0 refl))

abbrev pub no_entry : IdtEntry
no_entry = record {
  offset_low = 0;
  selector = 0;
  ist = 0;
  types_attr = 0;
  offset_mid = 0;
  offset_high = 0;
  zero_bits = 0;
}

abbrev pub no_idt : Idt
no_idt = record { idt = λ i. no_entry; isrh = λ i. 0; pending_reboot = false; outs = [] }

-- a handler that counts in `rax`
abbrev counting : ℕ → Registers → Idt → Scheduler ℕ → Registers × Idt × Scheduler ℕ
counting isr r d s = (record r { rax = r.rax + isr }, d, s)

-- the address space that is loaded
abbrev loaded : ℕ → ℕ
loaded w = 1

box_device-Boxed_example : Boxed 3 31 7 0x3D (box_device 3 31 7)
box_device-Boxed_example =
    box_device-Boxed 3 31 7 0x3D (omega arith) (omega arith) (omega arith) (omega arith)
