-- ===== src/Sched/Create.antt =====
-- `Scheduler_CreateProcess` and `Scheduler_Initialize`.
use sipaa_kernel.Prelude.{ℕ, ◌+◌, ◌%◌, ◌^◌, ◌≡◌, ◌≢◌, refl, false, List, ◌∷◌, arith, has}
use sipaa_kernel.Sched.{Process, Services, Scheduler, process_size, stack_bytes, create_process}
use sipaa_kernel.Sched.Ring.{IsRing, insert_after-IsRing}

-- The process at `p` is in the state a first switch to it needs: kernel segments, interrupts on,
-- the stack at the end of `base`, its page tables at `space`, and `Scheduler_Entry` about to call the entry point.
pub record IsStartable (v : Process) (scheduler_entry entry_point base space pid : ℕ) : Type 0 where
  runs : v.regs.rip ≡ scheduler_entry
  argument : v.regs.rdi ≡ entry_point
  code : v.regs.cs ≡ 8
  data_segment : v.regs.ss ≡ 16
  flags : v.regs.rflags ≡ 514
  stack : v.regs.rsp ≡ (base + stack_bytes) % 2 ^ 64
  own_stack : v.stack_ptr ≡ v.regs.rsp
  tables : v.pml4 ≡ space
  numbered : v.pid ≡ pid % 2 ^ 32

module _ {W : Type 0} (k : Services W) (scheduler_entry : ℕ) where
  pub record Created (s : Scheduler W) (entry_point p base space : ℕ) (xs : List ℕ)
      (r : ℕ × Scheduler W) : Type 0 where
    pointer : r.0 ≡ p
    ring : IsRing r.1.procs s.process_list (p ∷ xs)
    startable : IsStartable (r.1.procs p) scheduler_entry entry_point base space s.pid_counter
    others : (a : ℕ) → a ≢ p → (r.1.procs a).regs ≡ (s.procs a).regs
    counted : r.1.pid_counter ≡ (s.pid_counter + 1) % 2 ^ 64
    unmoved : r.1.current_process ≡ s.current_process

  -- If the processes are the ring of the list's head and `xs`, and the heap hands out an address
  -- that is none of theirs, then a new process joins the ring right after the head and before
  -- `xs`, at that address: its registers and stack are those of a process that can start, its page tables those of
  -- the new address space, its number
  -- is the counter's, which goes up by one, and neither the registers of another process nor the
  -- current process change.
  pub create_process-IsRing :
      (name entry_point : ℕ) (s : Scheduler W) (xs : List ℕ)
      → let p : ℕ = (k.allocate process_size s.world).0 in
        let w : W = (k.allocate process_size s.world).1 in
        IsRing s.procs s.process_list xs
        → p ≢ s.process_list
        → has p xs ≡ false
        → Created s entry_point p
            (k.allocate stack_bytes w).0
            (k.new_address_space (k.allocate stack_bytes w).1).0
            xs
            (create_process k scheduler_entry name entry_point s)
  unfolding create_process
  create_process-IsRing name entry_point s xs h new fresh = record {
    pointer = refl;
    ring = insert_after-IsRing s.procs s.process_list _ _ xs h new fresh;
    startable = record {
      runs = ground arith;
      argument = ground arith;
      code = ground arith;
      data_segment = ground arith;
      flags = ground arith;
      stack = ground arith;
      own_stack = ground arith;
      tables = ground arith;
      numbered = ground arith;
    };
    others = λ a ne. ground arith;
    counted = refl;
    unmoved = refl;
  }
