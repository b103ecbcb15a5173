-- ===== src/Sched/Entry.antt =====
-- The end of a process whose program returns.
use sipaa_kernel.Prelude.{
  ℕ, ◌<◌, ◌≡◌, refl, ap, ◌∙◌, ◌==◌, false, List, [], ◌∷◌, ◌++◌, arith, length,
}
use sipaa_kernel.Prelude.Run.{Run, done}
use sipaa_kernel.Sched.{Process, Registers, Scheduler, Services, put, schedule, scheduler_entry}
use sipaa_kernel.Sched.Exit.{exit_process-IsRing}
use sipaa_kernel.Sched.Ring.{IsRing, Linked, Linked-keep}

-- the process that follows one before `ys`, in a ring from `l` on
abbrev pub follower : ℕ → List ℕ → ℕ
follower l [] = l
follower l (y ∷ ys) = y

next-follower :
    (procs : ℕ → Process) (l q p : ℕ) (xs ys : List ℕ)
    → Linked procs l q (xs ++ p ∷ ys)
    → (procs p).next ≡ follower l ys
next-follower procs l q p [] [] h = h.3
next-follower procs l q p [] (y ∷ ys) h = h.3.0
next-follower procs l q p (x ∷ xs) ys h = next-follower procs l (procs x).next p xs ys h.3

follower-other :
    (procs : ℕ → Process) (l q p : ℕ) (xs ys : List ℕ)
    → Linked procs l q (xs ++ p ∷ ys)
    → (follower l ys == p) ≡ false
follower-other procs l q p [] [] h = ground arith
follower-other procs l q p [] (y ∷ ys) h = ground arith
follower-other procs l q p (x ∷ xs) ys h = follower-other procs l (procs x).next p xs ys h.3

module _ {W : Type 0} (k : Services W) where
  pub record Ended (s : Scheduler W) (xs ys : List ℕ) (r : Run (Registers × Scheduler W))
      : Type 0 where
    pub regs : Registers
    pub after : Scheduler W
    pub ends : r ≡ done (regs, after)
    pub ring : IsRing after.procs s.process_list (xs ++ ys)
    pub current : after.current_process ≡ follower s.process_list ys
    pub loaded : regs ≡ (s.procs (follower s.process_list ys)).regs

  -- If the program leaves its process, the current one, in the ring after the list's head, then
  -- `Scheduler_Entry` ends, with fuel for the processes before it: the process is out of the ring,
  -- which is otherwise in its order, and the process that followed it is the current one, with the
  -- registers loaded that were saved for it before.
  pub scheduler_entry-Ended :
      (f : ℕ) (entry : Scheduler W → ℕ × Scheduler W) (regs : Registers) (s : Scheduler W)
      (xs ys : List ℕ)
      → (let s1 = (entry s).1 in IsRing s1.procs s1.process_list (xs ++ s1.current_process ∷ ys))
      → length xs < f
      → Ended (entry s).1 xs ys (scheduler_entry k f entry regs s)
  unfolding scheduler_entry schedule
  scheduler_entry-Ended f entry regs s xs ys h fuel =
      let s1 : Scheduler W = (entry s).1 in
      let p : ℕ = s1.current_process in
      let e = exit_process-IsRing k f p s1 xs ys h fuel in
      let t : Scheduler W = e.after in
      let l : ℕ = s1.process_list in
      let c : ℕ = t.current_process in
      let v : Process = record (t.procs c) { regs = regs } in
      let kept : (put t.procs c v c).next ≡ (t.procs c).next = ground arith in
      let next : (put t.procs c v c).next ≡ follower l ys =
        kept
        ∙ ap (λ a. (t.procs a).next) e.unmoved
        ∙ e.passed
        ∙ next-follower s1.procs l (s1.procs l).next p xs ys h in
      let (regs', after) = schedule k regs t in
      record {
        regs = regs';
        after = after;
        ends = rw e.ends refl;
        ring =
            let same : (put t.procs c v l).next ≡ (t.procs l).next = ground arith in
            rw same (Linked-keep t.procs l (t.procs l).next c v (xs ++ ys) refl e.ring);
        current = next;
        loaded =
            ap (λ a. (put t.procs c v a).regs) next
            ∙ rw (e.unmoved, follower-other s1.procs l (s1.procs l).next p xs ys h)
                (e.regs_kept (follower l ys));
      }
