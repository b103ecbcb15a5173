-- ===== src/Sched/Exit.antt =====
-- `Scheduler_ExitProcess`.
use sipaa_kernel.Prelude.{
  ℕ, zero, suc, ◌+◌, ◌-◌, ◌%◌, ◌^◌, ◌<◌, ◌≡◌, refl, false, List, [], ◌∷◌, ◌++◌, arith, ◌==◌, has,
  length,
}
use sipaa_kernel.Prelude.Run.{Run, done}
use sipaa_kernel.Sched.{Process, Services, Scheduler, put, stack_bytes, find_prev, exit_process}
use sipaa_kernel.Sched.Ring.{Linked, IsRing, Linked-put, stop-has}

-- the process before the one that follows `xs`, when `q` is before `xs`
abbrev pub before : ℕ → List ℕ → ℕ
before q [] = q
before q (x ∷ xs) = before x xs

has-before : (q x : ℕ) (xs ys : List ℕ) → has q (x ∷ xs ++ ys) ≡ false → (before x xs == q) ≡ false
has-before q x [] ys h = ground arith
has-before q x (y ∷ xs) ys h = has-before q y xs ys (ground arith)

has-without : (q p : ℕ) (xs ys : List ℕ) → has q (xs ++ p ∷ ys) ≡ false → has q (xs ++ ys) ≡ false
has-without q p [] ys h = ground arith
has-without q p (x ∷ xs) ys h = ground (arith, has-without q p xs ys)

has-middle : (q p : ℕ) (xs ys : List ℕ) → has q (xs ++ p ∷ ys) ≡ false → (q == p) ≡ false
has-middle q p [] ys h = ground arith
has-middle q p (x ∷ xs) ys h = has-middle q p xs ys (ground arith)

module _ (procs : ℕ → Process) (p stop : ℕ) (ys : List ℕ) where
  find_prev-before :
      (f q : ℕ) (xs : List ℕ)
      → Linked procs stop (procs q).next (xs ++ p ∷ ys)
      → length xs < f
      → find_prev f procs p q ≡ done (before q xs)
  unfolding find_prev
  find_prev-before zero q xs h fuel = elim fuel [ ]
  find_prev-before (suc f) q [] h fuel = ground arith
  find_prev-before (suc f) q (x ∷ xs) h fuel =
      let e : (x == p) ≡ false = has-middle x p xs ys h.2 in
      ground (arith, e, h.0, find_prev-before f x xs h.3)

  unlink-Linked :
      (q : ℕ) (xs : List ℕ)
      → let b : ℕ → Process =
          put procs (before q xs) (record (procs (before q xs)) { next = (procs p).next }) in
        has q (xs ++ p ∷ ys) ≡ false
        → Linked procs stop (procs q).next (xs ++ p ∷ ys)
        → Linked b stop (b q).next (xs ++ ys)
  unlink-Linked q [] out h = ground (
    arith,
    Linked-put procs stop (procs p).next q (record (procs q) { next = (procs p).next }) ys,
  )
  unlink-Linked q (x ∷ xs) out h =
      let e : (before x xs == q) ≡ false = has-before q x xs (p ∷ ys) out in
      ground (arith, e, has-without x p xs ys h.2, unlink-Linked x xs h.2 h.3)

module _ {W : Type 0} (k : Services W) where
  pub record Exited (s : Scheduler W) (p : ℕ) (xs : List ℕ) (r : Run (Scheduler W)) : Type 0 where
    pub after : Scheduler W
    pub ends : r ≡ done after
    pub ring : IsRing after.procs s.process_list xs
    pub freed :
        after.world
        ≡ k.free p (k.free (((s.procs p).stack_ptr + (2 ^ 64 - stack_bytes)) % 2 ^ 64) s.world)
    pub unmoved : after.current_process ≡ s.current_process
    pub head : after.process_list ≡ s.process_list
    pub passed : (after.procs p).next ≡ (s.procs p).next
    pub regs_kept : (a : ℕ) → (after.procs a).regs ≡ (s.procs a).regs

  -- If the process at `p` is in the ring after the list's head, with fuel for the processes before
  -- it, then `Scheduler_ExitProcess` ends: the ring is left without that process and otherwise in
  -- its order, and the heap has been asked to free first its stack and then the process. The
  -- current process is not changed, even where it is the one that is freed, nor are the list's head,
  -- the successor that the process had and any saved registers.
  pub exit_process-IsRing :
      (f p : ℕ) (s : Scheduler W) (xs ys : List ℕ)
      → IsRing s.procs s.process_list (xs ++ p ∷ ys)
      → length xs < f
      → Exited s p (xs ++ ys) (exit_process k f p s)
  unfolding exit_process
  exit_process-IsRing f p s xs ys h fuel =
      let l = s.process_list in
      let q : ℕ = before l xs in
      let b : ℕ → Process = put s.procs q (record (s.procs q) { next = (s.procs p).next }) in
      let found : find_prev f s.procs p l ≡ done q =
        find_prev-before s.procs p l ys f l xs h fuel in
      record {
        after = record s {
          procs = b;
          world = k.free p (k.free (((b p).stack_ptr + (2 ^ 64 - stack_bytes)) % 2 ^ 64) s.world);
        };
        ends = rw found refl;
        ring =
            unlink-Linked s.procs p l ys l xs (stop-has s.procs l (s.procs l).next (xs ++ p ∷ ys) h)
              h;
        freed = let same : (b p).stack_ptr ≡ (s.procs p).stack_ptr = ground arith in rw same refl;
        unmoved = refl;
        head = refl;
        passed = ground arith;
        regs_kept = λ a. ground arith;
      }
