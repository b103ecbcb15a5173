-- ===== src/Sched/Schedule.antt =====
-- `Scheduler_Schedule`, turn after turn.
use sipaa_kernel.Prelude.{
  ℕ, suc, ◌≡◌, ◌≢◌, refl, false, List, [], ◌∷◌, ◌++◌, arith, ◌==◌, has, length, ap, ◌∙◌,
}
use sipaa_kernel.Sched.{Registers, Process, Services, Scheduler, put, schedule}
use sipaa_kernel.Sched.Ring.{Linked, IsRing, Linked-put, stop-has}

module _ {W : Type 0} (k : Services W) where
  -- the registers that each of the interrupts is left with, when they come with these
  unfoldable pub turns : List Registers → Scheduler W → List Registers × Scheduler W
  turns [] s = ([], s)
  turns (r ∷ rs) s = let (r', s') = schedule k r s in let (rs', t) = turns rs s' in (r' ∷ rs', t)

  abbrev pub saved : (ℕ → Process) → List ℕ → List Registers
  saved procs [] = []
  saved procs (x ∷ xs) = (procs x).regs ∷ saved procs xs

  saved-put :
      (procs : ℕ → Process) (q : ℕ) (v : Process) (xs : List ℕ)
      → has q xs ≡ false
      → saved (put procs q v) xs ≡ saved procs xs
  saved-put procs q v [] out = refl
  saved-put procs q v (x ∷ xs) out = ground (arith, saved-put procs q v xs (ground arith))

  -- from the current process, which is before `xs`, on to the process `d`
  turns-saved :
      (d : ℕ) (rs : List Registers) (s : Scheduler W) (xs : List ℕ)
      → Linked s.procs d (s.procs s.current_process).next xs
      → has s.current_process xs ≡ false
      → s.current_process ≢ d
      → length rs ≡ suc (length xs)
      → ((turns rs s).0 ≡ saved s.procs xs ++ (s.procs d).regs ∷ [])
        × ((turns rs s).1.current_process ≡ d)
  unfolding turns schedule
  turns-saved d [] s xs h out ne len = ground arith
  turns-saved d (r ∷ []) s [] h out ne len = ground arith
  turns-saved d (r ∷ r' ∷ rs) s [] h out ne len = ground arith
  turns-saved d (r ∷ rs) s (x ∷ xs) h out ne len =
      let c = s.current_process in
      let b : ℕ → Process = put s.procs c (record (s.procs c) { regs = r }) in
      let e : (s.procs c).next ≡ x = h.0 in
      let off : (x == c) ≡ false = ground (arith, out) in
      let at : (b x).next ≡ (s.procs x).next = ground (arith, off) in
      let t : Scheduler W = (schedule k r s).1 in
      let here : t.current_process ≡ x = ground (arith, e) in
      let ih =
        turns-saved d rs t xs
          (rw here (rw at (Linked-put s.procs d (s.procs x).next c _ xs (ground (arith, out)) h.3)))
          (rw here h.2) (rw here h.1) (ground arith) in
      let kept : saved b xs ≡ saved s.procs xs = saved-put s.procs c _ xs (ground (arith, out)) in
      let still : (b x).regs ≡ (s.procs x).regs = ground (arith, off) in
      let final : (b d).regs ≡ (s.procs d).regs = ground (arith, ne) in
      (ap (λ l. (schedule k r s).0 ∷ l) ih.0 ∙ rw here (rw kept (rw still (rw final refl))), ih.1)

  -- When as many timer interrupts as there are processes in the ring of the current process `c` and
  -- `xs` come one after the other, then they leave the registers with what had been saved for each
  -- of `xs`, in the order of the ring, and in the end `c` is the current process again with exactly
  -- the registers that it was interrupted with.
  pub turns-IsRing :
      (r : Registers) (rs : List Registers) (s : Scheduler W) (xs : List ℕ)
      → IsRing s.procs s.current_process xs
      → length rs ≡ length xs
      → ((turns (r ∷ rs) s).0 ≡ saved s.procs xs ++ r ∷ [])
        × ((turns (r ∷ rs) s).1.current_process ≡ s.current_process)
  unfolding turns schedule
  turns-IsRing r [] s [] h len = ground arith
  turns-IsRing r (r' ∷ rs) s [] h len = ground arith
  turns-IsRing r rs s (x ∷ xs) h len =
      let c = s.current_process in
      let b : ℕ → Process = put s.procs c (record (s.procs c) { regs = r }) in
      let e : (s.procs c).next ≡ x = h.0 in
      let off : (x == c) ≡ false = ground (arith, h.1) in
      let at : (b x).next ≡ (s.procs x).next = ground (arith, off) in
      let out : has c (x ∷ xs) ≡ false = stop-has s.procs c (s.procs c).next (x ∷ xs) h in
      let t : Scheduler W = (schedule k r s).1 in
      let here : t.current_process ≡ x = ground (arith, e) in
      let ih =
        turns-saved c rs t xs
          (rw here (rw at (Linked-put s.procs c (s.procs x).next c _ xs (ground (arith, out)) h.3)))
          (rw here h.2) (rw here h.1) (ground arith) in
      let kept : saved b xs ≡ saved s.procs xs = saved-put s.procs c _ xs (ground (arith, out)) in
      let still : (b x).regs ≡ (s.procs x).regs = ground (arith, off) in
      let final : (b c).regs ≡ r = ground arith in
      (ap (λ l. (schedule k r s).0 ∷ l) ih.0 ∙ rw here (rw kept (rw still (rw final refl))), ih.1)
