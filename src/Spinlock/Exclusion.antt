-- ===== src/Spinlock/Exclusion.antt =====
-- The steps that processors take on one lock, in any order, and mutual exclusion.
use sipaa_kernel.Prelude.{ℕ, ◌<◌, ◌≡◌, Bool, true, false, arith, ◌==◌, if◌then◌else◌}
use sipaa_kernel.Spinlock.{
  Spinlock, Try, taken, failed, again, max_tries, unlocked, mark, try, clear_acquirer,
  store_unlocked, test_and_acquire,
}

-- where a processor is: outside, in a round of the loop, between the swap and the note of the
-- caller, with the lock, between the two writes of the release, or refused
pub data Phase : Type 0 where
  outside marking holding releasing refused : Phase
  spinning : ℕ → Phase

pub record System : Type 0 where
  pub lock : Spinlock
  pub phase : ℕ → Phase

abbrev pub goes : (ℕ → Phase) → ℕ → Phase → ℕ → Phase
goes phase i p j = if j == i then p else phase j

-- where a try leaves the processor
abbrev pub tried : Try → Phase
tried taken = marking
tried failed = refused
tried (again n) = spinning n

-- one step of the processor `i`, whose calls of `Spinlock_Acquire` come from `caller i`
pub data Step (caller : ℕ → ℕ) (s : System) : System → Type 0 where
  enter :
      (i : ℕ)
      → s.phase i ≡ outside
      → Step caller s (record s { phase = goes s.phase i (spinning 0) })
  spin :
      (i n : ℕ)
      → s.phase i ≡ spinning n
      → Step caller s
          (record { lock = (try n s.lock).1; phase = goes s.phase i (tried (try n s.lock).0) })
  note_caller :
      (i : ℕ)
      → s.phase i ≡ marking
      → Step caller s (record { lock = mark (caller i) s.lock; phase = goes s.phase i holding })
  start_release :
      (i : ℕ)
      → s.phase i ≡ holding
      → Step caller s (record { lock = clear_acquirer s.lock; phase = goes s.phase i releasing })
  end_release :
      (i : ℕ)
      → s.phase i ≡ releasing
      → Step caller s (record { lock = store_unlocked s.lock; phase = goes s.phase i outside })

pub data Reach (caller : ℕ → ℕ) (s : System) : System → Type 0 where
  here : Reach caller s s
  next : {t u : System} → Reach caller s t → Step caller t u → Reach caller s u

abbrev pub start : System
start = record { lock = unlocked; phase = λ i. outside }

-- The processor has the lock: it has swapped it to 1 and not written 0 yet.
abbrev pub inside : Phase → Bool
inside marking = true
inside holding = true
inside releasing = true
inside _ = false

pub record IsExclusive (caller : ℕ → ℕ) (s : System) : Type 0 where
  one : (i j : ℕ) → inside (s.phase i) ≡ true → inside (s.phase j) ≡ true → i ≡ j
  locked : (i : ℕ) → inside (s.phase i) ≡ true → s.lock.lock ≡ 1
  noted : (i : ℕ) → s.phase i ≡ holding → s.lock.last_acquirer ≡ caller i
  cleared : (i : ℕ) → s.phase i ≡ releasing → s.lock.last_acquirer ≡ 0
  tidy : s.lock.lock ≡ 0 → s.lock.last_acquirer ≡ 0
  counts : (i n : ℕ) → s.phase i ≡ spinning n → n < max_tries

start-IsExclusive : (caller : ℕ → ℕ) → IsExclusive caller start
start-IsExclusive caller = ground arith

Step-IsExclusive :
    (caller : ℕ → ℕ) (s t : System) → IsExclusive caller s → Step caller s t → IsExclusive caller t
unfolding try mark clear_acquirer store_unlocked test_and_acquire
Step-IsExclusive caller s t h (enter i e) = record {
  one = λ a b p q. ground (arith, h.one a b, h.one i a, h.one i b, h.locked a, h.locked b);
  locked = λ a p. ground (arith, h.locked a, h.locked i, h.one i a);
  noted = λ a p. ground (arith, h.noted a, h.locked a, h.one i a);
  cleared = λ a p. ground (arith, h.cleared a, h.locked a, h.one i a);
  tidy = λ p. ground (arith, h.tidy, h.locked i, h.cleared i);
  counts = λ a m p. ground (arith, h.counts a m);
}
Step-IsExclusive caller s t h (spin i n e) = record {
  one = λ a b p q. ground (arith, h.one a b, h.one i a, h.one i b, h.locked a, h.locked b);
  locked = λ a p. ground (arith, h.locked a, h.locked i, h.one i a);
  noted = λ a p. ground (arith, h.noted a, h.locked a, h.one i a);
  cleared = λ a p. ground (arith, h.cleared a, h.locked a, h.one i a);
  tidy = λ p. ground (arith, h.tidy, h.locked i, h.cleared i);
  counts = λ a m p. ground (arith, h.counts a m, h.counts i n);
}
Step-IsExclusive caller s t h (note_caller i e) = record {
  one = λ a b p q. ground (arith, h.one a b, h.one i a, h.one i b, h.locked a, h.locked b);
  locked = λ a p. ground (arith, h.locked a, h.locked i, h.one i a);
  noted = λ a p. ground (arith, h.noted a, h.locked a, h.one i a);
  cleared = λ a p. ground (arith, h.cleared a, h.locked a, h.one i a);
  tidy = λ p. ground (arith, h.tidy, h.locked i, h.cleared i);
  counts = λ a m p. ground (arith, h.counts a m);
}
Step-IsExclusive caller s t h (start_release i e) = record {
  one = λ a b p q. ground (arith, h.one a b, h.one i a, h.one i b, h.locked a, h.locked b);
  locked = λ a p. ground (arith, h.locked a, h.locked i, h.one i a);
  noted = λ a p. ground (arith, h.noted a, h.locked a, h.one i a);
  cleared = λ a p. ground (arith, h.cleared a, h.locked a, h.one i a);
  tidy = λ p. ground (arith, h.tidy, h.locked i, h.cleared i);
  counts = λ a m p. ground (arith, h.counts a m);
}
Step-IsExclusive caller s t h (end_release i e) = record {
  one = λ a b p q. ground (arith, h.one a b, h.one i a, h.one i b, h.locked a, h.locked b);
  locked = λ a p. ground (arith, h.locked a, h.locked i, h.one i a);
  noted = λ a p. ground (arith, h.noted a, h.locked a, h.one i a);
  cleared = λ a p. ground (arith, h.cleared a, h.locked a, h.one i a);
  tidy = λ p. ground (arith, h.tidy, h.locked i, h.cleared i);
  counts = λ a m p. ground (arith, h.counts a m);
}

-- In every system reached from an unlocked lock with all processors outside, in steps of any
-- processors in any order: at most one processor is between its swap and the end of its release;
-- while one is, the lock is 1; while one holds the lock, the lock carries that processor's caller;
-- a lock at 0 carries none; and no processor waits longer than the bound on the tries.
pub Reach-IsExclusive : (caller : ℕ → ℕ) (s : System) → Reach caller start s → IsExclusive caller s
Reach-IsExclusive caller s here = start-IsExclusive caller
Reach-IsExclusive caller s (next {t} r st) =
    Step-IsExclusive caller t s (Reach-IsExclusive caller t r) st
