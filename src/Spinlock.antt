-- ===== src/Spinlock.antt =====
-- src/sys/spinlock.c and src/include/sipaa/spinlock.h: a lock taken by compare and swap, with a
-- bound on the tries. A processor that waits sees what the others do to the lock between two of
-- its tries, `others` by the number of the try. Logging is left out.
pub mod Ends
pub mod Exclusion
use sipaa_kernel.Prelude.{
  ℕ, zero, suc, ◌+◌, Bool, true, false, ◌==◌, leb, if◌then◌else◌, ℤ, pos, negsuc,
}
use sipaa_kernel.Prelude.Run.{Run, done, out_of_fuel, ◌>>=◌}

pub record Spinlock : Type 0 where
  pub lock : ℕ
  pub last_acquirer : ℕ

-- `SPINLOCK_INIT`
abbrev pub unlocked : Spinlock
unlocked = record { lock = 0; last_acquirer = 0 }

unfoldable pub test_and_acquire : Spinlock → Bool × Spinlock
test_and_acquire l = if l.lock == 0 then (true, record l { lock = 1 }) else (false, l)

abbrev pub max_tries : ℕ
max_tries = 100000000

-- what a try leaves the waiting processor with
pub data Try : Type 0 where
  taken failed : Try
  again : ℕ → Try

-- one round of the loop of `Spinlock_Acquire`, with `deadlock_counter` at `n`
unfoldable pub try : ℕ → Spinlock → Try × Spinlock
unfolding test_and_acquire
try n l =
    let (ok, l') = test_and_acquire l in
    if ok
    then (taken, l')
    else (if leb max_tries (n + 1) then (failed, l') else (again (n + 1), l'))

-- `lock->last_acquirer = __builtin_return_address(0)`
unfoldable pub mark : (caller : ℕ) → Spinlock → Spinlock
mark caller l = record l { last_acquirer = caller }

settle : (caller : ℕ) → Try × Spinlock → Run (ℤ × Spinlock) → Run (ℤ × Spinlock)
settle caller (taken, l) rest = done (pos 0, mark caller l)
settle caller (failed, l) rest = done (negsuc 0, l)
settle caller (again n, l) rest = rest

acquire_loop :
    ℕ → (others : ℕ → Spinlock → Spinlock) → (caller n : ℕ) → Spinlock → Run (ℤ × Spinlock)
unfolding settle try
acquire_loop zero others caller n l = out_of_fuel
acquire_loop (suc f) others caller n l =
    settle caller (try n l) (acquire_loop f others caller (suc n) (others n (try n l).1))

-- `Spinlock_Acquire`
unfoldable pub acquire :
    ℕ → (others : ℕ → Spinlock → Spinlock) → (caller : ℕ) → Spinlock → Run (ℤ × Spinlock)
unfolding acquire_loop
acquire f others caller l = acquire_loop f others caller 0 l

-- the two writes of `Spinlock_Release`
unfoldable pub clear_acquirer : Spinlock → Spinlock
clear_acquirer l = record l { last_acquirer = 0 }

unfoldable pub store_unlocked : Spinlock → Spinlock
store_unlocked l = record l { lock = 0 }

unfoldable pub release : Spinlock → Spinlock
unfolding clear_acquirer store_unlocked
release l = store_unlocked (clear_acquirer l)
