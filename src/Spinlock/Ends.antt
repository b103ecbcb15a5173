-- ===== src/Spinlock/Ends.antt =====
-- `Spinlock_Acquire`: when it gets the lock, and when it gives up.
use sipaa_kernel.Prelude.{
  ℕ, zero, suc, ◌+◌, sym, ◌∙◌, ◌≤◌, ◌<◌, ◌≡◌, ◌≢◌, subst, arith, pos, negsuc,
}
use sipaa_kernel.Prelude.Run.{done}
use sipaa_kernel.Spinlock.{Spinlock, max_tries, mark, try, settle, acquire_loop, acquire}

module _ (others : ℕ → Spinlock → Spinlock) (caller : ℕ) where
  -- the lock as the try number `n` finds it, if all tries before it fail
  abbrev pub found : ℕ → Spinlock → Spinlock
  found zero l = l
  found (suc n) l = others n (found n l)

  step_fails :
      (f n : ℕ) (l : Spinlock)
      → l.lock ≢ 0
      → suc n < max_tries
      → acquire_loop (suc f) others caller n l ≡ acquire_loop f others caller (suc n) (others n l)
  unfolding acquire_loop settle try
  step_fails f n l busy early = ground arith

  loop_takes :
      (f d n k : ℕ) (l : Spinlock)
      → n + d ≡ k
      → k < max_tries
      → d < f
      → (found k l).lock ≡ 0
      → ((i : ℕ) → i < k → (found i l).lock ≢ 0)
      → acquire_loop f others caller n (found n l)
        ≡ done (pos 0, record { lock = 1; last_acquirer = caller })
  unfolding acquire_loop settle try mark
  loop_takes zero d n k l e early fuel free busy = elim fuel [ ]
  loop_takes (suc f) zero n k l e early fuel free busy =
      let same : n ≡ k = omega arith in
      let now : (found n l).lock ≡ 0 = subst (λ t. (found t l).lock ≡ 0) (sym same) free in
      ground (arith, now)
  loop_takes (suc f) (suc d) n k l e early fuel free busy =
      step_fails f n (found n l) (busy n (omega arith)) (omega arith)
      ∙ loop_takes f d (suc n) k l (omega arith) early (omega arith) free busy

  loop_fails :
      (f d n k : ℕ) (l : Spinlock)
      → n + d ≡ k
      → suc k ≡ max_tries
      → d < f
      → ((i : ℕ) → i ≤ k → (found i l).lock ≢ 0)
      → acquire_loop f others caller n (found n l) ≡ done (negsuc 0, found k l)
  unfolding acquire_loop settle try
  loop_fails zero d n k l e last fuel busy = elim fuel [ ]
  loop_fails (suc f) zero n k l e last fuel busy =
      let same : n ≡ k = omega arith in
      let now : (found n l).lock ≢ 0 = busy n (omega arith) in
      subst (λ t. acquire_loop (suc f) others caller n (found n l) ≡ done (negsuc 0, found t l))
        same (ground (arith, now))
  loop_fails (suc f) (suc d) n k l e last fuel busy =
      step_fails f n (found n l) (busy n (omega arith)) (omega arith)
      ∙ loop_fails f d (suc n) k l (omega arith) last (omega arith) busy

  -- If the try number `k`, counted from 0 and below 100,000,000, is the first to find the lock at
  -- 0, with whatever the other processors do in between, then with fuel for it `Spinlock_Acquire`
  -- ends there: it returns 0, and the lock is 1 and carries the caller.
  pub acquire_takes :
      (f k : ℕ) (l : Spinlock)
      → k < max_tries
      → k < f
      → (found k l).lock ≡ 0
      → ((i : ℕ) → i < k → (found i l).lock ≢ 0)
      → acquire f others caller l ≡ done (pos 0, record { lock = 1; last_acquirer = caller })
  unfolding acquire
  acquire_takes f k l early fuel free busy = loop_takes f k 0 k l (omega arith) early fuel free busy

  -- If none of 100,000,000 tries finds the lock at 0, then with that much fuel `Spinlock_Acquire`
  -- ends with -1, and it has left the lock as the last try, number `k`, found it.
  pub acquire_gives_up :
      (f k : ℕ) (l : Spinlock)
      → suc k ≡ max_tries
      → k < f
      → ((i : ℕ) → i ≤ k → (found i l).lock ≢ 0)
      → acquire f others caller l ≡ done (negsuc 0, found k l)
  unfolding acquire
  acquire_gives_up f k l last fuel busy = loop_fails f k 0 k l (omega arith) last fuel busy
