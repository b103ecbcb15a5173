-- ===== src/Pit/Wait.antt =====
-- How long the waits take.
use sipaa_kernel.Prelude.{
  ℕ, zero, suc, ◌+◌, ◌-◌, ◌*◌, ◌%◌, ◌^◌, ◌≤◌, ◌<◌, ◌≡◌, refl, arith, inl, inr, Bool-cases, ltb,
}
use sipaa_kernel.Prelude.Run.{Run, done}
use sipaa_kernel.Pit.{wait_loop, sleep, sleep_ms, sleep_us}

-- The wait ends, no earlier than the end and less than `b` ticks after it.
pub record EndsWithin (b eticks : ℕ) (r : Run ℕ) : Type 0 where
  now : ℕ
  ends : r ≡ done now
  not_before : eticks ≤ now
  soon : now < eticks + b

-- the fuel `f` is enough for `d` ticks
wait_loop-EndsWithin :
    (f d b eticks n tick : ℕ) (arrivals : ℕ → ℕ)
    → ((i : ℕ) → (1 ≤ arrivals i) × (arrivals i ≤ b))
    → eticks + b < 2 ^ 32
    → eticks ≤ tick + d
    → tick < eticks + b
    → d < f
    → EndsWithin b eticks (wait_loop f eticks n arrivals tick)
unfolding wait_loop
wait_loop-EndsWithin zero d b eticks n tick arrivals come room end hi fuel = absurd (omega arith)
wait_loop-EndsWithin (suc f) d b eticks n tick arrivals come room end hi fuel =
    elim (Bool-cases (ltb tick eticks)) [
      | inl early ↦
          let before : tick < eticks = ground arith in
          let stays : (tick + arrivals n) % 2 ^ 32 ≡ tick + arrivals n = omega (arith, come n) in
          rw (early, stays)
            (wait_loop-EndsWithin f (d - 1) b eticks (n + 1) (tick + arrivals n) arrivals come room
              (omega (arith, come n)) (omega (arith, come n)) (omega arith))
      | inr late ↦
          rw late (record { now = tick; ends = refl; not_before = ground arith; soon = hi })
    ]

-- If each `hlt` ends with a timer interrupt, with `b` of them at most, and the counter does not wrap
-- before the end, then `Sleep` returns: `seconds` times 1000 ticks after it was called, or less than
-- `b` ticks later. As many rounds as ticks, and one, are enough.
pub sleep-EndsWithin :
    (f b seconds tick : ℕ) (arrivals : ℕ → ℕ)
    → ((i : ℕ) → (1 ≤ arrivals i) × (arrivals i ≤ b))
    → tick + seconds * 1000 + b < 2 ^ 32
    → seconds * 1000 < f
    → EndsWithin b (tick + seconds * 1000) (sleep f seconds arrivals tick)
unfolding sleep
sleep-EndsWithin f b seconds tick arrivals come room fuel =
    let fits : (tick + seconds * 1000) % 2 ^ 32 ≡ tick + seconds * 1000 = omega arith in
    rw fits (
      wait_loop-EndsWithin f (seconds * 1000) b (tick + seconds * 1000) 0 tick arrivals come room
        (omega arith) (omega (arith, come 0)) fuel)

-- Where the end of the wait wraps the counter, `Sleep`, `SleepMs` and `SleepUs` return at once,
-- whatever the interrupts: for fewer than 2 ^ 32 ticks to wait and a counter that would pass
-- 2 ^ 32 - 1.
pub sleep_returns_at_once :
    (f time tick : ℕ) (arrivals : ℕ → ℕ)
    → time * 1000 < 2 ^ 32
    → tick < 2 ^ 32
    → 2 ^ 32 ≤ tick + time
    → (sleep (suc f) time arrivals tick ≡ done tick)
      × (sleep_ms (suc f) time arrivals tick ≡ done tick)
      × (sleep_us (suc f) time arrivals tick ≡ done tick)
unfolding sleep sleep_ms sleep_us wait_loop
sleep_returns_at_once f time tick arrivals small now wrap =
    (ground arith, ground arith, ground arith)
