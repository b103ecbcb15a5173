-- ===== src/Pit.antt =====
-- src/arch/x86_64/pit.c and src/include/sipaa/x86_64/pit.h: the timer. `tick` is a 32-bit counter;
-- the waits watch it while timer interrupts raise it. `arrivals n` is how many timer interrupts come
-- during the `n`-th `hlt`.
pub mod Wait
pub mod Divisor
use sipaa_kernel.Prelude.{ℕ, zero, suc, ◌+◌, ◌*◌, ◌/◌, ◌%◌, ◌^◌, ltb, if◌then◌else◌, bit_and, pos}
use sipaa_kernel.Prelude.Run.{Run, done, out_of_fuel}
use sipaa_kernel.Io.{Ports, outb}
use sipaa_kernel.Idt.{Idt, set_isr_handler}
use sipaa_kernel.Sched.{Registers, Services, Scheduler, schedule}

abbrev pub pit_frequency : ℕ
pit_frequency = 1193182

abbrev pub hz : ℕ
hz = 1000

-- `Pit_Handler`, over the counter and the scheduler
unfoldable pub pit_handler :
    {W : Type 0} → Services W → Registers → ℕ × Scheduler W → Registers × ℕ × Scheduler W
unfolding schedule
pit_handler k regs (tick, s) =
    let (regs', s') = schedule k regs s in (regs', (tick + 1) % 2 ^ 32, s')

-- `Pit_Initialize`; `handler` is the address of `Pit_Handler`. C leaves a frequency of 0 undefined.
unfoldable pub pit_initialize : {W : Type 0} → Ports W → (handler frequency : ℕ) → Idt × W → Idt × W
unfolding outb set_isr_handler
pit_initialize {W = W} k handler frequency (d, w) =
    let divisor : ℕ = pit_frequency / frequency in
    let w1 : W = outb k 0x43 0x34 w in
    let w2 : W = outb k 0x40 (bit_and divisor 0xFF % 2 ^ 8) w1 in
    let w3 : W = outb k 0x40 (bit_and (divisor / 2 ^ 8) 0xFF % 2 ^ 8) w2 in
    (set_isr_handler (pos 32) handler d, w3)

-- the loop of the three waits
unfoldable pub wait_loop : (fuel eticks n : ℕ) → (arrivals : ℕ → ℕ) → (tick : ℕ) → Run ℕ
wait_loop zero eticks n arrivals tick = out_of_fuel
wait_loop (suc fuel) eticks n arrivals tick =
    let rest = wait_loop fuel eticks (n + 1) arrivals ((tick + arrivals n) % 2 ^ 32) in
    if ltb tick eticks then rest else done tick

-- `Sleep`
unfoldable pub sleep : (fuel seconds : ℕ) → (arrivals : ℕ → ℕ) → (tick : ℕ) → Run ℕ
unfolding wait_loop
sleep fuel seconds arrivals tick =
    let eticks : ℕ = (tick + seconds * hz) % 2 ^ 32 in wait_loop fuel eticks 0 arrivals tick

-- `SleepMs`, whose product wraps before the division
unfoldable pub sleep_ms : (fuel milliseconds : ℕ) → (arrivals : ℕ → ℕ) → (tick : ℕ) → Run ℕ
unfolding wait_loop
sleep_ms fuel milliseconds arrivals tick =
    let eticks : ℕ = (tick + (milliseconds * hz) % 2 ^ 32 / 1000) % 2 ^ 32 in
    wait_loop fuel eticks 0 arrivals tick

-- `SleepUs`
unfoldable pub sleep_us : (fuel milliseconds : ℕ) → (arrivals : ℕ → ℕ) → (tick : ℕ) → Run ℕ
unfolding wait_loop
sleep_us fuel milliseconds arrivals tick =
    let eticks : ℕ = (tick + milliseconds * hz) % 2 ^ 32 in wait_loop fuel eticks 0 arrivals tick
