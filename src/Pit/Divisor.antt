-- ===== src/Pit/Divisor.antt =====
-- The rate that `Pit_Initialize` sets, by what the timer receives at its ports.
use sipaa_kernel.Prelude.{
  ℕ, ◌+◌, ◌*◌, ◌/◌, ◌%◌, ◌^◌, ◌≤◌, ◌<◌, ◌≡◌, refl, arith, and_mask, bit_and, pos,
}
use native.Mathlib.Nat.{mul-div-le}
use sipaa_kernel.Io.{Ports, outb}
use sipaa_kernel.Idt.{Idt, set_isr_handler}
use sipaa_kernel.Pit.{pit_initialize, pit_frequency}

at_least : (a f q : ℕ) → f * q ≤ a → 19 ≤ f → 19 * q ≤ a
at_least a f q h low = grind arith

module _ {W : Type 0} (k : Ports W) where
  -- the timer gets mode 0x34, then the bytes `lo` and `hi`
  abbrev pub programmed : (lo hi : ℕ) → W → W
  programmed lo hi w = k.out8 0x40 hi (k.out8 0x40 lo (k.out8 0x43 0x34 w))

  -- what `Pit_Initialize` does with a divisor of 16 bits
  pub record Programmed (handler divisor : ℕ) (d : Idt) (w : W) (r : Idt × W) : Type 0 where
    lo : ℕ
    hi : ℕ
    bytes : (lo < 256) × (hi < 256)
    whole : lo + hi * 256 ≡ divisor
    ports : r.1 ≡ programmed lo hi w
    handlers : r.0 ≡ set_isr_handler (pos 32) handler d

  -- For a frequency from 19 Hz on, up to that of the timer itself, `Pit_Initialize` gives the timer
  -- the two bytes of 1193182 divided by the frequency, low byte first, and sets the handler of vector
  -- 32. Below 19 Hz the divisor does not fit the counter.
  pub pit_initialize-Programmed :
      (handler frequency : ℕ) (d : Idt) (w : W)
      → 19 ≤ frequency
      → Programmed handler
          (pit_frequency / frequency)
          d
          w
          (pit_initialize k handler frequency (d, w))
  unfolding pit_initialize outb
  pit_initialize-Programmed handler frequency d w h =
      let q : ℕ = pit_frequency / frequency in
      let fits : 19 * q ≤ pit_frequency =
        at_least pit_frequency frequency q (mul-div-le pit_frequency frequency) h in
      let low : bit_and q 0xFF ≡ q % 256 = and_mask 8 q 0xFF refl in
      let high : bit_and (q / 2 ^ 8) 0xFF ≡ q / 256 % 256 = and_mask 8 (q / 2 ^ 8) 0xFF refl in
      record {
        lo = bit_and q 0xFF % 2 ^ 8 % 2 ^ 8;
        hi = bit_and (q / 2 ^ 8) 0xFF % 2 ^ 8 % 2 ^ 8;
        bytes = (omega arith, omega arith);
        whole = omega (arith, low, high, fits);
        ports = refl;
        handlers = refl;
      }
