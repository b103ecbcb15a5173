-- ===== src/Io.antt =====
-- src/arch/x86_64/io.c: access to ports. The instructions of the processor are an interface,
-- `Ports`, over a world `W`; the functions convert their arguments and results to the C types.
use sipaa_kernel.Prelude.{ℕ, zero, suc, ◌*◌, ◌/◌, ◌%◌, ◌^◌, bit_and, ◌==◌, if◌then◌else◌, not}
use sipaa_kernel.Prelude.Run.{Run, done, out_of_fuel}

-- the instructions that write and read one, two or four bytes at a port
pub record Ports (W : Type 0) : Type 0 where
  pub out8 : (port value : ℕ) → W → W
  pub in8 : (port : ℕ) → W → ℕ × W
  pub out16 : (port value : ℕ) → W → W
  pub in16 : (port : ℕ) → W → ℕ × W
  pub out32 : (port value : ℕ) → W → W
  pub in32 : (port : ℕ) → W → ℕ × W

module _ {W : Type 0} (k : Ports W) where
  unfoldable pub inb : (port : ℕ) → W → ℕ × W
  inb port w = let (v, w1) = k.in8 (port % 2 ^ 16) w in (v % 2 ^ 8, w1)

  unfoldable pub outb : (port val : ℕ) → W → W
  outb port val w = k.out8 (port % 2 ^ 16) (val % 2 ^ 8) w

  unfoldable pub ins : (port : ℕ) → W → ℕ × W
  ins port w = let (v, w1) = k.in16 (port % 2 ^ 16) w in (v % 2 ^ 16, w1)

  unfoldable pub outs : (port value : ℕ) → W → W
  outs port value w = k.out16 (port % 2 ^ 16) (value % 2 ^ 16) w

  unfoldable pub inl : (port : ℕ) → W → ℕ × W
  inl port w = let (v, w1) = k.in32 (port % 2 ^ 16) w in (v % 2 ^ 32, w1)

  unfoldable pub outl : (port value : ℕ) → W → W
  outl port value w = k.out32 (port % 2 ^ 16) (value % 2 ^ 32) w

  unfoldable pub outw : (port value : ℕ) → W → W
  outw port value w = k.out16 (port % 2 ^ 16) (value % 2 ^ 16) w

  unfoldable pub inw : (port : ℕ) → W → ℕ × W
  inw port w = let (v, w1) = k.in16 (port % 2 ^ 16) w in (v % 2 ^ 16, w1)

  -- the loop of `IO_Delay`, until bit 7 of the counter is clear
  delay_loop : (fuel : ℕ) → W → Run W
  unfolding inb
  delay_loop zero w = out_of_fuel
  delay_loop (suc fuel) w =
      let (v, w1) = inb 0x40 w in
      let rest = delay_loop fuel w1 in if not (bit_and v 0x80 == 0) then rest else done w1

  -- `IO_Delay`
  unfoldable pub io_delay : (fuel ms : ℕ) → W → Run W
  unfolding outb delay_loop
  io_delay fuel ms w =
      let count : ℕ = (ms * 1193) % 2 ^ 32 in
      delay_loop fuel (
        outb 0x40 (bit_and (count / 2 ^ 8) 0xFF)
          (outb 0x40 (bit_and count 0xFF) (outb 0x43 0x36 w)))
