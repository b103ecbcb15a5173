-- ===== src/Kdebug.antt =====
-- src/dbg/kdebug.c: the serial line. Waits for the line have no bound and run on fuel.
-- `Dbg_PrintF` and `dbg_vprintf`, which format with nanoprintf, are `Dbg_Print` of what it writes.
pub mod Print
use sipaa_kernel.Prelude.{
  ℕ, zero, suc, ◌+◌, ◌%◌, ◌^◌, Bool, true, false, ◌==◌, leb, not, ◌&&◌, if◌then◌else◌, bit_and,
}
use sipaa_kernel.Prelude.Run.{Run, done, out_of_fuel, ◌>>=◌}
use sipaa_kernel.Mem.{Mem}
use sipaa_kernel.Io.{Ports, inb, outb}

-- `current_sp` and `debugger_ready`
pub record Debugger : Type 0 where
  pub current_sp : ℕ
  pub ready : Bool

-- how `Dbg_SystemPanic` ends: it returns, halts, or stays in the shell that reads for ever
pub data Panic (W : Type 0) : Type 0 where
  ignored : W → Panic W
  halted : W → Panic W
  shell : W → Panic W

module _ {W : Type 0} (k : Ports W) where
  -- `isPortConnected`
  unfoldable pub is_port_connected : (port : ℕ) → W → Bool × W
  unfolding inb
  is_port_connected port w =
      let (status, w1) = inb k (port + 5) w in
      (not (bit_and status 0x01 == 0) && not (bit_and status 0x20 == 0), w1)

  -- `Dbg_Initialize`
  unfoldable pub dbg_initialize : (sp : ℕ) → Debugger × W → Bool × Debugger × W
  unfolding inb outb
  dbg_initialize sp (d, w0) =
      let w1 : W = outb k (sp + 1) 0x00 w0 in
      let w2 : W = outb k (sp + 3) 0x80 w1 in
      let w3 : W = outb k (sp + 0) 0x03 w2 in
      let w4 : W = outb k (sp + 1) 0x00 w3 in
      let w5 : W = outb k (sp + 3) 0x03 w4 in
      let w6 : W = outb k (sp + 2) 0xC7 w5 in
      let w7 : W = outb k (sp + 4) 0x0B w6 in
      let w8 : W = outb k (sp + 4) 0x1E w7 in
      let w9 : W = outb k (sp + 0) 0xAE w8 in
      let (echo, w10) = inb k (sp + 0) w9 in
      if not (echo == 0xAE)
      then (false, d, w10)
      else (true, record { current_sp = sp % 2 ^ 16; ready = true }, outb k (sp + 4) 0x0F w10)

  -- the loop of `Dbg_ReadTickCheck`, whose counter bounds it, with `n` ticks left
  unfoldable pub read_ticks : (n sp : ℕ) → W → ℕ × W
  unfolding inb
  read_ticks zero sp w =
      let (status, w1) = inb k (sp + 5) w in if bit_and status 1 == 0 then (0, w1) else inb k sp w1
  read_ticks (suc n) sp w =
      let (status, w1) = inb k (sp + 5) w in
      let rest = read_ticks n sp w1 in if bit_and status 1 == 0 then rest else inb k sp w1

  -- `Dbg_ReadTickCheck`
  unfoldable pub dbg_read_tick_check : (max_ticks : ℕ) → Debugger → W → ℕ × W
  unfolding read_ticks
  dbg_read_tick_check max_ticks d w = read_ticks max_ticks d.current_sp w

  -- the wait for a bit of the line's status
  wait_for : (fuel bit sp : ℕ) → W → Run W
  unfolding inb
  wait_for zero bit sp w = out_of_fuel
  wait_for (suc fuel) bit sp w =
      let (status, w1) = inb k (sp + 5) w in
      let rest = wait_for fuel bit sp w1 in if bit_and status bit == 0 then rest else done w1

  -- `Dbg_Read`, which answers `'h'` without a line
  unfoldable pub dbg_read : (fuel : ℕ) → Debugger → W → Run (ℕ × W)
  unfolding wait_for inb
  dbg_read fuel d w =
      if d.ready
      then (do w1 ← wait_for fuel 1 d.current_sp w; done (inb k d.current_sp w1))
      else done (104, w)

  -- `serial_putc`
  unfoldable pub serial_putc : (fuel a : ℕ) → Debugger → W → Run W
  unfolding wait_for outb
  serial_putc fuel a d w =
      if d.ready
      then (do w1 ← wait_for fuel 0x20 d.current_sp w; done (outb k d.current_sp a w1))
      else done w

  -- the loop of `Dbg_Print`
  print_from : (rounds fuel i format : ℕ) → Debugger → Mem → W → Run W
  unfolding serial_putc
  print_from zero fuel i format d m w = out_of_fuel
  print_from (suc rounds) fuel i format d m w =
      let rest = (do
        w1 ← serial_putc fuel (m (format + i)) d w
        print_from rounds fuel (i + 1) format d m w1) in
      if not (m (format + i) == 0) then rest else done w

  -- `Dbg_Print`
  unfoldable pub dbg_print : (rounds fuel format : ℕ) → Debugger → Mem → W → Run W
  unfolding print_from
  dbg_print rounds fuel format d m w = print_from rounds fuel 0 format d m w

  -- `Dbg_SystemPanic`; `menu` is the address of its text
  unfoldable pub dbg_system_panic : (rounds fuel menu : ℕ) → Debugger → Mem → W → Run (Panic W)
  unfolding dbg_print dbg_read serial_putc
  dbg_system_panic rounds fuel menu d m w = if not d.ready then done (ignored w) else (do
    w1 ← dbg_print rounds fuel menu d m w
    (c, w2) ← dbg_read fuel d w1
    w3 ← serial_putc fuel c d w2
    done (if c == 105 then ignored w3 else if c == 104 then halted w3 else shell w3))
