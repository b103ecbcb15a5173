-- ===== src/Ata.antt =====
-- src/dev/block/ata.c and src/include/sipaa/dev/block/ata.h: the disk by programmed input and
-- output. The drive is behind the ports; the polling loop has no bound, so that it runs on fuel.
pub mod Poll
pub mod Drive
pub mod Select
pub mod Transfer
pub mod RoundTrip
pub mod Identify
use sipaa_kernel.Prelude.{
  ℕ, zero, suc, ◌+◌, ◌*◌, ◌/◌, ◌%◌, ◌^◌, ◌==◌, ltb, not, if◌then◌else◌, bit_and, bit_or,
}
use sipaa_kernel.Prelude.Run.{Run, done, out_of_fuel, ◌>>=◌}
use sipaa_kernel.Mem.{Mem, store}
use sipaa_kernel.Io.{Ports, inb, outb, inw, outw}

-- `ATA_PRIMARY`, `ATA_MASTER`, `ATA_WAIT`, `ATA_READ` and `ATA_WRITE`
abbrev pub ata_primary : ℕ
ata_primary = 0x1F0

abbrev pub ata_master : ℕ
ata_master = 0xA0

abbrev pub ata_wait_command : ℕ
ata_wait_command = 0x00

abbrev pub ata_read_command : ℕ
ata_read_command = 0x20

abbrev pub ata_write_command : ℕ
ata_write_command = 0x30

-- the results
abbrev pub ata_okay : ℕ
ata_okay = 0

abbrev pub ata_disk_not_identified : ℕ
ata_disk_not_identified = 1

abbrev pub ata_disk_err : ℕ
ata_disk_err = 2

-- `Ata_Base`, `Ata_Type` and `Ata_Name`
pub record Ata : Type 0 where
  pub base : ℕ
  pub kind : ℕ
  pub name : ℕ → ℕ

-- a result, with what memory and the world are then
pub record Outcome (W : Type 0) : Type 0 where
  pub status : ℕ
  pub memory : Mem
  pub world : W

module _ {W : Type 0} (k : Ports W) where
  -- the loop of `Ata_Wait`, with `n` rounds left
  wait_rounds : (n base : ℕ) → W → W
  unfolding inb
  wait_rounds zero base w = w
  wait_rounds (suc n) base w = wait_rounds n base (inb k (base + 7) w).1

  -- `Ata_Wait`
  unfoldable pub ata_wait : (base : ℕ) → W → W
  unfolding wait_rounds
  ata_wait base w = wait_rounds 4 base w

  -- the loop of `Ata_Poll`
  unfoldable pub poll_loop : (fuel base : ℕ) → W → Run (ℕ × W)
  unfolding inb
  poll_loop zero base w = out_of_fuel
  poll_loop (suc fuel) base w =
      let (status, w1) = inb k (base + 7) w in
      let rest = poll_loop fuel base w1 in
      if bit_and status 0x80 == 0
      then done (ata_okay, w1)
      else if not (bit_and status 0x08 == 0)
      then done (ata_okay, w1)
      else if not (bit_and status 0x01 == 0)
      then done (ata_disk_err, w1)
      else rest

  -- `Ata_Poll`
  unfoldable pub ata_poll : (fuel base : ℕ) → W → Run (ℕ × W)
  unfolding poll_loop ata_wait
  ata_poll fuel base w = poll_loop fuel base (ata_wait base w)

  -- the writes with which `Ata_Read` and `Ata_Write` begin
  unfoldable pub select_sectors : (base kind lba sector_count command : ℕ) → W → W
  unfolding outb
  select_sectors base kind lba sector_count command w0 =
      let drive : ℕ =
        bit_or (if kind == ata_master then 0xE0 else 0xF0) (bit_and (lba / 2 ^ 24) 0x0F) in
      let w1 : W = outb k (base + 6) drive w0 in
      let w2 : W = outb k (base + 1) ata_wait_command w1 in
      let w3 : W = outb k (base + 2) sector_count w2 in
      let w4 : W = outb k (base + 3) (lba % 2 ^ 8) w3 in
      let w5 : W = outb k (base + 4) (lba / 2 ^ 8 % 2 ^ 8) w4 in
      let w6 : W = outb k (base + 5) (lba / 2 ^ 16 % 2 ^ 8) w5 in outb k (base + 7) command w6

  -- the number of bytes that a transfer counts up to, a product of `uint32_t`
  abbrev pub bytes_of : (sector_count : ℕ) → ℕ
  bytes_of sector_count = (sector_count * 512) % 2 ^ 32

  -- the body of the loop of `Ata_Read` after a poll without error
  unfoldable pub read_word : (base buffer i total : ℕ) → Mem → W → Mem × W
  unfolding inw store
  read_word base buffer i total m w =
      let (val, w1) = inw k base w in
      let m1 : Mem = store m (buffer + i) (bit_and val 0x00ff) in
      (
        if ltb (i + 1) total
            then store m1 (buffer + (i + 1)) (bit_and (val / 2 ^ 8) 0x00ff)
            else m1,
        w1,
      )

  -- the loop of `Ata_Read`, with `n` rounds left, and its end
  unfoldable pub read_rounds : (fuel n base buffer i total : ℕ) → Mem → W → Run (Outcome W)
  unfolding ata_poll read_word ata_wait
  read_rounds fuel zero base buffer i total m w =
      done (record { status = ata_okay; memory = m; world = ata_wait base w })
  read_rounds fuel (suc n) base buffer i total m w = do
    polled ← ata_poll fuel base w
    (if polled.0 == ata_okay
        then (let r = read_word base buffer i total m polled.1 in
            read_rounds fuel n base buffer (i + 2) total r.0 r.1)
        else done (record { status = ata_disk_err; memory = m; world = polled.1 }))

  -- `Ata_Read`
  unfoldable pub ata_read : (fuel lba buffer sector_count : ℕ) → Ata → Mem → W → Run (Outcome W)
  unfolding select_sectors read_rounds
  ata_read fuel lba buffer sector_count a m w =
      let total : ℕ = bytes_of sector_count in
      read_rounds fuel (total / 2) a.base buffer 0 total m
        (select_sectors a.base a.kind lba sector_count ata_read_command w)

  -- the body of the loop of `Ata_Write` after a poll without error
  unfoldable pub write_word : (base buffer i total : ℕ) → Mem → W → W
  unfolding outw
  write_word base buffer i total m w =
      let low : ℕ = m (buffer + i) in
      let val : ℕ =
        if ltb (i + 1) total then bit_or low (m (buffer + (i + 1)) * 2 ^ 8 % 2 ^ 16) else low in
      outw k base val w

  -- the loop of `Ata_Write`, with `n` rounds left, and its end
  unfoldable pub write_rounds : (fuel n base buffer i total : ℕ) → Mem → W → Run (Outcome W)
  unfolding ata_poll write_word ata_wait
  write_rounds fuel zero base buffer i total m w =
      done (record { status = ata_okay; memory = m; world = ata_wait base w })
  write_rounds fuel (suc n) base buffer i total m w = do
    polled ← ata_poll fuel base w
    (if polled.0 == ata_okay
        then write_rounds fuel n base buffer (i + 2) total m
            (write_word base buffer i total m polled.1)
        else done (record { status = ata_disk_err; memory = m; world = polled.1 }))

  -- `Ata_Write`
  unfoldable pub ata_write : (fuel lba buffer sector_count : ℕ) → Ata → Mem → W → Run (Outcome W)
  unfolding select_sectors write_rounds
  ata_write fuel lba buffer sector_count a m w =
      let total : ℕ = bytes_of sector_count in
      write_rounds fuel (total / 2) a.base buffer 0 total m
        (select_sectors a.base a.kind lba sector_count ata_write_command w)
