-- ===== src/Ata/Select.antt =====
-- The sectors that `Ata_Read` and `Ata_Write` select.
use sipaa_kernel.Prelude.{
  ℕ, ◌+◌, ◌*◌, ◌/◌, ◌%◌, ◌^◌, ◌≤◌, ◌<◌, ◌≡◌, refl, ap, sym, ◌∙◌, arith, [], ◌==◌, if◌then◌else◌,
  Bool-cases, inl, inr, bit_and, bit_or, and_mask, or_fields,
}
use sipaa_kernel.Io.{Ports, outb}
use sipaa_kernel.Ata.{
  ata_master, ata_wait_command, select_sectors, ata_read_command, ata_write_command,
}
use sipaa_kernel.Ata.Drive.{Drive, addressed, wanted}

-- the byte that selects the drive, with the four bits of the number above 24
abbrev drive_byte : (kind lba : ℕ) → ℕ
drive_byte kind lba =
    bit_or (if kind == ata_master then 0xE0 else 0xF0) (bit_and (lba / 2 ^ 24) 0x0F)

drive_byte_lem :
    (kind lba : ℕ)
    → drive_byte kind lba ≡ (if kind == ata_master then 14 else 15) * 2 ^ 4 + lba / 2 ^ 24 % 2 ^ 4
drive_byte_lem kind lba =
    let low : bit_and (lba / 2 ^ 24) 0x0F ≡ lba / 2 ^ 24 % 2 ^ 4 =
      and_mask 4 (lba / 2 ^ 24) 0x0F refl in
    elim (Bool-cases (kind == ata_master)) [
      | inl master ↦ rw (master, low) (or_fields 4 14 (lba / 2 ^ 24 % 2 ^ 4) (omega arith))
      | inr slave ↦ rw (slave, low) (or_fields 4 15 (lba / 2 ^ 24 % 2 ^ 4) (omega arith))
    ]

module _ {W : Type 0} (k : Ports W) (base delay : ℕ) (drive : Drive k base delay)
    (kind lba count : ℕ) (w0 : W) where
  open drive use {reg, given, taken, target, sets, set_waits, begins_write, begins_read}

  abbrev w1 : W
  w1 = outb k (base + 6) (drive_byte kind lba) w0

  abbrev w2 : W
  w2 = outb k (base + 1) ata_wait_command w1

  abbrev w3 : W
  w3 = outb k (base + 2) count w2

  abbrev w4 : W
  w4 = outb k (base + 3) (lba % 2 ^ 8) w3

  abbrev w5 : W
  w5 = outb k (base + 4) (lba / 2 ^ 8 % 2 ^ 8) w4

  abbrev w6 : W
  w6 = outb k (base + 5) (lba / 2 ^ 16 % 2 ^ 8) w5

  -- the registers before the command
  reg_at :
      (j : ℕ)
      → reg w6 j ≡ (
          if j == 5
          then lba / 2 ^ 16 % 2 ^ 8 % 2 ^ 8
          else if j == 4
          then lba / 2 ^ 8 % 2 ^ 8 % 2 ^ 8
          else if j == 3
          then lba % 2 ^ 8 % 2 ^ 8
          else if j == 2
          then count % 2 ^ 8
          else if j == 1
          then ata_wait_command % 2 ^ 8
          else if j == 6
          then drive_byte kind lba % 2 ^ 8
          else reg w0 j)
  reg_at j =
      rw
        (
          sets 5 (lba / 2 ^ 16 % 2 ^ 8) j w5 (omega arith) (omega arith),
          sets 4 (lba / 2 ^ 8 % 2 ^ 8) j w4 (omega arith) (omega arith),
          sets 3 (lba % 2 ^ 8) j w3 (omega arith) (omega arith),
          sets 2 count j w2 (omega arith) (omega arith),
          sets 1 ata_wait_command j w1 (omega arith) (omega arith),
          sets 6 (drive_byte kind lba) j w0 (omega arith) (omega arith),
        )
        refl

  kept : (taken w6 ≡ taken w0) × (target w6 ≡ target w0)
  kept =
      let a = set_waits 5 (lba / 2 ^ 16 % 2 ^ 8) w5 (omega arith) (omega arith) in
      let b = set_waits 4 (lba / 2 ^ 8 % 2 ^ 8) w4 (omega arith) (omega arith) in
      let c = set_waits 3 (lba % 2 ^ 8) w3 (omega arith) (omega arith) in
      let d = set_waits 2 count w2 (omega arith) (omega arith) in
      let e = set_waits 1 ata_wait_command w1 (omega arith) (omega arith) in
      let f = set_waits 6 (drive_byte kind lba) w0 (omega arith) (omega arith) in
      (a.0 ∙ b.0 ∙ c.0 ∙ d.0 ∙ e.0 ∙ f.0, a.1 ∙ b.1 ∙ c.1 ∙ d.1 ∙ e.1 ∙ f.1)

  module _ (lba_wide : lba < 2 ^ 28) (some_sector : 0 < count) (few : count ≤ 256) where
    select-addressed : addressed (reg w6) ≡ wanted kind lba count
    select-addressed =
        let r6 : reg w6 6 ≡ (if kind == ata_master then 14 else 15) * 2 ^ 4 + lba / 2 ^ 24 % 2 ^ 4 =
          reg_at 6 ∙ ap (λ b. b % 2 ^ 8) (drive_byte_lem kind lba) ∙ ground arith in
        let number : reg w6 6 % 16 * 2 ^ 24 + reg w6 5 * 2 ^ 16 + reg w6 4 * 2 ^ 8 + reg w6 3
            ≡ lba =
          rw (r6, reg_at 5, reg_at 4, reg_at 3) (ground arith) in
        let sectors : (if reg w6 2 == 0 then 256 else reg w6 2) ≡ count =
          rw (reg_at 2) (ground arith) in
        let which : reg w6 6 / 16 % 2 ≡ (if kind == ata_master then 0 else 1) =
          rw r6 (ground arith) in
        rw (number, sectors, which) refl

    pub select-begins_write :
        let v : W = select_sectors k base kind lba count ata_write_command w0 in
        (taken v ≡ []) × (target v ≡ wanted kind lba count)
    unfolding select_sectors
    select-begins_write = let (empty, at) = begins_write w6 in (empty, at ∙ select-addressed)

    pub select-begins_read :
        target w0 ≡ wanted kind lba count
        → given (select_sectors k base kind lba count ata_read_command w0) ≡ taken w0
    unfolding select_sectors
    select-begins_read same = begins_read w6 (select-addressed ∙ sym same ∙ sym kept.1) ∙ kept.0
