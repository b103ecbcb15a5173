-- ===== src/Ata/Identify.antt =====
-- `Ata_Identify` and `Ata_Initialize`, which end what src/dev/block/ata.c does.
use sipaa_kernel.Prelude.{ℕ, zero, suc, ◌+◌, ◌==◌, if◌then◌else◌}
use sipaa_kernel.Prelude.Run.{Run, done, ◌>>=◌}
use sipaa_kernel.Mem.{Mem}
use sipaa_kernel.Io.{Ports, inb, outb}
use sipaa_kernel.Ata.{
  Ata, ata_poll, ata_read, ata_wait, ata_okay, ata_disk_err, ata_disk_not_identified, ata_primary,
  ata_master,
}

-- the loop that copies the name, with `n` rounds left: the two bytes of a word change places
unfoldable pub copy_name : (n i buf : ℕ) → Mem → (ℕ → ℕ) → ℕ → ℕ
copy_name zero i buf m name = name
copy_name (suc n) i buf m name =
    let first : ℕ → ℕ = λ j. if j == i then m (buf + (54 + i + 1)) else name j in
    copy_name n (i + 2) buf m (λ j. if j == i + 1 then m (buf + (54 + i)) else first j)

-- a result, with the globals, memory and the world
pub record Identified (W : Type 0) : Type 0 where
  pub status : ℕ
  pub ata : Ata
  pub memory : Mem
  pub world : W

module _ {W : Type 0} (k : Ports W) where
  -- the part of `Ata_Identify` after the status was read; `buf` is the address of its buffer
  unfoldable pub identify_rest : (fuel buf : ℕ) → Ata → Mem → W → Run (Identified W)
  unfolding ata_poll ata_read ata_wait copy_name
  identify_rest fuel buf a m w = do
    polled ← ata_poll k fuel a.base w
    (if polled.0 == ata_okay
        then (do
          r ← ata_read k fuel 0 buf 1 a m polled.1
          done (record {
            status = ata_okay;
            ata = record a { name = copy_name 20 0 buf r.memory a.name };
            memory = r.memory;
            world = ata_wait k a.base r.world;
          }))
        else done (record { status = ata_disk_err; ata = a; memory = m; world = polled.1 }))

  -- `Ata_Identify`; `self` is its own address, which it passes as the command.
  unfoldable pub ata_identify : (fuel self buf ata kind : ℕ) → Ata → Mem → W → Run (Identified W)
  unfolding inb outb identify_rest
  ata_identify fuel self buf ata kind a m w =
      let a1 : Ata = record a { base = ata; kind = kind } in
      let w1 : W = outb k (ata + 6) kind w in
      let w2 : W = outb k 0x1F4 0 (outb k 0x1F3 0 (outb k 0x1F2 0 w1)) in
      let w3 : W = outb k (ata + 7) self w2 in
      let (status, w4) = inb k (ata + 7) w3 in
      if status == 0
      then done (record { status = ata_disk_not_identified; ata = a1; memory = m; world = w4 })
      else identify_rest fuel buf a1 m w4

  -- `Ata_Initialize`
  unfoldable pub ata_initialize : (fuel self buf : ℕ) → Ata → Mem → W → Run (Identified W)
  unfolding ata_identify
  ata_initialize fuel self buf a m w = ata_identify fuel self buf ata_primary ata_master a m w
