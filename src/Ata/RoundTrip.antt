-- ===== src/Ata/RoundTrip.antt =====
-- `Ata_Read` after `Ata_Write`.
use sipaa_kernel.Prelude.{ℕ, ◌*◌, ◌≡◌}
use sipaa_kernel.Prelude.Run.{done}
use sipaa_kernel.Mem.{Mem}
use sipaa_kernel.Io.{Ports}
use sipaa_kernel.Ata.{Ata, ata_okay, ata_read, ata_write}
use sipaa_kernel.Ata.Drive.{Drive, wanted}
use sipaa_kernel.Ata.Transfer.{pack, Received}

module _ {W : Type 0} (k : Ports W) (a : Ata) (delay : ℕ) (drive : Drive k a.base delay) where
  open drive use {given, taken, target}

  -- what a write leaves, and what a read of the same sectors then brings back
  pub record Written (f lba count from to : ℕ) (m m2 : Mem) (w : W) : Type 0 where
    pub world : W
    pub returns :
        ata_write k f lba from count a m w
        ≡ done (record { status = ata_okay; memory = m; world = world })
    pub sectors : target world ≡ wanted a.kind lba count
    pub words : taken world ≡ pack (256 * count) from m
    pub read_back :
        Received k a.base delay drive to 0
          (512 * count)
          from
          m
          m2
          (ata_read k f lba to count a m2 world)
