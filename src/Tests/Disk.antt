-- ===== src/Tests/Disk.antt =====
-- Sectors written and read back.
use sipaa_kernel.Prelude.{ℕ, ◌-◌, ◌%◌, List, [], ◌∷◌, ◌++◌, ◌==◌, if◌then◌else◌, get_or, drop}
use sipaa_kernel.Mem.{Mem}
use sipaa_kernel.Io.{Ports}
use sipaa_kernel.Ata.{Ata}
use sipaa_kernel.Ata.Drive.{Drive, Sectors, addressed}

-- a drive that keeps the words of the last write, and is busy for one status after a command or word
pub record DiskState : Type 0 where
  pub regs : ℕ → ℕ
  pub to_give : List ℕ
  pub written : List ℕ
  pub place : Sectors
  pub busy : ℕ

abbrev disk : Ports DiskState
disk = record {
  out8 = λ p v w.
      if p == 0x1F7
      then (if v == 0x30
          then record w { written = []; place = addressed w.regs; busy = 1 }
          else if v == 0x20
          then record w { to_give = w.written; busy = 1 }
          else w)
      else record w { regs = λ j. if j == p - 0x1F0 then v else w.regs j };
  in8 = λ p w. (if w.busy == 1 then 0x80 else 0x50, record w { busy = 0 });
  out16 = λ p v w. record w { written = w.written ++ v ∷ []; busy = 1 };
  in16 = λ p w. (get_or w.to_give 0 0, record w { to_give = drop 1 w.to_give; busy = 1 });
  out32 = λ p v w. w;
  in32 = λ p w. (0, w);
}

abbrev primary : Ata
primary = record { base = 0x1F0; kind = 0xA0; name = λ i. 0 }

abbrev counting : Mem
counting a = a % 256

abbrev idle : DiskState
idle = record {
  regs = λ j. 0;
  to_give = [];
  written = [];
  place = record { lba = 0; count = 0; drive = 0 };
  busy = 0;
}
