-- ===== src/Pmm/Reallocate.antt =====
-- `Pmm_Reallocate`: what is carried over to the new block.
use sipaa_kernel.Mem.{Mem}
use sipaa_kernel.Pmm.{Pmm}
