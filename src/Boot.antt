-- ===== src/Boot.antt =====
-- The start of the memory managers in `SKEntry` of src/init/init.c: `Pmm_Initialize`,
-- `KHeap_Initialize` and `Vmm_Initialize` one after the other, over the same page stack.
pub mod Stacked
pub mod Heap
pub mod Mapped
use sipaa_kernel.Prelude.{ℕ, List}
use sipaa_kernel.Prelude.Run.{Run, done, ◌>>=◌}
use sipaa_kernel.Pmm.{MemmapEntry, initialize}
use sipaa_kernel.KernelHeap.{KernelHeap, heap_initialize}
use sipaa_kernel.Vmm.{Vmm}
use sipaa_kernel.Vmm.Start.{Layout, kernel_table, map_sections}

-- The three calls, up to the sections of the kernel. `fuel` is that of the loops over memory, and
-- `heap` the kernel heap before it is made.
unfoldable pub start_memory :
    (fuel hhdm : ℕ) → Layout → List MemmapEntry → KernelHeap → Vmm → Run (KernelHeap × Vmm)
start_memory fuel hhdm l mmap heap v = do
  p ← initialize fuel mmap v.pmm
  h ← heap_initialize fuel hhdm (record heap { pmm = p })
  w ← map_sections fuel hhdm l (kernel_table hhdm (record v { pmm = h.pmm }))
  done (h, w)
