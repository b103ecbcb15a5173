-- ===== src/Tests/Booting.antt =====
-- The memory managers started on a small memory map.
use sipaa_kernel.Prelude.{refl, arith, List, [], ◌∷◌, false}
use sipaa_kernel.Pmm.{Pmm, MemmapEntry}
use sipaa_kernel.KernelHeap.{KernelHeap}
use sipaa_kernel.Vmm.{Vmm}
use sipaa_kernel.Boot.{start_memory}
use sipaa_kernel.Boot.Stacked.{Ordered, over, usable, other}
use sipaa_kernel.Boot.Mapped.{Started, start_memory-Started}
use sipaa_kernel.Tests.Sections.{
  narrow, layout, text, rodata, writable, text-IsSection, rodata-IsSection, writable-IsSection,
  text-rodata, text-writable, rodata-writable,
}

-- 16 pages that are usable, after what is reserved
abbrev low : MemmapEntry
low = record { base = 0; length = 0x1000; kind = 1 }

abbrev free_pages : MemmapEntry
free_pages = record { base = 0x10000; length = 0x10000; kind = 0 }

abbrev mmap : List MemmapEntry
mmap = low ∷ free_pages ∷ []

mmap-Ordered : Ordered 0 mmap
mmap-Ordered =
    other 0 low (omega arith)
      (usable 0 free_pages 16 refl refl (omega arith) (omega arith) (omega arith) (over 0x20000))

abbrev no_pages : Pmm
no_pages = record {
  stack = λ i. 0;
  stack_top = 0;
  free_blocks = 0;
  block = λ p. record { size = 0; next = 0; is_free = false };
  bytes = λ a. 0;
}

abbrev no_tables : Vmm
no_tables = record {
  pmm = no_pages;
  words = λ a. 0;
  kernel_address_space = 0;
  current_address_space = 0;
}

abbrev no_heap : KernelHeap
no_heap = record {
  block_head = 0;
  blocks = λ p. record { next = 0; prev = 0; state = 0; magic = 0; size = 0 };
  pmm = no_pages;
}

start_memory-Started_example :
    Started 0x1000 narrow 0x10002 layout text rodata writable
      (start_memory 0x10002 0x1000 layout mmap no_heap no_tables)
start_memory-Started_example =
    start_memory-Started 0x1000 narrow (omega arith) 0x10000 layout text rodata writable mmap
      no_heap no_tables mmap-Ordered (ground arith)
      (λ i. record { number = 0; small = omega arith; aligned = refl }) refl (omega arith)
      (omega arith) text-IsSection rodata-IsSection writable-IsSection text-rodata text-writable
      rodata-writable (omega arith)
