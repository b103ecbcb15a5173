-- ===== src/Tests/Blocks.antt =====
-- The physical memory manager.
use sipaa_kernel.Prelude.{
  length, ℕ, ◌+◌, ◌^◌, ◌<◌, ◌≡◌, refl, List, [], ◌∷◌, ◌==◌, if◌then◌else◌, arith, true, false,
}
use sipaa_kernel.Prelude.Run.{done}
use sipaa_kernel.Pmm.{
  MemoryBlock, Pmm, MemmapEntry, header, free_page, allocate_page, take_block, allocate, free,
  initialize, missed,
}
use sipaa_kernel.Pmm.Pages.{pages, push, pop, page_stack_refines}
use sipaa_kernel.Pmm.Regions.{push_all, all_pages, initialize-pages}
use sipaa_kernel.Pmm.Chain.{Segment, first_fit}
use sipaa_kernel.Pmm.Allocate.{IsHeap}
use sipaa_kernel.Pmm.Grow.{Grown, allocate_fresh}
use sipaa_kernel.Pmm.Free.{Freed, total, free-Freed}

-- three blocks, the first and the last of them free
abbrev blocks : ℕ → MemoryBlock
blocks p =
    if p == 4096
    then record { size = 100; next = 8192; is_free = true }
    else if p == 8192
    then record { size = 64; next = 12288; is_free = false }
    else record { size = 50; next = 0; is_free = true }

abbrev three : List ℕ
three = 4096 ∷ 8192 ∷ 12288 ∷ []

-- two pages are left, and the block in use holds the string "A"
abbrev heap : Pmm
heap = record {
  stack = λ i. 65536 + i;
  stack_top = 2;
  free_blocks = 4096;
  block = blocks;
  bytes = λ a. if a == 8216 then 65 else 0;
}

-- the same with no page left
abbrev full : Pmm
full = record heap { stack_top = 0 }

heap-IsHeap : IsHeap heap three
heap-IsHeap = record { chain = ground arith; laid = ground arith }

full-IsHeap : IsHeap full three
full-IsHeap = record { chain = ground arith; laid = ground arith }

abbrev memmap : List MemmapEntry
memmap =
    record { base = 4096; length = 9000; kind = 0 }
    ∷ record { base = 65536; length = 4096; kind = 1 }
    ∷ []

initialize-pages_example :
    (t : Pmm) × (initialize 9001 memmap heap ≡ done t) × (pages t ≡ push_all (all_pages memmap) [])
initialize-pages_example = initialize-pages 9001 memmap heap (ground arith)

none_fits : first_fit blocks 224 0 three ≡ missed 12288
unfolding first_fit
none_fits = refl

small_sum : total blocks (8192 ∷ 12288 ∷ []) < 2 ^ 64
unfolding total
small_sum = omega arith

allocate_fresh_example :
    (t : Pmm) × (allocate 4 200 heap ≡ done (heap.stack 1 + header, t))
    × Grown heap t (heap.stack 1) 224 three
allocate_fresh_example =
    allocate_fresh 4 200 heap three 12288 heap-IsHeap (omega arith) (omega arith) (omega arith)
      none_fits (omega arith) (record { real = omega arith; outside = refl; clear = ground arith })

free-Freed_example :
    (t : Pmm) × (free 2 (8192 + header) heap ≡ done t) × Freed heap t 8192 (12288 ∷ [])
free-Freed_example = free-Freed 2 8192 heap (12288 ∷ []) (ground arith) (omega arith) small_sum

abbrev took : Pmm
took = take_block 40 4096 heap

chain : Segment took.block 0 8192 (8192 ∷ 12288 ∷ [])
unfolding take_block
chain = ground arith

page_stack_refines_example :
    (pages (free_page 7 heap) ≡ push 7 (pages heap))
    × (((allocate_page heap).0, pages (allocate_page heap).1) ≡ pop (pages heap))
page_stack_refines_example = page_stack_refines 7 heap
