-- ===== src/Tests/Heap.antt =====
-- The kernel heap.
use sipaa_kernel.Prelude.{
  ◌+◌, ◌%◌, ◌^◌, ◌≡◌, refl, some, none, [], ◌∷◌, arith, ◌==◌, false, if◌then◌else◌,
}
use sipaa_kernel.Prelude.Run.{done}
use sipaa_kernel.Pmm.{Pmm, grow, allocate, scan}
use sipaa_kernel.KernelHeap.{
  KernelHeap, heap_allocate, heap_free, heap_magic, block_header, get_page,
}
use sipaa_kernel.KernelHeap.Circle.{IsCircle}
use sipaa_kernel.KernelHeap.Free.{heap_free-IsCircle}
use sipaa_kernel.KernelHeap.Allocate.{
  Reused, Linked, first_open, heap_allocate_reuse, heap_allocate_fresh,
}

abbrev one_page : Pmm
one_page = record {
  stack = λ i. 65536;
  stack_top = 1;
  free_blocks = 0;
  block = λ p. record { size = 0; next = 0; is_free = false };
  bytes = λ a. 0;
}

-- the head at 100 and a free block of 64 bytes at 200
abbrev two : KernelHeap
two = record {
  block_head = 100;
  blocks = λ p.
      if p == 100
      then record { next = 200; prev = 200; state = 1; magic = heap_magic; size = 0 }
      else record { next = 100; prev = 100; state = 0; magic = heap_magic; size = 64 };
  pmm = one_page;
}

two-IsCircle : IsCircle two.blocks 100 (200 ∷ [])
two-IsCircle = ground arith

open_first : first_open two.blocks 40 (100 ∷ 200 ∷ []) ≡ some 200
unfolding first_open
open_first = refl

heap_allocate_reuse_example :
    (t : KernelHeap) × (heap_allocate 3 4096 40 two ≡ done ((200 + block_header) % 2 ^ 64, t))
    × Reused 3 4096 40 two (200 ∷ []) 200 t
heap_allocate_reuse_example =
    heap_allocate_reuse 3 4096 40 two (200 ∷ []) 200 two-IsCircle (omega arith) open_first

open_none : first_open two.blocks 5000 (100 ∷ 200 ∷ []) ≡ none
unfolding first_open
open_none = refl

abbrev no_page : Pmm
no_page = (grow 25 0 one_page).1

got_page : get_page 3 4096 one_page ≡ done (69656, no_page)
unfolding get_page allocate scan grow
got_page = refl

heap_allocate_fresh_example :
    (t : KernelHeap) × (heap_allocate 3 4096 5000 two ≡ done ((69656 + block_header) % 2 ^ 64, t))
    × Linked 3 4096 5000 two (200 ∷ []) 69656 no_page t
heap_allocate_fresh_example =
    heap_allocate_fresh 3 4096 5000 two (200 ∷ []) 69656 no_page two-IsCircle (omega arith)
      open_none got_page (omega arith) refl

-- the head at 100, a free block at 200, one in use at 300 and a free one at 400
abbrev four : KernelHeap
four = record {
  block_head = 100;
  blocks = λ p.
      if p == 100
      then record { next = 200; prev = 400; state = 1; magic = heap_magic; size = 0 }
      else if p == 200
      then record { next = 300; prev = 100; state = 0; magic = heap_magic; size = 64 }
      else if p == 300
      then record { next = 400; prev = 200; state = 1; magic = heap_magic; size = 64 }
      else record { next = 100; prev = 300; state = 0; magic = heap_magic; size = 64 };
  pmm = one_page;
}

heap_free-IsCircle_example : IsCircle (heap_free 332 four).blocks 100 (200 ∷ [])
heap_free-IsCircle_example =
    heap_free-IsCircle 332 300 (200 ∷ []) (400 ∷ []) four (ground arith) refl (omega arith) refl
