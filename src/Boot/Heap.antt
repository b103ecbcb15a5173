-- ===== src/Boot/Heap.antt =====
-- `KHeap_Initialize` on a page stack that no block has been allocated from takes its two top pages.
use sipaa_kernel.Prelude.{
  ℕ, suc, ◌+◌, ◌-◌, ◌%◌, ◌^◌, ◌≤◌, ◌<◌, ◌≡◌, refl, arith, ◌==◌, false, true, Bool-cases, inl, inr,
  [],
}
use sipaa_kernel.Prelude.Run.{done}
use sipaa_kernel.Pmm.{Pmm, header, add64, update, allocate, allocate_page, scan, grow}
use sipaa_kernel.KernelHeap.Circle.{IsCircle}
use sipaa_kernel.KernelHeap.{KernelHeap, set_block, heap_magic, get_page, heap_initialize}

grow_takes :
    (size prev : ℕ) (s : Pmm)
    → 0 < s.stack_top
    → 0 < s.stack (s.stack_top - 1)
    → let t : Pmm = (grow size prev s).1 in (t.stack ≡ s.stack) × (t.stack_top ≡ s.stack_top - 1)
unfolding grow allocate_page
grow_takes size prev s room real =
    let some_page : (s.stack_top == 0) ≡ false = ground arith in
    let not_null : (s.stack (s.stack_top - 1) == 0) ≡ false = ground arith in
    elim (Bool-cases (prev == 0)) [
      | inl e ↦ rw (some_page, not_null, e) (refl, refl)
      | inr e ↦ rw (some_page, not_null, e) (refl, refl)
    ]

module _ (f hhdm : ℕ) (s : Pmm) (no_blocks : s.free_blocks ≡ 0) (room : 2 ≤ s.stack_top)
    (real : (j : ℕ) → j < s.stack_top → 0 < s.stack j) where
  abbrev first : ℕ
  first = s.stack (s.stack_top - 1)

  -- after the page of the `HeapT`
  abbrev with_first : Pmm
  with_first = record s {
    stack_top = s.stack_top - 1;
    free_blocks = first;
    block = update s.block first (record { size = add64 1 header; next = 0; is_free = false });
  }

  first_page : get_page (suc (suc f)) hhdm s ≡ done ((first + header + hhdm) % 2 ^ 64, with_first)
  unfolding get_page allocate scan grow allocate_page
  first_page =
      let some_page : (s.stack_top == 0) ≡ false = ground arith in
      let not_null : (first == 0) ≡ false = ground (arith, real (s.stack_top - 1)) in
      rw (no_blocks, some_page, not_null) refl

  -- the page of the first block is behind it
  second_page :
      let r : ℕ × Pmm = grow (add64 1 header) first with_first in
      get_page (suc (suc f)) hhdm with_first ≡ done ((r.0 + hhdm) % 2 ^ 64, r.1)
  unfolding get_page allocate scan
  second_page =
      let not_null : (first == 0) ≡ false = ground (arith, real (s.stack_top - 1)) in
      let same : (first == first) ≡ true = ground arith in rw (not_null, same) refl

  abbrev made : KernelHeap → KernelHeap
  made heap =
      let r : ℕ × Pmm = grow (add64 1 header) first with_first in
      let p : ℕ = (r.0 + hhdm) % 2 ^ 64 in
      record heap {
        block_head = p;
        blocks =
            set_block p (record { next = p; prev = p; state = 1; magic = heap_magic; size = 0 })
              heap.blocks;
        pmm = r.1;
      }

  pub heap_initialize_takes :
      (heap : KernelHeap)
      → heap.pmm ≡ s
      → (h : KernelHeap) × (heap_initialize (suc (suc f)) hhdm heap ≡ done h)
        × ((h.pmm).stack ≡ s.stack)
        × ((h.pmm).stack_top ≡ s.stack_top - 2)
        × IsCircle h.blocks h.block_head []
  unfolding heap_initialize
  heap_initialize_takes heap e =
      let (kept, less) =
        grow_takes (add64 1 header) first with_first (omega arith)
          (real (s.stack_top - 1 - 1) (omega arith)) in
      (made heap, rw (e, first_page, second_page) refl, kept, omega (arith, less), ground arith)
