-- ===== src/Boot/Mapped.antt =====
-- The sections of the kernel after the memory managers have started.
use sipaa_kernel.Prelude.{
  ℕ, suc, ◌+◌, ◌-◌, ◌*◌, ◌^◌, ◌≤◌, ◌<◌, ◌≡◌, refl, sym, ap, ◌∙◌, arith, List, [], ◌∷◌, length,
}
use sipaa_kernel.Prelude.Run.{Run, done, out_of_fuel}
use sipaa_kernel.Pmm.{Pmm, MemmapEntry, stack_size, initialize}
use sipaa_kernel.Pmm.Pages.{push, length-entries}
use sipaa_kernel.Pmm.Regions.{Fits, all_pages, push_all, initialize-pages}
use sipaa_kernel.KernelHeap.{KernelHeap}
use sipaa_kernel.KernelHeap.Circle.{IsCircle}
use sipaa_kernel.Vmm.{Vmm}
use sipaa_kernel.Vmm.Map.{Frames}
use sipaa_kernel.Vmm.Paging.{table_of}
use sipaa_kernel.Vmm.Start.{Layout}
use sipaa_kernel.Vmm.Sections.{
  Section, IsSection, Disjoint, SectionsMapped, map_sections-SectionsMapped,
}
use sipaa_kernel.Boot.{start_memory}
use sipaa_kernel.Boot.Stacked.{Ordered, initialize-Rising, Rising-Distinct}
use sipaa_kernel.Boot.Heap.{heap_initialize_takes}

length-push_all :
    (m : ℕ) (ps q : List ℕ) → m ≤ stack_size → m ≤ length ps + length q → m ≤ length (push_all ps q)
unfolding push
length-push_all m [] q room many = omega (arith, many)
length-push_all m (p ∷ ps) q room many = length-push_all m ps (push p q) room (ground arith)

abbrev top_of : Run Pmm → ℕ
top_of (done t) = t.stack_top
top_of out_of_fuel = 0

initialize_holds :
    (f m : ℕ) (mmap : List MemmapEntry) (s t : Pmm)
    → Fits f mmap
    → m ≤ stack_size
    → m ≤ length (all_pages mmap)
    → initialize f mmap s ≡ done t
    → m ≤ t.stack_top
initialize_holds f m mmap s t fits room many run =
    let (t', run', held) = initialize-pages f mmap s fits in
    let top : t.stack_top ≡ length (push_all (all_pages mmap) []) =
      sym (ap top_of run)
      ∙ ap top_of run'
      ∙ sym (length-entries t'.stack t'.stack_top)
      ∙ ap length held in
    omega (arith, top, length-push_all m (all_pages mmap) [] room (omega (arith, many)))

-- The heap's circle is its head, and the sections are mapped in the page that was on top of the
-- stack when the heap had its two.
pub record Started (hhdm : ℕ) (wide : hhdm < 2 ^ 64) (fuel : ℕ) (l : Layout)
    (text rodata writable : Section) (r : Run (KernelHeap × Vmm)) : Type 0 where
  pub heap : KernelHeap
  pub after : Vmm
  pub ends : r ≡ done (heap, after)
  pub circle : IsCircle heap.blocks heap.block_head []
  pub mapped :
      SectionsMapped hhdm wide fuel l
        (table_of hhdm heap.pmm ((heap.pmm).stack_top - 1))
        text
        rodata
        writable
        (done after)

module _ (hhdm : ℕ) (wide : hhdm < 2 ^ 64) (canonical : hhdm + 2 ^ 52 ≤ 2 ^ 64) (f : ℕ) (l : Layout)
    (text rodata writable : Section) where
  abbrev pub fuel : ℕ
  fuel = suc (suc f)

  -- Suppose that the usable entries of the memory map have whole pages of 52-bit memory, without the
  -- first page and in the order of their addresses, with three pages for each page of the kernel's
  -- sections and three more, for which the page stack has room; that the stack's array holds
  -- addresses of frames, such as 0, and no block has been allocated; that memory is mapped without
  -- wrapping; and that the sections are in the kernel, do not wrap and share no page. Then
  -- `Pmm_Initialize`, `KHeap_Initialize` and the loops of `Vmm_Initialize` over the sections, one
  -- after the other, end, with fuel of 2 at least and above the length of every entry and the pages
  -- of the sections. The heap's circle then is its head alone, the tables are well formed, and the
  -- walk of the processor finds each page of each section at the same distance from the kernel's
  -- physical base as from its virtual base, with the flags of the section.
  pub start_memory-Started :
      (mmap : List MemmapEntry) (heap : KernelHeap) (v : Vmm)
      → Ordered 0 mmap
      → Fits fuel mmap
      → Frames v.pmm
      → (v.pmm).free_blocks ≡ 0
      → 3 * (text.count + rodata.count + writable.count) + 2 < length (all_pages mmap)
      → 3 * (text.count + rodata.count + writable.count) + 2 < stack_size
      → IsSection l l.text_start l.text_end text
      → IsSection l l.rodata_start l.rodata_end rodata
      → IsSection l l.data_start l.data_end writable
      → Disjoint text rodata
      → Disjoint text writable
      → Disjoint rodata writable
      → text.count + rodata.count + writable.count < fuel
      → Started hhdm wide fuel l text rodata writable (start_memory fuel hhdm l mmap heap v)
  unfolding start_memory
  start_memory-Started mmap heap v ordered fits frames no_blocks many room ist isr isd t_r t_w r_w
        enough =
      let (p, hi, run, r) = initialize-Rising fuel mmap v.pmm ordered fits frames no_blocks in
      let n : ℕ = 3 * (text.count + rodata.count + writable.count) + 3 in
      let top =
        initialize_holds fuel n mmap v.pmm p fits (omega (arith, room)) (omega (arith, many)) run in
      let (h, run', kept, less, circle) =
        heap_initialize_takes f hhdm p r.no_blocks (omega (arith, top)) r.real
          (record heap { pmm = p }) refl in
      let m =
        map_sections-SectionsMapped hhdm wide fuel l (record v { pmm = h.pmm }) text rodata writable
          (λ i. rw kept (r.frames i))
          (λ i j m q.
            rw kept (Rising-Distinct hhdm hi p canonical r i j (omega (arith, m, less)) q))
          (omega (arith, top, less)) ist isr isd t_r t_w r_w enough in
      record {
        heap = h;
        after = m.after;
        ends = rw (run, run', m.ends) refl;
        circle = circle;
        mapped = record {
          after = m.after;
          level = m.level;
          ends = refl;
          paging = m.paging;
          text_placed = m.text_placed;
          rowritable_placed = m.rowritable_placed;
          writable_placed = m.writable_placed;
        };
      }
