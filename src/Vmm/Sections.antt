-- ===== src/Vmm/Sections.antt =====
-- The sections of the kernel after `Vmm_Initialize` has mapped them.
use sipaa_kernel.Prelude.{
  ℕ, zero, suc, ◌+◌, ◌-◌, ◌*◌, ◌%◌, ◌^◌, ◌≤◌, ◌<◌, ◌≡◌, refl, sym, ap, ◌∙◌, arith, some, ◌==◌,
  Bool-cases, true, false, inl, inr, bit_or, bit_and, ltb,
}
use sipaa_kernel.Prelude.Run.{Run, done}
use sipaa_kernel.Vmm.{Vmm, map, descend, new_table, entry, slot, pte_present}
use sipaa_kernel.Vmm.Walk.{lookup}
use sipaa_kernel.Vmm.Map.{Frames}
use sipaa_kernel.Vmm.Paging.{IsPaging, table_of}
use sipaa_kernel.Vmm.KernelTable.{
  Distinct, only_root, kernel_root, stack_left, kernel_table-IsPaging,
}
use sipaa_kernel.Vmm.Keeps.{SamePage}
use sipaa_kernel.Vmm.Range.{map_range, MapsRange, map_range-MapsRange}
use sipaa_kernel.Vmm.Start.{
  Layout, align_down, align_up, map_section, map_sections, kernel_table, text_flags, rodata_flags,
  data_flags,
}

descend_kernel :
    (hhdm t i : ℕ) (v : Vmm) → (descend hhdm t i v).1.kernel_address_space ≡ v.kernel_address_space
unfolding descend new_table
descend_kernel hhdm t i v = elim (Bool-cases (bit_and (v.words (slot t i)) pte_present == 0)) [
  | inl absent ↦ rw absent refl
  | inr present ↦ rw present refl
]

pub map_kernel :
    (hhdm pml4 vaddr paddr flags : ℕ) (v : Vmm)
    → (map hhdm pml4 vaddr paddr flags v).kernel_address_space ≡ v.kernel_address_space
unfolding map
map_kernel hhdm pml4 vaddr paddr flags v =
    let (t3, v1) = descend hhdm pml4 (entry 39 vaddr) v in
    let (t2, v2) = descend hhdm t3 (entry 30 vaddr) v1 in
    descend_kernel hhdm t2 (entry 21 vaddr) v2
    ∙ descend_kernel hhdm t3 (entry 30 vaddr) v1
    ∙ descend_kernel hhdm pml4 (entry 39 vaddr) v

map_range_kernel :
    (n hhdm pml4 addr frame flags : ℕ) (v : Vmm)
    → (map_range n hhdm pml4 addr frame flags v).kernel_address_space ≡ v.kernel_address_space
unfolding map_range
map_range_kernel zero hhdm pml4 addr frame flags v = refl
map_range_kernel (suc n) hhdm pml4 addr frame flags v =
    map_range_kernel n hhdm pml4 (addr + 4096) (frame + 4096) flags
      (map hhdm pml4 addr frame flags v)
    ∙ map_kernel hhdm pml4 addr frame flags v

module _ (hhdm flags : ℕ) (l : Layout) where
  -- The loop over a section is a range, for each of whose pages the frame is at the same distance.
  map_section-map_range :
      (fuel n page end frame : ℕ) (v : Vmm)
      → end ≡ page + n * 4096
      → frame + l.virt_base ≡ page + l.phys_base
      → l.virt_base ≤ page
      → end < 2 ^ 64
      → frame + n * 4096 < 2 ^ 64
      → n < fuel
      → map_section fuel hhdm flags l page end v
        ≡ done (map_range n hhdm v.kernel_address_space page frame flags v)
  unfolding map_section map_range
  map_section-map_range zero n page end frame v at e lo room fits enough = absurd (omega arith)
  map_section-map_range (suc fuel) zero page end frame v at e lo room fits enough =
      let stop : ltb page end ≡ false = ground arith in rw stop refl
  map_section-map_range (suc fuel) (suc n) page end frame v at e lo room fits enough =
      let early : ltb page end ≡ true = ground arith in
      let next : (page + 4096) % 2 ^ 64 ≡ page + 4096 = omega arith in
      let target : (page + (2 ^ 64 - l.virt_base) + l.phys_base) % 2 ^ 64 ≡ frame = omega arith in
      let v' : Vmm = map hhdm v.kernel_address_space page frame flags v in
      rw (early, next, target)
        (map_section-map_range fuel n (page + 4096) end (frame + 4096) v' (omega arith)
            (omega arith) (omega arith) room (omega arith) (omega arith)
          ∙ ap (λ p. done (map_range n hhdm p (page + 4096) (frame + 4096) flags v'))
              (map_kernel hhdm v.kernel_address_space page frame flags v))

-- a section: its first page, the number of its pages and the frame of the first
pub record Section : Type 0 where
  pub page : ℕ
  pub count : ℕ
  pub frame : ℕ

-- the section has these bounds, is in the kernel and does not wrap
pub record IsSection (l : Layout) (start end : ℕ) (s : Section) : Type 0 where
  pub first : align_down start ≡ s.page
  pub last : align_up end ≡ s.page + s.count * 4096
  pub moved : s.frame + l.virt_base ≡ s.page + l.phys_base
  pub inside : l.virt_base ≤ s.page
  pub room : s.page + s.count * 4096 < 2 ^ 64
  pub frame_room : s.frame + s.count * 4096 < 2 ^ 64
  pub small : s.count ≤ 2 ^ 36

-- no page of one is a page of the other
abbrev pub Disjoint : Section → Section → Type 0
Disjoint s t =
    (i j : ℕ) → i < s.count → j < t.count → SamePage (s.page + i * 4096) (t.page + j * 4096) → ⊥

-- the pages of the section are mapped to its frames
abbrev pub Placed : (hhdm table flags : ℕ) → (ℕ → ℕ) → Section → Type 0
Placed hhdm table flags words s =
    (j : ℕ)
    → j < s.count
    → lookup hhdm words table (s.page + j * 4096) ≡ some (bit_or (s.frame + j * 4096) flags)

module _ (hhdm : ℕ) (wide : hhdm < 2 ^ 64) (fuel : ℕ) (l : Layout) where
  -- one section after others, in a table that is the kernel's
  section_lem :
      (start end flags table : ℕ) (s : Section) (level : ℕ → ℕ) (v : Vmm)
      → v.kernel_address_space ≡ table
      → IsSection l start end s
      → IsPaging hhdm level v
      → level table ≡ 4
      → 3 * s.count ≤ (v.pmm).stack_top
      → s.count < fuel
      → (after : Vmm) × (map_section fuel hhdm flags l (align_down start) (align_up end) v
          ≡ done after)
        × (after.kernel_address_space ≡ table)
        × MapsRange hhdm wide table flags s.count s.page s.frame level v after
  section_lem start end flags table s level v k is ok top pages enough =
      let run =
        map_section-map_range hhdm flags l fuel s.count (align_down start) (align_up end) s.frame v
          (is.last ∙ ap (λ p. p + s.count * 4096) (sym is.first))
          (is.moved ∙ ap (λ p. p + l.phys_base) (sym is.first)) (omega (arith, is.inside, is.first))
          (omega (arith, is.last, is.room)) is.frame_room enough in
      (
        map_range s.count hhdm table s.page s.frame flags v,
        run
            ∙ ap (λ t. done (map_range s.count hhdm t (align_down start) s.frame flags v)) k
            ∙ ap (λ p. done (map_range s.count hhdm table p s.frame flags v)) is.first,
        map_range_kernel s.count hhdm table s.page s.frame flags v ∙ k,
        map_range-MapsRange hhdm wide table flags s.count s.page s.frame level v ok top pages
            is.small,
      )

  pub record SectionsMapped (table : ℕ) (text rodata writable : Section) (r : Run Vmm)
      : Type 0 where
    pub after : Vmm
    pub level : ℕ → ℕ
    pub ends : r ≡ done after
    pub paging : IsPaging hhdm level after
    pub text_placed : Placed hhdm table text_flags after.words text
    pub rowritable_placed : Placed hhdm table rodata_flags after.words rodata
    pub writable_placed : Placed hhdm table data_flags after.words writable

  -- If the page stack holds frames of 52-bit physical memory that do not overlap, three for each page
  -- of the sections and one more, and the sections of the kernel share no page, then the loops of
  -- `Vmm_Initialize` over the sections end, with fuel for one round more than the pages of each. The
  -- tables are well formed, and the walk of the processor finds each page of each section at the same
  -- distance from the kernel's physical base as from its virtual base, with the flags of the section.
  pub map_sections-SectionsMapped :
      (v : Vmm) (text rodata writable : Section)
      → Frames v.pmm
      → Distinct hhdm v.pmm
      → 3 * (text.count + rodata.count + writable.count) < (v.pmm).stack_top
      → IsSection l l.text_start l.text_end text
      → IsSection l l.rodata_start l.rodata_end rodata
      → IsSection l l.data_start l.data_end writable
      → Disjoint text rodata
      → Disjoint text writable
      → Disjoint rodata writable
      → text.count + rodata.count + writable.count < fuel
      → SectionsMapped
          (table_of hhdm v.pmm ((v.pmm).stack_top - 1))
          text
          rodata
          writable
          (map_sections fuel hhdm l (kernel_table hhdm v))
  unfolding map_sections
  map_sections-SectionsMapped v text rodata writable frames distinct pages ist isr isd tr td rd
        enough =
      let some_page : 0 < (v.pmm).stack_top = omega arith in
      let base : ℕ = table_of hhdm v.pmm ((v.pmm).stack_top - 1) in
      let k : Vmm = kernel_table hhdm v in
      let left = stack_left hhdm wide v frames distinct some_page in
      let top : only_root base base ≡ 4 =
        let same : (base == base) ≡ true = ground arith in rw same refl in
      let (v1, e1, k1, m1) =
        section_lem l.text_start l.text_end text_flags base text (only_root base) k
          (kernel_root hhdm wide v frames distinct some_page) ist
          (kernel_table-IsPaging hhdm wide v frames distinct some_page) top (omega (arith, left))
          (omega arith) in
      let (v2, e2, k2, m2) =
        section_lem l.rodata_start l.rodata_end rodata_flags base rodata m1.level' v1 k1 isr
          m1.paging m1.root (omega (arith, left, m1.used)) (omega arith) in
      let (v3, e3, k3, m3) =
        section_lem l.data_start l.data_end data_flags base writable m2.level' v2 k2 isd m2.paging
          m2.root (omega (arith, left, m1.used, m2.used)) (omega arith) in
      record {
        after = v3;
        level = m3.level';
        ends = rw (e1, e2) e3;
        paging = m3.paging;
        text_placed = λ j h.
            m3.others (text.page + j * 4096) _ (λ i hi same. td j i h hi same)
              (m2.others (text.page + j * 4096) _ (λ i hi same. tr j i h hi same) (m1.found j h));
        rowritable_placed = λ j h.
            m3.others (rodata.page + j * 4096) _ (λ i hi same. rd j i h hi same) (m2.found j h);
        writable_placed = m3.found;
      }
