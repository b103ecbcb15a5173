-- ===== src/Elf/Pages.antt =====
-- Which pages of a segment `Elf64_Load` maps.
use sipaa_kernel.Prelude.{
  ℕ, zero, suc, ◌+◌, ◌-◌, ◌*◌, ◌/◌, ◌%◌, ◌^◌, ◌≤◌, ◌<◌, ◌≡◌, ◌↔◌, arith, ltb, true, ap, ◌∙◌, some,
  bit_or, or_fields,
}
use sipaa_kernel.Prelude.Run.{done}
use sipaa_kernel.Elf.{Phdr, segment_start, segment_end, map_pages}
use sipaa_kernel.Vmm.{Vmm, map}
use sipaa_kernel.Vmm.Walk.{lookup}
use sipaa_kernel.Vmm.Paging.{IsPaging}
use sipaa_kernel.Vmm.Range.{map_range, MapsRange, map_range-MapsRange}
use sipaa_kernel.Vmm.Sections.{map_kernel}

map_pages-map_range :
    (fuel n hhdm start end seg addr frame : ℕ) (v : Vmm)
    → end ≡ addr + n * 4096
    → frame + start ≡ addr + seg
    → start ≤ addr
    → end < 2 ^ 64
    → frame + n * 4096 < 2 ^ 64
    → n < fuel
    → map_pages fuel hhdm start end seg addr v
      ≡ done (map_range n hhdm v.kernel_address_space addr frame 3 v)
unfolding map_pages map_range
map_pages-map_range zero n hhdm start end seg addr frame v e at lo room fits enough =
    absurd (omega arith)
map_pages-map_range (suc fuel) zero hhdm start end seg addr frame v e at lo room fits enough =
    ground arith
map_pages-map_range (suc fuel) (suc n) hhdm start end seg addr frame v e at lo room fits enough =
    let early : ltb addr end ≡ true = ground arith in
    let next : (addr + 4096) % 2 ^ 64 ≡ addr + 4096 = omega arith in
    let target : (addr + (2 ^ 64 - start) + seg) % 2 ^ 64 ≡ frame = omega arith in
    let v' : Vmm = map hhdm v.kernel_address_space addr frame 3 v in
    rw (early, next, target)
      (map_pages-map_range fuel n hhdm start end seg (addr + 4096) (frame + 4096) v' (omega arith)
          (omega arith) (omega arith) room (omega arith) (omega arith)
        ∙ ap (λ p. done (map_range n hhdm p (addr + 4096) (frame + 4096) 3 v'))
            (map_kernel hhdm v.kernel_address_space addr frame 3 v))

-- the number of pages of a segment's size, rounded up
abbrev pub pages_of : Phdr → ℕ
pages_of h = (h.p_memsz + 4095) / 4096

entry_sum : (x : ℕ) → x % 4 ≡ 0 → bit_or x 3 ≡ x + 3
entry_sum x four =
    let e : x ≡ x / 4 * 2 ^ 2 = omega arith in
    ap (λ t. bit_or t 3) e ∙ or_fields 2 (x / 4) 3 (omega arith) ∙ omega arith

pub record MapsSegment (hhdm : ℕ) (wide : hhdm < 2 ^ 64) (fuel seg : ℕ) (h : Phdr) (level : ℕ → ℕ)
    (v : Vmm) : Type 0 where
  after : Vmm
  ends : map_pages fuel hhdm (segment_start h) (segment_end h) seg (segment_start h) v ≡ done after
  mapped :
      MapsRange hhdm wide v.kernel_address_space 3 (pages_of h) (segment_start h) seg level v after
  placed :
      seg % 4 ≡ 0
      → (j : ℕ) → j < pages_of h
      → lookup hhdm after.words v.kernel_address_space (segment_start h + j * 4096)
        ≡ some (seg + j * 4096 + 3)
  before : segment_start h ≤ h.p_vaddr
  last_byte :
      (h.p_vaddr + h.p_memsz ≤ segment_end h) ↔ (h.p_vaddr % 4096 + h.p_memsz ≤ pages_of h * 4096)

-- For a segment and memory that end below 2 ^ 64, a well-formed table of the kernel, and three pages
-- on the stack for each page that the size of the segment rounds up to, no more than 2 ^ 36 of them,
-- the loop that maps its pages ends, with fuel for one round more than their number. The tables stay
-- well formed. For as many pages as the size rounds up to, from that of the first byte on, the walk
-- of the processor finds the address `seg`, 4096 higher for each page, with the bits of a present
-- and writable page set in it; where `seg` is a multiple of 4 that is the sum with 3, so that for an
-- address behind the header of a block the offset in the page becomes flags. Every other page that
-- was mapped is found where it was. The pages reach to the last byte exactly when the size
-- and the offset of the first byte in its page do not need another page.
pub map_pages-MapsSegment :
    (hhdm : ℕ) (wide : hhdm < 2 ^ 64) (fuel seg : ℕ) (h : Phdr) (level : ℕ → ℕ) (v : Vmm)
    → IsPaging hhdm level v
    → level v.kernel_address_space ≡ 4
    → 3 * pages_of h ≤ (v.pmm).stack_top
    → pages_of h ≤ 2 ^ 36
    → h.p_vaddr + h.p_memsz + 8192 < 2 ^ 64
    → seg + h.p_memsz + 8192 < 2 ^ 64
    → pages_of h < fuel
    → MapsSegment hhdm wide fuel seg h level v
unfolding segment_start segment_end
map_pages-MapsSegment hhdm wide fuel seg h level v ok root pages small room seg_room enough =
    let start : ℕ = h.p_vaddr / 4096 * 4096 in
    let end : (start + h.p_memsz + 4095) % 2 ^ 64 / 4096 * 4096 ≡ start + pages_of h * 4096 =
      omega arith in
    let maps =
      map_range-MapsRange hhdm wide v.kernel_address_space 3 (pages_of h) start seg level v ok root
        pages small in
    record {
      after = map_range (pages_of h) hhdm v.kernel_address_space start seg 3 v;
      ends =
          map_pages-map_range fuel (pages_of h) hhdm start
            ((start + h.p_memsz + 4095) % 2 ^ 64 / 4096 * 4096) seg start seg v end (omega arith)
            (omega arith) (omega arith) (omega arith) enough;
      mapped = maps;
      placed = λ four j low. maps.found j low ∙ ap some (entry_sum (seg + j * 4096) (omega arith));
      before = omega arith;
      last_byte = (λ reach. omega (arith, end), λ reach. omega (arith, end));
    }
