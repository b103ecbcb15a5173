-- ===== src/Tests/Sections.antt =====
-- Page tables that are made as pages are mapped.
use sipaa_kernel.Prelude.{ℕ, ◌+◌, ◌*◌, ◌%◌, ◌^◌, ◌<◌, ◌≡◌, refl, arith, bit_or, false, inr}
use sipaa_kernel.Pmm.{Pmm, allocate_page}
use sipaa_kernel.Vmm.{Vmm, new_table, map}
use sipaa_kernel.Vmm.Map.{Frames}
use sipaa_kernel.Vmm.KernelTable.{Distinct, only_root, kernel_table-IsPaging}
use sipaa_kernel.Vmm.Paging.{IsPaging, table_of}
use sipaa_kernel.Vmm.Keeps.{Maps, map-Maps}
use sipaa_kernel.Vmm.Start.{Layout, kernel_table}
use sipaa_kernel.Vmm.Sections.{Section, IsSection, Disjoint}

pub narrow : 0x1000 < 2 ^ 64
narrow = omega arith

-- 40 pages, from number 16 on
abbrev pages : Pmm
pages = record {
  stack = λ i. (16 + i % 64) * 4096;
  stack_top = 40;
  free_blocks = 0;
  block = λ p. record { size = 0; next = 0; is_free = false };
  bytes = λ a. 0;
}

abbrev pub bare : Vmm
bare = record { pmm = pages; words = λ a. 0; kernel_address_space = 0; current_address_space = 0 }

pages-Frames : Frames pages
pages-Frames i = record { number = 16 + i % 64; small = omega arith; aligned = omega arith }

pages-Distinct : Distinct 0x1000 pages
pages-Distinct i j h hj = inr (omega arith)

abbrev pub table : ℕ
table = table_of 0x1000 pages 39

pub first-IsPaging : IsPaging 0x1000 (only_root table) (kernel_table 0x1000 bare)
first-IsPaging = kernel_table-IsPaging 0x1000 narrow bare pages-Frames pages-Distinct (omega arith)

abbrev pub layout : Layout
layout = record {
  text_start = 0x80000000;
  text_end = 0x80000064;
  rodata_start = 0x80001000;
  rodata_end = 0x80002FFF;
  data_start = 0x80003000;
  data_end = 0x80003001;
  phys_base = 0x200000;
  virt_base = 0x80000000;
}

abbrev pub text : Section
text = record { page = 0x80000000; count = 1; frame = 0x200000 }

abbrev pub rodata : Section
rodata = record { page = 0x80001000; count = 2; frame = 0x201000 }

abbrev pub writable : Section
writable = record { page = 0x80003000; count = 1; frame = 0x203000 }

pub text-IsSection : IsSection layout 0x80000000 0x80000064 text
text-IsSection = omega arith

pub rodata-IsSection : IsSection layout 0x80001000 0x80002FFF rodata
rodata-IsSection = omega arith

pub writable-IsSection : IsSection layout 0x80003000 0x80003001 writable
writable-IsSection = omega arith

pub text-rodata : Disjoint text rodata
text-rodata i j hi hj same = omega (arith, same)

pub text-writable : Disjoint text writable
text-writable i j hi hj same = omega (arith, same)

pub rodata-writable : Disjoint rodata writable
rodata-writable i j hi hj same = omega (arith, same)

pub first_root : only_root table (kernel_table 0x1000 bare).kernel_address_space ≡ 4
unfolding kernel_table new_table allocate_page
first_root = refl

pub twelve_left : 12 < ((kernel_table 0x1000 bare).pmm).stack_top
unfolding kernel_table new_table allocate_page
twelve_left = omega arith

pages_left : 2 < ((kernel_table 0x1000 bare).pmm).stack_top
unfolding kernel_table allocate_page
pages_left = omega arith

map-Maps_example :
    Maps 0x1000 narrow
      (only_root table)
      (kernel_table 0x1000 bare)
      table
      0x400000
      (bit_or 0x5000 7)
      (map 0x1000 table 0x400000 0x5000 7 (kernel_table 0x1000 bare))
map-Maps_example =
    map-Maps 0x1000 narrow (only_root table) (kernel_table 0x1000 bare) table 0x400000 0x5000 7
      first-IsPaging refl pages_left
