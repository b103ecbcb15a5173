-- ===== src/Tests/Files.antt =====
-- The RAM disk and the loader.
use sipaa_kernel.Prelude.{
  ℕ, zero, suc, ◌<◌, refl, arith, [], ◌∷◌, ◌==◌, true, false, length, if◌then◌else◌,
}
use sipaa_kernel.Mem.{Mem}
use sipaa_kernel.Mem.Words.{load_word}
use sipaa_kernel.Strings.Holds.{HoldsString}
use sipaa_kernel.Pmm.{Pmm}
use sipaa_kernel.Vmm.KernelTable.{only_root}
use sipaa_kernel.Vmm.Start.{kernel_table}
use sipaa_kernel.Tests.Sections.{narrow, table, bare, first-IsPaging, first_root, twelve_left}
use sipaa_kernel.Ramdisk.{RamDisk, header_of, get_file_content}
use sipaa_kernel.Ramdisk.Content.{FoundFile, get_file_content-FoundFile}
use sipaa_kernel.Elf.{Ehdr, Phdr, read_ehdr}
use sipaa_kernel.Elf.Checks.{IsLoadable}
use sipaa_kernel.Elf.Pages.{MapsSegment, map_pages-MapsSegment}

-- the size "00000000021"
abbrev seventeen : Mem
seventeen a = if a == 9 then 50 else if a == 10 then 49 else 48

-- a table at 0x2000 of 16 entries, of which one is filled, with a header at 256, which has the name "a"; the name "a" also stands at 768
abbrev archive : Mem
archive a = if a == 0x2001 then 1 else if a == 256 then 97 else if a == 768 then 97 else 0

abbrev memory_of : Mem → Pmm
memory_of m = record {
  stack = λ i. 0;
  stack_top = 0;
  free_blocks = 0;
  block = λ p. record { size = 0; next = 0; is_free = false };
  bytes = m;
}

abbrev one_file : RamDisk
one_file = record {
  node = 0;
  headers = 0x2000;
  file = 1;
  header_count = 16;
  created = true;
  heads = λ a. record { name = 0; read = 0 };
  pmm = memory_of archive;
}

one_file-named :
    (j : ℕ)
    → j < 1
    → HoldsString archive (header_of j one_file) (97 ∷ []) × (length {A = ℕ} (97 ∷ []) < 2)
unfolding load_word
one_file-named zero h = ((refl, (λ e. ground (arith, e)), refl), omega arith)
one_file-named (suc j) h = absurd (omega arith)

get_file_content-FoundFile_example :
    FoundFile one_file 1 (λ i. 97 ∷ []) (97 ∷ []) (get_file_content 2 768 one_file)
get_file_content-FoundFile_example =
    get_file_content-FoundFile 2 768 1 one_file (λ i. 97 ∷ []) (97 ∷ []) (omega arith)
      one_file-named (refl, (λ e. ground (arith, e)), refl)

-- two pages' size that starts within a page
abbrev unaligned : Phdr
unaligned = record {
  p_type = 1;
  p_offset = 0;
  p_vaddr = 0x400010;
  p_filesz = 0x2000;
  p_memsz = 0x2000;
}

map_pages-MapsSegment_example :
    MapsSegment 0x1000 narrow 3 0x10018 unaligned (only_root table) (kernel_table 0x1000 bare)
map_pages-MapsSegment_example =
    map_pages-MapsSegment 0x1000 narrow 3 0x10018 unaligned (only_root table)
      (kernel_table 0x1000 bare) first-IsPaging first_root (omega (arith, twelve_left))
      (omega arith) (omega arith) (omega arith) (omega arith)

-- the header of a program for Linux
abbrev linux : Ehdr
linux = record {
  e_ident = λ i.
      if i == 0
      then 0x7f
      else if i == 1
      then 69
      else if i == 2
      then 76
      else if i == 3
      then 70
      else 3;
  e_type = 2;
  e_machine = 62;
  e_entry = 0x400000;
  e_phoff = 64;
  e_shoff = 0;
  e_phnum = 1;
  e_shnum = 0;
  e_shstrndx = 0;
}

not_elf : IsLoadable (read_ehdr 0x8000 (λ a. 0)) → ⊥
unfolding read_ehdr
not_elf l = ground (arith, l.0.0)
