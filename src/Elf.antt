-- ===== src/Elf.antt =====
-- src/exec/elf.c: the loader of programs, over the layouts of src/include/sipaa/exec/elf.h.
-- Headers are read from the byte memory at their offsets. The lines that are logged are left out but
-- for the symbols, which are the result of `dump_symbols`.
pub mod Checks
pub mod Pages
use Prim.Native.String.{String}
use sipaa_kernel.Prelude.{
  ℕ, zero, suc, ◌+◌, ◌-◌, ◌*◌, ◌/◌, ◌%◌, ◌^◌, Bool, true, false, ◌==◌, ltb, not, ◌&&◌, ◌||◌,
  if◌then◌else◌, Option, none, some, List, [], ◌∷◌, bit_or,
}
use sipaa_kernel.Prelude.Run.{Run, done, out_of_fuel, ◌>>=◌}
use sipaa_kernel.Mem.{Mem, memcpy, memset}
use sipaa_kernel.Mem.Words.{load_word}
use sipaa_kernel.Strings.{compare_strings, is_zero}
use sipaa_kernel.Pmm.{Pmm, allocate}
use sipaa_kernel.Vmm.{Vmm, map, page_size, pte_present, pte_writable}

-- the fields of `Elf64_Ehdr` that are used, for the header at `p`
pub record Ehdr : Type 0 where
  pub e_ident : ℕ → ℕ
  pub e_type : ℕ
  pub e_machine : ℕ
  pub e_entry : ℕ
  pub e_phoff : ℕ
  pub e_shoff : ℕ
  pub e_phnum : ℕ
  pub e_shnum : ℕ
  pub e_shstrndx : ℕ

unfoldable pub read_ehdr : (p : ℕ) → Mem → Ehdr
unfolding load_word
read_ehdr p m = record {
  e_ident = λ i. m (p + i);
  e_type = load_word 2 (p + 16) m;
  e_machine = load_word 2 (p + 18) m;
  e_entry = load_word 8 (p + 24) m;
  e_phoff = load_word 8 (p + 32) m;
  e_shoff = load_word 8 (p + 40) m;
  e_phnum = load_word 2 (p + 56) m;
  e_shnum = load_word 2 (p + 60) m;
  e_shstrndx = load_word 2 (p + 62) m;
}

-- the fields of `Elf64_Phdr` that are used
pub record Phdr : Type 0 where
  pub p_type : ℕ
  pub p_offset : ℕ
  pub p_vaddr : ℕ
  pub p_filesz : ℕ
  pub p_memsz : ℕ

unfoldable pub read_phdr : (p : ℕ) → Mem → Phdr
unfolding load_word
read_phdr p m = record {
  p_type = load_word 4 p m;
  p_offset = load_word 8 (p + 8) m;
  p_vaddr = load_word 8 (p + 16) m;
  p_filesz = load_word 8 (p + 32) m;
  p_memsz = load_word 8 (p + 40) m;
}

-- `Elf64_GetTargetABI`; a value without a case runs off the end of the function, which is `none`.
-- `EM_ARM`, a machine, is 40.
unfoldable pub get_target_abi : Ehdr → Option String
get_target_abi e =
    let abi : ℕ = e.e_ident 7 in
    if abi == 0
    then some "UNIX System V"
    else if abi == 1
    then some "HP-UX"
    else if abi == 2
    then some "NetBSD (Berkeley Software Distrib.)"
    else if abi == 3
    then some "Linux"
    else if abi == 6
    then some "SUN Solaris"
    else if abi == 7
    then some "IBM AIX"
    else if abi == 8
    then some "SGI Irix"
    else if abi == 9
    then some "FreeBSD (Berkeley Software Distrib.)"
    else if abi == 10
    then some "Compaq TRU64"
    else if abi == 11
    then some "Novell Modesto"
    else if abi == 12
    then some "OpenBSD"
    else if abi == 13
    then some "SipaaKernel"
    else if abi == 40
    then some "ARM"
    else if abi == 255
    then some "Standalone"
    else none

-- `Elf64_DoChecks`
unfoldable pub do_checks : Ehdr → Bool
do_checks e =
    let abi : ℕ = e.e_ident 7 in
    if not (e.e_ident 0 == 0x7f)
      || (not (e.e_ident 1 == 69) || (not (e.e_ident 2 == 76) || not (e.e_ident 3 == 70)))
    then false
    else if not (e.e_type == 2)
    then false
    else if not (e.e_machine == 62)
    then false
    else if not (abi == 0) && (not (abi == 3) && not (abi == 13))
    then false
    else true

-- the tables that `Elf64_DumpSymbols` looks for
pub record Dump : Type 0 where
  pub symtab : ℕ
  pub symnum : ℕ
  pub strtab : ℕ

-- the loop over the section headers from `shdr` on, with `n` rounds left; `literal` is the address
-- of ".strtab"
dump_sections : (fuel n j img shdr shstrtab literal : ℕ) → Mem → Dump → Run Dump
unfolding load_word compare_strings is_zero
dump_sections fuel zero j img shdr shstrtab literal m d = done d
dump_sections fuel (suc n) j img shdr shstrtab literal m d =
    let section : ℕ = shdr + 64 * j in
    let kind : ℕ = load_word 4 (section + 4) m in
    let place : ℕ = (img + load_word 8 (section + 24) m) % 2 ^ 64 in
    (if kind == 2
      then done (record d {
        symtab = place;
        symnum = (load_word 8 (section + 32) m / load_word 8 (section + 56) m) % 2 ^ 32;
      })
      else if kind == 3
      then (do
        c ← compare_strings fuel (shstrtab + load_word 4 section m) literal m
        done (if is_zero c then record d { strtab = place } else d))
      else done d)
    >>= dump_sections fuel n (j + 1) img shdr shstrtab literal m

-- the loop over the symbols, with `n` rounds left: the value of each and the address of its name
dump_entries : (n k : ℕ) → Mem → Dump → List (ℕ × ℕ)
unfolding load_word
dump_entries zero k m d = []
dump_entries (suc n) k m d =
    let symbol : ℕ = d.symtab + 24 * k in
    (load_word 8 (symbol + 8) m, d.strtab + load_word 4 symbol m) ∷ dump_entries n (k + 1) m d

-- `Elf64_DumpSymbols`; a number of symbols from 2 ^ 31 on is negative as an `int`.
unfoldable pub dump_symbols : (fuel img literal : ℕ) → Mem → Run (List (ℕ × ℕ))
unfolding dump_sections dump_entries read_ehdr load_word
dump_symbols fuel img literal m =
    let e : Ehdr = read_ehdr img m in
    let shdr : ℕ = (img + e.e_shoff) % 2 ^ 64 in
    let shstrtab : ℕ = (img + load_word 8 (shdr + 64 * e.e_shstrndx + 24) m) % 2 ^ 64 in
    do
      d ←
          dump_sections fuel e.e_shnum 0 img shdr shstrtab literal m
            (record { symtab = 0; symnum = 0; strtab = 0 })
      done (dump_entries (if ltb d.symnum (2 ^ 31) then d.symnum else 0) 0 m d)

-- the loop that maps the pages of a segment
unfoldable pub map_pages : (fuel hhdm seg_start seg_end seg addr : ℕ) → Vmm → Run Vmm
unfolding map
map_pages zero hhdm seg_start seg_end seg addr v = out_of_fuel
map_pages (suc fuel) hhdm seg_start seg_end seg addr v =
    let rest = map_pages fuel hhdm seg_start seg_end seg ((addr + page_size) % 2 ^ 64) (
      map hhdm v.kernel_address_space addr ((addr + (2 ^ 64 - seg_start) + seg) % 2 ^ 64)
        (bit_or pte_present pte_writable) v) in
    if ltb addr seg_end then rest else done v

-- `seg_start` and `seg_end`
unfoldable pub segment_start : Phdr → ℕ
segment_start h = h.p_vaddr / page_size * page_size

unfoldable pub segment_end : Phdr → ℕ
unfolding segment_start
segment_end h = ((segment_start h + h.p_memsz + (page_size - 1)) % 2 ^ 64) / page_size * page_size

-- what `Elf64_Load` does with one program header
unfoldable pub load_segment : (fuel hhdm img : ℕ) → Phdr → Vmm → Run Vmm
unfolding map_pages memcpy memset allocate segment_start segment_end
load_segment fuel hhdm img h v =
    if h.p_type == 1
    then (do
      r ← allocate fuel ((h.p_memsz + (page_size - 1)) % 2 ^ 64 / page_size) v.pmm
      (let copied : Mem = memcpy h.p_vaddr (img + h.p_offset) h.p_filesz (r.1).bytes in
          let cleared : Mem =
            memset (h.p_vaddr + h.p_filesz) 0 ((h.p_memsz + (2 ^ 64 - h.p_filesz)) % 2 ^ 64)
              copied in
          map_pages fuel hhdm (segment_start h) (segment_end h) r.0 (segment_start h)
            (record v { pmm = record (r.1) { bytes = cleared } })))
    else done v

-- the loop of `Elf64_Load` over the program headers from `phdr` on, with `n` rounds left
unfoldable pub load_segments : (fuel n hhdm img phdr : ℕ) → Vmm → Run Vmm
unfolding load_segment read_phdr
load_segments fuel zero hhdm img phdr v = done v
load_segments fuel (suc n) hhdm img phdr v = do
  w ← load_segment fuel hhdm img (read_phdr phdr v.pmm.bytes) v
  load_segments fuel n hhdm img (phdr + 56) w

-- the part of `Elf64_Load` after the checks
unfoldable pub load_image : (fuel hhdm img literal : ℕ) → Vmm → Run (ℕ × Vmm)
unfolding load_segments dump_symbols read_ehdr
load_image fuel hhdm img literal v =
    let e : Ehdr = read_ehdr img v.pmm.bytes in
    do
      w ← load_segments fuel e.e_phnum hhdm img ((img + e.e_phoff) % 2 ^ 64) v
      printed ← dump_symbols fuel img literal w.pmm.bytes
      done ((read_ehdr img w.pmm.bytes).e_entry, w)

-- `Elf64_Load`
unfoldable pub elf_load : (fuel hhdm img literal : ℕ) → Vmm → Run (ℕ × Vmm)
unfolding do_checks load_image read_ehdr
elf_load fuel hhdm img literal v =
    if not (do_checks (read_ehdr img v.pmm.bytes))
    then done (0, v)
    else load_image fuel hhdm img literal v
