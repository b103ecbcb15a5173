-- ===== src/Vmm.antt =====
-- src/arch/x86_64/vmm.c and src/include/sipaa/x86_64/vmm.h: page tables of four levels. The words
-- of memory are 64 bits wide, by address; entry `i` of the table at `t` is the word at `t + 8 * i`.
-- `hhdm` is the offset at which all physical memory is mapped (`BootSrv_GetHHDMOffset`). The calls
-- of `Vmm_Map` in `Vmm_Initialize`, the load of `cr3` and `invlpg` are left out.
pub mod Bits
pub mod Walk
pub mod Map
pub mod Unmap
pub mod Others
pub mod Paging
pub mod Made
pub mod Invariant
pub mod Keeps
pub mod Range
pub mod Start
pub mod KernelTable
pub mod Sections
use sipaa_kernel.Prelude.{
  ℕ, zero, suc, ◌+◌, ◌-◌, ◌*◌, ◌/◌, ◌%◌, ◌^◌, Bool, true, false, Option, none, some, ◌&&◌, ◌||◌,
  not, ◌==◌, leb, ltb, if◌then◌else◌, bit_and, bit_or,
}
use sipaa_kernel.Pmm.{Pmm, allocate_page}

pub record Vmm : Type 0 where
  pub pmm : Pmm
  pub words : ℕ → ℕ
  pub kernel_address_space : ℕ
  pub current_address_space : ℕ

abbrev pub page_size : ℕ
page_size = 4096

-- `PTE_PRESENT`, `PTE_WRITABLE` and `PTE_ADDR_MASK`
abbrev pub pte_present : ℕ
pte_present = 1

abbrev pub pte_writable : ℕ
pte_writable = 2

abbrev pub pte_addr_mask : ℕ
pte_addr_mask = 0x000ffffffffff000

-- `VIRTUAL_TO_PHYSICAL`, which adds the offset, and `PHYSICAL_TO_VIRTUAL`, which takes it away
abbrev pub virtual_to_physical : (hhdm p : ℕ) → ℕ
virtual_to_physical hhdm p = (p + hhdm) % 2 ^ 64

abbrev pub physical_to_virtual : (hhdm p : ℕ) → ℕ
physical_to_virtual hhdm p = (p + (2 ^ 64 - hhdm)) % 2 ^ 64

-- the index of an address into a table, where the addresses of the table's entries are `2 ^ shift`
-- bytes apart
unfoldable pub entry : (shift vaddr : ℕ) → ℕ
entry shift vaddr = bit_and (vaddr / 2 ^ shift) 0x1ff

-- the address of a word of a table
abbrev pub slot : (table i : ℕ) → ℕ
slot table i = table + 8 * i

abbrev pub set_word : ℕ → ℕ → (ℕ → ℕ) → ℕ → ℕ
set_word a v words b = if b == a then v else words b

-- `memset(table, 0, PAGE_SIZE)`
abbrev pub clear_page : ℕ → (ℕ → ℕ) → ℕ → ℕ
clear_page table words b = if leb table b && ltb b (table + page_size) then 0 else words b

-- a new table, cleared
unfoldable pub new_table : (hhdm : ℕ) → Vmm → ℕ × Vmm
new_table hhdm v =
    let (page, pmm) = allocate_page v.pmm in
    let table : ℕ = virtual_to_physical hhdm page in
    (table, record v { pmm = pmm; words = clear_page table v.words })

-- the table that entry `i` of a table leads to, which `Vmm_Map` makes where there is none
unfoldable pub descend : (hhdm table i : ℕ) → Vmm → ℕ × Vmm
unfolding new_table
descend hhdm table i v =
    let e : ℕ = v.words (slot table i) in
    let (fresh, v') = new_table hhdm v in
    let link : ℕ = bit_or (bit_or (physical_to_virtual hhdm fresh) pte_present) pte_writable in
    if not (bit_and e pte_present == 0)
    then (virtual_to_physical hhdm (bit_and e pte_addr_mask), v)
    else (fresh, record v' { words = set_word (slot table i) link v'.words })

-- `Vmm_Map`
unfoldable pub map : (hhdm pml4 vaddr paddr flags : ℕ) → Vmm → Vmm
unfolding descend entry
map hhdm pml4 vaddr paddr flags v0 =
    let (pml3, v1) = descend hhdm pml4 (entry 39 vaddr) v0 in
    let (pml2, v2) = descend hhdm pml3 (entry 30 vaddr) v1 in
    let (pml1, v3) = descend hhdm pml2 (entry 21 vaddr) v2 in
    record v3 { words = set_word (slot pml1 (entry 12 vaddr)) (bit_or paddr flags) v3.words }

-- the table that an entry leads to, present or not
abbrev pub follow : (hhdm table i : ℕ) → (ℕ → ℕ) → ℕ
follow hhdm table i words = virtual_to_physical hhdm (bit_and (words (slot table i)) pte_addr_mask)

-- `Vmm_Unmap`
unfoldable pub unmap : (hhdm pml4 vaddr : ℕ) → Vmm → Vmm
unfolding entry
unmap hhdm pml4 vaddr v =
    let pml3 : ℕ = follow hhdm pml4 (entry 39 vaddr) v.words in
    let pml2 : ℕ = follow hhdm pml3 (entry 30 vaddr) v.words in
    let pml1 : ℕ = follow hhdm pml2 (entry 21 vaddr) v.words in
    if (pml3 == 0) || (pml2 == 0) || (pml1 == 0)
    then v
    else record v { words = set_word (slot pml1 (entry 12 vaddr)) 0 v.words }

-- the loop of `Vmm_NewAddressSpace`, with `k` rounds left
unfoldable pub copy_upper : (k i from to : ℕ) → (ℕ → ℕ) → ℕ → ℕ
copy_upper zero i from to words = words
copy_upper (suc k) i from to words =
    copy_upper k (i + 1) from to (set_word (slot to i) (words (slot from i)) words)

-- `Vmm_NewAddressSpace`
unfoldable pub new_address_space : (hhdm : ℕ) → Vmm → ℕ × Vmm
unfolding new_table copy_upper
new_address_space hhdm v =
    let (pml4, v') = new_table hhdm v in
    (pml4, record v' { words = copy_upper 256 256 v.kernel_address_space pml4 v'.words })

-- `Vmm_SwitchAddressSpaces`
unfoldable pub switch_address_spaces : ℕ → Vmm → Vmm
switch_address_spaces pml4 v = if pml4 == 0 then v else record v { current_address_space = pml4 }
