-- ===== src/Vmm/Start.antt =====
-- `Vmm_Initialize` of src/arch/x86_64/vmm.c. The symbols of the linker and the addresses of the boot
-- loader are the record `Layout`.
use sipaa_kernel.Prelude.{ℕ, zero, suc, ◌+◌, ◌-◌, ◌*◌, ◌/◌, ◌%◌, ◌^◌, ltb, if◌then◌else◌}
use sipaa_kernel.Prelude.Run.{Run, done, out_of_fuel, ◌>>=◌}
use sipaa_kernel.Vmm.{Vmm, new_table, map, virtual_to_physical, switch_address_spaces, page_size}

-- the bounds of the sections, and where the kernel is
pub record Layout : Type 0 where
  pub text_start : ℕ
  pub text_end : ℕ
  pub rodata_start : ℕ
  pub rodata_end : ℕ
  pub data_start : ℕ
  pub data_end : ℕ
  pub phys_base : ℕ
  pub virt_base : ℕ

-- `PTE_PRESENT | PTE_USER`, with `PTE_NX`, and with `PTE_WRITABLE`
abbrev pub text_flags : ℕ
text_flags = 5

abbrev pub rodata_flags : ℕ
rodata_flags = 2 ^ 63 + 5

abbrev pub data_flags : ℕ
data_flags = 2 ^ 63 + 7

abbrev pub memory_flags : ℕ
memory_flags = 7

-- `ALIGN_DOWN` and `ALIGN_UP`
abbrev pub align_down : ℕ → ℕ
align_down x = x / page_size * page_size

abbrev pub align_up : ℕ → ℕ
align_up x = (x + (page_size - 1)) % 2 ^ 64 / page_size * page_size

-- the loop over the pages of a section
unfoldable pub map_section : (fuel hhdm flags : ℕ) → Layout → (page end : ℕ) → Vmm → Run Vmm
map_section zero hhdm flags l page end v = out_of_fuel
map_section (suc fuel) hhdm flags l page end v =
    let rest = map_section fuel hhdm flags l ((page + page_size) % 2 ^ 64) end (
      map hhdm v.kernel_address_space page ((page + (2 ^ 64 - l.virt_base) + l.phys_base) % 2 ^ 64)
        flags v) in
    if ltb page end then rest else done v

-- the three loops over the sections
unfoldable pub map_sections : (fuel hhdm : ℕ) → Layout → Vmm → Run Vmm
unfolding map_section
map_sections fuel hhdm l v = do
  v1 ← map_section fuel hhdm text_flags l (align_down l.text_start) (align_up l.text_end) v
  v2 ← map_section fuel hhdm rodata_flags l (align_down l.rodata_start) (align_up l.rodata_end) v1
  map_section fuel hhdm data_flags l (align_down l.data_start) (align_up l.data_end) v2

-- the loop over the first 4 GB of memory, with `rounds` left
unfoldable pub map_memory : (rounds hhdm gb4 : ℕ) → Vmm → Vmm
map_memory zero hhdm gb4 v = v
map_memory (suc rounds) hhdm gb4 v =
    let v1 = map hhdm v.kernel_address_space gb4 gb4 memory_flags v in
    map_memory rounds hhdm (gb4 + page_size)
      (map hhdm v1.kernel_address_space (virtual_to_physical hhdm gb4) gb4 memory_flags v1)

-- the table of the kernel
unfoldable pub kernel_table : (hhdm : ℕ) → Vmm → Vmm
unfolding new_table
kernel_table hhdm v =
    let (table, v1) = new_table hhdm v in record v1 { kernel_address_space = table }

-- `Vmm_Initialize`
unfoldable pub vmm_initialize : (fuel hhdm : ℕ) → Layout → Vmm → Run Vmm
unfolding kernel_table map_sections map_memory switch_address_spaces
vmm_initialize fuel hhdm l v = do
  v1 ← map_sections fuel hhdm l (kernel_table hhdm v)
  (let v2 = map_memory 1048576 hhdm 0 v1 in done (switch_address_spaces v2.kernel_address_space v2))
