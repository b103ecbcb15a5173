-- ===== src/BootSrv.antt =====
-- src/srv/bootsrv.c: what the boot loader hands over. The responses are the record `BootInfo`, with
-- pointers as numbers; arrays are functions of an index, a 32-bit pattern that is extended by its sign.
pub mod Cpu
use sipaa_kernel.Prelude.{ℕ, ◌+◌, ◌-◌, ◌^◌, Bool, ltb, ◌==◌, if◌then◌else◌}

-- the responses to the requests
pub record BootInfo : Type 0 where
  pub rsdp : ℕ
  pub bootloader_info : ℕ
  pub hhdm_offset : ℕ
  pub framebuffers : ℕ → ℕ
  pub memmap : ℕ
  pub kernel_file : ℕ
  pub modules : ℕ → ℕ
  pub cpu_count : ℕ
  pub cpus : ℕ → ℕ
  pub physical_base : ℕ
  pub virtual_base : ℕ

-- an `int` as a 64-bit index
abbrev pub extended : ℕ → ℕ
extended i = if ltb i (2 ^ 31) then i else i + (2 ^ 64 - 2 ^ 32)

-- `BootSrv_GetAcpiRSDP`
abbrev pub get_acpi_rsdp : BootInfo → ℕ
get_acpi_rsdp b = b.rsdp

-- `BootSrv_GetBootloaderInfo`
abbrev pub get_bootloader_info : BootInfo → ℕ
get_bootloader_info b = b.bootloader_info

-- `BootSrv_GetHHDMOffset`
abbrev pub get_hhdm_offset : BootInfo → ℕ
get_hhdm_offset b = b.hhdm_offset

-- `BootSrv_GetFramebuffer`
abbrev pub get_framebuffer : BootInfo → ℕ → ℕ
get_framebuffer b number = b.framebuffers (extended number)

-- `BootSrv_GetMemoryMap`
abbrev pub get_memory_map : BootInfo → ℕ
get_memory_map b = b.memmap

-- `BootSrv_GetModule`, where -2 asks for the kernel
unfoldable pub get_module : BootInfo → ℕ → ℕ
get_module b pos = if pos == 2 ^ 32 - 2 then b.kernel_file else b.modules (extended pos)

-- `BootSrv_GetCPU`
unfoldable pub get_cpu : BootInfo → ℕ → ℕ
get_cpu b pos = if ltb (extended pos) b.cpu_count then b.cpus (extended pos) else 0

-- `BootSrv_GetKernelPhysicalBase` and `BootSrv_GetKernelVirtualBase`
abbrev pub get_kernel_physical_base : BootInfo → ℕ
get_kernel_physical_base b = b.physical_base

abbrev pub get_kernel_virtual_base : BootInfo → ℕ
get_kernel_virtual_base b = b.virtual_base
