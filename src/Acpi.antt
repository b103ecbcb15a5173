-- ===== src/Acpi.antt =====
-- src/sys/acpi.c and src/include/sipaa/acpi.h: the root table that the boot loader hands over.
pub mod Found
use sipaa_kernel.Prelude.{ℕ, ◌+◌, Bool, true, false, not, ◌==◌, if◌then◌else◌}
use sipaa_kernel.Prelude.Run.{Run, done, ◌>>=◌}
use sipaa_kernel.Mem.{Mem}
use sipaa_kernel.Mem.Words.{load_word}
use sipaa_kernel.Strings.{compare_strings, is_zero}
use sipaa_kernel.Vmm.{physical_to_virtual}

-- `Acpi_Here`, `Acpi_UseXSDP` and `Acpi_RSDPAddress`
pub record Acpi : Type 0 where
  pub here : Bool
  pub use_xsdp : Bool
  pub rsdp_address : ℕ

-- the packed fields of `AcpiRsdpT` and `AcpiXsdpT`
abbrev pub revision : (rsdp : ℕ) → Mem → ℕ
revision rsdp m = m (rsdp + 15)

abbrev pub rsdt_address : (rsdp : ℕ) → Mem → ℕ
rsdt_address rsdp m = load_word 4 (rsdp + 16) m

abbrev pub xsdt_address : (rsdp : ℕ) → Mem → ℕ
xsdt_address rsdp m = load_word 8 (rsdp + 24) m

-- the assignments under `if (rsdp->Revision != 0)`
abbrev pub use_xsdt : (hhdm rsdp : ℕ) → Mem → Acpi → Acpi
use_xsdt hhdm rsdp m s =
    if not (revision rsdp m == 0)
    then record s { use_xsdp = true; rsdp_address = physical_to_virtual hhdm (xsdt_address rsdp m) }
    else s

-- `Acpi_Initialize`, where the literal "RSD PTR " stands at `literal`
unfoldable pub acpi_initialize : (fuel hhdm rsdp literal : ℕ) → Mem → Acpi → Run Acpi
unfolding compare_strings
acpi_initialize fuel hhdm rsdp literal m s = do
  order ← compare_strings fuel rsdp literal m
  (if not (is_zero order)
      then done s
      else done (record (use_xsdt hhdm rsdp m (record s { here = true })) {
        rsdp_address = physical_to_virtual hhdm (rsdt_address rsdp m);
      }))
