-- ===== src/Elf/Checks.antt =====
-- Which images `Elf64_Load` accepts.
use sipaa_kernel.Prelude.{
  ℕ, ◌≡◌, ◌⊎◌, ◌↔◌, inl, inr, arith, true, Bool-cases, ap, not, if◌then◌else◌,
}
use sipaa_kernel.Prelude.Run.{done}
use sipaa_kernel.Elf.{Ehdr, read_ehdr, do_checks, load_image, elf_load}
use sipaa_kernel.Vmm.{Vmm}

-- an executable ELF file for x86-64 and one of three systems
abbrev pub IsLoadable : Ehdr → Type 0
IsLoadable e =
    ((e.e_ident 0 ≡ 0x7f) × (e.e_ident 1 ≡ 69) × (e.e_ident 2 ≡ 76) × (e.e_ident 3 ≡ 70))
    × (e.e_type ≡ 2)
    × (e.e_machine ≡ 62)
    × ((e.e_ident 7 ≡ 0) ⊎ ((e.e_ident 7 ≡ 3) ⊎ (e.e_ident 7 ≡ 13)))

-- `Elf64_DoChecks` accepts exactly the headers with the magic number, of an executable file, for
-- x86-64, and for System V, Linux or SipaaKernel.
pub do_checks-IsLoadable : (e : Ehdr) → (do_checks e ≡ true) ↔ IsLoadable e
unfolding do_checks
do_checks-IsLoadable e = ground arith

-- `Elf64_Load` answers 0 for an image whose header `Elf64_DoChecks` would refuse for any of its four
-- reasons, whatever else is in it, and then has allocated, copied and mapped nothing.
pub elf_load_rejects :
    (fuel hhdm img literal : ℕ) (v : Vmm)
    → (IsLoadable (read_ehdr img v.pmm.bytes) → ⊥)
    → elf_load fuel hhdm img literal v ≡ done (0, v)
unfolding elf_load
elf_load_rejects fuel hhdm img literal v bad =
    let e : Ehdr = read_ehdr img v.pmm.bytes in
    elim (Bool-cases (do_checks e)) [
      | inl good ↦ absurd (bad ((do_checks-IsLoadable e).0 good))
      | inr refused ↦
          ap (λ b. if not b then done (0, v) else load_image fuel hhdm img literal v) refused
    ]
