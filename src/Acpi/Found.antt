-- ===== src/Acpi/Found.antt =====
-- Which root tables `Acpi_Initialize` takes, and which address it keeps.
use sipaa_kernel.Prelude.{
  ℕ, zero, suc, ◌+◌, ◌<◌, ◌≡◌, refl, ap, ◌∙◌, arith, List, [], ◌∷◌, true, ◌==◌, length, pos, sub_ℕ,
  if◌then◌else◌, Bool-cases, inl, inr,
}
use sipaa_kernel.Prelude.Run.{done}
use sipaa_kernel.Mem.{Mem}
use sipaa_kernel.Strings.{compare_strings, is_zero}
use sipaa_kernel.Strings.Holds.{HoldsString}
use sipaa_kernel.Vmm.{physical_to_virtual}
use sipaa_kernel.Acpi.{Acpi, revision, rsdt_address, use_xsdt, acpi_initialize}

-- the bytes `xs` stand from `p` on, whatever follows
abbrev pub StartsWith : Mem → ℕ → List ℕ → Type 0
StartsWith m p [] = zero ≡ zero
StartsWith m p (x ∷ xs) = (m p ≡ x) × StartsWith m (p + 1) xs

sub_ℕ-zero : (n : ℕ) → sub_ℕ n 0 ≡ pos n
sub_ℕ-zero n = ground arith

-- the comparison at the NUL of the second string
sub-nul : (f p q : ℕ) (m : Mem) → m q ≡ 0 → compare_strings (suc f) p q m ≡ done (pos (m (p + 0)))
unfolding compare_strings
sub-nul f p q m lit =
    let place : p + 0 ≡ p = omega arith in
    rw (lit, place)
      (elim (Bool-cases (m p == 0)) [
        | inl nul ↦ rw nul (ap done (sub_ℕ-zero (m p)))
        | inr more ↦ rw more (ap done (sub_ℕ-zero (m p)))
      ])

-- The comparison of bytes without a NUL with a string reads one byte beyond them.
compare_strings-beyond :
    (f p q : ℕ) (m : Mem) (xs : List ℕ)
    → StartsWith m p xs
    → HoldsString m q xs
    → length xs < f
    → compare_strings f p q m ≡ done (pos (m (p + length xs)))
unfolding compare_strings
compare_strings-beyond zero p q m xs h lit enough = absurd (omega arith)
compare_strings-beyond (suc f) p q m [] h lit enough = sub-nul f p q m lit
compare_strings-beyond (suc f) p q m (x ∷ xs) h lit enough =
    let place : p + 1 + length xs ≡ p + suc (length xs) = omega arith in
    ground (arith, compare_strings-beyond f (p + 1) (q + 1) m xs h.1 lit.2 (omega arith), place)

is_zero-pos : (n : ℕ) → is_zero (pos n) ≡ (n == 0)
unfolding is_zero
is_zero-pos n = ground arith

-- what the module holds afterwards, by the checksum
abbrev pub found : (hhdm rsdp : ℕ) → Mem → Acpi → Acpi
found hhdm rsdp m s =
    if m (rsdp + 8) == 0
    then record {
      here = true;
      use_xsdp = if revision rsdp m == 0 then s.use_xsdp else true;
      rsdp_address = physical_to_virtual hhdm (rsdt_address rsdp m);
    }
    else s

use_xsdt-found :
    (hhdm rsdp : ℕ) (m : Mem) (s : Acpi)
    → record (use_xsdt hhdm rsdp m (record s { here = true })) {
      rsdp_address = physical_to_virtual hhdm (rsdt_address rsdp m);
    }
      ≡ record {
        here = true;
        use_xsdp = if revision rsdp m == 0 then s.use_xsdp else true;
        rsdp_address = physical_to_virtual hhdm (rsdt_address rsdp m);
      }
use_xsdt-found hhdm rsdp m s = elim (Bool-cases (revision rsdp m == 0)) [
  | inl old ↦ rw old refl
  | inr new ↦ rw new refl
]

-- For a table with the signature of the literal, which is eight characters, `Acpi_Initialize` ends:
-- with a checksum byte of 0 the table is taken, `Acpi_UseXSDP` is set for a revision other than 0, and
-- the address is that of the RSDT for every revision; with any other checksum nothing is set.
pub acpi_initialize-found :
    (f hhdm rsdp literal : ℕ) (m : Mem) (s : Acpi) (signature : List ℕ)
    → StartsWith m rsdp signature
    → HoldsString m literal signature
    → length signature ≡ 8
    → 8 < f
    → acpi_initialize f hhdm rsdp literal m s ≡ done (found hhdm rsdp m s)
unfolding acpi_initialize
acpi_initialize-found f hhdm rsdp literal m s signature h lit eight enough =
    let order : compare_strings f rsdp literal m ≡ done (pos (m (rsdp + 8))) =
      compare_strings-beyond f rsdp literal m signature h lit (omega arith)
      ∙ ap (λ n. done (pos (m (rsdp + n)))) eight in
    rw (order, is_zero-pos (m (rsdp + 8)))
      (elim (Bool-cases (m (rsdp + 8) == 0)) [
        | inl nul ↦ rw nul (ap done (use_xsdt-found hhdm rsdp m s))
        | inr sum ↦ rw sum refl
      ])
