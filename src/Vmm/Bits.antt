-- ===== src/Vmm/Bits.antt =====
-- The fields of an address and of a page table entry, in arithmetic.
use sipaa_kernel.Prelude.{
  ℕ, ◌+◌, ◌-◌, ◌*◌, ◌/◌, ◌%◌, ◌^◌, ◌≡◌, refl, arith, bit_and, bit_or, and_mask, and_shifted,
  or_fields, or_unfold, ap, ◌∙◌,
}
use sipaa_kernel.Vmm.{entry, pte_addr_mask, pte_present, pte_writable}

pub entry-mod : (shift v : ℕ) → entry shift v ≡ (v / 2 ^ shift) % 512
unfolding entry
entry-mod shift v = and_mask 9 (v / 2 ^ shift) 0x1ff refl

pub present-mod : (e : ℕ) → bit_and e pte_present ≡ e % 2
present-mod e = and_mask 1 e 1 refl

pub addr-div : (e : ℕ) → bit_and e pte_addr_mask ≡ (e / 2 ^ 12) % 2 ^ 40 * 2 ^ 12
addr-div e =
    and_shifted 12 e (2 ^ 40 - 1)
    ∙ ap (λ t. t * 2 ^ 12) (and_mask 40 (e / 2 ^ 12) (2 ^ 40 - 1) refl)

pub link-sum : (q : ℕ) → bit_or (bit_or (q * 2 ^ 12) pte_present) pte_writable ≡ q * 2 ^ 12 + 3
link-sum q =
    let one : bit_or (q * 2 ^ 12) 1 ≡ q * 2 ^ 12 + 1 = or_fields 12 q 1 (omega arith) in
    let two : bit_or (q * 2 ^ 11) 1 ≡ q * 2 ^ 11 + 1 = or_fields 11 q 1 (omega arith) in
    let half : (q * 2 ^ 12 + 1) / 2 ≡ q * 2 ^ 11 = omega arith in
    rw (one, or_unfold (q * 2 ^ 12 + 1) 2, half, two) (omega arith)
