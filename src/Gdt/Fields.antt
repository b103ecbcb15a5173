-- ===== src/Gdt/Fields.antt =====
-- What a processor reads back from the descriptors.
use sipaa_kernel.Prelude.{
  ℕ, ◌+◌, ◌*◌, ◌/◌, ◌%◌, ◌^◌, ◌<◌, ◌≡◌, ◌≢◌, refl, arith, bit_and, bit_or, and_mask, and_shifted,
  zero_and, or_zero, zero_or, ◌∙◌, ap,
}
use sipaa_kernel.Gdt.{GdtEntry, Gdt, set_segment, tss_set_gate}

-- the limit and the base that a descriptor has, and its four bits of flags
abbrev pub limit_of : GdtEntry → ℕ
limit_of e = e.limit0 + (e.limit1_flags % 16) * 2 ^ 16

abbrev pub base_of : GdtEntry → ℕ
base_of e = e.base0 + e.base1 * 2 ^ 16 + e.base2 * 2 ^ 24

abbrev pub flags_of : GdtEntry → ℕ
flags_of e = e.limit1_flags / 16

-- what descriptor `i` says in `g'`, all others being those of `g`
pub record Described (i l b a f : ℕ) (g g' : Gdt) : Type 0 where
  pub limit : limit_of (g'.gdt i) ≡ l
  pub base : base_of (g'.gdt i) ≡ b
  access : (g'.gdt i).access ≡ a
  flags : flags_of (g'.gdt i) ≡ f
  others : (j : ℕ) → j ≢ i → g'.gdt j ≡ g.gdt j

low16 : (v : ℕ) → bit_and v 0xFFFF ≡ v % 2 ^ 16
low16 v = and_mask 16 v 0xFFFF refl

low8 : (v : ℕ) → bit_and v 0xFF ≡ v % 2 ^ 8
low8 v = and_mask 8 v 0xFF refl

low4 : (v : ℕ) → bit_and v 0x0F ≡ v % 2 ^ 4
low4 v = and_mask 4 v 0x0F refl

high4 : (v : ℕ) → v < 2 ^ 8 → bit_and v 0xF0 ≡ v / 16 * 16
high4 v h = and_shifted 4 v 15 ∙ ap (λ t. t * 2 ^ 4) (low4 (v / 2 ^ 4)) ∙ omega arith

-- `Gdt_SetEntry` takes a limit and a base of 16 bits: the descriptor has the limit and the base that
-- were asked for only modulo 2 ^ 16, whatever they are, with the access byte and the upper four bits
-- of the flags as given for an access below 256 and flags below 256, and no other descriptor
-- changes.
pub set_segment-Described :
    (i limit base access flags : ℕ) (g : Gdt)
    → access < 256
    → flags < 256
    → Described i
        (limit % 2 ^ 16)
        (base % 2 ^ 16)
        access
        (flags / 16)
        g
        (set_segment i limit base access flags g)
unfolding set_segment
set_segment-Described i limit base access flags g ha hf =
    let l : limit % 2 ^ 16 / 2 ^ 16 ≡ 0 = omega arith in
    let f : flags % 2 ^ 8 ≡ flags = omega arith in
    let upper : bit_or (bit_and (limit % 2 ^ 16 / 2 ^ 16) 0x0F) (bit_and (flags % 2 ^ 8) 0xF0)
        ≡ flags / 16 * 16 =
      rw (l, f, zero_and, zero_or, high4 flags hf) refl in
    record {
      limit = ground (arith, upper, low16 (limit % 2 ^ 16));
      base = ground (
        arith,
        low16 (base % 2 ^ 16),
        low8 (base % 2 ^ 16 / 2 ^ 16),
        low8 (base % 2 ^ 16 / 2 ^ 24),
      );
      access = ground arith;
      flags = ground (arith, upper);
      others = λ j ne. ground arith;
    }

-- `Tss_SetGate` makes a descriptor whose limit is the one that was asked for modulo 2 ^ 20 and
-- whose base is the address of the segment modulo 2 ^ 32 only; its access byte is 0x89, an
-- available task state segment, its flags are 0, and no other descriptor changes.
pub tss_set_gate-Described :
    (num base limit : ℕ) (g : Gdt)
    → base < 2 ^ 64
    → limit < 2 ^ 32
    → Described num (limit % 2 ^ 20) (base % 2 ^ 32) 0x89 0 g (tss_set_gate num base limit g)
unfolding tss_set_gate
tss_set_gate-Described num base limit g hb hl = record {
  limit = ground (
    arith,
    low16 (limit % 2 ^ 32),
    low4 (limit % 2 ^ 32 / 2 ^ 16),
    or_zero (bit_and (limit % 2 ^ 32 / 2 ^ 16) 0x0F),
  );
  base =
      ground (
        arith,
        low16 (base % 2 ^ 64),
        low8 (base % 2 ^ 64 / 2 ^ 16),
        low8 (base % 2 ^ 64 / 2 ^ 24),
      );
  access = ground arith;
  flags =
      ground
        (arith, low4 (limit % 2 ^ 32 / 2 ^ 16), or_zero (bit_and (limit % 2 ^ 32 / 2 ^ 16) 0x0F));
  others = λ j ne. ground arith;
}
