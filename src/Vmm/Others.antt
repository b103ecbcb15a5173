-- ===== src/Vmm/Others.antt =====
-- What `Vmm_Map` leaves as it is: the addresses that are mapped already.
use sipaa_kernel.Prelude.{
  ℕ, ◌%◌, ◌^◌, ◌<◌, ◌≡◌, ◌≢◌, refl, sym, arith, some, bit_and, bit_or, ◌==◌, Bool-cases, inl, inr,
  ap, ◌∙◌,
}
use sipaa_kernel.Pmm.{Pmm, allocate_page}
use sipaa_kernel.Vmm.{Vmm, virtual_to_physical, entry, slot, new_table, descend, map, pte_present}
use sipaa_kernel.Vmm.Walk.{Off, step_down, lookup, lookup_lem, set_word_frame, step_down_cong}
use sipaa_kernel.Vmm.Map.{way3, way2, way1}
use sipaa_kernel.Vmm.Bits.{present-mod}

-- the table that would be made of the next page of the stack
abbrev pub next_table : (hhdm : ℕ) → Pmm → ℕ
next_table hhdm s = virtual_to_physical hhdm (allocate_page s).0

descend_keeps :
    (hhdm table i a : ℕ) (v : Vmm)
    → v.words a % 2 ≡ 1
    → Off (next_table hhdm v.pmm) a
    → (descend hhdm table i v).1.words a ≡ v.words a
unfolding descend new_table
descend_keeps hhdm table i a v present off =
    elim (Bool-cases (bit_and (v.words (slot table i)) pte_present == 0)) [
      | inl absent ↦
          let clear : v.words (slot table i) % 2 ≡ 0 =
            ground (arith, present-mod (v.words (slot table i)), absent) in
          let other : a ≢ slot table i = λ e. omega (arith, ap v.words e, present, clear) in
          rw absent (ground (arith, other, off))
      | inr there ↦ rw there refl
    ]

module _ (hhdm : ℕ) (wide : hhdm < 2 ^ 64) (pml4 vaddr : ℕ) (v : Vmm) where
  -- The word is a present entry, outside the pages that the stack gives next, and it is not the
  -- entry that is written last.
  pub record IsKept (a : ℕ) : Type 0 where
    pub present : v.words a % 2 ≡ 1
    pub off3 : Off (next_table hhdm v.pmm) a
    pub off2 : Off (next_table hhdm (way3 hhdm wide pml4 vaddr v).1.pmm) a
    pub off1 : Off (next_table hhdm (way2 hhdm wide pml4 vaddr v).1.pmm) a
    pub other : a ≢ slot (way1 hhdm wide pml4 vaddr v).0 (entry 12 vaddr)

  map_keeps :
      (paddr flags a : ℕ) → IsKept a → (map hhdm pml4 vaddr paddr flags v).words a ≡ v.words a
  unfolding map
  map_keeps paddr flags a kept =
      let w3 = way3 hhdm wide pml4 vaddr v in
      let w2 = way2 hhdm wide pml4 vaddr v in
      let w1 = way1 hhdm wide pml4 vaddr v in
      let e3 : (w3.1).words a ≡ v.words a =
        descend_keeps hhdm pml4 (entry 39 vaddr) a v kept.present kept.off3 in
      let e2 : (w2.1).words a ≡ v.words a =
        descend_keeps hhdm w3.0 (entry 30 vaddr) a w3.1 (ap (λ t. t % 2) e3 ∙ kept.present)
          kept.off2
        ∙ e3 in
      set_word_frame (slot w1.0 (entry 12 vaddr)) (bit_or paddr flags) a (w1.1).words kept.other
      ∙ descend_keeps hhdm w2.0 (entry 21 vaddr) a w2.1 (ap (λ t. t % 2) e2 ∙ kept.present)
          kept.off1
      ∙ e2

  -- If an address is mapped, through tables at `u3`, `u2` and `u1` whose four entries on its way are
  -- present, lie outside the pages that the stack gives next, and are not the entry that is written
  -- for `vaddr`, then after `Vmm_Map` for `vaddr` the processor's walk finds for that address what it
  -- found before.
  pub map_keeps_lookup :
      (paddr flags other u3 u2 u1 : ℕ)
      → step_down hhdm v.words pml4 (entry 39 other) ≡ some u3
      → step_down hhdm v.words u3 (entry 30 other) ≡ some u2
      → step_down hhdm v.words u2 (entry 21 other) ≡ some u1
      → IsKept (slot pml4 (entry 39 other))
      → IsKept (slot u3 (entry 30 other))
      → IsKept (slot u2 (entry 21 other))
      → IsKept (slot u1 (entry 12 other))
      → lookup hhdm (map hhdm pml4 vaddr paddr flags v).words pml4 other
        ≡ lookup hhdm v.words pml4 other
  map_keeps_lookup paddr flags other u3 u2 u1 h4 h3 h2 k4 k3 k2 k1 =
      let w : ℕ → ℕ = (map hhdm pml4 vaddr paddr flags v).words in
      let keeps : (a : ℕ) → IsKept a → w a ≡ v.words a = λ a. map_keeps paddr flags a in
      let i1 : ℕ = entry 12 other in
      lookup_lem hhdm w pml4 other u3 u2 u1
        (step_down_cong hhdm w v.words pml4 (entry 39 other) (keeps _ k4) ∙ h4)
        (step_down_cong hhdm w v.words u3 (entry 30 other) (keeps _ k3) ∙ h3)
        (step_down_cong hhdm w v.words u2 (entry 21 other) (keeps _ k2) ∙ h2)
      ∙ ap some (keeps (slot u1 i1) k1)
      ∙ sym (lookup_lem hhdm v.words pml4 other u3 u2 u1 h4 h3 h2)
