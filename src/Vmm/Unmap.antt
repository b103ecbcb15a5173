-- ===== src/Vmm/Unmap.antt =====
-- `Vmm_Unmap`, against the walk of the processor through the tables.
use sipaa_kernel.Prelude.{
  ℕ, ◌%◌, ◌^◌, ◌<◌, ◌≡◌, ◌≢◌, refl, arith, some, ◌==◌, false, Bool-cases, inl, inr, ◌∙◌, sym, subst,
}
use sipaa_kernel.Vmm.{Vmm, entry, slot, set_word, follow, unmap}
use sipaa_kernel.Vmm.Bits.{addr-div}
use sipaa_kernel.Vmm.Walk.{
  Apart, step_down, lookup, slot_disjoint, entry_bound, set_word_frame, lookup_lem, step_down_cong,
}

module _ (hhdm : ℕ) (wide : hhdm < 2 ^ 64) where
  -- `Vmm_Unmap` follows a present entry as the processor does.
  follow-step_down :
      (t i t' : ℕ) (w : ℕ → ℕ) → step_down hhdm w t i ≡ some t' → follow hhdm t i w ≡ t'
  unfolding step_down
  follow-step_down t i t' w h =
      let e : ℕ = w (slot t i) in
      elim (Bool-cases (e % 2 == 0)) [
        | inl absent ↦ ground (arith, absent)
        | inr present ↦ rw (addr-div e) (ground (arith, present))
      ]

  -- the tables on the way to an address, all present and apart from the last
  pub record Present (w : ℕ → ℕ) (pml4 vaddr pml3 pml2 pml1 : ℕ) : Type 0 where
    pub h4 : step_down hhdm w pml4 (entry 39 vaddr) ≡ some pml3
    pub h3 : step_down hhdm w pml3 (entry 30 vaddr) ≡ some pml2
    pub h2 : step_down hhdm w pml2 (entry 21 vaddr) ≡ some pml1
    pub a41 : Apart pml4 pml1
    pub a31 : Apart pml3 pml1
    pub a21 : Apart pml2 pml1
    pub real : (pml3 ≢ 0) × (pml2 ≢ 0) × (pml1 ≢ 0)

  unmap_lem :
      (pml4 vaddr pml3 pml2 pml1 : ℕ) (v : Vmm)
      → Present v.words pml4 vaddr pml3 pml2 pml1
      → (unmap hhdm pml4 vaddr v).words ≡ set_word (slot pml1 (entry 12 vaddr)) 0 v.words
  unfolding unmap
  unmap_lem pml4 vaddr pml3 pml2 pml1 v p =
      let i4 : ℕ = entry 39 vaddr in
      let i3 : ℕ = entry 30 vaddr in
      let i2 : ℕ = entry 21 vaddr in
      let e3 : follow hhdm pml4 i4 v.words ≡ pml3 = follow-step_down pml4 i4 pml3 v.words p.h4 in
      let e2 : follow hhdm pml3 i3 v.words ≡ pml2 = follow-step_down pml3 i3 pml2 v.words p.h3 in
      let e1 : follow hhdm pml2 i2 v.words ≡ pml1 = follow-step_down pml2 i2 pml1 v.words p.h2 in
      let n3 : (pml3 == 0) ≡ false = ground (arith, p.real.0) in
      let n2 : (pml2 == 0) ≡ false = ground (arith, p.real.1) in
      let n1 : (pml1 == 0) ≡ false = ground (arith, p.real.2) in
      rw e3 (rw e2 (rw e1 (rw n3 (rw n2 (rw n1 refl)))))

  -- If the three tables on the way to an address are present, not at address 0, and the last is
  -- apart from those before it, then after `Vmm_Unmap` the processor's walk still finds the tables
  -- and ends at an entry that is 0; only that word of memory has changed.
  pub unmap-lookup :
      (pml4 vaddr pml3 pml2 pml1 : ℕ) (v : Vmm)
      → Present v.words pml4 vaddr pml3 pml2 pml1
      → let w : ℕ → ℕ = (unmap hhdm pml4 vaddr v).words in
        (lookup hhdm w pml4 vaddr ≡ some 0)
        × ((a : ℕ) → a ≢ slot pml1 (entry 12 vaddr) → w a ≡ v.words a)
  unfolding unmap
  unmap-lookup pml4 vaddr pml3 pml2 pml1 v p =
      let i4 : ℕ = entry 39 vaddr in
      let i3 : ℕ = entry 30 vaddr in
      let i2 : ℕ = entry 21 vaddr in
      let i1 : ℕ = entry 12 vaddr in
      let w : ℕ → ℕ = set_word (slot pml1 i1) 0 v.words in
      let kept : (t i : ℕ) → Apart t pml1 → i < 512 → w (slot t i) ≡ v.words (slot t i) =
        λ t i apart small.
          set_word_frame (slot pml1 i1) 0 (slot t i) v.words
            (slot_disjoint t pml1 i i1 apart small (entry_bound 12 vaddr)) in
      let goes_on : (unmap hhdm pml4 vaddr v).words ≡ w = unmap_lem pml4 vaddr pml3 pml2 pml1 v p in
      subst
        (λ u. (lookup hhdm u pml4 vaddr ≡ some 0) × ((a : ℕ) → a ≢ slot pml1 i1 → u a ≡ v.words a))
        (sym goes_on)
        (
          lookup_lem hhdm w pml4 vaddr pml3 pml2 pml1
                (step_down_cong hhdm w v.words pml4 i4 (kept pml4 i4 p.a41 (entry_bound 39 vaddr))
                  ∙ p.h4)
                (step_down_cong hhdm w v.words pml3 i3 (kept pml3 i3 p.a31 (entry_bound 30 vaddr))
                  ∙ p.h3)
                (step_down_cong hhdm w v.words pml2 i2 (kept pml2 i2 p.a21 (entry_bound 21 vaddr))
                  ∙ p.h2)
              ∙ ground arith,
          λ a ne. set_word_frame (slot pml1 i1) 0 a v.words ne,
        )
