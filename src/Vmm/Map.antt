-- ===== src/Vmm/Map.antt =====
-- `Vmm_Map`, against the walk of the processor through the tables.
use sipaa_kernel.Prelude.{
  ℕ, ◌+◌, ◌-◌, ◌*◌, ◌/◌, ◌%◌, ◌^◌, ◌<◌, ◌≡◌, ◌≢◌, refl, arith, some, bit_and, bit_or, ◌==◌, false,
  Bool-cases, inl, inr, ap, ◌∙◌,
}
use sipaa_kernel.Pmm.{Pmm, allocate_page}
use sipaa_kernel.Vmm.{
  Vmm, virtual_to_physical, physical_to_virtual, entry, slot, set_word, new_table, descend, map,
  pte_present,
}
use sipaa_kernel.Vmm.Walk.{
  Apart, Off, step_down, lookup, slot-Off, slot_disjoint, entry_bound, set_word_frame, lookup_lem,
  Off-slot, step_down_cong,
}
use sipaa_kernel.Vmm.Bits.{present-mod, addr-div, link-sum}

-- The address is that of a frame of physical memory, of 52 bits.
pub record IsFrame (p : ℕ) : Type 0 where
  pub number : ℕ
  pub small : number < 2 ^ 40
  pub aligned : p ≡ number * 2 ^ 12

abbrev pub Frames : Pmm → Type 0
Frames s = (i : ℕ) → IsFrame (s.stack i)

module _ (hhdm : ℕ) (wide : hhdm < 2 ^ 64) where
  linked-addr :
      (p : ℕ)
      → IsFrame p
      → let link : ℕ =
          bit_or (bit_or (physical_to_virtual hhdm (virtual_to_physical hhdm p)) 1) 2 in
        (link % 2 ≡ 1) × ((link / 2 ^ 12) % 2 ^ 40 * 2 ^ 12 ≡ p)
  linked-addr p frame =
      let q = frame.number in
      let back : physical_to_virtual hhdm (virtual_to_physical hhdm p) ≡ q * 2 ^ 12 =
        omega (arith, frame.aligned, frame.small) in
      rw (back, link-sum q) (omega arith, omega (arith, frame.aligned, frame.small))

  allocate_page-IsFrame : (s : Pmm) → Frames s → IsFrame (allocate_page s).0
  unfolding allocate_page
  allocate_page-IsFrame s frames = elim (Bool-cases (s.stack_top == 0)) [
    | inl e ↦ rw e (record { number = 0; small = omega arith; aligned = refl })
    | inr ne ↦ rw ne (frames (s.stack_top - 1))
  ]

  pub allocate_page-Frames : (s : Pmm) → Frames s → Frames (allocate_page s).1
  unfolding allocate_page
  allocate_page-Frames s frames j = elim (Bool-cases (s.stack_top == 0)) [
    | inl e ↦ rw e (frames j)
    | inr ne ↦ rw ne (frames j)
  ]

  -- a table that `Vmm_Map` goes on with is the one that the processor then goes to
  pub descend-step_down :
      (table i : ℕ) (v : Vmm)
      → Frames v.pmm
      → step_down hhdm (descend hhdm table i v).1.words table i ≡ some (descend hhdm table i v).0
  unfolding descend step_down new_table
  descend-step_down table i v frames =
      let e : ℕ = v.words (slot table i) in
      let p : ℕ = (allocate_page v.pmm).0 in
      let (odd, addr) = linked-addr p (allocate_page-IsFrame v.pmm frames) in
      elim (Bool-cases (bit_and e pte_present == 0)) [
        | inl absent ↦ rw absent (ground (arith, odd, ap (λ t. (t + hhdm) % 2 ^ 64) addr))
        | inr present ↦
            let odd' : (e % 2 == 0) ≡ false = ground (arith, present-mod e, present) in
            rw present (ground (arith, odd', ap (λ t. (t + hhdm) % 2 ^ 64) (addr-div e)))
      ]

  pub descend_frame :
      (table i a : ℕ) (v : Vmm)
      → a ≢ slot table i
      → Off (descend hhdm table i v).0 a
      → (descend hhdm table i v).1.words a ≡ v.words a
  unfolding descend new_table
  descend_frame table i a v ne off = ground (arith, ne, off)

  pub descend-Frames :
      (table i : ℕ) (v : Vmm) → Frames v.pmm → Frames (descend hhdm table i v).1.pmm
  unfolding descend new_table
  descend-Frames table i v frames j =
      elim (Bool-cases (bit_and (v.words (slot table i)) pte_present == 0)) [
        | inl absent ↦ rw absent (allocate_page-Frames v.pmm frames j)
        | inr present ↦ rw present (frames j)
      ]

  module _ (pml4 vaddr : ℕ) (v : Vmm) where
    -- the tables on the way that `Vmm_Map` takes, and its states
    abbrev pub way3 : ℕ × Vmm
    way3 = descend hhdm pml4 (entry 39 vaddr) v

    abbrev pub way2 : ℕ × Vmm
    way2 = descend hhdm way3.0 (entry 30 vaddr) way3.1

    abbrev pub way1 : ℕ × Vmm
    way1 = descend hhdm way2.0 (entry 21 vaddr) way2.1

    -- No two tables on the way overlap.
    pub record IsTree : Type 0 where
      pub a43 : Apart pml4 way3.0
      pub a42 : Apart pml4 way2.0
      pub a41 : Apart pml4 way1.0
      pub a32 : Apart way3.0 way2.0
      pub a31 : Apart way3.0 way1.0
      pub a21 : Apart way2.0 way1.0

    map_others :
        (paddr flags a : ℕ)
        → Off pml4 a
        → Off way3.0 a
        → Off way2.0 a
        → Off way1.0 a
        → (map hhdm pml4 vaddr paddr flags v).words a ≡ v.words a
    unfolding map
    map_others paddr flags a o4 o3 o2 o1 =
        set_word_frame (slot way1.0 (entry 12 vaddr)) (bit_or paddr flags) a way1.1.words
          (Off-slot way1.0 a (entry 12 vaddr) o1 (entry_bound 12 vaddr))
        ∙ descend_frame way2.0 (entry 21 vaddr) a way2.1
            (Off-slot way2.0 a (entry 21 vaddr) o2 (entry_bound 21 vaddr)) o1
        ∙ descend_frame way3.0 (entry 30 vaddr) a way3.1
            (Off-slot way3.0 a (entry 30 vaddr) o3 (entry_bound 30 vaddr)) o2
        ∙ descend_frame pml4 (entry 39 vaddr) a v
            (Off-slot pml4 a (entry 39 vaddr) o4 (entry_bound 39 vaddr)) o3

    pub record Mapped (value : ℕ) (after : Vmm) : Type 0 where
      pub found : lookup hhdm after.words pml4 vaddr ≡ some value
      pub others :
          (a : ℕ)
          → Off pml4 a
          → Off way3.0 a
          → Off way2.0 a
          → Off way1.0 a
          → after.words a ≡ v.words a
      pub frames : Frames after.pmm

    -- If the offset of physical memory is a 64-bit number, the page stack holds frames of 52-bit physical memory, and the four tables on the way to
    -- the address, with those that are made for it, do not overlap, then after `Vmm_Map` the
    -- processor's walk from `pml4` finds every table on the way present and ends at exactly the
    -- physical address and flags that were mapped. Words of memory outside the four tables are
    -- unchanged, and the page stack still holds frames.
    pub map-lookup :
        (paddr flags : ℕ)
        → Frames v.pmm
        → IsTree
        → Mapped (bit_or paddr flags) (map hhdm pml4 vaddr paddr flags v)
    unfolding map
    map-lookup paddr flags frames tree =
        let (t3, v1) = way3 in
        let (t2, v2) = way2 in
        let (t1, v3) = way1 in
        let i4 : ℕ = entry 39 vaddr in
        let i3 : ℕ = entry 30 vaddr in
        let i2 : ℕ = entry 21 vaddr in
        let i1 : ℕ = entry 12 vaddr in
        let b4 : i4 < 512 = entry_bound 39 vaddr in
        let b3 : i3 < 512 = entry_bound 30 vaddr in
        let b2 : i2 < 512 = entry_bound 21 vaddr in
        let b1 : i1 < 512 = entry_bound 12 vaddr in
        let value : ℕ = bit_or paddr flags in
        let w : ℕ → ℕ = set_word (slot t1 i1) value v3.words in
        let f1 = descend-Frames pml4 i4 v frames in
        let f2 = descend-Frames t3 i3 v1 f1 in
        let k4 : w (slot pml4 i4) ≡ v1.words (slot pml4 i4) =
          set_word_frame (slot t1 i1) value (slot pml4 i4) v3.words
            (slot_disjoint pml4 t1 i4 i1 tree.a41 b4 b1)
          ∙ descend_frame t2 i2 (slot pml4 i4) v2 (slot_disjoint pml4 t2 i4 i2 tree.a42 b4 b2)
              (slot-Off pml4 t1 i4 tree.a41 b4)
          ∙ descend_frame t3 i3 (slot pml4 i4) v1 (slot_disjoint pml4 t3 i4 i3 tree.a43 b4 b3)
              (slot-Off pml4 t2 i4 tree.a42 b4) in
        let k3 : w (slot t3 i3) ≡ v2.words (slot t3 i3) =
          set_word_frame (slot t1 i1) value (slot t3 i3) v3.words
            (slot_disjoint t3 t1 i3 i1 tree.a31 b3 b1)
          ∙ descend_frame t2 i2 (slot t3 i3) v2 (slot_disjoint t3 t2 i3 i2 tree.a32 b3 b2)
              (slot-Off t3 t1 i3 tree.a31 b3) in
        let k2 : w (slot t2 i2) ≡ v3.words (slot t2 i2) =
          set_word_frame (slot t1 i1) value (slot t2 i2) v3.words
            (slot_disjoint t2 t1 i2 i1 tree.a21 b2 b1) in
        record {
          found =
              lookup_lem hhdm w pml4 vaddr t3 t2 t1
                (step_down_cong hhdm w v1.words pml4 i4 k4 ∙ descend-step_down pml4 i4 v frames)
                (step_down_cong hhdm w v2.words t3 i3 k3 ∙ descend-step_down t3 i3 v1 f1)
                (step_down_cong hhdm w v3.words t2 i2 k2 ∙ descend-step_down t2 i2 v2 f2)
              ∙ ground arith;
          others = map_others paddr flags;
          frames = descend-Frames t2 i2 v2 f2;
        }
