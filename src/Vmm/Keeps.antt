-- ===== src/Vmm/Keeps.antt =====
-- `Vmm_Map` on an address space with well-formed tables.
use sipaa_kernel.Prelude.{
  ℕ, suc, ◌+◌, ◌/◌, ◌%◌, ◌^◌, ◌≤◌, ◌<◌, ◌≡◌, ◌≢◌, sym, ap, ◌∙◌, arith, some, bit_or,
}
use sipaa_kernel.Vmm.{Vmm, entry, slot, set_word, map}
use sipaa_kernel.Vmm.Walk.{
  Apart, step_down, lookup, lookup_lem, slot_disjoint, set_word_frame, step_down_cong, entry_bound,
  Walked, lookup-Walked,
}
use sipaa_kernel.Vmm.Map.{IsTree, way3, way2, way1, map-lookup, descend-step_down}
use sipaa_kernel.Vmm.Bits.{entry-mod}
use sipaa_kernel.Vmm.Paging.{IsPaging, slot_eq}
use sipaa_kernel.Vmm.Invariant.{Extends, Extends-trans, Descended, descend-Descended}

-- the addresses are in the same page, as far as the tables tell them apart
abbrev pub SamePage : ℕ → ℕ → Type 0
SamePage a b = (a / 2 ^ 12) % 2 ^ 36 ≡ (b / 2 ^ 12) % 2 ^ 36

entries-SamePage :
    (a b : ℕ)
    → entry 39 a ≡ entry 39 b
    → entry 30 a ≡ entry 30 b
    → entry 21 a ≡ entry 21 b
    → entry 12 a ≡ entry 12 b
    → SamePage a b
entries-SamePage a b e4 e3 e2 e1 =
    let f4 : (a / 2 ^ 39) % 512 ≡ (b / 2 ^ 39) % 512 = sym (entry-mod 39 a) ∙ e4 ∙ entry-mod 39 b in
    let f3 : (a / 2 ^ 30) % 512 ≡ (b / 2 ^ 30) % 512 = sym (entry-mod 30 a) ∙ e3 ∙ entry-mod 30 b in
    let f2 : (a / 2 ^ 21) % 512 ≡ (b / 2 ^ 21) % 512 = sym (entry-mod 21 a) ∙ e2 ∙ entry-mod 21 b in
    let f1 : (a / 2 ^ 12) % 512 ≡ (b / 2 ^ 12) % 512 = sym (entry-mod 12 a) ∙ e1 ∙ entry-mod 12 b in
    omega (arith, f4, f3, f2, f1)

module _ (hhdm : ℕ) (wide : hhdm < 2 ^ 64) where
  -- a write of an entry of a last table
  module _ (level : ℕ → ℕ) (v : Vmm) (ok : IsPaging hhdm level v) (t i value : ℕ)
      (leaf : level t ≡ 1) (low : i < 512) where
    abbrev written : Vmm
    written = record v { words = set_word (slot t i) value v.words }

    written_down :
        (u j : ℕ)
        → 1 < level u
        → j < 512
        → step_down hhdm written.words u j ≡ step_down hhdm v.words u j
    written_down u j h b =
        let other : u ≢ t = λ q. omega (arith, h, leaf, ap level q) in
        step_down_cong hhdm written.words v.words u j (
          set_word_frame (slot t i) value (slot u j) v.words
            (slot_disjoint u t j i (ok.apart u t (omega arith) (omega (arith, leaf)) other) b low))

    written-IsPaging : IsPaging hhdm level written
    written-IsPaging = record {
      frames = ok.frames;
      apart = ok.apart;
      child =
          λ u j l c e b d. ok.child u j l c e b (sym (written_down u j (omega (arith, e)) b) ∙ d);
      parent = λ u j u' j' c h h' b b' d d'.
          ok.parent u j u' j' c h h' b b' (sym (written_down u j h b) ∙ d)
            (sym (written_down u' j' h' b') ∙ d');
      fresh = ok.fresh;
      fresh_apart = ok.fresh_apart;
      distinct = ok.distinct;
    }

  -- an address space after one page is mapped
  pub record Maps (level : ℕ → ℕ) (v : Vmm) (pml4 vaddr value : ℕ) (after : Vmm) : Type 0 where
    pub level' : ℕ → ℕ
    pub paging : IsPaging hhdm level' after
    pub grows : (a : ℕ) → 0 < level a → level' a ≡ level a
    pub used : (v.pmm).stack_top ≤ (after.pmm).stack_top + 3
    pub found : lookup hhdm after.words pml4 vaddr ≡ some value
    pub others :
        (other x : ℕ)
        → (SamePage other vaddr → ⊥)
        → lookup hhdm v.words pml4 other ≡ some x
        → lookup hhdm after.words pml4 other ≡ some x

  module _ (level : ℕ → ℕ) (v : Vmm) (pml4 vaddr paddr flags : ℕ) (ok : IsPaging hhdm level v)
      (root : level pml4 ≡ 4) (room : 2 < (v.pmm).stack_top) where
    first : Descended hhdm wide level v pml4 (entry 39 vaddr) 2
    first =
        descend-Descended hhdm wide level v pml4 (entry 39 vaddr) 2 ok root (entry_bound 39 vaddr)
          (omega arith)

    abbrev t3 : ℕ
    t3 = (way3 hhdm wide pml4 vaddr v).0

    abbrev v1 : Vmm
    v1 = (way3 hhdm wide pml4 vaddr v).1

    abbrev t2 : ℕ
    t2 = (way2 hhdm wide pml4 vaddr v).0

    abbrev v2 : Vmm
    v2 = (way2 hhdm wide pml4 vaddr v).1

    abbrev t1 : ℕ
    t1 = (way1 hhdm wide pml4 vaddr v).0

    abbrev v3 : Vmm
    v3 = (way1 hhdm wide pml4 vaddr v).1

    second : Descended hhdm wide first.level' v1 t3 (entry 30 vaddr) 1
    second =
        descend-Descended hhdm wide first.level' v1 t3 (entry 30 vaddr) 1 (first.extends).paging
          first.below (entry_bound 30 vaddr) (omega (arith, (first.extends).used))

    third : Descended hhdm wide second.level' v2 t2 (entry 21 vaddr) 0
    third =
        descend-Descended hhdm wide second.level' v2 t2 (entry 21 vaddr) 0 (second.extends).paging
          second.below (entry_bound 21 vaddr)
          (omega (arith, (first.extends).used, (second.extends).used))

    two_more : Extends hhdm wide 2 first.level' v1 third.level' v3
    two_more = Extends-trans hhdm wide 1 1 _ v1 _ v2 _ v3 second.extends third.extends

    all_three : Extends hhdm wide 3 level v third.level' v3
    all_three = Extends-trans hhdm wide 1 2 level v _ v1 _ v3 first.extends two_more

    level4 : third.level' pml4 ≡ 4
    level4 = all_three.grows pml4 (omega (arith, root)) ∙ root

    level3 : third.level' t3 ≡ 3
    level3 = two_more.grows t3 (omega (arith, first.below)) ∙ first.below

    level2 : third.level' t2 ≡ 2
    level2 = (third.extends).grows t2 (omega (arith, second.below)) ∙ second.below

    differ : (a b m n : ℕ) → third.level' a ≡ suc m → third.level' b ≡ suc n → m ≢ n → Apart a b
    differ a b m n ha hb ne =
        (all_three.paging).apart a b (omega (arith, ha)) (omega (arith, hb))
          (λ q. ne (omega (arith, ha, hb, ap third.level' q)))

    tree : IsTree hhdm wide pml4 vaddr v
    tree = record {
      a43 = differ pml4 t3 3 2 level4 level3 (omega arith);
      a42 = differ pml4 t2 3 1 level4 level2 (omega arith);
      a41 = differ pml4 t1 3 0 level4 third.below (omega arith);
      a32 = differ t3 t2 2 1 level3 level2 (omega arith);
      a31 = differ t3 t1 2 0 level3 third.below (omega arith);
      a21 = differ t2 t1 1 0 level2 third.below (omega arith);
    }

    down4 : step_down hhdm v3.words pml4 (entry 39 vaddr) ≡ some t3
    down4 =
        two_more.leads pml4 (entry 39 vaddr) t3
          (omega (arith, (first.extends).grows pml4 (omega (arith, root)), root))
          (entry_bound 39 vaddr) (descend-step_down hhdm wide pml4 (entry 39 vaddr) v ok.frames)

    down3 : step_down hhdm v3.words t3 (entry 30 vaddr) ≡ some t2
    down3 =
        (third.extends).leads t3 (entry 30 vaddr) t2
          (omega (arith, (second.extends).grows t3 (omega (arith, first.below)), first.below))
          (entry_bound 30 vaddr)
          (descend-step_down hhdm wide t3 (entry 30 vaddr) v1 ((first.extends).paging).frames)

    down2 : step_down hhdm v3.words t2 (entry 21 vaddr) ≡ some t1
    down2 = descend-step_down hhdm wide t2 (entry 21 vaddr) v2 ((second.extends).paging).frames

    -- the walk to another page
    module _ (other x : ℕ) (apart : SamePage other vaddr → ⊥)
        (walked : Walked hhdm v.words pml4 other x) where
      open walked use {u3, u2, u1}

      at3 : level u3 ≡ 3
      at3 = ok.child pml4 (entry 39 other) 2 u3 root (entry_bound 39 other) walked.to3

      at2 : level u2 ≡ 2
      at2 = ok.child u3 (entry 30 other) 1 u2 at3 (entry_bound 30 other) walked.to2

      at1 : level u1 ≡ 1
      at1 = ok.child u2 (entry 21 other) 0 u1 at2 (entry_bound 21 other) walked.to1

      go4 : step_down hhdm v3.words pml4 (entry 39 other) ≡ some u3
      go4 =
          all_three.leads pml4 (entry 39 other) u3 (omega (arith, root)) (entry_bound 39 other)
            walked.to3

      go3 : step_down hhdm v3.words u3 (entry 30 other) ≡ some u2
      go3 =
          all_three.leads u3 (entry 30 other) u2 (omega (arith, at3)) (entry_bound 30 other)
            walked.to2

      go2 : step_down hhdm v3.words u2 (entry 21 other) ≡ some u1
      go2 =
          all_three.leads u2 (entry 21 other) u1 (omega (arith, at2)) (entry_bound 21 other)
            walked.to1

      up : (t : ℕ) (n : ℕ) → level t ≡ suc n → third.level' t ≡ suc n
      up t n e = all_three.grows t (omega (arith, e)) ∙ e

      distinct_slots : slot u1 (entry 12 other) ≢ slot t1 (entry 12 vaddr)
      distinct_slots q =
          let p = (all_three.paging).parent in
          let same1 =
            slot_eq u1 (entry 12 other) t1 (entry 12 vaddr)
              (λ n.
                (all_three.paging).apart u1 t1 (omega (arith, up u1 0 at1))
                  (omega (arith, third.below)) n)
              (entry_bound 12 other) (entry_bound 12 vaddr) q in
          let same2 =
            p u2 (entry 21 other) t2 (entry 21 vaddr) t1 (omega (arith, up u2 1 at2))
              (omega (arith, level2)) (entry_bound 21 other) (entry_bound 21 vaddr)
              (go2 ∙ ap some same1.0) down2 in
          let same3 =
            p u3 (entry 30 other) t3 (entry 30 vaddr) t2 (omega (arith, up u3 2 at3))
              (omega (arith, level3)) (entry_bound 30 other) (entry_bound 30 vaddr)
              (go3 ∙ ap some same2.0) down3 in
          let same4 =
            p pml4 (entry 39 other) pml4 (entry 39 vaddr) t3 (omega (arith, level4))
              (omega (arith, level4)) (entry_bound 39 other) (entry_bound 39 vaddr)
              (go4 ∙ ap some same3.0) down4 in
          apart (entries-SamePage other vaddr same4.1 same3.1 same2.1 same1.1)

      other_lookup : lookup hhdm (map hhdm pml4 vaddr paddr flags v).words pml4 other ≡ some x
      unfolding map
      other_lookup =
          let i : ℕ = entry 12 vaddr in
          let value : ℕ = bit_or paddr flags in
          let w : ℕ → ℕ = set_word (slot t1 i) value v3.words in
          let down =
            written_down third.level' v3 all_three.paging t1 i value third.below
              (entry_bound 12 vaddr) in
          lookup_lem hhdm w pml4 other u3 u2 u1
            (down pml4 (entry 39 other) (omega (arith, level4)) (entry_bound 39 other) ∙ go4)
            (down u3 (entry 30 other) (omega (arith, up u3 2 at3)) (entry_bound 30 other) ∙ go3)
            (down u2 (entry 21 other) (omega (arith, up u2 1 at2)) (entry_bound 21 other) ∙ go2)
          ∙ ap some (
              set_word_frame (slot t1 i) value (slot u1 (entry 12 other)) v3.words distinct_slots
              ∙ all_three.leaves u1 (entry 12 other) at1 (entry_bound 12 other)
              ∙ walked.value)

    -- On an address space with well-formed tables and at least three pages on the stack, `Vmm_Map`
    -- keeps the tables well formed and takes at most three pages. The walk of the processor then
    -- finds for the address exactly the physical address and flags, and for every address of another
    -- page that was mapped what it found before.
    pub map-Maps : Maps level v pml4 vaddr (bit_or paddr flags) (map hhdm pml4 vaddr paddr flags v)
    unfolding map
    map-Maps = record {
      level' = third.level';
      paging =
          written-IsPaging third.level' v3 all_three.paging t1 (entry 12 vaddr) (bit_or paddr flags)
            third.below (entry_bound 12 vaddr);
      grows = all_three.grows;
      used = all_three.used;
      found = (map-lookup hhdm wide pml4 vaddr v paddr flags ok.frames tree).found;
      others =
          λ other x apart h. other_lookup other x apart (lookup-Walked hhdm v.words pml4 other x h);
    }
