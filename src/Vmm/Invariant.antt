-- ===== src/Vmm/Invariant.antt =====
-- The tables of an address space stay well formed under `Vmm_Map`.
use sipaa_kernel.Prelude.{
  ℕ, suc, ◌+◌, ◌%◌, ◌^◌, ◌≤◌, ◌<◌, ◌≡◌, ◌≢◌, refl, sym, ap, ◌∙◌, subst, arith, none, some, ◌==◌,
  Bool-cases, true, false, inl, inr, bit_and,
}
use sipaa_kernel.Vmm.{Vmm, slot, descend, pte_present}
use sipaa_kernel.Vmm.Walk.{step_down, slot-Off, slot_disjoint}
use sipaa_kernel.Vmm.Map.{descend-step_down}
use sipaa_kernel.Vmm.Bits.{present-mod}
use sipaa_kernel.Vmm.Paging.{IsPaging, slot_eq, Apart-sym}
use sipaa_kernel.Vmm.Made.{
  made, level_made, level_old, level_new, child_made, keep_word, down_old, made-Apart, stack_after,
  descend-made,
}

module _ (hhdm : ℕ) (wide : hhdm < 2 ^ 64) where
  -- `v'` has the tables of `v` and perhaps more, at most `n` pages fewer on the stack, and leads
  -- where `v` leads; the entries of the last tables are the same.
  pub record Extends (n : ℕ) (level : ℕ → ℕ) (v : Vmm) (level' : ℕ → ℕ) (v' : Vmm) : Type 0 where
    pub paging : IsPaging hhdm level' v'
    pub grows : (a : ℕ) → 0 < level a → level' a ≡ level a
    pub used : (v.pmm).stack_top ≤ (v'.pmm).stack_top + n
    pub leads :
        (t j u : ℕ)
        → 1 < level t
        → j < 512
        → step_down hhdm v.words t j ≡ some u
        → step_down hhdm v'.words t j ≡ some u
    pub leaves : (a j : ℕ) → level a ≡ 1 → j < 512 → v'.words (slot a j) ≡ v.words (slot a j)

  pub Extends-trans :
      (n m : ℕ) (l0 : ℕ → ℕ) (v0 : Vmm) (l1 : ℕ → ℕ) (v1 : Vmm) (l2 : ℕ → ℕ) (v2 : Vmm)
      → Extends n l0 v0 l1 v1
      → Extends m l1 v1 l2 v2
      → Extends (n + m) l0 v0 l2 v2
  Extends-trans n m l0 v0 l1 v1 l2 v2 f g = record {
    paging = g.paging;
    grows = λ a h. g.grows a (omega (arith, f.grows a h)) ∙ f.grows a h;
    used = omega (arith, f.used, g.used);
    leads = λ t j u h b d.
        g.leads t j u (omega (arith, f.grows t (omega arith))) b (f.leads t j u h b d);
    leaves = λ a j h b. g.leaves a j (f.grows a (omega (arith, h)) ∙ h) b ∙ f.leaves a j h b;
  }

  Extends-refl :
      (n : ℕ) (level : ℕ → ℕ) (v : Vmm) → IsPaging hhdm level v → Extends n level v level v
  Extends-refl n level v ok = record {
    paging = ok;
    grows = λ a h. refl;
    used = omega arith;
    leads = λ t j u h b d. d;
    leaves = λ a j h b. refl;
  }

  -- one descent, with the level of the table that it leads to
  pub record Descended (level : ℕ → ℕ) (v : Vmm) (t i l : ℕ) : Type 0 where
    pub level' : ℕ → ℕ
    pub extends : Extends 1 level v level' (descend hhdm t i v).1
    pub below : level' (descend hhdm t i v).0 ≡ suc l

  descend_old :
      (t i : ℕ) (v : Vmm)
      → (bit_and (v.words (slot t i)) pte_present == 0) ≡ false
      → (descend hhdm t i v).1 ≡ v
  unfolding descend
  descend_old t i v present = rw present refl

  no_step :
      (t i : ℕ) (v : Vmm)
      → (bit_and (v.words (slot t i)) pte_present == 0) ≡ true
      → step_down hhdm v.words t i ≡ none
  unfolding step_down
  no_step t i v absent =
      let even : (v.words (slot t i) % 2 == 0) ≡ true =
        ground (arith, present-mod (v.words (slot t i)), absent) in
      rw even refl

  module _ (level : ℕ → ℕ) (v : Vmm) (t i l : ℕ) (ok : IsPaging hhdm level v)
      (here : level t ≡ suc (suc l)) (low : i < 512) (room : 0 < (v.pmm).stack_top)
      (absent : (bit_and (v.words (slot t i)) pte_present == 0) ≡ true) where
    made-leads :
        (t' j u : ℕ)
        → 1 < level t'
        → j < 512
        → step_down hhdm v.words t' j ≡ some u
        → step_down hhdm (descend hhdm t i v).1.words t' j ≡ some u
    made-leads t' j u h b d = elim (Bool-cases (slot t' j == slot t i)) [
      | inl this ↦
          let e =
            slot_eq t' j t i (ok.apart t' t (omega arith) (omega arith)) b low
              (ground (arith, this)) in
          cc (e.0, e.1, no_step t i v absent, d)
      | inr other ↦
          down_old hhdm wide level v ok t i l here low room absent t' j (omega arith) b
            (λ q. ground (arith, q, other))
          ∙ d
    ]

    made-leaves :
        (a j : ℕ)
        → level a ≡ 1
        → j < 512
        → (descend hhdm t i v).1.words (slot a j) ≡ v.words (slot a j)
    made-leaves a j h b =
        let top = made hhdm wide level v ok t i l here low in
        let other : a ≢ t = λ q. omega (arith, h, here, ap level q) in
        keep_word hhdm wide level v ok t i l here low room absent (slot a j)
          (slot_disjoint a t j i (ok.apart a t (omega arith) (omega arith) other) b low)
          (slot-Off a top j
            (Apart-sym top a
              (made-Apart hhdm wide level v ok t i l here low room absent a (omega arith)))
            b)

    made-Descended : Descended level v t i l
    made-Descended = record {
      level' = level_made hhdm wide level v ok t i l here low;
      extends = record {
        paging = descend-made hhdm wide level v ok t i l here low room absent;
        grows = level_old hhdm wide level v ok t i l here low room absent;
        used = omega (arith, stack_after hhdm wide level v ok t i l here low room absent);
        leads = made-leads;
        leaves = made-leaves;
      };
      below =
          ap (level_made hhdm wide level v ok t i l here low)
            (child_made hhdm wide level v ok t i l here low room absent)
          ∙ level_new hhdm wide level v ok t i l here low room absent;
    }

  pub descend-Descended :
      (level : ℕ → ℕ) (v : Vmm) (t i l : ℕ)
      → IsPaging hhdm level v
      → level t ≡ suc (suc l)
      → i < 512
      → 0 < (v.pmm).stack_top
      → Descended level v t i l
  descend-Descended level v t i l ok here low room =
      elim (Bool-cases (bit_and (v.words (slot t i)) pte_present == 0)) [
        | inl absent ↦ made-Descended level v t i l ok here low room absent
        | inr present ↦
            let same = descend_old t i v present in
            record {
              level' = level;
              extends =
                  subst (λ w. Extends 1 level v level w) (sym same) (Extends-refl 1 level v ok);
              below = ok.child t i l (descend hhdm t i v).0 here low (
                  subst (λ w. step_down hhdm w.words t i ≡ some (descend hhdm t i v).0) same
                    (descend-step_down hhdm wide t i v ok.frames));
            }
      ]
