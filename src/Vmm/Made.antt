-- ===== src/Vmm/Made.antt =====
-- The tables after one is made for an entry that was not present.
use sipaa_kernel.Prelude.{
  ℕ, suc, ◌+◌, ◌-◌, ◌^◌, ◌<◌, ◌≡◌, ◌≢◌, refl, sym, ap, ◌∙◌, subst, arith, none, some, ◌==◌,
  if◌then◌else◌, Bool-cases, true, false, inl, inr, bit_and, ltb, leb, ◌&&◌,
}
use sipaa_kernel.Pmm.{allocate_page}
use sipaa_kernel.Vmm.{Vmm, virtual_to_physical, slot, new_table, descend, pte_present}
use sipaa_kernel.Vmm.Walk.{Apart, Off, step_down, slot-Off, slot_disjoint, step_down_cong}
use sipaa_kernel.Vmm.Map.{descend-step_down, descend_frame, descend-Frames}
use sipaa_kernel.Vmm.Paging.{table_of, IsPaging, slot_eq, Apart-sym}

-- what the making of a table for entry `i` of the table at `t` does
module _ (hhdm : ℕ) (wide : hhdm < 2 ^ 64) (level : ℕ → ℕ) (v : Vmm) (ok : IsPaging hhdm level v)
    (t i l : ℕ) (here : level t ≡ suc (suc l)) (low : i < 512) where
  abbrev pub made : ℕ
  made = table_of hhdm v.pmm ((v.pmm).stack_top - 1)

  abbrev pub level_made : ℕ → ℕ
  level_made a = if a == made then suc l else level a

  module _ (room : 0 < (v.pmm).stack_top)
      (absent : (bit_and (v.words (slot t i)) pte_present == 0) ≡ true) where
    abbrev pub after : Vmm
    after = (descend hhdm t i v).1

    made_fresh : level made ≡ 0
    made_fresh = ok.fresh ((v.pmm).stack_top - 1) (omega arith)

    pub made-Apart : (a : ℕ) → 0 < level a → Apart made a
    made-Apart a h = ok.fresh_apart ((v.pmm).stack_top - 1) a (omega arith) h

    not_made : (a : ℕ) → 0 < level a → a ≢ made
    not_made a h e = omega (arith, made_fresh, ap level e, h)

    pub level_old : (a : ℕ) → 0 < level a → level_made a ≡ level a
    level_old a h = let other : (a == made) ≡ false = ground (arith, not_made a h) in rw other refl

    pub level_new : level_made made ≡ suc l
    level_new = let same : (made == made) ≡ true = ground arith in rw same refl

    pub child_made : (descend hhdm t i v).0 ≡ made
    unfolding descend new_table allocate_page
    child_made =
        let some_page : ((v.pmm).stack_top == 0) ≡ false = ground arith in
        rw (absent, some_page) refl

    pub keep_word : (a : ℕ) → a ≢ slot t i → Off made a → after.words a ≡ v.words a
    keep_word a ne off =
        descend_frame hhdm wide t i a v ne (subst (λ c. Off c a) (sym child_made) off)

    down_new : step_down hhdm after.words t i ≡ some made
    down_new = descend-step_down hhdm wide t i v ok.frames ∙ ap some child_made

    pub down_old :
        (t' j : ℕ)
        → 0 < level t'
        → j < 512
        → slot t' j ≢ slot t i
        → step_down hhdm after.words t' j ≡ step_down hhdm v.words t' j
    down_old t' j h hj ne =
        step_down_cong hhdm after.words v.words t' j
          (keep_word (slot t' j) ne (slot-Off t' made j (Apart-sym made t' (made-Apart t' h)) hj))

    cleared : (j : ℕ) → j < 512 → ((descend hhdm t i v).1).words (slot made j) ≡ 0
    unfolding descend new_table allocate_page
    cleared j hj =
        let some_page : ((v.pmm).stack_top == 0) ≡ false = ground arith in
        let ne : slot made j ≢ slot t i =
          slot_disjoint made t j i (made-Apart t (omega arith)) hj low in
        let ne' : (slot made j == slot t i) ≡ false = ground (arith, ne) in
        let inside : (leb made (slot made j) && ltb (slot made j) (made + 4096)) ≡ true =
          ground arith in
        rw (absent, some_page, ne', inside) refl

    down_made : (j : ℕ) → j < 512 → step_down hhdm after.words made j ≡ none
    unfolding step_down
    down_made j hj = rw (cleared j hj) refl

    -- what an entry of a table is afterwards
    pub data Entry (t' j : ℕ) : Type 0 where
      empty : step_down hhdm after.words t' j ≡ none → Entry t' j
      linked : t' ≡ t → j ≡ i → Entry t' j
      old :
          level_made t' ≡ level t'
          → step_down hhdm after.words t' j ≡ step_down hhdm v.words t' j
          → Entry t' j

    entry_of : (t' j : ℕ) → 0 < level_made t' → j < 512 → Entry t' j
    entry_of t' j h hj = elim (Bool-cases (t' == made)) [
      | inl same ↦
          let e : made ≡ t' = ground (arith, same) in
          empty (subst (λ a. step_down hhdm after.words a j ≡ none) e (down_made j hj))
      | inr other ↦
          let before : 0 < level t' = rw other at h in
          elim (Bool-cases (slot t' j == slot t i)) [
            | inl this ↦
                let e =
                  slot_eq t' j t i (ok.apart t' t before (omega arith)) hj low
                    (ground (arith, this)) in
                linked e.0 e.1
            | inr elsewhere ↦
                old (level_old t' before)
                  (down_old t' j before hj (λ q. ground (arith, q, elsewhere)))
          ]
    ]

    pub stack_after : (((descend hhdm t i v).1).pmm).stack_top ≡ (v.pmm).stack_top - 1
    unfolding descend new_table allocate_page
    stack_after =
        let some_page : ((v.pmm).stack_top == 0) ≡ false = ground arith in
        rw (absent, some_page) refl

    same_stack : (j : ℕ) → (((descend hhdm t i v).1).pmm).stack j ≡ (v.pmm).stack j
    unfolding descend new_table allocate_page
    same_stack j =
        let some_page : ((v.pmm).stack_top == 0) ≡ false = ground arith in
        rw (absent, some_page) refl

    linked_child :
        (t' j u : ℕ) → t' ≡ t → j ≡ i → step_down hhdm after.words t' j ≡ some u → u ≡ made
    linked_child t' j u et ei d = cc (et, ei, down_new, d)

    child_kept :
        (t' j m u : ℕ)
        → level_made t' ≡ suc (suc m)
        → j < 512
        → step_down hhdm after.words t' j ≡ some u
        → level_made u ≡ suc m
    child_kept t' j m u e hj d = elim (entry_of t' j (omega (arith, e)) hj) [
      | empty none_left ↦ cc (none_left, d)
      | linked et ei ↦
          let top : level_made t ≡ suc (suc l) = level_old t (omega (arith, here)) ∙ here in
          ap level_made (linked_child t' j u et ei d)
          ∙ level_new
          ∙ omega (arith, top, e, ap level_made et)
      | old le de ↦
          let lower : level u ≡ suc m = ok.child t' j m u (sym le ∙ e) hj (sym de ∙ d) in
          level_old u (omega (arith, lower)) ∙ lower
    ]

    -- no entry that was there before leads to the new table
    unlinked : (t' j : ℕ) → 1 < level t' → j < 512 → step_down hhdm v.words t' j ≡ some made → ⊥
    unlinked t' j h hj d =
        omega (arith, ok.child t' j (level t' - 2) made (omega arith) hj d, made_fresh)

    parent_kept :
        (t1 i1 t2 i2 u : ℕ)
        → 1 < level_made t1
        → 1 < level_made t2
        → i1 < 512
        → i2 < 512
        → step_down hhdm after.words t1 i1 ≡ some u
        → step_down hhdm after.words t2 i2 ≡ some u
        → (t1 ≡ t2) × (i1 ≡ i2)
    parent_kept t1 i1 t2 i2 u h1 h2 b1 b2 d1 d2 = elim (entry_of t1 i1 (omega arith) b1) [
      | empty none_left ↦ cc (none_left, d1)
      | linked e1 f1 ↦ elim (entry_of t2 i2 (omega arith) b2) [
        | empty none_left ↦ cc (none_left, d2)
        | linked e2 f2 ↦ (e1 ∙ sym e2, f1 ∙ sym f2)
        | old le de ↦ absurd (
            unlinked t2 i2 (omega (arith, le)) b2
              (sym de ∙ d2 ∙ ap some (linked_child t1 i1 u e1 f1 d1)))
      ]
      | old le de ↦ elim (entry_of t2 i2 (omega arith) b2) [
        | empty none_left ↦ cc (none_left, d2)
        | linked e2 f2 ↦ absurd (
            unlinked t1 i1 (omega (arith, le)) b1
              (sym de ∙ d1 ∙ ap some (linked_child t2 i2 u e2 f2 d2)))
        | old le' de' ↦
            ok.parent t1 i1 t2 i2 u (omega (arith, le)) (omega (arith, le')) b1 b2 (sym de ∙ d1)
              (sym de' ∙ d2)
      ]
    ]

    page-Apart : (j : ℕ) → j < (v.pmm).stack_top - 1 → Apart (table_of hhdm v.pmm j) made
    page-Apart j h =
        Apart-sym made (table_of hhdm v.pmm j)
          (ok.distinct ((v.pmm).stack_top - 1) j (omega arith) h)

    Apart-level :
        (b : ℕ)
        → ((a : ℕ) → 0 < level a → Apart b a)
        → Apart b made
        → (a : ℕ) → 0 < level_made a
        → Apart b a
    Apart-level b others this a h = elim (Bool-cases (a == made)) [
      | inl same ↦ let e : made ≡ a = ground (arith, same) in subst (λ c. Apart b c) e this
      | inr other ↦ others a (rw other at h)
    ]

    Apart-kept : (a b : ℕ) → 0 < level_made a → 0 < level_made b → a ≢ b → Apart a b
    Apart-kept a b ha hb ne = elim (Bool-cases (a == made)) [
      | inl same ↦
          let e : made ≡ a = ground (arith, same) in
          let other : (b == made) ≡ false = ground (arith, e, ne) in
          subst (λ c. Apart c b) e (made-Apart b (rw other at hb))
      | inr other ↦
          let before : 0 < level a = rw other at ha in
          elim (Bool-cases (b == made)) [
            | inl same ↦
                let e : made ≡ b = ground (arith, same) in
                subst (λ c. Apart a c) e (Apart-sym made a (made-Apart a before))
            | inr other' ↦ ok.apart a b before (rw other' at hb) ne
          ]
    ]

    not_page : (j : ℕ) → j < (v.pmm).stack_top - 1 → (table_of hhdm v.pmm j == made) ≡ false
    not_page j h = ground (arith, page-Apart j h)

    pub descend-made : IsPaging hhdm level_made after
    descend-made =
        let place : (j : ℕ) → table_of hhdm after.pmm j ≡ table_of hhdm v.pmm j =
          λ j. ap (virtual_to_physical hhdm) (same_stack j) in
        record {
          frames = descend-Frames hhdm wide t i v ok.frames;
          apart = Apart-kept;
          child = child_kept;
          parent = parent_kept;
          fresh = λ j h.
              let less : j < (v.pmm).stack_top - 1 = omega (arith, h, stack_after) in
              subst (λ b. level_made b ≡ 0) (sym (place j))
                (rw (not_page j less) (ok.fresh j (omega arith)));
          fresh_apart = λ j a h la.
              let less : j < (v.pmm).stack_top - 1 = omega (arith, h, stack_after) in
              subst (λ b. Apart b a) (sym (place j))
                (Apart-level (table_of hhdm v.pmm j) (λ c lc. ok.fresh_apart j c (omega arith) lc)
                  (page-Apart j less) a la);
          distinct = λ p q h hq.
              let less : p < (v.pmm).stack_top - 1 = omega (arith, h, stack_after) in
              rw (place p, place q) (ok.distinct p q (omega arith) hq);
        }
