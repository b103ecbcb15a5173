-- ===== src/Vmm/KernelTable.antt =====
-- The table of the kernel, before anything is mapped in it.
use sipaa_kernel.Prelude.{
  ℕ, ◌+◌, ◌-◌, ◌^◌, ◌<◌, ◌≡◌, refl, sym, ◌∙◌, subst, arith, none, ◌==◌, Bool-cases, true, false,
  inl, inr, ltb, leb, ◌&&◌, if◌then◌else◌,
}
use sipaa_kernel.Pmm.{Pmm, allocate_page}
use sipaa_kernel.Vmm.{Vmm, new_table, slot}
use sipaa_kernel.Vmm.Walk.{Apart, step_down}
use sipaa_kernel.Vmm.Map.{Frames, allocate_page-Frames}
use sipaa_kernel.Vmm.Paging.{IsPaging, table_of}
use sipaa_kernel.Vmm.Start.{kernel_table}

-- the pages on the stack become tables that do not overlap
abbrev pub Distinct : (hhdm : ℕ) → Pmm → Type 0
Distinct hhdm s =
    (i j : ℕ) → i < s.stack_top → j < i → Apart (table_of hhdm s i) (table_of hhdm s j)

-- the level of the kernel's table, before there are others
abbrev pub only_root : ℕ → ℕ → ℕ
only_root root a = if a == root then 4 else 0

module _ (hhdm : ℕ) (wide : hhdm < 2 ^ 64) (v : Vmm) (frames : Frames v.pmm)
    (distinct : Distinct hhdm v.pmm) (room : 0 < (v.pmm).stack_top) where
  abbrev pub root : ℕ
  root = table_of hhdm v.pmm ((v.pmm).stack_top - 1)

  some_page : ((v.pmm).stack_top == 0) ≡ false
  some_page = ground arith

  pub kernel_root : (kernel_table hhdm v).kernel_address_space ≡ root
  unfolding kernel_table new_table allocate_page
  kernel_root = rw some_page refl

  pub stack_left : ((kernel_table hhdm v).pmm).stack_top ≡ (v.pmm).stack_top - 1
  unfolding kernel_table new_table allocate_page
  stack_left = rw some_page refl

  page_left : (j : ℕ) → table_of hhdm (kernel_table hhdm v).pmm j ≡ table_of hhdm v.pmm j
  unfolding kernel_table new_table allocate_page
  page_left j = rw some_page refl

  root_empty : (i : ℕ) → i < 512 → (kernel_table hhdm v).words (slot root i) ≡ 0
  unfolding kernel_table new_table allocate_page
  root_empty i low =
      let inside : (leb root (slot root i) && ltb (slot root i) (root + 4096)) ≡ true =
        ground arith in
      rw (some_page, inside) refl

  root_none : (i : ℕ) → i < 512 → step_down hhdm (kernel_table hhdm v).words root i ≡ none
  unfolding step_down
  root_none i low = rw (root_empty i low) refl

  is_root : (a : ℕ) → 0 < only_root root a → root ≡ a
  is_root a h = elim (Bool-cases (a == root)) [
    | inl same ↦ ground (arith, same)
    | inr other ↦ let none_left : 0 < 0 = rw other at h in absurd (omega (arith, none_left))
  ]

  kernel-Frames : Frames (kernel_table hhdm v).pmm
  unfolding kernel_table new_table
  kernel-Frames = allocate_page-Frames hhdm wide v.pmm frames

  page-Apart : (j : ℕ) → j < (v.pmm).stack_top - 1 → Apart (table_of hhdm v.pmm j) root
  page-Apart j h = ground (arith, distinct ((v.pmm).stack_top - 1) j)

  pub kernel_table-IsPaging : IsPaging hhdm (only_root root) (kernel_table hhdm v)
  kernel_table-IsPaging = record {
    frames = kernel-Frames;
    apart = λ a b ha hb ne. absurd (ne (sym (is_root a ha) ∙ is_root b hb));
    child = λ t i l u e low d.
        let at : root ≡ t = is_root t (omega (arith, e)) in
        let empty =
          subst (λ c. step_down hhdm (kernel_table hhdm v).words c i ≡ none) at (root_none i low) in
        cc (empty, d);
    parent = λ t i t' i' u h h' low low' d d'.
        let at : root ≡ t = is_root t (omega arith) in
        let empty =
          subst (λ c. step_down hhdm (kernel_table hhdm v).words c i ≡ none) at (root_none i low) in
        cc (empty, d);
    fresh = λ j h.
        let apart = page-Apart j (omega (arith, h, stack_left)) in
        let other : (table_of hhdm v.pmm j == root) ≡ false = ground (arith, apart) in
        rw (page_left j, other) refl;
    fresh_apart = λ j a h la. rw (page_left j) (
        subst (λ c. Apart (table_of hhdm v.pmm j) c) (is_root a la)
          (page-Apart j (omega (arith, h, stack_left))));
    distinct =
        λ i j h hj. rw (page_left i, page_left j) (distinct i j (omega (arith, h, stack_left)) hj);
  }
