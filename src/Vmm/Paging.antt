-- ===== src/Vmm/Paging.antt =====
-- The tables of an address space and the pages that new ones are made of.
use sipaa_kernel.Prelude.{ℕ, suc, ◌<◌, ◌≡◌, ◌≢◌, arith, some, ◌==◌, Bool-cases, inl, inr}
use sipaa_kernel.Pmm.{Pmm}
use sipaa_kernel.Vmm.{Vmm, virtual_to_physical, slot}
use sipaa_kernel.Vmm.Walk.{Apart, step_down, slot_disjoint}
use sipaa_kernel.Vmm.Map.{Frames}

-- the table that entry `j` of the page stack would become
abbrev pub table_of : (hhdm : ℕ) → Pmm → ℕ → ℕ
table_of hhdm s j = virtual_to_physical hhdm (s.stack j)

-- The tables, by their level: 4 for the top one, down to 1, and 0 for what is no table. Present
-- entries lead to tables of the next level, each table by one entry at most, and the tables and the
-- pages on the stack do not overlap.
pub record IsPaging (hhdm : ℕ) (level : ℕ → ℕ) (v : Vmm) : Type 0 where
  pub frames : Frames v.pmm
  pub apart : (a b : ℕ) → 0 < level a → 0 < level b → a ≢ b → Apart a b
  pub child :
      (t i l u : ℕ)
      → level t ≡ suc (suc l)
      → i < 512
      → step_down hhdm v.words t i ≡ some u
      → level u ≡ suc l
  pub parent :
      (t i t' i' u : ℕ)
      → 1 < level t
      → 1 < level t'
      → i < 512
      → i' < 512
      → step_down hhdm v.words t i ≡ some u
      → step_down hhdm v.words t' i' ≡ some u
      → (t ≡ t') × (i ≡ i')
  pub fresh : (j : ℕ) → j < (v.pmm).stack_top → level (table_of hhdm v.pmm j) ≡ 0
  pub fresh_apart :
      (j a : ℕ) → j < (v.pmm).stack_top → 0 < level a → Apart (table_of hhdm v.pmm j) a
  pub distinct :
      (i j : ℕ)
      → i < (v.pmm).stack_top
      → j < i
      → Apart (table_of hhdm v.pmm i) (table_of hhdm v.pmm j)

pub slot_eq :
    (t i t' i' : ℕ)
    → (t ≢ t' → Apart t t')
    → i < 512
    → i' < 512
    → slot t i ≡ slot t' i'
    → (t ≡ t') × (i ≡ i')
slot_eq t i t' i' apart h h' e = elim (Bool-cases (t == t')) [
  | inl same ↦ (ground (arith, same), ground (arith, same, e))
  | inr other ↦ absurd (slot_disjoint t t' i i' (apart (λ q. ground (arith, q, other))) h h' e)
]

pub Apart-sym : (a b : ℕ) → Apart a b → Apart b a
Apart-sym a b (inl h) = inr h
Apart-sym a b (inr h) = inl h
