-- ===== src/Pmm/Laid.antt =====
-- Extents of blocks that do not meet.
use sipaa_kernel.Prelude.{
  has, ℕ, ◌+◌, ◌≤◌, ◌<◌, ◌≡◌, ◌⊎◌, refl, true, false, List, [], ◌∷◌, arith, ◌==◌, Bool-cases, inl,
  inr, All,
}
use sipaa_kernel.Pmm.{MemoryBlock, header}

-- the extents of the blocks at `x` and `y` do not meet
abbrev pub Apart : (ℕ → MemoryBlock) → ℕ → ℕ → Type 0
Apart b x y = (x + (b x).size ≤ y) ⊎ (y + (b y).size ≤ x)

-- Every block has room for its header, and no two extents meet.
abbrev pub Laid : (ℕ → MemoryBlock) → List ℕ → Type 0
Laid b [] = Unit
Laid b (x ∷ xs) = (header ≤ (b x).size) × All (Apart b x) xs × Laid b xs

module _ (b : ℕ → MemoryBlock) where
  not_has_inside :
      (x n : ℕ) (ys : List ℕ)
      → n < (b x).size
      → All (Apart b x) ys
      → Laid b ys
      → has (x + n) ys ≡ false
  not_has_inside x n [] lt apart laid = refl
  not_has_inside x n (y ∷ ys) lt apart laid =
      ground (arith, not_has_inside x n ys lt apart.1 laid.2)

  Apart-of_has : (x q : ℕ) (ys : List ℕ) → All (Apart b x) ys → has q ys ≡ true → Apart b x q
  Apart-of_has x q [] apart i = cc
  Apart-of_has x q (y ∷ ys) apart i = elim (Bool-cases (q == y)) [
    | inl e ↦ ground arith
    | inr ne ↦ Apart-of_has x q ys apart.1 (ground arith)
  ]

  -- No block of the list starts inside another one.
  pub inside_unused :
      (q n : ℕ) (xs : List ℕ)
      → Laid b xs
      → has q xs ≡ true
      → 0 < n
      → n < (b q).size
      → has (q + n) xs ≡ false
  inside_unused q n [] laid i pos lt = refl
  inside_unused q n (x ∷ xs) laid i pos lt = elim (Bool-cases (q == x)) [
    | inl e ↦
        let eq : q ≡ x = ground arith in
        ground (arith, not_has_inside x n xs (ground arith) laid.1 laid.2)
    | inr ne ↦
        let i' : has q xs ≡ true = ground arith in
        ground (arith, inside_unused q n xs laid.2 i' pos lt, Apart-of_has x q xs laid.1 i')
  ]

-- Extents depend on the sizes only.
pub Laid-same_size :
    (b b' : ℕ → MemoryBlock) (xs : List ℕ)
    → ((a : ℕ) → (b' a).size ≡ (b a).size)
    → Laid b xs
    → Laid b' xs
Laid-same_size b b' [] same h = tt
Laid-same_size b b' (x ∷ xs) same h =
    (rw (same x) h.0, apart xs h.1, Laid-same_size b b' xs same h.2)
  where
    apart : (ys : List ℕ) → All (Apart b x) ys → All (Apart b' x) ys
    apart [] k = tt
    apart (y ∷ ys) k = (rw (same x, same y) k.0, apart ys k.1)
