-- ===== src/Mem/Compare.antt =====
-- `memcmp` finds the first byte at which two blocks differ.
use sipaa_kernel.Prelude.{
  ℕ, zero, suc, ◌+◌, ◌≤◌, ◌<◌, ◌≡◌, inl, inr, arith, ltb, ◌==◌, Bool-cases, ℤ, pos, negsuc,
}
use sipaa_kernel.Mem.{Mem, compare_from, memcmp}

module _ (s1 s2 : ℕ) (m : Mem) where
  -- the bytes of the two blocks agree from index `i` up to `j`
  abbrev pub Agree : ℕ → ℕ → Type 0
  Agree i j = (t : ℕ) → i ≤ t → t < j → m (s1 + t) ≡ m (s2 + t)

  -- the verdict on the bytes from index `i` up to `stop`
  pub data Verdict (i stop : ℕ) : ℤ → Type 0 where
    same : Agree i stop → Verdict i stop (pos 0)
    below :
        (j : ℕ) → i ≤ j → j < stop → Agree i j → m (s1 + j) < m (s2 + j) → Verdict i stop (negsuc 0)
    above :
        (j : ℕ) → i ≤ j → j < stop → Agree i j → m (s2 + j) < m (s1 + j) → Verdict i stop (pos 1)

  Agree-extend : (i j : ℕ) → m (s1 + i) ≡ m (s2 + i) → Agree (i + 1) j → Agree i j
  Agree-extend i j e rest t lo hi = elim (Bool-cases (t == i)) [
    | inl here ↦ ground arith
    | inr later ↦ rest t (ground arith) hi
  ]

  Verdict-extend :
      (i stop : ℕ) {z : ℤ} → m (s1 + i) ≡ m (s2 + i) → Verdict (i + 1) stop z → Verdict i stop z
  Verdict-extend i stop e (same a) = same (Agree-extend i stop e a)
  Verdict-extend i stop e (below j lo hi a d) = below j (omega arith) hi (Agree-extend i j e a) d
  Verdict-extend i stop e (above j lo hi a d) = above j (omega arith) hi (Agree-extend i j e a) d

  compare_from-Verdict : (k i stop : ℕ) → i + k ≡ stop → Verdict i stop (compare_from k i s1 s2 m)
  unfolding compare_from
  compare_from-Verdict zero i stop e = same (λ t lo hi. absurd (omega arith))
  compare_from-Verdict (suc k) i stop e = elim (Bool-cases (m (s1 + i) == m (s2 + i))) [
    | inl eq ↦
        rw eq
          (Verdict-extend i stop (ground arith) (compare_from-Verdict k (i + 1) stop (omega arith)))
    | inr ne ↦ rw ne (elim (Bool-cases (ltb (m (s1 + i)) (m (s2 + i)))) [
      | inl lt ↦
          rw lt
            (below i (omega arith) (omega arith) (λ t lo hi. absurd (omega arith)) (ground arith))
      | inr ge ↦
          rw ge
            (above i (omega arith) (omega arith) (λ t lo hi. absurd (omega arith)) (ground arith))
    ])
  ]

  -- `memcmp` returns 0 when the two blocks agree in all `n` bytes, and otherwise -1 or 1 by the
  -- order of the first two bytes that differ.
  pub memcmp-Verdict : (n : ℕ) → Verdict 0 n (memcmp s1 s2 n m)
  unfolding memcmp
  memcmp-Verdict n = compare_from-Verdict n 0 n (omega arith)
