-- ===== src/Pmm/Chain.antt =====
-- The list of blocks that the `next` pointers form, and the walk over it.
use sipaa_kernel.Prelude.{
  ℕ, zero, suc, ◌<◌, ◌≡◌, ◌≢◌, Bool, true, false, List, [], ◌∷◌, ◌&&◌, arith, length, leb, ◌==◌,
  if◌then◌else◌, Bool-cases, inl, inr, has,
}
use sipaa_kernel.Prelude.Run.{done}
use sipaa_kernel.Pmm.{MemoryBlock, Scan, fit, missed, scan, update}

-- from `p` the `next` pointers lead through the distinct blocks `xs` to `stop`
abbrev pub Segment : (ℕ → MemoryBlock) → ℕ → ℕ → List ℕ → Type 0
Segment b stop p [] = p ≡ stop
Segment b stop p (x ∷ xs) = (p ≡ x) × (x ≢ 0) × (has x xs ≡ false) × Segment b stop (b x).next xs

-- A segment survives a change of the blocks that keeps the `next` pointers of its own.
pub Segment-frame :
    (b b' : ℕ → MemoryBlock) (stop p : ℕ) (xs : List ℕ)
    → ((a : ℕ) → has a xs ≡ true → (b' a).next ≡ (b a).next)
    → Segment b stop p xs
    → Segment b' stop p xs
Segment-frame b b' stop p [] same h = h
Segment-frame b b' stop p (x ∷ xs) same h =
    let e : (b' x).next ≡ (b x).next = same x (ground arith) in
    (h.0, h.1, h.2, rw e (Segment-frame b b' stop (b x).next xs (λ a i. same a (ground arith)) h.3))

pub Segment-update :
    (b : ℕ → MemoryBlock) (stop p q : ℕ) (v : MemoryBlock) (xs : List ℕ)
    → has q xs ≡ false
    → Segment b stop p xs
    → Segment (update b q v) stop p xs
Segment-update b stop p q v xs out h =
    Segment-frame b (update b q v) stop p xs
      (λ a i. elim (Bool-cases (a == q)) [ inl e ↦ ground arith | inr ne ↦ rw ne ]) h

-- The block is free and holds `size` bytes.
abbrev pub fits : (ℕ → MemoryBlock) → ℕ → ℕ → Bool
fits b size x = (b x).is_free && leb size (b x).size

-- the first block of the list that fits, or the last block of the list if none does
unfoldable pub first_fit : (ℕ → MemoryBlock) → ℕ → ℕ → List ℕ → Scan
first_fit b size prev [] = missed prev
first_fit b size prev (x ∷ xs) = if fits b size x then fit x else first_fit b size x xs

-- With fuel for every block the walk ends, at the first block of the list that fits.
pub scan-first_fit :
    (f size p prev : ℕ) (b : ℕ → MemoryBlock) (xs : List ℕ)
    → Segment b 0 p xs
    → length xs < f
    → scan f size p prev b ≡ done (first_fit b size prev xs)
unfolding scan first_fit
scan-first_fit zero size p prev b xs h fuel = absurd (omega arith)
scan-first_fit (suc f) size p prev b [] h fuel = ground arith
scan-first_fit (suc f) size p prev b (x ∷ xs) h fuel =
    ground (arith, scan-first_fit f size (b x).next x b xs h.3)
