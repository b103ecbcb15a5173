-- ===== src/Pmm/Split.antt =====
-- The block that `Pmm_Allocate` splits: the list and the extents afterwards.
use sipaa_kernel.Prelude.{
  has, ℕ, ◌+◌, ◌-◌, ◌≤◌, ◌<◌, ◌≡◌, ◌≢◌, ap, sym, subst, true, false, List, [], ◌∷◌, ◌&&◌, ◌||◌,
  arith, ◌==◌, if◌then◌else◌, Bool-cases, inl, inr, All,
}
use sipaa_kernel.Pmm.{MemoryBlock, header}
use sipaa_kernel.Pmm.Chain.{Segment, Segment-frame}
use sipaa_kernel.Pmm.Laid.{Apart, Laid}

-- `v` put behind `q` in the list
abbrev pub insert_after : ℕ → ℕ → List ℕ → List ℕ
insert_after q v [] = []
insert_after q v (x ∷ xs) = if x == q then x ∷ v ∷ xs else x ∷ insert_after q v xs

has-insert_after :
    (a q v : ℕ) (xs : List ℕ) → has a (insert_after q v xs) ≡ (has a xs || ((a == v) && has q xs))
has-insert_after a q v [] = ground arith
has-insert_after a q v (x ∷ xs) = ground (arith, has-insert_after a q v xs)

-- `b'` is `b` with the block at `q` cut to `n` bytes, and a free block made of the rest
pub record Split (b b' : ℕ → MemoryBlock) (q n : ℕ) : Type 0 where
  pub front_size : (b' q).size ≡ n
  pub front_next : (b' q).next ≡ q + n
  pub front_taken : (b' q).is_free ≡ false
  pub back_size : (b' (q + n)).size ≡ (b q).size - n
  pub back_next : (b' (q + n)).next ≡ (b q).next
  pub back_free : (b' (q + n)).is_free ≡ true
  pub others : (a : ℕ) → a ≢ q → a ≢ q + n → b' a ≡ b a

module _ (b b' : ℕ → MemoryBlock) (q n : ℕ) (split : Split b b' q n) (pos : 0 < n) where
  next_elsewhere :
      (a : ℕ) (xs : List ℕ)
      → has (q + n) xs ≡ false
      → has a xs ≡ true
      → (a == q) ≡ false
      → b' a ≡ b a
  next_elsewhere a xs out i ne = split.others a (ground arith) (λ e. cc (ap (λ t. has t xs) e))

  -- The list goes on through the two pieces.
  pub split-Segment :
      (p : ℕ) (xs : List ℕ)
      → has (q + n) xs ≡ false
      → has q xs ≡ true
      → Segment b 0 p xs
      → Segment b' 0 p (insert_after q (q + n) xs)
  split-Segment p [] out i h = cc
  split-Segment p (x ∷ xs) out i h = elim (Bool-cases (x == q)) [
    | inl e ↦
        let eq : x ≡ q = ground arith in
        let kept : Segment b' 0 (b x).next xs =
          Segment-frame b b' 0 (b x).next xs
            (λ a ia.
              ap (λ (r : MemoryBlock). r.next)
                (next_elsewhere a xs (ground arith) ia (ground arith)))
            h.3 in
        rw e (
          h.0,
          h.1,
          ground arith,
          (rw eq split.front_next, ground arith, ground arith, rw (split.back_next, ← eq) kept),
        )
    | inr ne ↦
        let same : b' x ≡ b x = next_elsewhere x (x ∷ xs) out (ground arith) ne in
        rw ne (
          h.0,
          h.1,
          ground (arith, has-insert_after x q (q + n) xs),
          rw same (split-Segment (b x).next xs (ground arith) (ground arith) h.3),
        )
  ]

  module _ (small : n < (b q).size) (room : header ≤ n) (rest : header ≤ (b q).size - n) where
    Apart-keep : (x y : ℕ) → x ≢ q → x ≢ q + n → y ≢ q + n → Apart b x y → Apart b' x y
    Apart-keep x y xq xn yn h = elim (Bool-cases (y == q)) [
      | inl e ↦ ground (arith, split.others x, split.front_size)
      | inr ne ↦ ground (arith, split.others x, split.others y)
    ]

    Apart-pieces :
        (x : ℕ)
        → x ≢ q
        → x ≢ q + n
        → Apart b x q
        → Apart b' x q × Apart b' x (q + n) × Apart b' q x × Apart b' (q + n) x
    Apart-pieces x xq xn h = ground (arith, split.others x, split.front_size, split.back_size)

    All-same :
        (x : ℕ) (ys : List ℕ)
        → x ≢ q
        → x ≢ q + n
        → has (q + n) ys ≡ false
        → All (Apart b x) ys
        → All (Apart b' x) ys
    All-same x [] xq xn out h = tt
    All-same x (y ∷ ys) xq xn out h =
        (Apart-keep x y xq xn (ground arith) h.0, All-same x ys xq xn (ground arith) h.1)

    All-keep :
        (x : ℕ) (ys : List ℕ)
        → x ≢ q
        → x ≢ q + n
        → has (q + n) ys ≡ false
        → All (Apart b x) ys
        → All (Apart b' x) (insert_after q (q + n) ys)
    All-keep x [] xq xn out h = tt
    All-keep x (y ∷ ys) xq xn out h = elim (Bool-cases (y == q)) [
      | inl e ↦
          let eq : y ≡ q = ground arith in
          rw e (
            Apart-keep x y xq xn (ground arith) h.0,
            ((Apart-pieces x xq xn (rw eq at h.0)).1, All-same x ys xq xn (ground arith) h.1),
          )
      | inr ne ↦
          rw ne (Apart-keep x y xq xn (ground arith) h.0, All-keep x ys xq xn (ground arith) h.1)
    ]

    Apart-sym : (y : ℕ) → Apart b q y → Apart b y q
    Apart-sym y h = ground arith

    All-pieces :
        (ys : List ℕ)
        → has (q + n) ys ≡ false
        → All (Apart b q) ys
        → Laid b ys
        → All (Apart b' q) ys × All (Apart b' (q + n)) ys × Laid b' ys
    All-pieces [] out h laid = (tt, tt, tt)
    All-pieces (y ∷ ys) out h laid =
        let (front, back, kept) = All-pieces ys (ground arith) h.1 laid.2 in
        let yq : y ≢ q = ground (arith, h.0) in
        let yn : y ≢ q + n = ground arith in
        let (a, c, d, e) = Apart-pieces y yq yn (Apart-sym y h.0) in
        (
          (d, front),
          (e, back),
          (ground (arith, split.others y), All-same y ys yq yn (ground arith) laid.1, kept),
        )

    -- The two pieces and the other blocks are laid out as before.
    pub split-Laid :
        (xs : List ℕ) → has (q + n) xs ≡ false → Laid b xs → Laid b' (insert_after q (q + n) xs)
    split-Laid [] out h = tt
    split-Laid (x ∷ xs) out h = elim (Bool-cases (x == q)) [
      | inl e ↦
          let eq : x ≡ q = ground arith in
          let (front, back, kept) = All-pieces xs (ground arith) (rw eq at h.1) h.2 in
          rw e (
            ground (arith, split.front_size),
            (ground (arith, split.front_size), subst (λ t. All (Apart b' t) xs) (sym eq) front),
            (ground (arith, split.back_size), back, kept),
          )
      | inr ne ↦
          let xq : x ≢ q = ground arith in
          let xn : x ≢ q + n = ground arith in
          rw ne (
            ground (arith, split.others x),
            All-keep x xs xq xn (ground arith) h.1,
            split-Laid xs (ground arith) h.2,
          )
    ]
