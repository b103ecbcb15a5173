-- ===== src/Pmm/Free.antt =====
-- `Pmm_Free`: which blocks are merged, and what becomes of the list.
use sipaa_kernel.Prelude.{
  has, ℕ, zero, suc, ◌+◌, ◌-◌, ◌^◌, ◌<◌, ◌≡◌, ◌≢◌, refl, ap, ◌∙◌, true, false, List, [], ◌∷◌, arith,
  length, ◌==◌, if◌then◌else◌, Bool-cases, inl, inr, fun_ext,
}
use sipaa_kernel.Prelude.Run.{done}
use sipaa_kernel.Pmm.{MemoryBlock, Pmm, header, add64, update, merge, free}
use sipaa_kernel.Pmm.Chain.{Segment, Segment-update}

-- the blocks behind the free ones at the front of the list
unfoldable pub behind : (ℕ → MemoryBlock) → List ℕ → List ℕ
behind b [] = []
behind b (x ∷ xs) = if (b x).is_free then behind b xs else x ∷ xs

-- `size` with the sizes of the free blocks at the front of the list added
unfoldable pub absorbed : (ℕ → MemoryBlock) → ℕ → List ℕ → ℕ
absorbed b size [] = size
absorbed b size (x ∷ xs) = if (b x).is_free then absorbed b (add64 size (b x).size) xs else size

abbrev pub first : List ℕ → ℕ
first [] = 0
first (x ∷ xs) = x

-- the block at `p` once the free blocks at the front of the list behind it are merged into it
abbrev pub merged : (ℕ → MemoryBlock) → ℕ → List ℕ → MemoryBlock
merged b p xs = record (b p) { size = absorbed b (b p).size xs; next = first (behind b xs) }

absorbed-update :
    (b : ℕ → MemoryBlock) (p size : ℕ) (v : MemoryBlock) (xs : List ℕ)
    → has p xs ≡ false
    → (absorbed (update b p v) size xs ≡ absorbed b size xs)
      × (behind (update b p v) xs ≡ behind b xs)
unfolding absorbed behind
absorbed-update b p size v [] out = (refl, refl)
absorbed-update b p size v (x ∷ xs) out =
    ground (arith, absorbed-update b p (add64 size (b x).size) v xs)

merged_end :
    (b : ℕ → MemoryBlock) (p : ℕ) → (b p).next ≡ 0 → (a : ℕ) → b a ≡ update b p (merged b p []) a
unfolding absorbed behind
merged_end b p h a = ground arith

merged_stop :
    (b : ℕ → MemoryBlock) (p x : ℕ) (xs : List ℕ)
    → (b p).next ≡ x
    → (b x).is_free ≡ false
    → (a : ℕ) → b a ≡ update b p (merged b p (x ∷ xs)) a
unfolding absorbed behind
merged_stop b p x xs h busy a = ground arith

-- one round of the loop: the block behind is merged into this one
abbrev joined : (ℕ → MemoryBlock) → ℕ → MemoryBlock
joined b p = record (b p) {
  size = add64 (b p).size (b (b p).next).size;
  next = (b (b p).next).next;
}

merged_more :
    (b : ℕ → MemoryBlock) (p x : ℕ) (xs : List ℕ)
    → (b p).next ≡ x
    → (b x).is_free ≡ true
    → has p xs ≡ false
    → (a : ℕ)
    → update (update b p (joined b p)) p (merged (update b p (joined b p)) p xs) a
      ≡ update b p (merged b p (x ∷ xs)) a
unfolding absorbed behind
merged_more b p x xs h free_now out a =
    ground (arith, absorbed-update b p (add64 (b p).size (b (b p).next).size) (joined b p) xs)

-- Merging walks over the free blocks that follow, and touches no other block.
pub merge-merged :
    (f p : ℕ) (b : ℕ → MemoryBlock) (xs : List ℕ)
    → Segment b 0 (b p).next xs
    → has p xs ≡ false
    → length xs < f
    → merge f p b ≡ done (update b p (merged b p xs))
unfolding merge
merge-merged zero p b xs h out fuel = absurd (omega arith)
merge-merged (suc f) p b [] h out fuel =
    let same : b ≡ update b p (merged b p []) = fun_ext (merged_end b p h) in ground (arith, same)
merge-merged (suc f) p b (x ∷ xs) h out fuel = elim (Bool-cases (b x).is_free) [
  | inl free_now ↦
      let at : (update b p (joined b p) p).next ≡ (b x).next = ground arith in
      let kept : Segment (update b p (joined b p)) 0 (update b p (joined b p) p).next xs =
        rw at (Segment-update b 0 (b x).next p (joined b p) xs (ground arith) h.3) in
      let same = fun_ext (merged_more b p x xs h.0 free_now (ground arith)) in
      let round : merge (suc f) p b ≡ merge f p (update b p (joined b p)) = ground arith in
      round
      ∙ merge-merged f p (update b p (joined b p)) xs kept (ground arith) (omega arith)
      ∙ ap done same
  | inr busy ↦
      let same : b ≡ update b p (merged b p (x ∷ xs)) = fun_ext (merged_stop b p x xs h.0 busy) in
      ground (arith, same)
]

-- the sizes of the blocks added up
unfoldable pub total : (ℕ → MemoryBlock) → List ℕ → ℕ
total b [] = 0
total b (x ∷ xs) = (b x).size + total b xs

absorbed-total :
    (b : ℕ → MemoryBlock) (size : ℕ) (xs : List ℕ)
    → size + total b xs < 2 ^ 64
    → absorbed b size xs + total b (behind b xs) ≡ size + total b xs
unfolding absorbed behind total
absorbed-total b size [] small = refl
absorbed-total b size (x ∷ xs) small = elim (Bool-cases (b x).is_free) [
  | inl free_now ↦
      let exact : add64 size (b x).size ≡ size + (b x).size = omega arith in
      ground (arith, absorbed-total b (size + (b x).size) xs)
  | inr busy ↦ ground arith
]

has-behind :
    (b : ℕ → MemoryBlock) (p : ℕ) (xs : List ℕ) → has p xs ≡ false → has p (behind b xs) ≡ false
unfolding behind
has-behind b p [] out = refl
has-behind b p (x ∷ xs) out = elim (Bool-cases (b x).is_free) [
  | inl free_now ↦ rw free_now (has-behind b p xs (ground arith))
  | inr busy ↦ rw busy out
]

behind-Segment :
    (b : ℕ → MemoryBlock) (p : ℕ) (xs : List ℕ)
    → Segment b 0 p xs
    → Segment b 0 (first (behind b xs)) (behind b xs)
unfolding behind
behind-Segment b p [] h = refl
behind-Segment b p (x ∷ xs) h = elim (Bool-cases (b x).is_free) [
  | inl free_now ↦ rw free_now (behind-Segment b (b x).next xs h.3)
  | inr busy ↦ rw busy (refl, h.1, h.2, h.3)
]

-- the first block of the list, if there is one, is in use
abbrev pub StartsBusy : (ℕ → MemoryBlock) → List ℕ → Type 0
StartsBusy b [] = Unit
StartsBusy b (x ∷ xs) = (b x).is_free ≡ false

behind-StartsBusy : (b : ℕ → MemoryBlock) (xs : List ℕ) → StartsBusy b (behind b xs)
unfolding behind
behind-StartsBusy b [] = tt
behind-StartsBusy b (x ∷ xs) = elim (Bool-cases (b x).is_free) [
  | inl free_now ↦ rw free_now (behind-StartsBusy b xs)
  | inr busy ↦ rw busy busy
]

abbrev freed : (ℕ → MemoryBlock) → ℕ → ℕ → MemoryBlock
freed b p = update b p (record (b p) { is_free = true })

-- what `Pmm_Free` of the block at `p` leaves, with the blocks `xs` behind it in the list
pub record Freed (s t : Pmm) (p : ℕ) (xs : List ℕ) : Type 0 where
  pub chain : Segment t.block 0 p (p ∷ behind s.block xs)
  pub is_free : (t.block p).is_free ≡ true
  pub maximal : StartsBusy s.block (behind s.block xs)
  pub sizes : (t.block p).size + total s.block (behind s.block xs) ≡ total s.block (p ∷ xs)
  pub others : (a : ℕ) → a ≢ p → t.block a ≡ s.block a
  pub stack : t.stack ≡ s.stack
  pub stack_top : t.stack_top ≡ s.stack_top
  pub bytes : t.bytes ≡ s.bytes

-- `Pmm_Free` of the block at `p`, with the blocks `xs` behind it in the list and fuel for them: it
-- ends; the block is free and has taken in exactly the free blocks that came directly behind it,
-- so that the list goes on with the next block in use; the sizes add up to what they did, if their
-- sum fits `size_t`; no other block, page or byte changes.
pub free-Freed :
    (f p : ℕ) (s : Pmm) (xs : List ℕ)
    → Segment s.block 0 p (p ∷ xs)
    → length xs < f
    → total s.block (p ∷ xs) < 2 ^ 64
    → (t : Pmm) × (free f (p + header) s ≡ done t) × Freed s t p xs
unfolding free total
free-Freed f p s xs h fuel small =
    let b = freed s.block p in
    let next : (freed s.block p p).next ≡ (s.block p).next = ground arith in
    let kept =
      Segment-update s.block 0 (s.block p).next p (record (s.block p) { is_free = true }) xs h.2
        h.3 in
    let run = merge-merged f p (freed s.block p) xs (rw next kept) h.2 fuel in
    let at : p + header - header ≡ p = omega arith in
    let (same_size, same_behind) =
      absorbed-update s.block p (s.block p).size (record (s.block p) { is_free = true }) xs h.2 in
    let real : (p + header == 0) ≡ false = ground arith in
    let out = has-behind s.block p xs h.2 in
    let v = merged (freed s.block p) p xs in
    let ends : (update (freed s.block p) p v p).next ≡ first (behind s.block xs) =
      ground (arith, ap first same_behind) in
    let tail =
      Segment-update (freed s.block p) 0 (first (behind s.block xs)) p v (behind s.block xs) out (
        Segment-update s.block 0 (first (behind s.block xs)) p
          (record (s.block p) { is_free = true }) (behind s.block xs) out
          (behind-Segment s.block (s.block p).next xs h.3)) in
    (
      record s { block = update (freed s.block p) p (merged (freed s.block p) p xs) },
      rw (real, at, run),
      record {
        chain = (refl, h.1, out, rw ends tail);
        is_free = ground arith;
        maximal = behind-StartsBusy s.block xs;
        sizes = ground (arith, absorbed-total s.block (s.block p).size xs, same_size, same_behind);
        others = λ a ne. ground arith;
        stack = refl;
        stack_top = refl;
        bytes = refl;
      },
    )
