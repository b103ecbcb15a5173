-- ===== src/KernelHeap/Allocate.antt =====
-- `KHeap_Allocate`, on both of its branches.
use sipaa_kernel.Prelude.{
  ℕ, zero, suc, ◌+◌, ◌%◌, ◌^◌, ◌≤◌, ◌<◌, ◌≡◌, ◌≢◌, refl, Option, none, some, List, [], ◌∷◌, ◌++◌,
  arith, ◌==◌, Bool, true, false, ◌&&◌, leb, if◌then◌else◌, has, length, Bool-cases, inl, inr,
}
use sipaa_kernel.Prelude.Run.{done}
use sipaa_kernel.Pmm.{Pmm}
use sipaa_kernel.KernelHeap.{
  HeapBlock, KernelHeap, set_block, block_header, heap_magic, find_free, link_block, settle,
  heap_allocate, get_page,
}
use sipaa_kernel.KernelHeap.Circle.{Chained, IsCircle, Chained-frame, link_block-IsCircle}

-- The block is free and holds `size` bytes.
abbrev pub is_open : (ℕ → HeapBlock) → ℕ → ℕ → Bool
is_open b size p = ((b p).state == 0) && leb size (b p).size

unfoldable pub first_open : (ℕ → HeapBlock) → ℕ → List ℕ → Option ℕ
first_open b size [] = none
first_open b size (x ∷ xs) = if is_open b size x then some x else first_open b size xs

find_free-first_open :
    (f size q head : ℕ) (b : ℕ → HeapBlock) (xs : List ℕ)
    → Chained b head q (b q).next xs
    → length xs < f
    → find_free f size q head b ≡ done (first_open b size (q ∷ xs))
unfolding find_free first_open
find_free-first_open zero size q head b xs h fuel = elim fuel [ ]
find_free-first_open (suc f) size q head b [] h fuel = ground arith
find_free-first_open (suc f) size q head b (x ∷ xs) h fuel =
    ground (arith, find_free-first_open f size x head b xs h.4)

first_open-has :
    (b : ℕ → HeapBlock) (size p : ℕ) (xs : List ℕ)
    → first_open b size xs ≡ some p
    → (has p xs ≡ true) × (size ≤ (b p).size)
unfolding first_open
first_open-has b size p [] e = ground arith
first_open-has b size p (x ∷ xs) e = elim (Bool-cases (is_open b size x)) [
  | inl here ↦ ground arith
  | inr later ↦
      let e' : first_open b size xs ≡ some p = rw later at e in
      ground (arith, first_open-has b size p xs e')
]

module _ (f hhdm size : ℕ) (s : KernelHeap) (xs : List ℕ) where
  pub record Reused (p : ℕ) (t : KernelHeap) : Type 0 where
    circle : IsCircle t.blocks t.block_head xs
    same_head : t.block_head ≡ s.block_head
    in_use : (t.blocks p).state ≡ 1
    large : size ≤ (t.blocks p).size
    others : (a : ℕ) → a ≢ p → t.blocks a ≡ s.blocks a
    pages : t.pmm ≡ s.pmm

  -- If the blocks are the circle of the head and `xs`, with fuel for all of them, and some block is
  -- free and large enough, then `KHeap_Allocate` ends with the first such block, counted from the
  -- head: it is in use and large enough, the circle and every other block are as they were, and
  -- no page has been asked for.
  pub heap_allocate_reuse :
      (p : ℕ)
      → IsCircle s.blocks s.block_head xs
      → length xs < f
      → first_open s.blocks size (s.block_head ∷ xs) ≡ some p
      → (t : KernelHeap) × (heap_allocate f hhdm size s ≡ done ((p + block_header) % 2 ^ 64, t))
        × Reused p t
  unfolding heap_allocate settle
  heap_allocate_reuse p circle fuel e =
      let b : ℕ → HeapBlock = set_block p (record (s.blocks p) { state = 1 }) s.blocks in
      let run = find_free-first_open f size s.block_head s.block_head s.blocks xs circle fuel in
      let same : (a : ℕ) → ((b a).next ≡ (s.blocks a).next) × ((b a).prev ≡ (s.blocks a).prev) =
        λ a. ground arith in
      (
        record s { blocks = b },
        rw (run, e) refl,
        record {
          circle = rw (same s.block_head).0 (
              Chained-frame s.blocks b s.block_head s.block_head (s.blocks s.block_head).next xs
                same circle);
          same_head = refl;
          in_use = ground arith;
          large = ground (arith, first_open-has s.blocks size p (s.block_head ∷ xs) e);
          others = λ a ne. ground arith;
          pages = refl;
        },
      )

  pub record Linked (p : ℕ) (pmm : Pmm) (t : KernelHeap) : Type 0 where
    circle : IsCircle t.blocks t.block_head (xs ++ p ∷ [])
    same_head : t.block_head ≡ s.block_head
    made : ((t.blocks p).state ≡ 1) × ((t.blocks p).magic ≡ heap_magic) × ((t.blocks p).size ≡ size)
    others :
        (a : ℕ)
        → a ≢ p
        → ((t.blocks a).size ≡ (s.blocks a).size) × ((t.blocks a).state ≡ (s.blocks a).state)
    pages : t.pmm ≡ pmm

  -- If the blocks are the circle of the head and `xs`, with fuel for all of them, no block is free
  -- and large enough, and the physical memory manager hands out an address that, once mapped, is
  -- none of theirs, then `KHeap_Allocate` ends with a new block there, which is the last of the
  -- circle, in use, and recorded with the size that was asked for, although one byte was asked of
  -- the physical memory manager; no other block's size or state changes.
  pub heap_allocate_fresh :
      (p : ℕ) (pmm : Pmm)
      → IsCircle s.blocks s.block_head xs
      → length xs < f
      → first_open s.blocks size (s.block_head ∷ xs) ≡ none
      → get_page f hhdm s.pmm ≡ done (p, pmm)
      → p ≢ s.block_head
      → has p xs ≡ false
      → (t : KernelHeap) × (heap_allocate f hhdm size s ≡ done ((p + block_header) % 2 ^ 64, t))
        × Linked p pmm t
  unfolding heap_allocate settle link_block
  heap_allocate_fresh p pmm circle fuel e got new out =
      let head : ℕ = s.block_head in
      let run = find_free-first_open f size head head s.blocks xs circle fuel in
      (
        record s { blocks = link_block p size head s.blocks; pmm = pmm },
        rw (run, e, got) refl,
        record {
          circle = link_block-IsCircle p size head s.blocks xs circle new out;
          same_head = refl;
          made = ground arith;
          others = λ a ne. ground arith;
          pages = refl;
        },
      )
