-- ===== src/Pmm/Allocate.antt =====
-- `Pmm_Allocate`, on each of its branches.
use sipaa_kernel.Prelude.{
  has, ℕ, ◌+◌, ◌-◌, ◌≤◌, ◌<◌, ◌≡◌, ◌≢◌, ◌∙◌, true, false, List, arith, length, ltb, if◌then◌else◌,
}
use sipaa_kernel.Prelude.Run.{done}
use sipaa_kernel.Pmm.{MemoryBlock, Pmm, missed, header, add64, take_block, grow, allocate, place}
use sipaa_kernel.Pmm.Chain.{Segment, first_fit, scan-first_fit}
use sipaa_kernel.Pmm.Laid.{Laid}
use sipaa_kernel.Pmm.Split.{insert_after, Split}

-- The list holds the blocks that are in use or free, and their extents do not meet.
pub record IsHeap (s : Pmm) (xs : List ℕ) : Type 0 where
  pub chain : Segment s.block 0 s.free_blocks xs
  pub laid : Laid s.block xs

-- the list after a block of `size` bytes is taken at `q`
unfoldable pub taken : (ℕ → MemoryBlock) → ℕ → ℕ → List ℕ → List ℕ
taken b size q xs = if ltb (add64 size header) (b q).size then insert_after q (q + size) xs else xs

-- `t` is `s` with the free block at `q` taken for `n` bytes, its rest free where it is split off
pub record Reused (s t : Pmm) (q n : ℕ) : Type 0 where
  pub in_use : (t.block q).is_free ≡ false
  pub split :
      n + header < (s.block q).size
      → ((t.block q).size ≡ n)
        × ((t.block (q + n)).size ≡ (s.block q).size - n)
        × ((t.block (q + n)).is_free ≡ true)
  pub whole : (s.block q).size ≤ n + header → (t.block q).size ≡ (s.block q).size
  pub others : (a : ℕ) → a ≢ q → a ≢ q + n → t.block a ≡ s.block a
  pub large : n ≤ (t.block q).size
  pub stack_top : t.stack_top ≡ s.stack_top
  pub bytes : t.bytes ≡ s.bytes

module _ (s : Pmm) (size q : ℕ) (xs : List ℕ) (heap : IsHeap s xs) (mem : has q xs ≡ true) where
  abbrev after : ℕ → MemoryBlock
  after = (take_block size q s).block

module _ (f size : ℕ) (s : Pmm) (xs : List ℕ) (heap : IsHeap s xs) (fuel : length xs < f) where
  pub allocate-place :
      size ≢ 0
      → allocate f size s
        ≡ done (place (add64 size header) (first_fit s.block (add64 size header) 0 xs) s)
  unfolding allocate
  allocate-place pos =
      ground
        (arith, scan-first_fit f (add64 size header) s.free_blocks 0 s.block xs heap.chain fuel)

  -- When no block is large enough and no page is left, `Pmm_Allocate` returns `NULL` and leaves
  -- the state as it was.
  pub allocate_out_of_pages :
      (prev : ℕ)
      → size ≢ 0
      → first_fit s.block (add64 size header) 0 xs ≡ missed prev
      → s.stack_top ≡ 0
      → allocate f size s ≡ done (0, s)
  unfolding grow
  allocate_out_of_pages prev pos e empty = allocate-place pos ∙ rw e (ground arith)
