-- ===== src/KernelHeap.antt =====
-- src/memory/heap.c and src/include/sipaa/heap.h: the kernel heap, a circular list of blocks that
-- is linked both ways. Each new block is asked of the physical memory manager, with one byte.
-- Blocks live in a store by address; `hhdm` is the offset at which physical memory is mapped.
pub mod Circle
pub mod Unlink
pub mod Free
pub mod Allocate
use sipaa_kernel.Prelude.{
  ℕ, zero, suc, ◌+◌, ◌-◌, ◌%◌, ◌^◌, Bool, true, false, Option, none, some, ◌&&◌, not, leb, ◌==◌,
  if◌then◌else◌,
}
use sipaa_kernel.Prelude.Run.{Run, done, out_of_fuel, ◌>>=◌}
use sipaa_kernel.Pmm.{Pmm}

-- `Heap_BlockT`; the block is free where `state` is 0
pub record HeapBlock : Type 0 where
  pub next : ℕ
  pub prev : ℕ
  pub state : ℕ
  pub magic : ℕ
  pub size : ℕ

-- `HEAP_MAGIC` and `sizeof(Heap_BlockT)`
abbrev pub heap_magic : ℕ
heap_magic = 0x719A5EA9

abbrev pub block_header : ℕ
block_header = 32

pub record KernelHeap : Type 0 where
  pub block_head : ℕ
  pub blocks : ℕ → HeapBlock
  pub pmm : Pmm

abbrev pub set_block : ℕ → HeapBlock → (ℕ → HeapBlock) → ℕ → HeapBlock
set_block p v b a = if a == p then v else b a

-- `Pmm_Allocate(1)`, at its mapped address
unfoldable pub get_page : (f hhdm : ℕ) → Pmm → Run (ℕ × Pmm)
unfolding sipaa_kernel.Pmm.allocate
get_page f hhdm s = do r ← sipaa_kernel.Pmm.allocate f 1 s; done ((r.0 + hhdm) % 2 ^ 64, r.1)

-- the loop of `KHeap_Allocate`: the first free block that is large enough
unfoldable pub find_free : (f size current head : ℕ) → (ℕ → HeapBlock) → Run (Option ℕ)
find_free zero size current head b = out_of_fuel
find_free (suc f) size current head b =
    let rest = find_free f size (b current).next head b in
    if ((b current).state == 0) && leb size (b current).size
    then done (some current)
    else (if (b current).next == head then done none else rest)

-- the new block at `p`, in front of the head
unfoldable pub link_block : (p size head : ℕ) → (ℕ → HeapBlock) → ℕ → HeapBlock
link_block p size head b =
    let made : HeapBlock = record {
      next = head;
      prev = (b head).prev;
      state = 1;
      magic = heap_magic;
      size = size;
    } in
    let b1 : ℕ → HeapBlock = set_block p made b in
    let last : ℕ = (b1 head).prev in
    let b2 : ℕ → HeapBlock = set_block last (record (b1 last) { next = p }) b1 in
    set_block head (record (b2 head) { prev = p }) b2

settle : (f hhdm size : ℕ) → KernelHeap → Option ℕ → Run (ℕ × KernelHeap)
unfolding get_page link_block
settle f hhdm size s (some p) = done (
  (p + block_header) % 2 ^ 64,
  record s { blocks = set_block p (record (s.blocks p) { state = 1 }) s.blocks },
)
settle f hhdm size s none = do
  r ← get_page f hhdm s.pmm
  done (
    (r.0 + block_header) % 2 ^ 64,
    record s { blocks = link_block r.0 size s.block_head s.blocks; pmm = r.1 },
  )

-- `KHeap_Allocate`
unfoldable pub heap_allocate : (f hhdm size : ℕ) → KernelHeap → Run (ℕ × KernelHeap)
unfolding find_free settle
heap_allocate f hhdm size s = do
  found ← find_free f size s.block_head s.block_head s.blocks
  settle f hhdm size s found

-- the block after `p` becomes part of it
abbrev pub absorb_next : ℕ → (ℕ → HeapBlock) → ℕ → HeapBlock
absorb_next p b =
    let n : HeapBlock = b (b p).next in
    let b1 : ℕ → HeapBlock =
      set_block p
        (record (b p) { size = ((b p).size + (block_header + n.size)) % 2 ^ 64; next = n.next })
        b in
    set_block (b1 p).next (record (b1 (b1 p).next) { prev = p }) b1

-- the block at `p` becomes part of the one before it
abbrev pub join_prev : ℕ → (ℕ → HeapBlock) → ℕ → HeapBlock
join_prev p b =
    let q : ℕ = (b p).prev in
    let b1 : ℕ → HeapBlock =
      set_block q
        (record (b q) {
          size = ((b q).size + (block_header + (b p).size)) % 2 ^ 64;
          next = (b p).next;
        })
        b in
    set_block (b1 p).next (record (b1 (b1 p).next) { prev = (b1 p).prev }) b1

-- the two conditions of `KHeap_Free` with what they guard
unfoldable pub merge_next : (head p : ℕ) → (ℕ → HeapBlock) → ℕ → HeapBlock
merge_next head p b =
    if not ((b p).next == head) && ((b (b p).next).state == 0) then absorb_next p b else b

unfoldable pub merge_prev : (head p : ℕ) → (ℕ → HeapBlock) → ℕ → HeapBlock
merge_prev head p b =
    if not ((b p).prev == head) && ((b (b p).prev).state == 0) then join_prev p b else b

-- `KHeap_Free`
unfoldable pub heap_free : ℕ → KernelHeap → KernelHeap
unfolding merge_next merge_prev
heap_free ptr s =
    let p : ℕ = (ptr + (2 ^ 64 - block_header)) % 2 ^ 64 in
    let b : ℕ → HeapBlock = set_block p (record (s.blocks p) { state = 0 }) s.blocks in
    if ptr == 0
    then s
    else (if not ((s.blocks p).magic == heap_magic)
        then s
        else record s { blocks = merge_prev s.block_head p (merge_next s.block_head p b) })

-- `KHeap_Initialize`: the `HeapT` itself takes a page too. The block at the head is in use.
unfoldable pub heap_initialize : (f hhdm : ℕ) → KernelHeap → Run KernelHeap
unfolding get_page
heap_initialize f hhdm s = do
  h ← get_page f hhdm s.pmm
  r ← get_page f hhdm h.1
  done (record s {
    block_head = r.0;
    blocks =
        set_block r.0 (record { next = r.0; prev = r.0; state = 1; magic = heap_magic; size = 0 })
          s.blocks;
    pmm = r.1;
  })
