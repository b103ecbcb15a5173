-- ===== src/Pmm.antt =====
-- src/memory/pmm.c: the stack of free pages and the list of blocks carved out of them.
-- Block headers live in a store of their own, by address; the bytes that clients keep in the
-- blocks are the byte memory. `NULL` is 0, and `size_t` arithmetic wraps at 2 ^ 64.
pub mod Pages
pub mod Regions
pub mod Chain
pub mod Laid
pub mod Split
pub mod Allocate
pub mod Grow
pub mod Free
pub mod Reallocate
use sipaa_kernel.Prelude.{
  ℕ, zero, suc, ◌+◌, ◌-◌, ◌%◌, ◌^◌, Bool, true, false, List, [], ◌∷◌, ◌&&◌, not, ltb, leb, ◌==◌,
  if◌then◌else◌, Option, none, some,
}
use sipaa_kernel.Prelude.Run.{Run, done, out_of_fuel, ◌>>=◌}
use sipaa_kernel.Mem.{Mem, copy_up}

-- `Pmm_MemoryBlockT`
pub record MemoryBlock : Type 0 where
  pub size : ℕ
  pub next : ℕ
  pub is_free : Bool

pub record Pmm : Type 0 where
  pub stack : ℕ → ℕ
  pub stack_top : ℕ
  pub free_blocks : ℕ
  pub block : ℕ → MemoryBlock
  pub bytes : Mem

-- `STACK_SIZE`, `PMM_BLOCK_SIZE` and `sizeof(Pmm_MemoryBlockT)`
abbrev pub stack_size : ℕ
stack_size = 32768

abbrev pub block_size : ℕ
block_size = 4096

abbrev pub header : ℕ
header = 24

abbrev pub add64 : ℕ → ℕ → ℕ
add64 a b = (a + b) % 2 ^ 64

abbrev pub update {ℓ} : {A : Type ℓ} → (ℕ → A) → ℕ → A → ℕ → A
update f p v a = if a == p then v else f a

-- `*p = b`
abbrev pub put : ℕ → MemoryBlock → Pmm → Pmm
put p b s = record s { block = update s.block p b }

unfoldable pub free_page : ℕ → Pmm → Pmm
free_page page s =
    if s.stack_top == stack_size
    then s
    else record s { stack = update s.stack s.stack_top page; stack_top = s.stack_top + 1 }

unfoldable pub allocate_page : Pmm → ℕ × Pmm
allocate_page s =
    if s.stack_top == 0
    then (0, s)
    else (s.stack (s.stack_top - 1), record s { stack_top = s.stack_top - 1 })

-- Where the walk of `Pmm_Allocate` over the blocks stops: at a block that fits, or past the end,
-- with the last block seen (`NULL` if there was none).
pub data Scan : Type 0 where
  fit : ℕ → Scan
  missed : ℕ → Scan

unfoldable pub scan : ℕ → ℕ → (at prev : ℕ) → (ℕ → MemoryBlock) → Run Scan
scan zero size at prev b = out_of_fuel
scan (suc f) size at prev b =
    let rest = scan f size (b at).next at b in
    if at == 0
    then done (missed prev)
    else if (b at).is_free && leb size (b at).size
    then done (fit at)
    else rest

-- The block that fits is taken, and split if what is left has room for more than a header.
unfoldable pub take_block : ℕ → ℕ → Pmm → Pmm
take_block size p s =
    let t : Pmm = put p (record (s.block p) { is_free = false }) s in
    let b : MemoryBlock = t.block p in
    if ltb (add64 size header) b.size
    then (let u : Pmm =
          put (p + size) (record { size = b.size - size; next = b.next; is_free = true }) t in
        put p (record (u.block p) { size = size; next = p + size }) u)
    else t

-- No block fits: a page from the stack becomes a block at the end of the list.
unfoldable pub grow : ℕ → ℕ → Pmm → ℕ × Pmm
unfolding allocate_page
grow size prev s =
    let (p, s') = allocate_page s in
    if p == 0
    then (0, s')
    else let t = put p (record { size = size; next = 0; is_free = false }) s' in
      (
        p + header,
        if prev == 0
            then record t { free_blocks = p }
            else put prev (record (t.block prev) { next = p }) t,
      )

abbrev pub place : ℕ → Scan → Pmm → ℕ × Pmm
place size (fit p) s = (p + header, take_block size p s)
place size (missed prev) s = grow size prev s

unfoldable pub allocate : ℕ → ℕ → Pmm → Run (ℕ × Pmm)
allocate f size s = if size == 0 then done (0, s) else (do
  r ← scan f (add64 size header) s.free_blocks 0 s.block
  done (place (add64 size header) r s))

-- the loop of `Pmm_Free`: blocks that follow in the list and are free are merged into this one
unfoldable pub merge : ℕ → ℕ → (ℕ → MemoryBlock) → Run (ℕ → MemoryBlock)
merge zero p b = out_of_fuel
merge (suc f) p b =
    let n : MemoryBlock = b (b p).next in
    let rest =
      merge f p (update b p (record (b p) { size = add64 (b p).size n.size; next = n.next })) in
    if not ((b p).next == 0) && n.is_free then rest else done b

unfoldable pub free : ℕ → ℕ → Pmm → Run Pmm
free f ptr s = if ptr == 0 then done s else (do
  b ←
      merge f (ptr - header)
        (update s.block (ptr - header) (record (s.block (ptr - header)) { is_free = true }))
  done (record s { block = b }))

-- the loop of `Pmm_Reallocate` that measures the old contents up to a NUL byte
unfoldable pub measure : ℕ → ℕ → ℕ → Mem → Run ℕ
measure zero temp_ptr old_size m = out_of_fuel
measure (suc f) temp_ptr old_size m =
    let rest = measure f (temp_ptr + 1) (old_size + 1) m in
    if not (m temp_ptr == 0) then rest else done (old_size + 1)

-- the bytes that the block of `ptr` has behind its header
abbrev pub room : (ℕ → MemoryBlock) → (ptr : ℕ) → ℕ
room b ptr = (b (ptr - header)).size - header

-- The copy of the old contents, which `if (ptr)` guards. As headers are not among the bytes here, the
-- model stops with `none` at a copy that reads or writes beyond one of the two blocks, where the
-- source may overwrite a header.
unfoldable pub copy_old : ℕ → (ptr new_ptr : ℕ) → Pmm → Run (Option Mem)
unfolding measure copy_up
copy_old f ptr new_ptr s = if ptr == 0 then done (some s.bytes) else (do
  old_size ← measure f ptr 0 s.bytes
  done (
      if leb old_size (room s.block ptr) && leb old_size (room s.block new_ptr)
      then some (copy_up old_size 0 new_ptr ptr s.bytes)
      else none))

free_copied : ℕ → (ptr new_ptr : ℕ) → Pmm → Option Mem → Run (Option (ℕ × Pmm))
unfolding free
free_copied f ptr new_ptr s none = done none
free_copied f ptr new_ptr s (some m) = do
  t ← free f ptr (record s { bytes = m })
  done (some (new_ptr, t))

after_allocate : ℕ → ℕ → ℕ × Pmm → Run (Option (ℕ × Pmm))
unfolding copy_old free_copied
after_allocate f ptr (new_ptr, s) =
    if new_ptr == 0
    then done (some (0, s))
    else (do c ← copy_old f ptr new_ptr s; free_copied f ptr new_ptr s c)

-- `Pmm_Reallocate`, or `none` where its copy leaves the blocks
unfoldable pub reallocate : ℕ → ℕ → ℕ → Pmm → Run (Option (ℕ × Pmm))
unfolding after_allocate
reallocate f ptr size s =
    if size == 0
    then (do t ← free f ptr s; done (some (0, t)))
    else (do r ← allocate f size s; after_allocate f ptr r)

-- a `limine_memmap_entry`; `LIMINE_MEMMAP_USABLE` is 0
pub record MemmapEntry : Type 0 where
  pub base : ℕ
  pub length : ℕ
  pub kind : ℕ

-- the `while` of `Pmm_Initialize` over one usable entry
unfoldable pub add_region : ℕ → ℕ → ℕ → Pmm → Run Pmm
unfolding free_page
add_region zero addr length s = out_of_fuel
add_region (suc f) addr length s =
    let rest = add_region f (addr + block_size) (length - block_size) (free_page addr s) in
    if leb block_size length then rest else done s

unfoldable pub add_entries : ℕ → List MemmapEntry → Pmm → Run Pmm
add_entries f [] s = done s
add_entries f (e ∷ es) s = do
  t ← (if e.kind == 0 then add_region f e.base e.length s else done s)
  add_entries f es t

unfoldable pub initialize : ℕ → List MemmapEntry → Pmm → Run Pmm
unfolding add_entries
initialize f mmap s = add_entries f mmap (record s { stack_top = 0 })
