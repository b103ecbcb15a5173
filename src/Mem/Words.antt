-- ===== src/Mem/Words.antt =====
-- Words of several bytes in memory, low byte first, as the processor keeps pointers.
use sipaa_kernel.Prelude.{ℕ, zero, suc, ◌+◌, ◌*◌, ◌/◌, ◌%◌}
use sipaa_kernel.Mem.{Mem, store}

-- the word of `n` bytes at `p`
unfoldable pub load_word : (n p : ℕ) → Mem → ℕ
load_word zero p m = 0
load_word (suc n) p m = m p + 256 * load_word n (p + 1) m

unfoldable pub store_word : (n p v : ℕ) → Mem → Mem
unfolding store
store_word zero p v m = m
store_word (suc n) p v m = store_word n (p + 1) (v / 256) (store m p (v % 256))
