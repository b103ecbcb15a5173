-- ===== src/Mem.antt =====
-- src/memory/memory.c: the byte memory and the four block functions.
-- A memory gives the byte at each address. Addresses are unbounded: C leaves a pointer that runs
-- past the end of its object undefined, so no loop of this code wraps one.
pub mod Copy
pub mod Compare
pub mod Words
use sipaa_kernel.Prelude.{
  ℕ, zero, suc, ◌+◌, ◌%◌, Bool, ltb, ◌==◌, if◌then◌else◌, not, ℤ, pos, negsuc,
}

abbrev pub Mem : Type 0
Mem = ℕ → ℕ

unfoldable pub store : Mem → ℕ → ℕ → Mem
store m p v a = if a == p then v else m a

-- the loop of `memcpy`: `k` rounds are left, and `i` is the index of this one
unfoldable pub copy_up : ℕ → ℕ → ℕ → ℕ → Mem → Mem
copy_up zero i dest src m = m
copy_up (suc k) i dest src m = copy_up k (i + 1) dest src (store m (dest + i) (m (src + i)))

unfoldable pub memcpy : ℕ → ℕ → ℕ → Mem → Mem
unfolding copy_up store
memcpy dest src n m = copy_up n 0 dest src m

-- the loop of `memset`; `v` is the byte `(uint8_t)c`
fill : ℕ → ℕ → ℕ → ℕ → Mem → Mem
fill zero i s v m = m
fill (suc k) i s v m = fill k (i + 1) s v (store m (s + i) v)

-- `c` is the bit pattern of the `int`.
unfoldable pub memset : ℕ → ℕ → ℕ → Mem → Mem
unfolding fill store
memset s c n m = fill n 0 s (c % 256) m

-- the second loop of `memmove`: `i` goes down, and index `i - 1` is copied
copy_down : ℕ → ℕ → ℕ → Mem → Mem
copy_down zero dest src m = m
copy_down (suc i) dest src m = copy_down i dest src (store m (dest + i) (m (src + i)))

unfoldable pub memmove : ℕ → ℕ → ℕ → Mem → Mem
unfolding copy_up copy_down store
memmove dest src n m =
    if ltb dest src
    then copy_up n 0 dest src m
    else if ltb src dest
    then copy_down n dest src m
    else m

-- the loop of `memcmp`
unfoldable pub compare_from : ℕ → ℕ → ℕ → ℕ → Mem → ℤ
compare_from zero i s1 s2 m = pos 0
compare_from (suc k) i s1 s2 m =
    let rest = compare_from k (i + 1) s1 s2 m in
    if not (m (s1 + i) == m (s2 + i))
    then (if ltb (m (s1 + i)) (m (s2 + i)) then negsuc 0 else pos 1)
    else rest

unfoldable pub memcmp : ℕ → ℕ → ℕ → Mem → ℤ
unfolding compare_from
memcmp s1 s2 n m = compare_from n 0 s1 s2 m
