-- ===== src/Mem/Copy.antt =====
-- What `memcpy`, `memset` and `memmove` leave in memory.
use sipaa_kernel.Prelude.{
  ℕ, zero, suc, ◌+◌, ◌-◌, ◌%◌, ◌≤◌, ◌≡◌, ◌⊎◌, ◌&&◌, Bool, arith, leb, ltb, if◌then◌else◌,
}
use sipaa_kernel.Mem.{Mem, store, copy_up, memcpy, fill, memset, copy_down, memmove}

-- address `a` lies in the `n` bytes from `p`
abbrev pub within : ℕ → ℕ → ℕ → Bool
within p n a = leb p a && ltb a (p + n)

pub copy_up_lem :
    (k i d s : ℕ) (m : Mem) (a : ℕ)
    → (d ≤ s) ⊎ (s + i + k ≤ d)
    → copy_up k i d s m a ≡ (if within (d + i) k a then m (s + (a - d)) else m a)
unfolding copy_up store
copy_up_lem zero i d s m a h = ground arith
copy_up_lem (suc k) i d s m a h =
    ground (arith, copy_up_lem k (i + 1) d s (store m (d + i) (m (s + i))) a)

copy_down_lem :
    (i d s : ℕ) (m : Mem) (a : ℕ)
    → s ≤ d
    → copy_down i d s m a ≡ (if within d i a then m (s + (a - d)) else m a)
unfolding copy_down store
copy_down_lem zero d s m a h = ground arith
copy_down_lem (suc i) d s m a h =
    ground (arith, copy_down_lem i d s (store m (d + i) (m (s + i))) a)

-- `memcpy` copies the `n` source bytes and leaves every other byte alone, if the blocks do not
-- overlap or the destination starts no later than the source.
pub memcpy_lem :
    (d s n : ℕ) (m : Mem) (a : ℕ)
    → (d ≤ s) ⊎ (s + n ≤ d)
    → memcpy d s n m a ≡ (if within d n a then m (s + (a - d)) else m a)
unfolding memcpy
memcpy_lem d s n m a h = ground (arith, copy_up_lem n 0 d s m a)

-- `memmove` copies the `n` bytes that the source held at the call and leaves every other byte
-- alone, however the blocks overlap.
pub memmove_lem :
    (d s n : ℕ) (m : Mem) (a : ℕ)
    → memmove d s n m a ≡ (if within d n a then m (s + (a - d)) else m a)
unfolding memmove
memmove_lem d s n m a = ground (arith, copy_up_lem n 0 d s m a, copy_down_lem n d s m a)

fill_lem :
    (k i s v : ℕ) (m : Mem) (a : ℕ) → fill k i s v m a ≡ (if within (s + i) k a then v else m a)
unfolding fill store
fill_lem zero i s v m a = ground arith
fill_lem (suc k) i s v m a = ground (arith, fill_lem k (i + 1) s v (store m (s + i) v) a)

-- `memset` writes the low byte of `c` to each of the `n` bytes, and nothing else.
pub memset_lem :
    (s c n : ℕ) (m : Mem) (a : ℕ) → memset s c n m a ≡ (if within s n a then c % 256 else m a)
unfolding memset
memset_lem s c n m a = ground (arith, fill_lem n 0 s (c % 256) m a)
