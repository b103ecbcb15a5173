-- ===== src/Strings/Copy.antt =====
-- What `CopyString` and `CopyStringN` leave in memory.
use sipaa_kernel.Prelude.{
  ℕ, zero, suc, ◌+◌, ◌-◌, ◌≤◌, ◌<◌, ◌≡◌, ◌⊎◌, List, [], ◌∷◌, arith, length, min, if◌then◌else◌,
}
use sipaa_kernel.Prelude.Run.{done}
use sipaa_kernel.Mem.{Mem, store}
use sipaa_kernel.Mem.Copy.{within}
use sipaa_kernel.Strings.{copy_string, copy_string_n}
use sipaa_kernel.Strings.Holds.{HoldsString, HoldsString-frame}

-- the copy starts no later than the source, or behind the source's NUL
abbrev pub Apart : ℕ → ℕ → ℕ → Type 0
Apart dst src n = (dst ≤ src) ⊎ (src + n ≤ dst)

store-HoldsString :
    (dst src : ℕ) (m : Mem) (x : ℕ) (xs : List ℕ)
    → HoldsString m (src + 1) xs
    → Apart dst src (suc (suc (length xs)))
    → HoldsString (store m dst x) (src + 1) xs
unfolding store
store-HoldsString dst src m x xs h apart =
    HoldsString-frame m (store m dst x) (src + 1) xs (λ a lo hi. ground arith) h

-- the memory after the copy of a string with its NUL
abbrev pub Copied : ℕ → ℕ → ℕ → Mem → Mem → Type 0
Copied dst src n m m' = (a : ℕ) → m' a ≡ (if within dst n a then m (src + (a - dst)) else m a)

copy_string_run :
    (f dst src : ℕ) (m : Mem) (xs : List ℕ)
    → HoldsString m src xs
    → Apart dst src (length xs + 1)
    → length xs < f
    → (m' : Mem) × (copy_string f dst src m ≡ done m') × Copied dst src (length xs + 1) m m'
unfolding copy_string store
copy_string_run zero dst src m xs h apart fuel = absurd (omega arith)
copy_string_run (suc f) dst src m [] h apart fuel =
    (store m dst (m src), ground arith, λ a. ground arith)
copy_string_run (suc f) dst src m (x ∷ xs) h apart fuel =
    let (m', run, copied) =
      copy_string_run f (dst + 1) (src + 1) (store m dst (m src)) xs
        (store-HoldsString dst src m (m src) xs h.2 (ground arith)) (ground arith) (omega arith) in
    (m', ground arith, λ a. ground (arith, copied a))

pub HoldsString-shift :
    (m m' : Mem) (p q : ℕ) (xs : List ℕ)
    → ((j : ℕ) → j ≤ length xs → m' (q + j) ≡ m (p + j))
    → HoldsString m p xs
    → HoldsString m' q xs
HoldsString-shift m m' p q [] same h =
    let e : m' (q + 0) ≡ m (p + 0) = same 0 (omega arith) in
    let ep : p + 0 ≡ p = omega arith in let eq : q + 0 ≡ q = omega arith in cc (ep, eq)
HoldsString-shift m m' p q (x ∷ xs) same h =
    let e : m' (q + 0) ≡ m (p + 0) = same 0 (omega arith) in
    let ep : p + 0 ≡ p = omega arith in
    let eq : q + 0 ≡ q = omega arith in
    (
      cc (ep, eq),
      h.1,
      HoldsString-shift m m' (p + 1) (q + 1) xs
          (λ j hj.
            let a : q + 1 + j ≡ q + suc j = omega arith in
            let b : p + 1 + j ≡ p + suc j = omega arith in rw (a, b) (same (suc j) (omega arith)))
          h.2,
    )

-- With fuel for its characters and the NUL, `CopyString` ends, the copy holds the string, and every
-- byte outside it is as it was, if the copy starts no later than the source or behind its NUL.
pub copy_string-HoldsString :
    (f dst src : ℕ) (m : Mem) (xs : List ℕ)
    → HoldsString m src xs
    → Apart dst src (length xs + 1)
    → length xs < f
    → (m' : Mem) × (copy_string f dst src m ≡ done m')
      × HoldsString m' dst xs
      × Copied dst src (length xs + 1) m m'
copy_string-HoldsString f dst src m xs h apart fuel =
    let (m', run, copied) = copy_string_run f dst src m xs h apart fuel in
    (
      m',
      run,
      HoldsString-shift m m' src dst xs (λ j hj. ground (arith, copied (dst + j))) h,
      copied,
    )

-- `CopyStringN` copies the string with its NUL when it has fewer than `n` characters, and
-- otherwise exactly its first `n` characters, with no NUL; every other byte is as it was. The copy
-- starts no later than the source or behind its NUL.
pub copy_string_n_lem :
    (n dst src : ℕ) (m : Mem) (xs : List ℕ)
    → HoldsString m src xs
    → Apart dst src (length xs + 1)
    → Copied dst src (min n (length xs + 1)) m (copy_string_n n dst src m)
unfolding copy_string_n store
copy_string_n_lem zero dst src m xs h apart a = ground arith
copy_string_n_lem (suc n) dst src m [] h apart a = ground arith
copy_string_n_lem (suc n) dst src m (x ∷ xs) h apart a = ground (
  arith,
  copy_string_n_lem n (dst + 1) (src + 1) (store m dst (m src)) xs
      (store-HoldsString dst src m (m src) xs h.2 (ground arith)) (ground arith) a,
)
