-- ===== src/Strings/Holds.antt =====
-- What it means that memory holds a C string.
use sipaa_kernel.Prelude.{ℕ, zero, suc, ◌+◌, ◌≤◌, ◌<◌, ◌≡◌, ◌≢◌, List, [], ◌∷◌, arith, length}
use sipaa_kernel.Prelude.Run.{done}
use sipaa_kernel.Mem.{Mem}
use sipaa_kernel.Strings.{length_loop, string_length}

-- the characters `xs`, none of them NUL, stand from `p` on, and a NUL follows
abbrev pub HoldsString : Mem → ℕ → List ℕ → Type 0
HoldsString m p [] = m p ≡ 0
HoldsString m p (x ∷ xs) = (m p ≡ x) × (x ≢ 0) × HoldsString m (p + 1) xs

-- Memories that agree on the string and its NUL hold the same string.
pub HoldsString-frame :
    (m m' : Mem) (p : ℕ) (xs : List ℕ)
    → ((a : ℕ) → p ≤ a → a ≤ p + length xs → m' a ≡ m a)
    → HoldsString m p xs
    → HoldsString m' p xs
HoldsString-frame m m' p [] same h = ground (arith, same p)
HoldsString-frame m m' p (x ∷ xs) same h = (
  ground (arith, same p),
  h.1,
  HoldsString-frame m m' (p + 1) xs (λ a lo hi. same a (omega arith) (omega arith)) h.2,
)

length_loop_lem :
    (f s len : ℕ) (m : Mem) (xs : List ℕ)
    → HoldsString m (s + len) xs
    → length xs < f
    → length_loop f s len m ≡ done (len + length xs)
unfolding length_loop
length_loop_lem zero s len m xs h fuel = absurd (omega arith)
length_loop_lem (suc f) s len m [] h fuel = ground arith
length_loop_lem (suc f) s len m (x ∷ xs) h fuel =
    let shift : s + len + 1 ≡ s + (len + 1) = omega arith in
    ground (arith, length_loop_lem f s (len + 1) m xs (rw shift at h.2))

-- With fuel for its characters and the NUL, `StringLength` returns the number of characters.
pub string_length_lem :
    (f s : ℕ) (m : Mem) (xs : List ℕ)
    → HoldsString m s xs
    → length xs < f
    → string_length f s m ≡ done (length xs)
unfolding string_length
string_length_lem f s m xs h fuel =
    let at : s ≡ s + 0 = omega arith in ground (arith, length_loop_lem f s 0 m xs (rw at at h))
