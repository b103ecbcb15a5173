-- ===== src/Strings/Remove.antt =====
-- `StringRemove` cuts the first occurrence out of the string.
use sipaa_kernel.Prelude.{
  ℕ, zero, suc, ◌+◌, ◌≤◌, ◌<◌, ◌≡◌, refl, subst, true, Option, none, some, List, [], ◌∷◌, ◌++◌,
  arith, length, length-drop, take, drop, Bool-cases, Option-cases, inl, inr,
}
use sipaa_kernel.Prelude.Run.{done}
use sipaa_kernel.Mem.{Mem, memmove}
use sipaa_kernel.Mem.Copy.{memmove_lem}
use sipaa_kernel.Strings.{string_remove}
use sipaa_kernel.Strings.Holds.{HoldsString, string_length_lem}
use sipaa_kernel.Strings.Find.{starts, find_sub, string_from_string-find_sub}
use sipaa_kernel.Strings.Copy.{HoldsString-shift}

drop-HoldsString :
    (k p : ℕ) (m : Mem) (xs : List ℕ)
    → k ≤ length xs
    → HoldsString m p xs
    → HoldsString m (p + k) (drop k xs)
drop-HoldsString zero p m xs le h =
    let e : p ≡ p + 0 = omega arith in subst (λ t. HoldsString m t xs) e h
drop-HoldsString (suc k) p m [] le h = absurd (omega arith)
drop-HoldsString (suc k) p m (x ∷ xs) le h =
    let e : p + 1 + k ≡ p + suc k = omega arith in
    subst (λ t. HoldsString m t (drop k xs)) e (drop-HoldsString k (p + 1) m xs (omega arith) h.2)

-- a kept prefix, followed by another string
splice-HoldsString :
    (i p : ℕ) (m m' : Mem) (xs zs : List ℕ)
    → i ≤ length xs
    → ((a : ℕ) → p ≤ a → a < p + i → m' a ≡ m a)
    → HoldsString m p xs
    → HoldsString m' (p + i) zs
    → HoldsString m' p (take i xs ++ zs)
splice-HoldsString zero p m m' xs zs le same h t =
    let e : p + 0 ≡ p = omega arith in subst (λ a. HoldsString m' a zs) e t
splice-HoldsString (suc i) p m m' [] zs le same h t = absurd (omega arith)
splice-HoldsString (suc i) p m m' (x ∷ xs) zs le same h t =
    let e : p + suc i ≡ p + 1 + i = omega arith in
    (
      ground (arith, same p),
      h.1,
      splice-HoldsString i (p + 1) m m' xs zs (omega arith)
          (λ a lo hi. same a (omega arith) (omega arith)) h.2
          (subst (λ a. HoldsString m' a zs) e t),
    )

starts-length-le : (ys xs : List ℕ) → starts ys xs ≡ true → length ys ≤ length xs
unfolding starts
starts-length-le [] xs h = omega arith
starts-length-le (y ∷ ys) [] h = ground arith
starts-length-le (y ∷ ys) (x ∷ xs) h = ground (arith, starts-length-le ys xs)

find_sub_bound : (ys xs : List ℕ) (i : ℕ) → find_sub ys xs ≡ some i → i + length ys ≤ length xs
unfolding find_sub
find_sub_bound ys [] i e = ground arith
find_sub_bound ys (x ∷ xs) i e = elim (Bool-cases (starts ys (x ∷ xs))) [
  | inl here ↦ ground (arith, starts-length-le ys (x ∷ xs) here)
  | inr later ↦ elim (Option-cases (find_sub ys xs)) [
    | inl no_more ↦ ground arith
    | inr (j, found) ↦ ground (arith, find_sub_bound ys xs j found)
  ]
]

-- the string less the occurrence of `n` characters at the index
unfoldable pub without : ℕ → Option ℕ → List ℕ → List ℕ
without n none xs = xs
without n (some i) xs = take i xs ++ drop (i + n) xs

-- `StringRemove` leaves the string without the first occurrence of the other one, and unchanged
-- if there is none.
pub string_remove-HoldsString :
    (f p q : ℕ) (m : Mem) (xs ys : List ℕ)
    → HoldsString m p xs
    → HoldsString m q ys
    → length xs < f
    → length ys < f
    → (m' : Mem) × (string_remove f p q m ≡ done m')
      × HoldsString m' p (without (length ys) (find_sub ys xs) xs)
unfolding string_remove without
string_remove-HoldsString f p q m xs ys hx hy fx fy = go (find_sub ys xs) refl
  where
    go :
        (o : Option ℕ)
        → find_sub ys xs ≡ o
        → (m' : Mem) × (string_remove f p q m ≡ done m')
          × HoldsString m' p (without (length ys) o xs)
    go none e = (m, rw (string_from_string-find_sub f p q m xs ys hx hy fx fy, e), hx)
    go (some i) e =
        let n : ℕ = length ys in
        let bound : i + length ys ≤ length xs = find_sub_bound ys xs i e in
        let tail : HoldsString m (p + i + length ys) (drop (i + length ys) xs) =
          let ea : p + (i + length ys) ≡ p + i + length ys = omega arith in
          subst (λ a. HoldsString m a (drop (i + length ys) xs)) ea
            (drop-HoldsString (i + length ys) p m xs bound hx) in
        let k : ℕ = length (drop (i + length ys) xs) in
        let m' : Mem =
          memmove (p + i) (p + i + length ys) (length (drop (i + length ys) xs) + 1) m in
        (
          m',
          rw
              (
                string_from_string-find_sub f p q m xs ys hx hy fx fy,
                e,
                string_length_lem f q m ys hy fy,
                string_length_lem f (p + i + length ys) m (drop (i + length ys) xs) tail
                    (omega (arith, length-drop (i + length ys) xs)),
              )
              refl,
          splice-HoldsString i p m m' xs (drop (i + length ys) xs) (omega arith)
              (λ a lo hi. ground (
                arith,
                memmove_lem (p + i) (p + i + length ys) (length (drop (i + length ys) xs) + 1) m a,
              ))
              hx
              (HoldsString-shift m m' (p + i + length ys) (p + i) (drop (i + length ys) xs)
                (λ j hj. ground (
                  arith,
                  memmove_lem (p + i) (p + i + length ys) (length (drop (i + length ys) xs) + 1) m
                      (p + i + j),
                ))
                tail),
        )
