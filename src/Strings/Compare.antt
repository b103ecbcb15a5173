-- ===== src/Strings/Compare.antt =====
-- `CompareStrings` and `CompareStringsN` against the order of lists of characters.
use sipaa_kernel.Prelude.{
  ℕ, zero, suc, ◌+◌, ◌<◌, ◌≡◌, ◌≢◌, ◌↔◌, refl, ap, List, [], ◌∷◌, arith, length, ◌==◌,
  if◌then◌else◌, take, ℤ, pos, sub_ℕ,
}
use sipaa_kernel.Prelude.Run.{done}
use sipaa_kernel.Mem.{Mem}
use sipaa_kernel.Strings.{compare_strings, compare_strings_n}
use sipaa_kernel.Strings.Holds.{HoldsString}

-- the difference of the first characters that differ, where the end of a string counts as NUL
pub order : List ℕ → List ℕ → ℤ
order [] [] = pos 0
order [] (y ∷ ys) = sub_ℕ 0 y
order (x ∷ xs) [] = sub_ℕ x 0
order (x ∷ xs) (y ∷ ys) = if x == y then order xs ys else sub_ℕ x y

-- no character is NUL
abbrev pub NoNul : List ℕ → Type 0
NoNul [] = Unit
NoNul (x ∷ xs) = (x ≢ 0) × NoNul xs

pub NoNul-of-HoldsString : (m : Mem) (p : ℕ) (xs : List ℕ) → HoldsString m p xs → NoNul xs
NoNul-of-HoldsString m p [] h = tt
NoNul-of-HoldsString m p (x ∷ xs) h = (h.1, NoNul-of-HoldsString m (p + 1) xs h.2)

-- `CompareStrings` returns the difference of the first characters at which the strings differ.
pub compare_strings-order :
    (f p q : ℕ) (m : Mem) (xs ys : List ℕ)
    → HoldsString m p xs
    → HoldsString m q ys
    → length xs < f
    → compare_strings f p q m ≡ done (order xs ys)
unfolding compare_strings order
compare_strings-order zero p q m xs ys hx hy fuel = absurd (omega arith)
compare_strings-order (suc f) p q m [] [] hx hy fuel = ground arith
compare_strings-order (suc f) p q m [] (y ∷ ys) hx hy fuel = ground arith
compare_strings-order (suc f) p q m (x ∷ xs) [] hx hy fuel = ground arith
compare_strings-order (suc f) p q m (x ∷ xs) (y ∷ ys) hx hy fuel =
    ground (arith, compare_strings-order f (p + 1) (q + 1) m xs ys hx.2 hy.2)

order-eq-zero : (xs ys : List ℕ) → NoNul xs → NoNul ys → order xs ys ≡ pos 0 → xs ≡ ys
unfolding order
order-eq-zero [] [] nx ny e = refl
order-eq-zero [] (y ∷ ys) nx ny e = ground arith
order-eq-zero (x ∷ xs) [] nx ny e = ground arith
order-eq-zero (x ∷ xs) (y ∷ ys) nx ny e = ground (arith, order-eq-zero xs ys nx.1 ny.1)

pub order_self : (xs : List ℕ) → order xs xs ≡ pos 0
unfolding order
order_self [] = refl
order_self (x ∷ xs) = ground (arith, order_self xs)

-- `CompareStrings` of two strings returns 0 exactly when they are equal.
pub compare_strings-eq_zero_iff :
    (f p q : ℕ) (m : Mem) (xs ys : List ℕ)
    → HoldsString m p xs
    → HoldsString m q ys
    → length xs < f
    → (compare_strings f p q m ≡ done (pos 0)) ↔ (xs ≡ ys)
compare_strings-eq_zero_iff f p q m xs ys hx hy fuel =
    let run = compare_strings-order f p q m xs ys hx hy fuel in
    (
      λ e.
          order-eq-zero xs ys (NoNul-of-HoldsString m p xs hx) (NoNul-of-HoldsString m q ys hy)
            (cc run),
      λ e. cc (run, order_self xs, ap (order xs) e),
    )

take-eq_of_order :
    (n p q : ℕ) (m : Mem) (xs ys : List ℕ)
    → HoldsString m p xs
    → HoldsString m q ys
    → compare_strings_n n p q m ≡ pos 0
    → take n xs ≡ take n ys
unfolding compare_strings_n
take-eq_of_order zero p q m xs ys hx hy e = refl
take-eq_of_order (suc n) p q m [] [] hx hy e = refl
take-eq_of_order (suc n) p q m [] (y ∷ ys) hx hy e = ground arith
take-eq_of_order (suc n) p q m (x ∷ xs) [] hx hy e = ground arith
take-eq_of_order (suc n) p q m (x ∷ xs) (y ∷ ys) hx hy e =
    ground (arith, take-eq_of_order n (p + 1) (q + 1) m xs ys hx.2 hy.2)

order_of_take-eq :
    (n p q : ℕ) (m : Mem) (xs ys : List ℕ)
    → HoldsString m p xs
    → HoldsString m q ys
    → take n xs ≡ take n ys
    → compare_strings_n n p q m ≡ pos 0
unfolding compare_strings_n
order_of_take-eq zero p q m xs ys hx hy e = refl
order_of_take-eq (suc n) p q m [] [] hx hy e = ground arith
order_of_take-eq (suc n) p q m [] (y ∷ ys) hx hy e = cc
order_of_take-eq (suc n) p q m (x ∷ xs) [] hx hy e = cc
order_of_take-eq (suc n) p q m (x ∷ xs) (y ∷ ys) hx hy e =
    ground (arith, order_of_take-eq n (p + 1) (q + 1) m xs ys hx.2 hy.2)

-- `CompareStringsN` returns 0 exactly when the strings agree in their first `n` characters.
pub compare_strings_n-eq_zero_iff :
    (n p q : ℕ) (m : Mem) (xs ys : List ℕ)
    → HoldsString m p xs
    → HoldsString m q ys
    → (compare_strings_n n p q m ≡ pos 0) ↔ (take n xs ≡ take n ys)
compare_strings_n-eq_zero_iff n p q m xs ys hx hy =
    (take-eq_of_order n p q m xs ys hx hy, order_of_take-eq n p q m xs ys hx hy)
