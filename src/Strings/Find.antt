-- ===== src/Strings/Find.antt =====
-- `CharFromString` and `StringFromString` find the first occurrence.
use sipaa_kernel.Prelude.{
  ℕ, zero, suc, ◌+◌, ◌%◌, ◌<◌, ◌≡◌, refl, subst, Bool, true, false, Option, none, some, List, [],
  ◌∷◌, arith, length, ◌==◌, if◌then◌else◌,
}
use sipaa_kernel.Prelude.Run.{done}
use sipaa_kernel.Mem.{Mem, compare_from, memcmp}
use sipaa_kernel.Strings.{char_from_string, is_zero, search_loop, string_from_string}
use sipaa_kernel.Strings.Holds.{HoldsString, string_length_lem}

abbrev pub up : Option ℕ → Option ℕ
up none = none
up (some i) = some (suc i)

-- the pointer to index `i` of the string at `s`
abbrev pub at : ℕ → Option ℕ → Option ℕ
at s none = none
at s (some i) = some (s + i)

-- the first index of the character `c`; a search for NUL finds the end
unfoldable pub index_of : ℕ → List ℕ → Option ℕ
index_of c [] = if c == 0 then some 0 else none
index_of c (x ∷ xs) = if x == c then some 0 else up (index_of c xs)

-- `CharFromString` returns the pointer to the first occurrence of the character, or `NULL` if the
-- string has none.
pub char_from_string-index_of :
    (f s c : ℕ) (m : Mem) (xs : List ℕ)
    → HoldsString m s xs
    → length xs < f
    → char_from_string f s c m ≡ done (at s (index_of (c % 256) xs))
unfolding char_from_string index_of
char_from_string-index_of zero s c m xs h fuel = absurd (omega arith)
char_from_string-index_of (suc f) s c m [] h fuel = ground arith
char_from_string-index_of (suc f) s c m (x ∷ xs) h fuel =
    ground (arith, char_from_string-index_of f (s + 1) c m xs h.2)

-- `ys` is a prefix of `xs`
unfoldable pub starts : List ℕ → List ℕ → Bool
starts [] xs = true
starts (y ∷ ys) [] = false
starts (y ∷ ys) (x ∷ xs) = if x == y then starts ys xs else false

compare_from-starts :
    (i p q : ℕ) (m : Mem) (xs ys : List ℕ)
    → HoldsString m (p + i) xs
    → HoldsString m (q + i) ys
    → is_zero (compare_from (length ys) i p q m) ≡ starts ys xs
unfolding compare_from is_zero starts
compare_from-starts i p q m xs [] hx hy = refl
compare_from-starts i p q m [] (y ∷ ys) hx hy = ground arith
compare_from-starts i p q m (x ∷ xs) (y ∷ ys) hx hy =
    let ep : p + i + 1 ≡ p + (i + 1) = omega arith in
    let eq : q + i + 1 ≡ q + (i + 1) = omega arith in
    ground (arith, compare_from-starts (i + 1) p q m xs ys (rw ep at hx.2) (rw eq at hy.2))

memcmp-starts :
    (p q : ℕ) (m : Mem) (xs ys : List ℕ)
    → HoldsString m p xs
    → HoldsString m q ys
    → is_zero (memcmp p q (length ys) m) ≡ starts ys xs
unfolding memcmp
memcmp-starts p q m xs ys hx hy =
    let ep : p ≡ p + 0 = omega arith in
    let eq : q ≡ q + 0 = omega arith in
    compare_from-starts 0 p q m xs ys (subst (λ t. HoldsString m t xs) ep hx)
      (subst (λ t. HoldsString m t ys) eq hy)

-- the first index at which `ys` occurs; the loop ends at NUL, so not even the empty string is
-- found in an empty one
unfoldable pub find_sub : List ℕ → List ℕ → Option ℕ
find_sub ys [] = none
find_sub ys (x ∷ xs) = if starts ys (x ∷ xs) then some 0 else up (find_sub ys xs)

search_loop-find_sub :
    (f p q : ℕ) (m : Mem) (xs ys : List ℕ)
    → HoldsString m p xs
    → HoldsString m q ys
    → length xs < f
    → search_loop f p q (length ys) m ≡ done (at p (find_sub ys xs))
unfolding search_loop find_sub
search_loop-find_sub zero p q m xs ys hx hy fuel = absurd (omega arith)
search_loop-find_sub (suc f) p q m [] ys hx hy fuel = ground arith
search_loop-find_sub (suc f) p q m (x ∷ xs) ys hx hy fuel =
    ground (
      arith,
      memcmp-starts p q m (x ∷ xs) ys hx hy,
      search_loop-find_sub f (p + 1) q m xs ys hx.2 hy,
    )

-- `StringFromString` returns the pointer to the first occurrence of the second string in the
-- first, or `NULL` if there is none.
pub string_from_string-find_sub :
    (f p q : ℕ) (m : Mem) (xs ys : List ℕ)
    → HoldsString m p xs
    → HoldsString m q ys
    → length xs < f
    → length ys < f
    → string_from_string f p q m ≡ done (at p (find_sub ys xs))
unfolding string_from_string
string_from_string-find_sub f p q m xs ys hx hy fx fy =
    rw (string_length_lem f q m ys hy fy) (search_loop-find_sub f p q m xs ys hx hy fx)
