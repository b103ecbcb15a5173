-- ===== src/CmdLine/Value.antt =====
-- What `CmdLine_GetOption` leaves in memory for an option "key=value".
use sipaa_kernel.Prelude.{
  ℕ, zero, suc, ◌+◌, ◌<◌, ◌≡◌, ◌≢◌, ◌⊎◌, inl, inr, refl, sym, ap, ◌∙◌, subst, arith, List, [], ◌∷◌,
  ◌++◌, true, false, length, has, pos, some, negsuc, Bool-cases, min, ℤ,
}
use sipaa_kernel.Prelude.Run.{Run, done}
use sipaa_kernel.Mem.{Mem, store}
use sipaa_kernel.Strings.{char_from_string, copy_string_n, is_zero}
use sipaa_kernel.Strings.Compare.{
  order, order_self, compare_strings-order, compare_strings-eq_zero_iff,
}
use sipaa_kernel.Strings.Copy.{Apart, Copied, copy_string_n_lem}
use sipaa_kernel.Strings.Holds.{HoldsString, HoldsString-frame}
use sipaa_kernel.CmdLine.{equals_sign, value_size, split_option, get_option}

-- the first `'='` of a string
char_from_string-split :
    (f s : ℕ) (m : Mem) (xs ys : List ℕ)
    → HoldsString m s (xs ++ equals_sign ∷ ys)
    → has equals_sign xs ≡ false
    → length xs < f
    → char_from_string f s equals_sign m ≡ done (some (s + length xs))
unfolding char_from_string
char_from_string-split zero s m xs ys h first enough = absurd (omega arith)
char_from_string-split (suc f) s m [] ys h first enough = ground (arith, h.0)
char_from_string-split (suc f) s m (x ∷ xs) ys h first enough =
    let place : s + 1 + length xs ≡ s + suc (length xs) = omega arith in
    ground (arith, h.0, h.1, first, place, char_from_string-split f (s + 1) m xs ys h.2)

-- the two strings after a NUL is written over the `'='`
HoldsString-before :
    (s : ℕ) (m : Mem) (xs ys : List ℕ)
    → HoldsString m s (xs ++ equals_sign ∷ ys)
    → HoldsString (store m (s + length xs) 0) s xs
unfolding store
HoldsString-before s m [] ys h = ground arith
HoldsString-before s m (x ∷ xs) ys h =
    let place : s + suc (length xs) ≡ s + 1 + length xs = omega arith in
    (
      ground (arith, h.0),
      h.1,
      subst (λ a. HoldsString (store m a 0) (s + 1) xs) (sym place)
          (HoldsString-before (s + 1) m xs ys h.2),
    )

HoldsString-after :
    (s : ℕ) (m : Mem) (xs ys : List ℕ)
    → HoldsString m s (xs ++ equals_sign ∷ ys)
    → HoldsString m (s + length xs + 1) ys
HoldsString-after s m [] ys h = let place : s + 0 + 1 ≡ s + 1 = omega arith in rw place h.2
HoldsString-after s m (x ∷ xs) ys h =
    let place : s + suc (length xs) + 1 ≡ s + 1 + length xs + 1 = omega arith in
    rw place (HoldsString-after (s + 1) m xs ys h.2)

is_zero-pos_0 : (z : ℤ) → is_zero z ≡ true → z ≡ pos 0
unfolding is_zero
is_zero-pos_0 (pos zero) e = refl
is_zero-pos_0 (pos (suc n)) e = ground arith
is_zero-pos_0 (negsuc n) e = ground arith

-- the memory in which the `'='` is cut off, and the end of the call for the key that it is compared with
abbrev pub cut_at_sign : (token : ℕ) → List ℕ → Mem → Mem
cut_at_sign token xs m = store m (token + length xs) 0

pub data OptionValue (value token : ℕ) (ks xs ys : List ℕ) (m : Mem) (r : Run Mem) : Type 0 where
  matches :
      (m' : Mem)
      → ks ≡ xs
      → r ≡ done m'
      → Copied value
          (token + length xs + 1)
          (min value_size (length ys + 1))
          (cut_at_sign token xs m)
          m'
      → OptionValue value token ks xs ys m r
  differs : ks ≢ xs → r ≡ done (cut_at_sign token xs m) → OptionValue value token ks xs ys m r

-- For an option with the characters `xs`, none of them `'='`, the sign and the characters `ys`, and a
-- key outside the byte of the sign: the call ends, the sign is replaced by a NUL, and exactly when the
-- key is `xs`, the first 8 bytes of `ys` and its NUL, or fewer if it is shorter, are copied to the
-- value. Nothing else changes. The value starts no later than `ys` or behind its NUL.
pub get_option-OptionValue :
    (f key value token : ℕ) (m : Mem) (ks xs ys : List ℕ)
    → HoldsString m key ks
    → HoldsString m token (xs ++ equals_sign ∷ ys)
    → has equals_sign xs ≡ false
    → (key + length ks < token + length xs) ⊎ (token + length xs < key)
    → Apart value (token + length xs + 1) (length ys + 1)
    → length xs < f
    → length ks < f
    → OptionValue value token ks xs ys m (get_option f key value token m)
unfolding get_option split_option store is_zero
get_option-OptionValue f key value token m ks xs ys hk ht first off apart enough enoughk =
    let cut : Mem = cut_at_sign token xs m in
    let k1 : HoldsString cut key ks =
      HoldsString-frame m cut key ks (λ a lo hi. ground (arith, off)) hk in
    let t1 = HoldsString-before token m xs ys ht in
    let y1 : HoldsString cut (token + length xs + 1) ys =
      HoldsString-frame m cut (token + length xs + 1) ys (λ a lo hi. ground arith)
        (HoldsString-after token m xs ys ht) in
    let run = compare_strings-order f key token cut ks xs k1 t1 enoughk in
    let equal = compare_strings-eq_zero_iff f key token cut ks xs k1 t1 enoughk in
    let at = char_from_string-split f token m xs ys ht first enough in
    elim (Bool-cases (is_zero (order ks xs))) [
      | inl same ↦
          matches (copy_string_n value_size value (token + length xs + 1) cut)
            (equal.0 (run ∙ ap done (is_zero-pos_0 (order ks xs) same))) (rw (at, run, same) refl)
            (copy_string_n_lem value_size value (token + length xs + 1) cut ys y1 apart)
      | inr other ↦
          differs
            (λ e.
              let none_left : order ks xs ≡ pos 0 = ap (order ks) (sym e) ∙ order_self ks in
              let zero_left : is_zero (order ks xs) ≡ true = ap is_zero none_left in
              ground (arith, other, zero_left))
            (rw (at, run, other) refl)
    ]
