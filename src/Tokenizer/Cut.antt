-- ===== src/Tokenizer/Cut.antt =====
-- Where `TokenizeString` cuts the next token, by the characters of the string.
use sipaa_kernel.Prelude.{
  ℕ, zero, suc, ◌+◌, ◌≤◌, ◌<◌, ◌≡◌, ◌≢◌, refl, sym, subst, ap, ◌∙◌, arith, List, [], ◌∷◌, Bool,
  true, false, not, ◌==◌, has, length, if◌then◌else◌, Bool-cases, inl, inr, All, ◌&&◌,
}
use sipaa_kernel.Prelude.Run.{Run, done}
use sipaa_kernel.Mem.{Mem, store}
use sipaa_kernel.Strings.Holds.{HoldsString}
use sipaa_kernel.Tokenizer.{
  Heap, Statics, is_marked, skip_delimiters, skip_token, cut_token, next_token,
}

and_true : (b : Bool) → (b && true) ≡ b
and_true true = refl
and_true false = refl

and_false : (b : Bool) → (b && false) ≡ false
and_false true = refl
and_false false = refl

-- the characters after leading delimiters, and the characters before the first delimiter
abbrev pub skipped : (ds xs : List ℕ) → List ℕ
skipped ds [] = []
skipped ds (x ∷ xs) = if has x ds then skipped ds xs else x ∷ xs

abbrev pub token : (ds xs : List ℕ) → List ℕ
token ds [] = []
token ds (x ∷ xs) = if has x ds then [] else x ∷ token ds xs

module _ {W : Type 0} (k : Heap W) where
  -- The dictionary at `d` marks exactly the delimiters among the characters below 128.
  abbrev pub Marks : (d : ℕ) → List ℕ → Mem → Type 0
  Marks d ds m = (c : ℕ) → c < 128 → is_marked k d c m ≡ has c ds

  abbrev pub Ascii : List ℕ → Type 0
  Ascii = All (λ x. x < 128)

  module _ (d : ℕ) (ds : List ℕ) (m : Mem) (marks : Marks d ds m) where
    mark_of : (p x : ℕ) → m p ≡ x → x < 128 → is_marked k d (m p) m ≡ has x ds
    mark_of p x e low = marks (m p) (omega (arith, e, low)) ∙ ap (λ c. has c ds) e

    -- one test of each of the two loops
    at_delimiter :
        (p x : ℕ)
        → m p ≡ x
        → x < 128
        → x ≢ 0
        → (is_marked k d (m p) m && not (m p == 0) ≡ has x ds)
          × (not (m p == 0) && not (is_marked k d (m p) m) ≡ not (has x ds))
    at_delimiter p x e low real =
        let there : (m p == 0) ≡ false = ground (arith, e, real) in
        rw (mark_of p x e low, there) (and_true (has x ds), refl)

    at_end :
        (p : ℕ)
        → m p ≡ 0
        → (is_marked k d (m p) m && not (m p == 0) ≡ false)
          × (not (m p == 0) && not (is_marked k d (m p) m) ≡ false)
    at_end p e =
        let nul : (m p == 0) ≡ true = ground (arith, e) in
        rw nul (and_false (is_marked k d (m p) m), refl)

    pub record Skipped (p : ℕ) (xs : List ℕ) (r : Run ℕ) : Type 0 where
      pub start : ℕ
      pub ends : r ≡ done start
      pub rest : HoldsString m start (skipped ds xs)
      pub place : start + length (skipped ds xs) ≡ p + length xs

    skip_delimiters-Skipped :
        (f p : ℕ) (xs : List ℕ)
        → HoldsString m p xs
        → Ascii xs
        → length xs < f
        → Skipped p xs (skip_delimiters k f d p m)
    unfolding skip_delimiters
    skip_delimiters-Skipped zero p xs h ascii enough = absurd (omega arith)
    skip_delimiters-Skipped (suc f) p [] h ascii enough = record {
      start = p;
      ends = rw (at_end p h).0 refl;
      rest = h;
      place = refl;
    }
    skip_delimiters-Skipped (suc f) p (x ∷ xs) h ascii enough =
        let test = (at_delimiter p x h.0 ascii.0 h.1).0 in
        elim (Bool-cases (has x ds)) [
          | inl delimiter ↦
              let next = skip_delimiters-Skipped f (p + 1) xs h.2 ascii.1 (omega arith) in
              record {
                start = next.start;
                ends = rw (test, delimiter) next.ends;
                rest = rw delimiter next.rest;
                place = rw delimiter (omega (arith, next.place));
              }
          | inr other ↦ record {
            start = p;
            ends = rw (test, other) refl;
            rest = rw other h;
            place = rw other refl;
          }
        ]

    skip_token_lem :
        (f p : ℕ) (xs : List ℕ)
        → HoldsString m p xs
        → Ascii xs
        → length xs < f
        → skip_token k f d p m ≡ done (p + length (token ds xs))
    unfolding skip_token
    skip_token_lem zero p xs h ascii enough = absurd (omega arith)
    skip_token_lem (suc f) p [] h ascii enough = rw (at_end p h).1 (ap done (omega arith))
    skip_token_lem (suc f) p (x ∷ xs) h ascii enough =
        let test = (at_delimiter p x h.0 ascii.0 h.1).1 in
        elim (Bool-cases (has x ds)) [
          | inl delimiter ↦ rw (test, delimiter) (ap done (omega arith))
          | inr other ↦
              rw (test, other)
                (skip_token_lem f (p + 1) xs h.2 ascii.1 (omega arith) ∙ ap done (omega arith))
        ]

-- Characters before a NUL that is written over the string.
HoldsString-cut :
    (ds : List ℕ) (m : Mem) (p end : ℕ) (xs : List ℕ)
    → end ≡ p + length (token ds xs)
    → HoldsString m p xs
    → HoldsString (store m end 0) p (token ds xs)
unfolding store
HoldsString-cut ds m p end [] e h = ground (arith, e)
HoldsString-cut ds m p end (x ∷ xs) e h = elim (Bool-cases (has x ds)) [
  | inl delimiter ↦
      let here : end ≡ p + 0 = rw delimiter at e in rw delimiter (ground (arith, here))
  | inr other ↦
      let later : end ≡ p + suc (length (token ds xs)) = rw other at e in
      rw other (
        ground (arith, later, h.0),
        h.1,
        HoldsString-cut ds m (p + 1) end xs (later ∙ omega arith) h.2,
      )
]

length-skipped : (ds xs : List ℕ) → length (skipped ds xs) ≤ length xs
length-skipped ds [] = omega arith
length-skipped ds (x ∷ xs) = elim (Bool-cases (has x ds)) [
  | inl delimiter ↦ rw delimiter (omega (arith, length-skipped ds xs))
  | inr other ↦ rw other (omega arith)
]

All-skipped : (P : ℕ → Type 0) (ds xs : List ℕ) → All P xs → All P (skipped ds xs)
All-skipped P ds [] h = h
All-skipped P ds (x ∷ xs) h = elim (Bool-cases (has x ds)) [
  | inl delimiter ↦ rw delimiter (All-skipped P ds xs h.1)
  | inr other ↦ rw other h
]

module _ {W : Type 0} (k : Heap W) (d : ℕ) (ds : List ℕ) (m : Mem) (marks : Marks k d ds m)
    (st : Statics) (w : W) where
  -- where there is a token, with the state after it, and where there is none
  pub record Token (xs : List ℕ) (r : Run (ℕ × Statics × Mem × W)) : Type 0 where
    pub start : ℕ
    pub end : ℕ
    pub place : start + length (skipped ds xs) ≡ st.last + length xs
    pub extent : end ≡ start + length (token ds (skipped ds xs))
    pub returns : r ≡ done (start, record st { last = end + 1 }, store m end 0, k.free d w)
    pub text : HoldsString (store m end 0) start (token ds (skipped ds xs))

  pub data NextToken (xs : List ℕ) (r : Run (ℕ × Statics × Mem × W)) : Type 0 where
    found : skipped ds xs ≢ [] → Token xs r → NextToken xs r
    finished :
        (last : ℕ)
        → skipped ds xs ≡ []
        → r ≡ done (0, record st { last = last }, m, k.free st.to_free (k.free d w))
        → NextToken xs r

  -- the cut, by the characters `ys` that are left behind the delimiters
  cut_token-NextToken :
      (f start : ℕ) (xs ys : List ℕ)
      → skipped ds xs ≡ ys
      → HoldsString m start ys
      → Ascii k ys
      → length ys < f
      → start + length ys ≡ st.last + length xs
      → NextToken xs (cut_token k f d start st m w)
  unfolding cut_token
  cut_token-NextToken f start xs [] e h ascii enough place =
      let nul : (m start == 0) ≡ true = ground (arith, h) in rw nul (finished start e refl)
  cut_token-NextToken f start xs (y ∷ ys) e h ascii enough place =
      let there : (m start == 0) ≡ false = ground (arith, h) in
      let end : ℕ = start + length (token ds (y ∷ ys)) in
      let some_left : skipped ds xs ≢ [] = λ none_left. ground (arith, e, none_left) in
      rw there (
        found some_left (record {
          start = start;
          end = end;
          place = ap (λ l. start + length l) e ∙ place;
          extent = ap (λ l. start + length (token ds l)) (sym e);
          returns = rw (skip_token_lem k d ds m marks f start (y ∷ ys) h ascii enough) refl;
          text =
              subst (λ l. HoldsString (store m end 0) start (token ds l)) (sym e)
                (HoldsString-cut ds m start end (y ∷ ys) refl h);
        }))

  -- With a dictionary that marks the delimiters, and a string of characters below 128 from the saved
  -- position on, the next token starts after the delimiters in front and reaches to the next one or to
  -- the end: it is returned, cut off by a NUL that is the only change of memory, the saved position is
  -- behind that NUL and the dictionary is freed. With delimiters only, `NULL` is returned, memory stays
  -- as it is, and the copy of the string is freed too.
  pub next_token-NextToken :
      (f : ℕ) (xs : List ℕ)
      → HoldsString m st.last xs
      → Ascii k xs
      → length xs < f
      → NextToken xs (next_token k f d st m w)
  unfolding next_token
  next_token-NextToken f xs h ascii enough =
      let skip = skip_delimiters-Skipped k d ds m marks f st.last xs h ascii enough in
      rw skip.ends (
        cut_token-NextToken f skip.start xs (skipped ds xs) refl skip.rest
          (All-skipped (λ x. x < 128) ds xs ascii) (omega (arith, length-skipped ds xs)) skip.place)
