-- ===== src/Tokenizer/Calls.antt =====
-- Whole calls of `TokenizeString`: one that goes on with the string of the last call, and one
-- that begins a new string.
use sipaa_kernel.Prelude.{
  ℕ, suc, ◌+◌, ◌*◌, ◌≤◌, ◌<◌, ◌≡◌, ◌≢◌, ◌⊎◌, inl, inr, ◌∙◌, arith, List, true, false, ◌==◌, ltb,
  not, length, has,
}
use sipaa_kernel.Prelude.Run.{Run, ◌>>=◌}
use sipaa_kernel.Mem.{Mem}
use sipaa_kernel.Mem.Words.{load_word}
use sipaa_kernel.Strings.Copy.{Apart, Copied, copy_string-HoldsString}
use sipaa_kernel.Strings.Holds.{HoldsString, HoldsString-frame, string_length_lem}
use sipaa_kernel.Tokenizer.{
  Heap, Statics, dict_bytes, create_dictionary, begin_string, next_token, tokenize_string,
}
use sipaa_kernel.Tokenizer.Cut.{Ascii, Marks, NextToken, next_token-NextToken}
use sipaa_kernel.Tokenizer.Dictionary.{Made, create_dictionary-Made}

-- the `n` bytes at `p` and those of the dictionary at `d` have none in common
abbrev pub Disjoint : (p n d : ℕ) → Type 0
Disjoint p n d = (p + n ≤ d) ⊎ (d + dict_bytes ≤ p)

Disjoint-byte : (p n d a : ℕ) → Disjoint p n d → p ≤ a → a < p + n → (a < d) ⊎ (d + dict_bytes ≤ a)
Disjoint-byte p n d a (inl low) lo hi = inl (omega arith)
Disjoint-byte p n d a (inr high) lo hi = inr (omega arith)

Disjoint-strict : (p n d : ℕ) → Disjoint p (suc n) d → (p + n < d) ⊎ (d + dict_bytes ≤ p)
Disjoint-strict p n d (inl low) = inl (omega arith)
Disjoint-strict p n d (inr high) = inr high

Disjoint-copy : (p n d a : ℕ) → Disjoint p n d → d ≤ a → a < d + 512 → (a < p) ⊎ (p + n ≤ a)
Disjoint-copy p n d a (inl low) lo hi = inr (omega arith)
Disjoint-copy p n d a (inr high) lo hi = inl (omega arith)

Copied-outside :
    (p str n a : ℕ) (m m' : Mem)
    → Copied p str (n + 1) m m'
    → (a < p) ⊎ (p + suc n ≤ a)
    → m' a ≡ m a
Copied-outside p str n a m m' copied out = ground (arith, copied a, out)

load_word-frame :
    (a : ℕ) (m m' : Mem)
    → ((b : ℕ) → a ≤ b → b < a + 4 → m' b ≡ m b)
    → load_word 4 a m' ≡ load_word 4 a m
unfolding load_word
load_word-frame a m m' same = ground (arith, same (a + 0), same (a + 1), same (a + 2), same (a + 3))

module _ {W : Type 0} (k : Heap W) where
  Marks-frame :
      (d : ℕ) (ds : List ℕ) (m m' : Mem)
      → ((a : ℕ) → d ≤ a → a < d + 512 → m' a ≡ m a)
      → Marks k d ds m
      → Marks k d ds m'
  Marks-frame d ds m m' same marks c low =
      let below : ltb c 128 ≡ true = ground arith in
      let word : load_word 4 (d + 4 * c) m' ≡ load_word 4 (d + 4 * c) m =
        load_word-frame (d + 4 * c) m m' (λ b lo hi. same b (omega arith) (omega arith)) in
      let before : not (load_word 4 (d + 4 * c) m == 0) ≡ has c ds = rw below at (marks c low) in
      rw (below, word) before

  -- a call, whose dictionary is made first, and whose token is then cut from `xs`
  pub record Continued (ds xs : List ℕ) (st : Statics) (m : Mem) (w : W)
      (made_by : Run (ℕ × Mem × W)) (r : Run (ℕ × Statics × Mem × W)) : Type 0 where
    pub made : Made k ds m w made_by
    pub cut :
        NextToken k
          (k.allocate dict_bytes w).0
          ds
          made.memory
          made.marks
          st
          (k.allocate dict_bytes w).1
          xs
          r

  -- For a call with `NULL` as the string, where the delimiters and the string from the saved position
  -- on are below 128 and lie outside the dictionary that the heap gives: the dictionary marks exactly
  -- the delimiters, no byte outside it changes before the cut, and the next token is cut and returned,
  -- or `NULL` when only delimiters are left.
  pub tokenize_string-Continued :
      (f delim : ℕ) (ds xs : List ℕ) (st : Statics) (m : Mem) (w : W)
      → HoldsString m delim ds
      → HoldsString m st.last xs
      → Ascii k ds
      → Ascii k xs
      → length ds < f
      → length xs < f
      → (k.allocate dict_bytes w).0 ≢ 0
      → Disjoint delim (suc (length ds)) (k.allocate dict_bytes w).0
      → Disjoint st.last (suc (length xs)) (k.allocate dict_bytes w).0
      → Continued ds xs st m w
          (create_dictionary k f delim m w)
          (tokenize_string k f 0 delim st m w)
  unfolding tokenize_string begin_string
  tokenize_string-Continued f delim ds xs st m w h hx ascii asciix enough enoughx real apart
        apartx =
      let d : ℕ = (k.allocate dict_bytes w).0 in
      let made =
        create_dictionary-Made k f delim ds m w h ascii enough
          (Disjoint-strict delim (length ds) d apart) in
      let some_heap : (d == 0) ≡ false = ground arith in
      let text : HoldsString made.memory st.last xs =
        HoldsString-frame m made.memory st.last xs
          (λ a lo hi.
            made.frame a (Disjoint-byte st.last (suc (length xs)) d a apartx lo (omega arith)))
          hx in
      record {
        made = made;
        cut =
            rw (made.ends, some_heap)
              (next_token-NextToken k d ds made.memory made.marks st (k.allocate dict_bytes w).1 f
                xs text asciix enoughx);
      }

  -- a call that begins a string: the dictionary `d`, the copy `p` of the string, and the cut from it
  pub record Begun (ds xs : List ℕ) (str d p : ℕ) (m : Mem) (w : W)
      (r : Run (ℕ × Statics × Mem × W)) : Type 0 where
    pub memory : Mem
    pub marks : Marks k d ds memory
    pub copied : HoldsString memory p xs
    pub frame :
        (a : ℕ)
        → (a < d) ⊎ (d + dict_bytes ≤ a)
        → (a < p) ⊎ (p + suc (length xs) ≤ a)
        → memory a ≡ m a
    pub cut : NextToken k d ds memory marks (record { last = p; to_free = p }) w xs r

  -- the part after the dictionary
  begin_string-Begun :
      (f str d : ℕ) (ds xs : List ℕ) (st : Statics) (m m1 : Mem) (w : W)
      → Marks k d ds m1
      → ((a : ℕ) → (a < d) ⊎ (d + dict_bytes ≤ a) → m1 a ≡ m a)
      → HoldsString m1 str xs
      → Ascii k xs
      → length xs < f
      → str ≢ 0
      → (k.allocate (length xs + 1) w).0 ≢ 0
      → Disjoint (k.allocate (length xs + 1) w).0 (suc (length xs)) d
      → Apart (k.allocate (length xs + 1) w).0 str (length xs + 1)
      → Begun ds xs str d
          (k.allocate (length xs + 1) w).0
          m
          (k.allocate (length xs + 1) w).1
          (begin_string k f str d st m1 w >>= (λ s. next_token k f d s.0 s.1 s.2))
  unfolding begin_string
  begin_string-Begun f str d ds xs st m m1 w marks frame h ascii enough given real off apart =
      let p : ℕ = (k.allocate (length xs + 1) w).0 in
      let some_string : (str == 0) ≡ false = ground arith in
      let some_heap : (p == 0) ≡ false = ground arith in
      let (m2, run, held, copied) = copy_string-HoldsString f p str m1 xs h apart enough in
      let outside : (a : ℕ) → (a < p) ⊎ (p + suc (length xs) ≤ a) → m2 a ≡ m1 a =
        λ a out. Copied-outside p str (length xs) a m1 m2 copied out in
      let marks2 : Marks k d ds m2 =
        Marks-frame d ds m1 m2
          (λ a lo hi. outside a (Disjoint-copy p (suc (length xs)) d a off lo hi)) marks in
      record {
        memory = m2;
        marks = marks2;
        copied = held;
        frame = λ a out1 out2. outside a out2 ∙ frame a out1;
        cut =
            rw (some_string, string_length_lem f str m1 xs h enough, run, some_heap)
              (next_token-NextToken k d ds m2 marks2 (record { last = p; to_free = p })
                (k.allocate (length xs + 1) w).1 f xs held ascii enough);
      }

  -- For a call with a string, where the delimiters and the string are below 128, the heap gives a
  -- dictionary and a copy, and these have no byte in common with each other, and the dictionary none
  -- with the strings: the copy holds the string, no byte outside the two blocks changes before the cut,
  -- and the first token is cut from the copy and returned, or `NULL` when there are delimiters only.
  pub tokenize_string-Begun :
      (f str delim : ℕ) (ds xs : List ℕ) (st : Statics) (m : Mem) (w : W)
      → HoldsString m delim ds
      → HoldsString m str xs
      → Ascii k ds
      → Ascii k xs
      → length ds < f
      → length xs < f
      → str ≢ 0
      → (let (d, w1) = k.allocate dict_bytes w in
          (d ≢ 0)
          × Disjoint delim (suc (length ds)) d
          × Disjoint str (suc (length xs)) d
          × ((k.allocate (length xs + 1) w1).0 ≢ 0)
          × Disjoint (k.allocate (length xs + 1) w1).0 (suc (length xs)) d
          × Apart (k.allocate (length xs + 1) w1).0 str (length xs + 1))
      → (let (d, w1) = k.allocate dict_bytes w in
          let (p, w2) = k.allocate (length xs + 1) w1 in
          Begun ds xs str d p m w2 (tokenize_string k f str delim st m w))
  unfolding tokenize_string
  tokenize_string-Begun f str delim ds xs st m w h hx ascii asciix enough enoughx given heap =
      let d : ℕ = (k.allocate dict_bytes w).0 in
      let w1 : W = (k.allocate dict_bytes w).1 in
      let (real, apart, apartx, realp, offp, apartp) = heap in
      let made =
        create_dictionary-Made k f delim ds m w h ascii enough
          (Disjoint-strict delim (length ds) d apart) in
      let some_heap : (d == 0) ≡ false = ground arith in
      let text : HoldsString made.memory str xs =
        HoldsString-frame m made.memory str xs
          (λ a lo hi.
            made.frame a (Disjoint-byte str (suc (length xs)) d a apartx lo (omega arith)))
          hx in
      rw (made.ends, some_heap)
        (begin_string-Begun f str d ds xs st m made.memory w1 made.marks made.frame text asciix
          enoughx given realp offp apartp)
