-- ===== src/Tokenizer/Dictionary.antt =====
-- Which entries `CreateDelimitationDictionnary` sets.
use sipaa_kernel.Prelude.{
  ℕ, zero, suc, ◌+◌, ◌*◌, ◌≤◌, ◌<◌, ◌≡◌, ◌⊎◌, inl, inr, refl, subst, ap, ◌∙◌, arith, List, [], ◌∷◌,
  true, false, not, ◌==◌, ltb, has, length, if◌then◌else◌, Bool-cases, All,
}
use sipaa_kernel.Prelude.Run.{Run, done}
use sipaa_kernel.Mem.{Mem, store, memset}
use sipaa_kernel.Mem.Copy.{within, memset_lem}
use sipaa_kernel.Mem.Words.{load_word, store_word}
use sipaa_kernel.Strings.Holds.{HoldsString, HoldsString-frame, string_length_lem}
use sipaa_kernel.Tokenizer.{Heap, slot_of, dict_bytes, mark_delimiters, create_dictionary}
use sipaa_kernel.Tokenizer.Cut.{Ascii, Marks}

load-store :
    (d c x : ℕ) (m : Mem)
    → load_word 4 (d + 4 * c) (store_word 4 (d + 4 * x) 1 m)
      ≡ (if c == x then 1 else load_word 4 (d + 4 * c) m)
unfolding load_word store_word store
load-store d c x m = ground arith

store_frame :
    (d x a : ℕ) (m : Mem) → x < 128 → (a < d) ⊎ (d + 512 ≤ a) → store_word 4 (d + 4 * x) 1 m a ≡ m a
unfolding store_word store
store_frame d x a m low off = ground (arith, off)

-- the end of the loop, with the entries of the delimiters `zs` set in the dictionary at `d`
pub record Marked (d : ℕ) (zs : List ℕ) (m : Mem) (r : Run Mem) : Type 0 where
  pub memory : Mem
  pub ends : r ≡ done memory
  pub entries :
      (c : ℕ)
      → c < 128
      → load_word 4 (d + 4 * c) memory ≡ (if has c zs then 1 else load_word 4 (d + 4 * c) m)
  pub frame : (a : ℕ) → (a < d) ⊎ (d + 512 ≤ a) → memory a ≡ m a

module _ (f delim d : ℕ) (ds : List ℕ) (fuel : length ds < f)
    (apart : (delim + length ds < d) ⊎ (d + 512 ≤ delim)) where
  mark_delimiters-Marked :
      (rounds i : ℕ) (zs : List ℕ) (m : Mem)
      → HoldsString m delim ds
      → HoldsString m (delim + i) zs
      → i + length zs ≡ length ds
      → All (λ x. x < 128) zs
      → length zs < rounds
      → Marked d zs m (mark_delimiters f rounds i delim d m)
  unfolding mark_delimiters
  mark_delimiters-Marked zero i zs m whole part at ascii enough = absurd (omega arith)
  mark_delimiters-Marked (suc rounds) i [] m whole part at ascii enough =
      let len = string_length_lem f delim m ds whole fuel in
      let stop : ltb i (length ds) ≡ false = ground arith in
      record { memory = m; ends = rw (len, stop) refl; entries = λ c h. refl; frame = λ a h. refl }
  mark_delimiters-Marked (suc rounds) i (z ∷ zs) m whole part at ascii enough =
      let len = string_length_lem f delim m ds whole fuel in
      let more : ltb i (length ds) ≡ true = ground arith in
      let place : slot_of d (m (delim + i)) ≡ d + 4 * z = ground (arith, part.0, ascii.0) in
      let m' : Mem = store_word 4 (d + 4 * z) 1 m in
      let keeps : (a : ℕ) → delim ≤ a → a ≤ delim + length ds → m' a ≡ m a =
        λ a lo hi. store_frame d z a m ascii.0 (ground arith) in
      let next : delim + i + 1 ≡ delim + (i + 1) = omega arith in
      let rest =
        mark_delimiters-Marked rounds (i + 1) zs m' (HoldsString-frame m m' delim ds keeps whole)
          (HoldsString-frame m m' (delim + (i + 1)) zs
            (λ a lo hi. keeps a (omega arith) (omega arith)) (rw next at part.2))
          (omega arith) ascii.1 (omega arith) in
      record {
        memory = rest.memory;
        ends = rw (len, more, place) rest.ends;
        entries = λ c h. ground (arith, rest.entries c h, load-store d c z m);
        frame = λ a h. rest.frame a h ∙ store_frame d z a m ascii.0 h;
      }

-- a byte of the dictionary that was cleared
abbrev Cleared : (d n : ℕ) (m m0 : Mem) → Type 0
Cleared d n m m0 = (a : ℕ) → m0 a ≡ (if within d n a then 0 else m a)

load_word-Cleared :
    (d c : ℕ) (m m0 : Mem) → Cleared d 1024 m m0 → c < 128 → load_word 4 (d + 4 * c) m0 ≡ 0
unfolding load_word
load_word-Cleared d c m m0 clear low =
    let zeros : (i : ℕ) → i < 4 → m0 (d + 4 * c + i) ≡ 0 =
      λ i h. ground (arith, clear (d + 4 * c + i)) in
    ground (
      arith,
      zeros 0 (omega arith),
      zeros 1 (omega arith),
      zeros 2 (omega arith),
      zeros 3 (omega arith),
    )

Cleared-outside : (d n a : ℕ) (m m0 : Mem) → Cleared d n m m0 → (a < d) ⊎ (d + n ≤ a) → m0 a ≡ m a
Cleared-outside d n a m m0 clear out = ground (arith, clear a, out)

apart_entries :
    (delim l d : ℕ) → (delim + l < d) ⊎ (d + 1024 ≤ delim) → (delim + l < d) ⊎ (d + 512 ≤ delim)
apart_entries delim l d (inl low) = inl low
apart_entries delim l d (inr high) = inr (omega arith)

apart_entry : (a d : ℕ) → (a < d) ⊎ (d + 1024 ≤ a) → (a < d) ⊎ (d + 512 ≤ a)
apart_entry a d (inl low) = inl low
apart_entry a d (inr high) = inr (omega arith)

apart_byte :
    (delim l d a : ℕ)
    → (delim + l < d) ⊎ (d + 1024 ≤ delim)
    → delim ≤ a
    → a ≤ delim + l
    → (a < d) ⊎ (d + 1024 ≤ a)
apart_byte delim l d a (inl low) lo hi = inl (omega arith)
apart_byte delim l d a (inr high) lo hi = inr (omega arith)

-- the marks of a dictionary that was cleared and then set, as `is_marked` reads them
marked_as :
    (c : ℕ) (ds : List ℕ) (word : ℕ)
    → word ≡ (if has c ds then 1 else 0)
    → not (word == 0) ≡ has c ds
marked_as c ds word e = elim (Bool-cases (has c ds)) [
  | inl there ↦ let one : word ≡ 1 = rw there at e in rw there (ground (arith, one))
  | inr missing ↦ let nothing : word ≡ 0 = rw missing at e in rw missing (ground (arith, nothing))
]

module _ {W : Type 0} (k : Heap W) where
  marks_lem :
      (d : ℕ) (ds : List ℕ) (m0 m1 : Mem)
      → ((c : ℕ) → c < 128 → load_word 4 (d + 4 * c) m0 ≡ 0)
      → ((c : ℕ)
          → c < 128
          → load_word 4 (d + 4 * c) m1 ≡ (if has c ds then 1 else load_word 4 (d + 4 * c) m0))
      → Marks k d ds m1
  marks_lem d ds m0 m1 clear entries c low =
      let below : ltb c 128 ≡ true = ground arith in
      let word : load_word 4 (d + 4 * c) m1 ≡ (if has c ds then 1 else 0) =
        entries c low ∙ ap (λ v. if has c ds then 1 else v) (clear c low) in
      rw below (marked_as c ds (load_word 4 (d + 4 * c) m1) word)

  -- the dictionary that is made, and what it leaves alone
  pub record Made (ds : List ℕ) (m : Mem) (w : W) (r : Run (ℕ × Mem × W)) : Type 0 where
    pub memory : Mem
    pub ends : r ≡ done ((k.allocate dict_bytes w).0, memory, (k.allocate dict_bytes w).1)
    pub marks : Marks k (k.allocate dict_bytes w).0 ds memory
    pub frame :
        (a : ℕ)
        → (a < (k.allocate dict_bytes w).0) ⊎ ((k.allocate dict_bytes w).0 + dict_bytes ≤ a)
        → memory a ≡ m a

  -- For delimiters below 128 that do not lie in the 1024 bytes that the heap gives, the dictionary
  -- marks exactly the delimiters among the characters below 128, and no byte outside it changes.
  pub create_dictionary-Made :
      (f delim : ℕ) (ds : List ℕ) (m : Mem) (w : W)
      → HoldsString m delim ds
      → Ascii k ds
      → length ds < f
      → (delim + length ds < (k.allocate dict_bytes w).0)
        ⊎ ((k.allocate dict_bytes w).0 + dict_bytes ≤ delim)
      → Made ds m w (create_dictionary k f delim m w)
  unfolding create_dictionary
  create_dictionary-Made f delim ds m w h ascii enough apart =
      let d : ℕ = (k.allocate dict_bytes w).0 in
      let m0 : Mem = memset d 0 dict_bytes m in
      let clear : Cleared d dict_bytes m m0 = memset_lem d 0 dict_bytes m in
      let keeps = Cleared-outside d dict_bytes in
      let start : HoldsString m0 delim ds =
        HoldsString-frame m m0 delim ds
          (λ a lo hi. keeps a m m0 clear (apart_byte delim (length ds) d a apart lo hi)) h in
      let here : delim ≡ delim + 0 = omega arith in
      let run =
        mark_delimiters-Marked f delim d ds enough (apart_entries delim (length ds) d apart) f 0 ds
          m0 start (subst (λ p. HoldsString m0 p ds) here start) (omega arith) ascii enough in
      record {
        memory = run.memory;
        ends = rw run.ends refl;
        marks =
            marks_lem d ds m0 run.memory (λ c low. load_word-Cleared d c m m0 clear low)
              run.entries;
        frame = λ a out. run.frame a (apart_entry a d out) ∙ keeps a m m0 clear out;
      }
