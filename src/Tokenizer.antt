-- ===== src/Tokenizer.antt =====
-- src/klibc/string/TokenizeString.c: the parts of a string between delimiters. The kernel heap is an
-- interface over a world `W`; the static variables `last` and `to_free` are a record. A `char` is
-- signed, so that one from 128 on indexes before the dictionary.
pub mod Cut
pub mod Dictionary
pub mod Calls
use sipaa_kernel.Prelude.{
  ℕ, zero, suc, ◌+◌, ◌-◌, ◌*◌, ◌%◌, ◌^◌, Bool, true, false, ◌==◌, ltb, not, ◌&&◌, if◌then◌else◌,
}
use sipaa_kernel.Prelude.Run.{Run, done, out_of_fuel, ◌>>=◌}
use sipaa_kernel.Mem.{Mem, store, memset}
use sipaa_kernel.Mem.Words.{load_word, store_word}
use sipaa_kernel.Strings.{string_length, copy_string}

-- `KHeap_Allocate` and `KHeap_Free`
pub record Heap (W : Type 0) : Type 0 where
  pub allocate : (size : ℕ) → W → ℕ × W
  pub free : (ptr : ℕ) → W → W

-- `last` and `to_free`
pub record Statics : Type 0 where
  pub last : ℕ
  pub to_free : ℕ

abbrev pub dict_bytes : ℕ
dict_bytes = 1024

-- the address of the entry of a character
abbrev pub slot_of : (d c : ℕ) → ℕ
slot_of d c = if ltb c 128 then d + 4 * c else (d + 4 * c + (2 ^ 64 - 1024)) % 2 ^ 64

-- the loop of `CreateDelimitationDictionnary`, which measures the string in each round
unfoldable pub mark_delimiters : (fuel rounds i delim d : ℕ) → Mem → Run Mem
unfolding string_length store_word
mark_delimiters fuel zero i delim d m = out_of_fuel
mark_delimiters fuel (suc rounds) i delim d m = do
  n ← string_length fuel delim m
  (let rest =
        mark_delimiters fuel rounds (i + 1) delim d
          (store_word 4 (slot_of d (m (delim + i))) 1 m) in
      if ltb i n then rest else done m)

module _ {W : Type 0} (k : Heap W) where
  -- `CreateDelimitationDictionnary`
  unfoldable pub create_dictionary : (fuel delim : ℕ) → Mem → W → Run (ℕ × Mem × W)
  unfolding mark_delimiters
  create_dictionary fuel delim m w =
      let (d, w1) = k.allocate dict_bytes w in
      do
        marked ← mark_delimiters fuel fuel 0 delim d (memset d 0 dict_bytes m)
        done (d, marked, w1)

  -- `deli_dict[c]`
  abbrev pub is_marked : (d c : ℕ) → Mem → Bool
  is_marked d c m = not (load_word 4 (slot_of d c) m == 0)

  -- the loop over the delimiters before a token
  skip_delimiters : (fuel d last : ℕ) → Mem → Run ℕ
  unfolding load_word
  skip_delimiters zero d last m = out_of_fuel
  skip_delimiters (suc fuel) d last m =
      let rest = skip_delimiters fuel d (last + 1) m in
      if is_marked d (m last) m && not (m last == 0) then rest else done last

  -- the loop over the characters of a token
  skip_token : (fuel d last : ℕ) → Mem → Run ℕ
  unfolding load_word
  skip_token zero d last m = out_of_fuel
  skip_token (suc fuel) d last m =
      let rest = skip_token fuel d (last + 1) m in
      if not (m last == 0) && not (is_marked d (m last) m) then rest else done last

  -- the part under `if(str)`: a copy of the string is made, whatever the heap answers
  begin_string : (fuel str d : ℕ) → Statics → Mem → W → Run (Statics × Mem × W)
  unfolding string_length copy_string
  begin_string fuel str d st m w = if str == 0 then done (st, m, w) else (do
    n ← string_length fuel str m
    (let (p, w1) = k.allocate (n + 1) w in
        do
          m1 ← copy_string fuel p str m
          done (record { last = p; to_free = p }, m1, if p == 0 then k.free d w1 else w1)))

  -- from `str = last` on, where `start` is that position
  unfoldable pub cut_token : (fuel d start : ℕ) → Statics → Mem → W → Run (ℕ × Statics × Mem × W)
  unfolding skip_token store
  cut_token fuel d start st m w =
      if m start == 0
      then done (0, record st { last = start }, m, k.free st.to_free (k.free d w))
      else (do
        end ← skip_token fuel d start m
        done (start, record st { last = end + 1 }, store m end 0, k.free d w))

  -- the part after it: the next token is cut off
  unfoldable pub next_token : (fuel d : ℕ) → Statics → Mem → W → Run (ℕ × Statics × Mem × W)
  unfolding skip_delimiters cut_token
  next_token fuel d st m w = do
    start ← skip_delimiters fuel d st.last m
    cut_token fuel d start st m w

  -- `TokenizeString`: the token, or 0 for `NULL`
  unfoldable pub tokenize_string :
      (fuel str delim : ℕ) → Statics → Mem → W → Run (ℕ × Statics × Mem × W)
  unfolding create_dictionary begin_string next_token
  tokenize_string fuel str delim st m w = do
    (d, m1, w1) ← create_dictionary fuel delim m w
    (if d == 0
        then done (0, st, m1, w1)
        else (do (st1, m2, w2) ← begin_string fuel str d st m1 w1; next_token fuel d st1 m2 w2))
