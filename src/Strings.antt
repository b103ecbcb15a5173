-- ===== src/Strings.antt =====
-- src/klibc/string: the C string functions over the byte memory.
-- A loop that stops at a byte of memory runs on fuel; `n` rounds bound the others. A character is
-- its byte, so equality of `char` is equality of bytes. A pointer result is `none` for `NULL`.
pub mod Holds
pub mod Compare
pub mod Copy
pub mod Find
pub mod Remove
use sipaa_kernel.Prelude.{
  ℕ, zero, suc, ◌+◌, ◌-◌, ◌%◌, ◌≡◌, ◌≢◌, ◌&&◌, Bool, Option, none, some, List, [], ◌∷◌, ltb, ◌==◌,
  if◌then◌else◌, not, ℤ, pos, negsuc, sub_ℕ, true, false,
}
use sipaa_kernel.Prelude.Run.{Run, done, out_of_fuel, ◌>>=◌}
use sipaa_kernel.Mem.{Mem, store, memcmp, memmove}

-- `StringLength`: `len` counts up until `s[len]` is NUL.
length_loop : ℕ → ℕ → ℕ → Mem → Run ℕ
length_loop zero s len m = out_of_fuel
length_loop (suc f) s len m =
    let rest = length_loop f s (len + 1) m in if not (m (s + len) == 0) then rest else done len

unfoldable pub string_length : ℕ → ℕ → Mem → Run ℕ
unfolding length_loop
string_length f s m = length_loop f s 0 m

unfoldable pub compare_strings : ℕ → ℕ → ℕ → Mem → Run ℤ
compare_strings zero str1 str2 m = out_of_fuel
compare_strings (suc f) str1 str2 m =
    let rest = compare_strings f (str1 + 1) (str2 + 1) m in
    if not (m str1 == 0) && (not (m str2 == 0) && (m str1 == m str2))
    then rest
    else done (sub_ℕ (m str1) (m str2))

unfoldable pub compare_strings_n : ℕ → ℕ → ℕ → Mem → ℤ
compare_strings_n zero s1 s2 m = pos 0
compare_strings_n (suc n) s1 s2 m =
    let rest = compare_strings_n n (s1 + 1) (s2 + 1) m in
    if not (m s1 == 0) && (m s1 == m s2) then rest else sub_ℕ (m s1) (m s2)

unfoldable pub copy_string : ℕ → ℕ → ℕ → Mem → Run Mem
copy_string zero dst src m = out_of_fuel
copy_string (suc f) dst src m =
    let m' = store m dst (m src) in
    let rest = copy_string f (dst + 1) (src + 1) m' in if not (m src == 0) then rest else done m'

unfoldable pub copy_string_n : ℕ → ℕ → ℕ → Mem → Mem
copy_string_n zero dst src m = m
copy_string_n (suc n) dst src m =
    let m' = store m dst (m src) in
    let rest = copy_string_n n (dst + 1) (src + 1) m' in if not (m src == 0) then rest else m'

-- `CharFromString`; `c` is the bit pattern of the `int` that is cast to `char`.
unfoldable pub char_from_string : ℕ → ℕ → ℕ → Mem → Run (Option ℕ)
char_from_string zero s c m = out_of_fuel
char_from_string (suc f) s c m =
    let rest = char_from_string f (s + 1) c m in
    if not (m s == c % 256) then (if m s == 0 then done none else rest) else done (some s)

unfoldable pub is_zero : ℤ → Bool
is_zero (pos zero) = true
is_zero _ = false

-- the loop of `StringFromString`: `n` is the length of the second string
search_loop : ℕ → ℕ → ℕ → ℕ → Mem → Run (Option ℕ)
unfolding is_zero
search_loop zero s1 s2 n m = out_of_fuel
search_loop (suc f) s1 s2 n m =
    let rest = search_loop f (s1 + 1) s2 n m in
    if m s1 == 0 then done none else if is_zero (memcmp s1 s2 n m) then done (some s1) else rest

unfoldable pub string_from_string : ℕ → ℕ → ℕ → Mem → Run (Option ℕ)
unfolding search_loop
string_from_string f s1 s2 m = do n ← string_length f s2 m; search_loop f s1 s2 n m

-- the body of `StringRemove` under `if (p)`
cut_at : ℕ → ℕ → Option ℕ → Mem → Run Mem
cut_at f sub none m = done m
cut_at f sub (some p) m = do
  n ← string_length f sub m
  rest ← string_length f (p + n) m
  done (memmove p (p + n) (rest + 1) m)

unfoldable pub string_remove : ℕ → ℕ → ℕ → Mem → Run Mem
unfolding cut_at
string_remove f str sub m = do p ← string_from_string f str sub m; cut_at f sub p m
