-- ===== src/CmdLine.antt =====
-- src/sys/cmdline.c: an option "key=value" of the command line. The `value` is a parameter, so that
-- `sizeof(value)` is the size of a pointer.
pub mod Value
use sipaa_kernel.Prelude.{ℕ, zero, suc, ◌+◌, Option, none, some, if◌then◌else◌}
use sipaa_kernel.Prelude.Run.{Run, done, ◌>>=◌}
use sipaa_kernel.Mem.{Mem, store}
use sipaa_kernel.Strings.{char_from_string, compare_strings, copy_string_n, is_zero}

-- `'='`
abbrev pub equals_sign : ℕ
equals_sign = 61

-- `sizeof(value)`
abbrev pub value_size : ℕ
value_size = 8

-- the part under `if (p != NULL)`
unfoldable pub split_option : (fuel key value token : ℕ) → Option ℕ → Mem → Run Mem
unfolding compare_strings
split_option fuel key value token none m = done m
split_option fuel key value token (some p) m =
    let m1 = store m p 0 in
    do
      order ← compare_strings fuel key token m1
      done (if is_zero order then copy_string_n value_size value (p + 1) m1 else m1)

-- `CmdLine_GetOption`
unfoldable pub get_option : (fuel key value token : ℕ) → Mem → Run Mem
unfolding char_from_string split_option
get_option fuel key value token m = do
  p ← char_from_string fuel token equals_sign m
  split_option fuel key value token p m
