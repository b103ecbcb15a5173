-- ===== src/HelloFs/Read.antt =====
-- Which bytes `HelloFS_Read` copies.
use sipaa_kernel.Prelude.{
  ℕ, zero, suc, ◌+◌, ◌-◌, ◌%◌, ◌^◌, ◌≤◌, ◌<◌, ◌≡◌, ◌≢◌, ◌⊎◌, inl, inr, refl, arith, true, false,
  ◌==◌, ◌&&◌, ltb, leb, if◌then◌else◌, Bool-cases,
}
use sipaa_kernel.Mem.{Mem, store}
use sipaa_kernel.Mem.Copy.{within}
use sipaa_kernel.HelloFs.{read_loop, hello_read}

read_loop_lem :
    (rounds i hello buffer : ℕ) (m : Mem) (a : ℕ)
    → i + rounds < 2 ^ 31
    → (buffer ≤ hello) ⊎ (hello + i + rounds ≤ buffer)
    → read_loop rounds i hello buffer m a
      ≡ (if within (buffer + i) rounds a then m (hello + (a - buffer)) else m a)
unfolding read_loop store
read_loop_lem zero i hello buffer m a small apart = ground arith
read_loop_lem (suc rounds) i hello buffer m a small apart =
    let low : ltb i (2 ^ 31) ≡ true = ground arith in
    let rest =
      read_loop_lem rounds (i + 1) hello buffer (store m (buffer + i) (m (hello + i))) a
        (omega arith) in
    ground (arith, low, rest)

-- the loop with the rounds that `count` leaves, none when the offset is behind it
read_loop-count :
    (offset count hello buffer : ℕ) (m : Mem) (a : ℕ)
    → offset < 2 ^ 31
    → count < 2 ^ 31
    → (buffer ≤ hello) ⊎ (hello + count ≤ buffer)
    → read_loop (count - offset) offset hello buffer m a
      ≡ (if within (buffer + offset) (count - offset) a then m (hello + (a - buffer)) else m a)
unfolding read_loop
read_loop-count offset count hello buffer m a o c apart = elim (Bool-cases (ltb offset count)) [
  | inl some_left ↦
      read_loop_lem (count - offset) offset hello buffer m a (ground (arith, some_left))
        (ground (arith, some_left))
  | inr none_left ↦
      let no_round : count - offset ≡ 0 = ground (arith, none_left) in
      let outside : within (buffer + offset) 0 a ≡ false = ground arith in
      rw (no_round, outside) refl
]

-- the test of the size, which an offset behind the end passes
refused :
    (size offset count : ℕ)
    → size < 2 ^ 31
    → offset < 2 ^ 31
    → count < 2 ^ 31
    → ltb ((size + (2 ^ 64 - offset)) % 2 ^ 64) count
      ≡ (leb offset size && ltb (size - offset) count)
refused size offset count s o c = ground arith

-- For a size, an offset and a count below 2 ^ 31 and a buffer that starts no later than the file or
-- behind the bytes read: with the offset in the file, a count of more than what is left copies nothing.
-- Otherwise, also with an offset behind the end, the bytes from the offset up to the one before the
-- count are copied, to the same positions of the buffer, and no other byte changes.
pub hello_read_lem :
    (hello size offset buffer count : ℕ) (m : Mem) (a : ℕ)
    → size < 2 ^ 31
    → offset < 2 ^ 31
    → count < 2 ^ 31
    → buffer ≢ 0
    → (buffer ≤ hello) ⊎ (hello + count ≤ buffer)
    → hello_read hello size offset buffer count m a ≡ (
        if leb offset size && ltb (size - offset) count
        then m a
        else if within (buffer + offset) (count - offset) a
        then m (hello + (a - buffer))
        else m a)
unfolding hello_read
hello_read_lem hello size offset buffer count m a s o c real apart =
    let test = refused size offset count s o c in
    let given : (buffer == 0) ≡ false = ground arith in
    elim (Bool-cases (leb offset size && ltb (size - offset) count)) [
      | inl more ↦ rw (test, more) refl
      | inr passes ↦
          rw (test, passes, given) (read_loop-count offset count hello buffer m a o c apart)
    ]
