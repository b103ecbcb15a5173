-- ===== src/Ramdisk/Content.antt =====
-- `ramdisk_get_file_content` against the names of the headers.
use sipaa_kernel.Prelude.{
  ℕ, zero, suc, ◌+◌, ◌≤◌, ◌<◌, ◌≡◌, ◌≢◌, refl, arith, true, false, Option, none, some, List, length,
  below-suc, inl, inr, ℤ, pos, negsuc, ◌∙◌, ap, ◌⊎◌,
}
use sipaa_kernel.Prelude.Run.{Run, done}
use sipaa_kernel.Strings.{is_zero}
use sipaa_kernel.Strings.Holds.{HoldsString}
use sipaa_kernel.Strings.Compare.{order, compare_strings-order, compare_strings-eq_zero_iff}
use sipaa_kernel.Ramdisk.{
  RamDisk, header_of, content_loop, get_file_content, getsize, size_at, header_bytes,
}

-- The first `n` entries of the table are filled, `names i` is the name of file `i`, and `wanted` the
-- one that is looked for. Where none of the filled entries has it and the table has others, what
-- they point to decides.
pub data FoundFile (s : RamDisk) (n : ℕ) (names : ℕ → List ℕ) (wanted : List ℕ)
    : Run (ℕ × Option ℕ) → Type 0 where
  file :
      (i : ℕ)
      → i < n
      → names i ≡ wanted
      → ((j : ℕ) → j < i → names j ≢ wanted)
      → FoundFile s n names wanted (
          done (getsize (header_of i s + size_at) s.pmm.bytes, some (header_of i s + header_bytes)))
  no_file :
      n ≡ s.header_count
      → ((j : ℕ) → j < n → names j ≢ wanted)
      → FoundFile s n names wanted (done (0, none))
  not_filled :
      (r : Run (ℕ × Option ℕ))
      → n < s.header_count
      → ((j : ℕ) → j < n → names j ≢ wanted)
      → FoundFile s n names wanted r

is_zero-cases : (z : ℤ) → ((is_zero z ≡ true) × (z ≡ pos 0)) ⊎ ((is_zero z ≡ false) × (z ≢ pos 0))
unfolding is_zero
is_zero-cases (pos zero) = inl (refl, refl)
is_zero-cases (pos (suc n)) = inr (refl, λ e. ground arith)
is_zero-cases (negsuc n) = inr (refl, λ e. ground arith)

module _ (f filename filled : ℕ) (s : RamDisk) (names : ℕ → List ℕ) (wanted : List ℕ)
    (within : filled ≤ s.header_count)
    (named : (j : ℕ)
      → j < filled
      → HoldsString s.pmm.bytes (header_of j s) (names j) × (length (names j) < f))
    (asked : HoldsString s.pmm.bytes filename wanted) where
  content_loop-FoundFile :
      (k n i : ℕ)
      → i + k ≡ filled
      → i + n ≡ s.header_count
      → ((j : ℕ) → j < i → names j ≢ wanted)
      → FoundFile s filled names wanted (content_loop f n i filename s)
  unfolding content_loop
  content_loop-FoundFile zero zero i e e' none_yet =
      no_file (omega arith) (λ j h. none_yet j (omega arith))
  content_loop-FoundFile zero (suc n) i e e' none_yet =
      not_filled _ (omega arith) (λ j h. none_yet j (omega arith))
  content_loop-FoundFile (suc k) zero i e e' none_yet = absurd (omega arith)
  content_loop-FoundFile (suc k) (suc n) i e e' none_yet =
      let (holds, short) = named i (omega arith) in
      let run =
        compare_strings-order f (header_of i s) filename s.pmm.bytes (names i) wanted holds asked
          short in
      let iff =
        compare_strings-eq_zero_iff f (header_of i s) filename s.pmm.bytes (names i) wanted holds
          asked short in
      rw run (elim (is_zero-cases (order (names i) wanted)) [
        | inl same ↦ rw same.0 (file i (omega arith) (iff.0 (run ∙ ap done same.1)) none_yet)
        | inr other ↦ rw other.0 (
            content_loop-FoundFile k n (i + 1) (omega arith) (omega arith)
              (below-suc {P = λ j. names j ≢ wanted} i none_yet (λ eq. other.1 cc (run, iff.1 eq))))
      ])

  -- Where the first entries of the table, which may have room for more, point to headers with names
  -- that are strings, and fuel is given for the longest of them, then `ramdisk_get_file_content` with
  -- a name that one of them has ends with the size and the contents, 512 bytes after the header, of
  -- the first such file, whatever the other entries hold. With a name that none of them has it ends
  -- with no contents and the size 0 if these are all the entries of the table.
  pub get_file_content-FoundFile : FoundFile s filled names wanted (get_file_content f filename s)
  unfolding get_file_content
  get_file_content-FoundFile =
      content_loop-FoundFile filled s.header_count 0 (omega arith) (omega arith) (λ j h. elim h [ ])
