-- ===== src/Ramdisk/Size.antt =====
-- The sizes of an archive's files, and the way from header to header.
use sipaa_kernel.Prelude.{ℕ, zero, suc, ◌+◌, ◌-◌, ◌*◌, ◌/◌, ◌%◌, ◌^◌, ◌≤◌, ◌<◌, ◌≡◌, arith}
use sipaa_kernel.Mem.{Mem}
use sipaa_kernel.Ramdisk.{digit, size_loop, getsize, next_header}

-- the number that the `n` octal digits from `p` on write, the first of them the highest
abbrev pub octal : (n p : ℕ) → Mem → ℕ
octal zero p m = 0
octal (suc n) p m = octal n p m * 8 + (m (p + n) - 48)

-- the characters from `'0'` to `'7'`
abbrev pub IsOctal : (p : ℕ) → Mem → Type 0
IsOctal p m = (j : ℕ) → j < 11 → (48 ≤ m (p + j)) × (m (p + j) < 56)

digit-octal : (c : ℕ) → 48 ≤ c → c < 56 → digit c ≡ c - 48
digit-octal c lo hi = ground arith

value :
    (p : ℕ) (m : Mem)
    → IsOctal p m
    → (j : ℕ) → j < 11
    → (digit (m (p + j)) ≡ m (p + j) - 48) × (m (p + j) - 48 < 8)
value p m h j lt = (digit-octal (m (p + j)) (h j lt).0 (h j lt).1, omega (arith, h j lt))

-- the sum from the right, which wraps at each addition
eleven_digits :
    (d0 d1 d2 d3 d4 d5 d6 d7 d8 d9 d10 : ℕ)
    → d0 < 8
    → d1 < 8
    → d2 < 8
    → d3 < 8
    → d4 < 8
    → d5 < 8
    → d6 < 8
    → d7 < 8
    → d8 < 8
    → d9 < 8
    → d10 < 8
    → (((((((((((((((((((((0 + d10 * 1 % 4294967296) % 4294967296) + d9 * 8 % 4294967296)
                                            % 4294967296)
                                          + d8 * 64 % 4294967296)
                                        % 4294967296)
                                      + d7 * 512 % 4294967296)
                                    % 4294967296)
                                  + d6 * 4096 % 4294967296)
                                % 4294967296)
                              + d5 * 32768 % 4294967296)
                            % 4294967296)
                          + d4 * 262144 % 4294967296)
                        % 4294967296)
                      + d3 * 2097152 % 4294967296)
                    % 4294967296)
                  + d2 * 16777216 % 4294967296)
                % 4294967296)
              + d1 * 134217728 % 4294967296)
            % 4294967296)
          + d0 * 1073741824 % 4294967296)
        % 4294967296
      ≡ (((((((((((0 * 8 + d0) * 8 + d1) * 8 + d2) * 8 + d3) * 8 + d4) * 8 + d5) * 8 + d6) * 8 + d7)
                    * 8
                  + d8)
                * 8
              + d9)
            * 8
          + d10)
        % 2 ^ 32
eleven_digits d0 d1 d2 d3 d4 d5 d6 d7 d8 d9 d10 hd0 hd1 hd2 hd3 hd4 hd5 hd6 hd7 hd8 hd9 hd10 =
    omega arith

-- `getsize` gives the number that the 11 octal digits of a header's size write, modulo 2 ^ 32: a
-- size from 4 GiB on, which 11 digits can write, is cut.
pub getsize-octal : (p : ℕ) (m : Mem) → IsOctal p m → getsize p m ≡ octal 11 p m % 2 ^ 32
unfolding getsize size_loop
getsize-octal p m h =
    rw
      (
        (value p m h 10 (omega arith)).0,
        (value p m h 9 (omega arith)).0,
        (value p m h 8 (omega arith)).0,
        (value p m h 7 (omega arith)).0,
        (value p m h 6 (omega arith)).0,
        (value p m h 5 (omega arith)).0,
        (value p m h 4 (omega arith)).0,
        (value p m h 3 (omega arith)).0,
        (value p m h 2 (omega arith)).0,
        (value p m h 1 (omega arith)).0,
        (value p m h 0 (omega arith)).0,
      )
      (eleven_digits (m (p + 0) - 48) (m (p + 1) - 48) (m (p + 2) - 48) (m (p + 3) - 48)
        (m (p + 4) - 48) (m (p + 5) - 48) (m (p + 6) - 48) (m (p + 7) - 48) (m (p + 8) - 48)
        (m (p + 9) - 48) (m (p + 10) - 48) (value p m h 0 (omega arith)).1
        (value p m h 1 (omega arith)).1 (value p m h 2 (omega arith)).1
        (value p m h 3 (omega arith)).1 (value p m h 4 (omega arith)).1
        (value p m h 5 (omega arith)).1 (value p m h 6 (omega arith)).1
        (value p m h 7 (omega arith)).1 (value p m h 8 (omega arith)).1
        (value p m h 9 (omega arith)).1 (value p m h 10 (omega arith)).1)

-- `RamDisk_Create` goes on from a header by 512 bytes for the header and by the size of the file
-- rounded up to a multiple of 512, for all of an archive that lies below 2 ^ 32.
pub next_header_lem :
    (address size : ℕ)
    → address + size + 1024 ≤ 2 ^ 32
    → next_header address size ≡ address + 512 + (size + 511) / 512 * 512
unfolding next_header
next_header_lem address size h = ground arith
