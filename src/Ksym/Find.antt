-- ===== src/Ksym/Find.antt =====
-- `KernelSymbols_GetFromIP` against ranges of addresses.
use sipaa_kernel.Prelude.{
  ℕ, zero, suc, ◌+◌, ◌-◌, ◌%◌, ◌^◌, ◌≤◌, ◌<◌, ◌≡◌, Bool, true, false, arith, Option, none, some,
  ltb, Bool-cases, below-suc, inl, inr,
}
use sipaa_kernel.Ksym.{Sym, in_symbol, find_from, rounds, get_from_ip}

-- The address is one of the symbol's `st_size` addresses, which wrap at 2 ^ 64.
abbrev pub covers : Sym → ℕ → Bool
covers y ip = ltb ((ip + (2 ^ 64 - y.st_value)) % 2 ^ 64) y.st_size

in_symbol-ltb :
    (k value ip : ℕ)
    → value < 2 ^ 64
    → ip < 2 ^ 64
    → k ≤ 2 ^ 64
    → in_symbol k value ip ≡ ltb ((ip + (2 ^ 64 - value)) % 2 ^ 64) k
unfolding in_symbol
in_symbol-ltb zero value ip hv hi hk = ground arith
in_symbol-ltb (suc k) value ip hv hi hk =
    ground (arith, in_symbol-ltb k ((value + 1) % 2 ^ 64) ip (omega arith) hi (omega arith))

-- the answer is the first symbol that covers the address
pub data First (table : ℕ → Sym) (ip n : ℕ) : Option ℕ → Type 0 where
  at :
      (i : ℕ)
      → i < n
      → covers (table i) ip ≡ true
      → ((j : ℕ) → j < i → covers (table j) ip ≡ false)
      → First table ip n (some i)
  nowhere : ((j : ℕ) → j < n → covers (table j) ip ≡ false) → First table ip n none

module _ (table : ℕ → Sym) (ip n : ℕ)
    (wide : (j : ℕ) → ((table j).st_value < 2 ^ 64) × ((table j).st_size < 2 ^ 64))
    (ip_wide : ip < 2 ^ 64) where
  in_symbol-covers :
      (i : ℕ) → in_symbol (table i).st_size (table i).st_value ip ≡ covers (table i) ip
  in_symbol-covers i =
      in_symbol-ltb (table i).st_size (table i).st_value ip (wide i).0 ip_wide
        (omega (arith, (wide i).1))

  find_from-First :
      (k i : ℕ)
      → i + k ≡ n
      → ((j : ℕ) → j < i → covers (table j) ip ≡ false)
      → First table ip n (find_from k i ip table)
  unfolding find_from
  find_from-First zero i e none_yet = nowhere (λ j h. none_yet j (omega arith))
  find_from-First (suc k) i e none_yet = elim (Bool-cases (covers (table i) ip)) [
    | inl hit ↦ rw (in_symbol-covers i) (rw hit (at i (omega arith) hit none_yet))
    | inr miss ↦ rw (in_symbol-covers i) (
        rw miss (
          find_from-First k (i + 1) (omega arith)
            (below-suc {P = λ j. covers (table j) ip ≡ false} i none_yet miss)))
  ]

module _ (table : ℕ → Sym) (ip n : ℕ)
    (wide : (j : ℕ) → ((table j).st_value < 2 ^ 64) × ((table j).st_size < 2 ^ 64))
    (ip_wide : ip < 2 ^ 64) where
  -- If the addresses and sizes in the symbol table and the instruction pointer are 64-bit numbers,
  -- then `KernelSymbols_GetFromIP` answers the first of the symbols whose range of addresses, which
  -- may wrap, has the instruction pointer in it, and `NULL` exactly when none has. The symbols are as
  -- many as the count says, or none where the count is negative.
  pub get_from_ip-First : First table ip (rounds n) (get_from_ip n ip table)
  unfolding get_from_ip
  get_from_ip-First =
      find_from-First table ip (rounds n) wide ip_wide (rounds n) 0 (omega arith)
        (λ j h. ground arith)
