-- ===== src/Ksym.antt =====
-- src/dbg/ksym.c: the kernel's symbol table, and the symbol that an instruction belongs to.
-- The tables of the kernel image are read as functions of the index; a symbol is answered by its
-- index, and `NULL` by `none`. Logging is left out.
pub mod Find
use sipaa_kernel.Prelude.{
  ℕ, zero, suc, ◌+◌, ◌/◌, ◌%◌, ◌^◌, Bool, true, false, Option, none, some, not, ◌&&◌, ◌||◌, ◌==◌,
  if◌then◌else◌, ltb,
}

-- the fields of `Elf64_Sym` that are read
pub record Sym : Type 0 where
  pub st_name : ℕ
  pub st_value : ℕ
  pub st_size : ℕ

-- the fields of `Elf64_Shdr` that are read
pub record Shdr : Type 0 where
  pub sh_name : ℕ
  pub sh_type : ℕ
  pub sh_offset : ℕ
  pub sh_size : ℕ
  pub sh_entsize : ℕ

pub record Tables : Type 0 where
  pub sym_table : ℕ
  pub str_table : ℕ
  pub sym_count : ℕ

abbrev pub sht_symtab : ℕ
sht_symtab = 2

abbrev pub sht_strtab : ℕ
sht_strtab = 3

-- what `KernelSymbols_Initialize` does with one section header; `is_strtab` compares a section's
-- name with ".strtab"
visit : (img : ℕ) → (is_strtab : ℕ → Bool) → Shdr → Tables → Tables
visit img is_strtab h t =
    if h.sh_type == sht_symtab
    then record t {
      sym_table = (img + h.sh_offset) % 2 ^ 64;
      sym_count = (h.sh_size / h.sh_entsize) % 2 ^ 32;
    }
    else if (h.sh_type == sht_strtab) && is_strtab h.sh_name
    then record t { str_table = (img + h.sh_offset) % 2 ^ 64 }
    else t

-- its loop, with `k` rounds left
unfoldable pub find_tables : (k j img : ℕ) → (is_strtab : ℕ → Bool) → (ℕ → Shdr) → Tables → Tables
unfolding visit
find_tables zero j img is_strtab shdr t = t
find_tables (suc k) j img is_strtab shdr t =
    find_tables k (j + 1) img is_strtab shdr (visit img is_strtab (shdr j) t)

-- `KernelSymbols_Initialize` on the image at `img`: `none` is the halt on one that is not an ELF file
unfoldable pub initialize :
    (img : ℕ) (e_ident : ℕ → ℕ) (e_shnum : ℕ) (is_strtab : ℕ → Bool)
    → (ℕ → Shdr)
    → Tables
    → Option Tables
unfolding find_tables
initialize img e_ident e_shnum is_strtab shdr t =
    if not (e_ident 0 == 0x7f)
      || (not (e_ident 1 == 69) || (not (e_ident 2 == 76) || not (e_ident 3 == 70)))
    then none
    else some (find_tables e_shnum 0 img is_strtab shdr t)

-- `KernelSymbols_GetSymbolName`: an address
unfoldable pub get_symbol_name : Tables → (offset : ℕ) → ℕ
get_symbol_name t offset = (t.str_table + offset) % 2 ^ 64

-- the inner loop of `KernelSymbols_GetFromIP`, with `k` rounds left
in_symbol : (k value ip : ℕ) → Bool
in_symbol zero value ip = false
in_symbol (suc k) value ip = (value == ip) || in_symbol k ((value + 1) % 2 ^ 64) ip

-- its outer loop, with `k` rounds left
find_from : (k i ip : ℕ) → (ℕ → Sym) → Option ℕ
unfolding in_symbol
find_from zero i ip table = none
find_from (suc k) i ip table =
    let rest = find_from k (i + 1) ip table in
    if in_symbol (table i).st_size (table i).st_value ip then some i else rest

-- how often a loop with an `int` runs up to the count, which is negative from 2 ^ 31 on
abbrev pub rounds : (sym_count : ℕ) → ℕ
rounds sym_count = if ltb sym_count (2 ^ 31) then sym_count else 0

-- `KernelSymbols_GetFromIP`; `sym_count` is the 32-bit word of the count
unfoldable pub get_from_ip : (sym_count ip : ℕ) → (ℕ → Sym) → Option ℕ
unfolding find_from
get_from_ip sym_count ip table = find_from (rounds sym_count) 0 ip table
