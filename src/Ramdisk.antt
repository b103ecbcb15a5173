-- ===== src/Ramdisk.antt =====
-- src/fs/ramdisk.c and the header of src/include/sipaa/fs/ramdisk.h: an archive in memory and the
-- table of its headers. A header is what the bytes at its address say: the name is at offset 0, the
-- size, 11 octal digits, at offset 124. Loops over the archive and over strings run on fuel.
pub mod Size
pub mod Content
use sipaa_kernel.Prelude.{
  ℕ, zero, suc, ◌+◌, ◌-◌, ◌*◌, ◌/◌, ◌%◌, ◌^◌, Bool, true, false, ◌==◌, ltb, not, if◌then◌else◌,
  Option, none, some,
}
use sipaa_kernel.Prelude.Run.{Run, done, out_of_fuel, ◌>>=◌}
use sipaa_kernel.Mem.{Mem}
use sipaa_kernel.Mem.Words.{load_word, store_word}
use sipaa_kernel.Strings.{compare_strings, is_zero}
use sipaa_kernel.Pmm.{Pmm, allocate, reallocate}

-- the offset of `Size` in `TarHeaderT`, and the bytes that the code skips for a header
abbrev pub size_at : ℕ
size_at = 124

abbrev pub header_bytes : ℕ
header_bytes = 512

-- a character less `'0'`, as an `unsigned int`; the `char` is signed
abbrev pub digit : ℕ → ℕ
digit c = if ltb c 128 then (c + (2 ^ 32 - 48)) % 2 ^ 32 else (c + (2 ^ 32 - 256 - 48)) % 2 ^ 32

-- the loop of `getsize`: `j` goes down, and index `j - 1` is read
unfoldable pub size_loop : (j count size p : ℕ) → Mem → ℕ
size_loop zero count size p m = size
size_loop (suc j) count size p m =
    size_loop j ((count * 8) % 2 ^ 32) ((size + digit (m (p + j)) * count % 2 ^ 32) % 2 ^ 32) p m

unfoldable pub getsize : (p : ℕ) → Mem → ℕ
unfolding size_loop
getsize p m = size_loop 11 1 0 p m

-- the head of a node that `RamDisk_Create` fills: the addresses of its name and of its callback
pub record NodeHead : Type 0 where
  pub name : ℕ
  pub read : ℕ

-- the globals of the file, the heads of nodes by address, and the memory manager with all bytes
pub record RamDisk : Type 0 where
  pub node : ℕ
  pub headers : ℕ
  pub file : ℕ
  pub header_count : ℕ
  pub created : Bool
  pub heads : ℕ → NodeHead
  pub pmm : Pmm

-- the address of entry `i` of the table of headers
abbrev pub entry_at : (headers i : ℕ) → ℕ
entry_at headers i = headers + 8 * i

-- `RamDisk_Headers[i]`
abbrev pub header_of : ℕ → RamDisk → ℕ
header_of i s = load_word 8 (entry_at s.headers i) s.pmm.bytes

-- the loop of `ramdisk_get_file_content`, with `n` rounds left: the size that it stores and the
-- address that it returns
unfoldable pub content_loop : (fuel n i filename : ℕ) → RamDisk → Run (ℕ × Option ℕ)
unfolding is_zero compare_strings getsize load_word
content_loop fuel zero i filename s = done (0, none)
content_loop fuel (suc n) i filename s = do
  c ← compare_strings fuel (header_of i s) filename s.pmm.bytes
  (let rest = content_loop fuel n (i + 1) filename s in
      if is_zero c
      then done (getsize (header_of i s + size_at) s.pmm.bytes, some (header_of i s + header_bytes))
      else rest)

unfoldable pub get_file_content : (fuel filename : ℕ) → RamDisk → Run (ℕ × Option ℕ)
unfolding content_loop
get_file_content fuel filename s = content_loop fuel s.header_count 0 filename s

-- `RamDisk_Read`
unfoldable pub ramdisk_read : {W : Type 0} → (vnode offset buffer count : ℕ) → W → W
ramdisk_read vnode offset buffer count w = w

-- the address of the header after one at `address` with a file of `size` bytes
unfoldable pub next_header : (address size : ℕ) → ℕ
next_header address size =
    let past : ℕ = (address + (size / 512 + 1) * 512) % 2 ^ 32 in
    if not (size % 512 == 0) then (past + 512) % 2 ^ 32 else past

-- how a step of `RamDisk_Create` goes on: it halts where there is no memory for the table, and the
-- model ends where the copy of the table leaves its block
pub data Grown : Type 0 where
  goes_on : RamDisk → Grown
  halts : Grown
  overruns : Grown

grown_with : Option (ℕ × Pmm) → RamDisk → Grown
grown_with none s = overruns
grown_with (some (headers, pmm)) s =
    if headers == 0
    then halts
    else goes_on
        (record s { header_count = (s.header_count + 16) % 2 ^ 32; headers = headers; pmm = pmm })

-- the table gets 16 more entries where it is full
grow_table : (fuel i : ℕ) → RamDisk → Run Grown
unfolding reallocate grown_with
grow_table fuel i s =
    if i == s.header_count
    then (do
      r ← reallocate fuel s.headers ((s.header_count + 16) % 2 ^ 32 * 8) s.pmm
      done (grown_with r s))
    else done (goes_on s)

-- what the loop of `RamDisk_Create` ends with: the number of headers, a halt, or a copy that leaves
-- its block
pub data Listed : Type 0 where
  listed : ℕ → RamDisk → Listed
  stopped : Listed
  overran : Listed

-- `RamDisk_Headers[i] = header`
note_header : (i address : ℕ) → RamDisk → RamDisk
unfolding store_word
note_header i address s = record s {
  pmm = record s.pmm { bytes = store_word 8 (entry_at s.headers i) address s.pmm.bytes };
}

-- the loop of `RamDisk_Create`
list_headers : (fuel i address : ℕ) → RamDisk → Run Listed
unfolding getsize next_header grow_table note_header
list_headers zero i address s = out_of_fuel
list_headers (suc fuel) i address s =
    let size : ℕ = getsize (address + size_at) s.pmm.bytes in
    let rest = (do
      g ← grow_table fuel i s
      elim g [
        | halts ↦ done stopped
        | overruns ↦ done overran
        | goes_on t ↦ list_headers fuel (i + 1) (next_header address size) (note_header i address t)
      ]) in
    if s.pmm.bytes address == 0 then done (listed i s) else rest

-- the end of `RamDisk_Create`: the table is cut to its length and the node is made
finish_with : (fuel name_at read_at : ℕ) → RamDisk → Option (ℕ × Pmm) → Run (Option (ℕ × RamDisk))
unfolding allocate
finish_with fuel name_at read_at s none = done none
finish_with fuel name_at read_at s (some table) = do
  made ← allocate fuel 8 table.1
  done (
      some (
        made.0,
        record s {
          headers = table.0;
          node = made.0;
          heads = λ a. if a == made.0 then record { name = name_at; read = read_at } else s.heads a;
          created = true;
          pmm = made.1;
        },
      ))

finish : (fuel name_at read_at : ℕ) → Listed → Run (Option (ℕ × RamDisk))
unfolding reallocate finish_with
finish fuel name_at read_at stopped = done none
finish fuel name_at read_at overran = done none
finish fuel name_at read_at (listed i s) = do
  table ← reallocate fuel s.headers (i * 8) s.pmm
  finish_with fuel name_at read_at s table

-- `RamDisk_Create`: the node that it returns and the state, or `none` where it halts or a copy leaves
-- its block. `module0` is
-- what `BootSrv_GetModule(0)` answers, `name_at` and `read_at` are the addresses of the literal and
-- of `RamDisk_Read`.
unfoldable pub ramdisk_create :
    (fuel module0 name_at read_at address : ℕ) → RamDisk → Run (Option (ℕ × RamDisk))
unfolding list_headers finish
ramdisk_create fuel module0 name_at read_at address s =
    if s.created
    then done (some (s.node, s))
    else if module0 == 0
    then done (some (0, record s { file = module0 }))
    else (do
      l ← list_headers fuel 0 (address % 2 ^ 32) (record s { file = module0 })
      finish fuel name_at read_at l)
