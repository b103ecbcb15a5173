-- ===== src/Gdt.antt =====
-- src/arch/x86_64/gdt.c and src/include/sipaa/x86_64/gdt.h: the segment descriptors and the task
-- state segment. `Gdt_Load` and `Tss_Load`, which are assembly, are arguments.
pub mod Fields
pub mod Table
use sipaa_kernel.Prelude.{ℕ, ◌+◌, ◌-◌, ◌*◌, ◌/◌, ◌%◌, ◌^◌, ◌==◌, if◌then◌else◌, bit_and, bit_or}

-- `GdtEntryT`
pub record GdtEntry : Type 0 where
  pub limit0 : ℕ
  pub base0 : ℕ
  pub base1 : ℕ
  pub access : ℕ
  pub limit1_flags : ℕ
  pub base2 : ℕ

-- `TssEntryT`, a packed structure of 104 bytes
pub record TssEntry : Type 0 where
  pub reserved0 : ℕ
  pub rsp0 : ℕ
  pub rsp1 : ℕ
  pub rsp2 : ℕ
  pub reserved1 : ℕ
  pub ist1 : ℕ
  pub ist2 : ℕ
  pub ist3 : ℕ
  pub ist4 : ℕ
  pub ist5 : ℕ
  pub ist6 : ℕ
  pub ist7 : ℕ
  pub reserved2 : ℕ
  pub reserved3 : ℕ
  pub iomap_base : ℕ

abbrev pub tss_entry_size : ℕ
tss_entry_size = 104

-- `GdtPointerT`
pub record GdtPointer : Type 0 where
  pub size : ℕ
  pub offset : ℕ

-- the globals of the file
pub record Gdt : Type 0 where
  pub gdt : ℕ → GdtEntry
  pub gdt_ptr : GdtPointer
  pub tss_entry : TssEntry

abbrev pub put : ℕ → GdtEntry → Gdt → Gdt
put i e g = record g { gdt = λ j. if j == i then e else g.gdt j }

-- `Gdt_SetEntry`, whose limit and base are `uint16_t`
unfoldable pub set_segment : (i limit base access flags : ℕ) → Gdt → Gdt
set_segment i limit base access flags g =
    let l : ℕ = limit % 2 ^ 16 in
    let b : ℕ = base % 2 ^ 16 in
    put i
      (record {
        base0 = bit_and b 0xFFFF % 2 ^ 16;
        base1 = bit_and (b / 2 ^ 16) 0xFF % 2 ^ 8;
        base2 = bit_and (b / 2 ^ 24) 0xFF % 2 ^ 8;
        limit0 = bit_and l 0xFFFF % 2 ^ 16;
        access = access % 2 ^ 8;
        limit1_flags = bit_or (bit_and (l / 2 ^ 16) 0x0F) (bit_and (flags % 2 ^ 8) 0xF0) % 2 ^ 8;
      })
      g

-- `Tss_SetGate`
unfoldable pub tss_set_gate : (num base limit : ℕ) → Gdt → Gdt
tss_set_gate num base limit g =
    let l : ℕ = limit % 2 ^ 32 in
    let b : ℕ = base % 2 ^ 64 in
    put num
      (record {
        base0 = bit_and b 0xFFFF % 2 ^ 16;
        base1 = bit_and (b / 2 ^ 16) 0xFF % 2 ^ 8;
        base2 = bit_and (b / 2 ^ 24) 0xFF % 2 ^ 8;
        limit0 = bit_and l 0xFFFF % 2 ^ 16;
        access = 0x89;
        limit1_flags = bit_or (bit_and (l / 2 ^ 16) 0x0F) 0x00 % 2 ^ 8;
      })
      g

-- `Tss_Initialize`
unfoldable pub tss_initialize : (rsp0 : ℕ) → Gdt → Gdt
tss_initialize rsp0 g = record g {
  tss_entry = record {
    reserved0 = 0;
    rsp0 = rsp0;
    rsp1 = 0;
    rsp2 = 0;
    reserved1 = 0;
    ist1 = 0;
    ist2 = 0;
    ist3 = 0;
    ist4 = 0;
    ist5 = 0;
    ist6 = 0;
    ist7 = 0;
    reserved2 = 0;
    reserved3 = 0;
    iomap_base = 0;
  };
}

-- `Gdt_SetKernelStack`
unfoldable pub set_kernel_stack : (stack : ℕ) → Gdt → Gdt
set_kernel_stack stack g = record g { tss_entry = record g.tss_entry { rsp0 = stack } }

-- `Gdt_Initialize`; `gdt_at` and `tss_at` are the addresses of the table and of the segment.
unfoldable pub gdt_initialize :
    {W : Type 0}
    → (gdt_load : GdtPointer → W → W) → (tss_load : W → W) → (gdt_at tss_at kernel_rsp : ℕ)
    → Gdt × W
    → Gdt × W
unfolding set_segment tss_set_gate tss_initialize
gdt_initialize gdt_load tss_load gdt_at tss_at kernel_rsp (g0, w) =
    let g1 : Gdt = record g0 { gdt_ptr = record { size = 0xff * 8 - 1; offset = gdt_at } } in
    let g2 : Gdt = set_segment 0 0 0 0 0 g1 in
    let g3 : Gdt = set_segment 1 0xFFFFF 0 0x9A 0xAF g2 in
    let g4 : Gdt = set_segment 2 0xFFFFF 0 0x92 0xAF g3 in
    let g5 : Gdt = set_segment 3 0 0 0 0 g4 in
    let g6 : Gdt = set_segment 4 0xFFFFF 0 0xFA 0xAF g5 in
    let g7 : Gdt = set_segment 5 0xFFFFF 0 0xF2 0xAF g6 in
    let g8 : Gdt = tss_set_gate 6 tss_at tss_entry_size g7 in
    let g9 : Gdt = tss_initialize kernel_rsp g8 in (g9, tss_load (gdt_load g9.gdt_ptr w))
