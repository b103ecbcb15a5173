-- ===== src/Gdt/Table.antt =====
-- The table that `Gdt_Initialize` leaves behind.
use sipaa_kernel.Prelude.{ℕ, ◌%◌, ◌^◌, ◌<◌, ◌≡◌, refl, arith}
use sipaa_kernel.Gdt.{
  GdtEntry, GdtPointer, Gdt, gdt_initialize, set_segment, tss_set_gate, tss_entry_size,
  tss_initialize,
}
use sipaa_kernel.Gdt.Fields.{limit_of, base_of, flags_of, tss_set_gate-Described}

-- a flat segment of `size + 1` units with the access byte and the flags
abbrev pub IsFlat : (limit access flags : ℕ) → GdtEntry → Type 0
IsFlat limit access flags e =
    (limit_of e ≡ limit) × (base_of e ≡ 0) × (e.access ≡ access) × (flags_of e ≡ flags)

module _ {W : Type 0} (gdt_load : GdtPointer → W → W) (tss_load : W → W) where
  pub record Table (gdt_at tss_at kernel_rsp : ℕ) (w : W) (r : Gdt × W) : Type 0 where
    nulls : IsFlat 0 0 0 (r.0.gdt 0) × IsFlat 0 0 0 (r.0.gdt 3)
    kernel_code : IsFlat 0xFFFF 0x9A 0xA (r.0.gdt 1)
    kernel_data : IsFlat 0xFFFF 0x92 0xA (r.0.gdt 2)
    user_code : IsFlat 0xFFFF 0xFA 0xA (r.0.gdt 4)
    user_data : IsFlat 0xFFFF 0xF2 0xA (r.0.gdt 5)
    task : base_of (r.0.gdt 6) ≡ tss_at % 2 ^ 32
    task_limit : limit_of (r.0.gdt 6) ≡ 104
    stack : r.0.tss_entry.rsp0 ≡ kernel_rsp
    loaded : r.1 ≡ tss_load (gdt_load (record { size = 2039; offset = gdt_at }) w)

  -- `Gdt_Initialize` leaves two null descriptors, and flat segments of code and data for the kernel
  -- and for programs whose limit is 0xFFFF units of 4096 bytes, not the 0xFFFFF that it passes, which
  -- does not fit the 16 bits of the parameter. The descriptor of the task state segment has the low
  -- 32 bits of its address and a limit of 104; the kernel's stack stands in the segment. The
  -- processor then gets the table, of 2040 bytes, and after it the task register.
  pub gdt_initialize-Table :
      (gdt_at tss_at kernel_rsp : ℕ) (g : Gdt) (w : W)
      → tss_at < 2 ^ 64
      → Table gdt_at tss_at kernel_rsp w
          (gdt_initialize gdt_load tss_load gdt_at tss_at kernel_rsp (g, w))
  unfolding gdt_initialize set_segment tss_initialize tss_set_gate
  gdt_initialize-Table gdt_at tss_at kernel_rsp g w h =
      let gate = tss_set_gate-Described 6 tss_at tss_entry_size g h (ground arith) in
      record {
        nulls = ((refl, refl, refl, refl), (refl, refl, refl, refl));
        kernel_code = (refl, refl, refl, refl);
        kernel_data = (refl, refl, refl, refl);
        user_code = (refl, refl, refl, refl);
        user_data = (refl, refl, refl, refl);
        task = gate.base;
        task_limit = gate.limit;
        stack = refl;
        loaded = refl;
      }
