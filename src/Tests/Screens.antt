-- ===== src/Tests/Screens.antt =====
-- Adapters.
use sipaa_kernel.Prelude.{
  ℕ, ◌+◌, ◌-◌, ◌%◌, ◌^◌, ◌<◌, ◌≡◌, refl, arith, ◌==◌, true, false, if◌then◌else◌, bit_and,
}
use sipaa_kernel.Io.{Ports, inb, ins, inl, outl}
use sipaa_kernel.Pci.{box_device}
use sipaa_kernel.Pci.Space.{ConfigSpace, type_of, header_of}
use sipaa_kernel.Vmsvga.{
  Framebuffer, FramebufferMode, none_accelerated, read_reg, write_reg, set_resolution,
}
use sipaa_kernel.Vmsvga.Device.{Adapter, ModeSet, set_resolution-ModeSet}
use sipaa_kernel.Framebuffer.{Screen, fbuf_initialize_gpu}
use sipaa_kernel.Framebuffer.Modes.{Adapted, fbuf_initialize_gpu-Adapted}

-- the configuration space and the adapter at port 0x1000: the selected address, the selected register
-- and the registers
pub record Machine : Type 0 where
  pub address : ℕ
  pub register : ℕ
  pub regs : ℕ → ℕ

-- one device at the first slot of bus 0, the VMware adapter
abbrev adapter_half : (a o : ℕ) → ℕ
adapter_half a o =
    if a == 0x80000000 then (if o == 0 then 0x15AD else (if o == 2 then 0x0405 else 0)) else 0xFFFF

abbrev machine : Ports Machine
machine = record {
  out8 = λ p v w. w;
  in8 = λ p w. (0, w);
  out16 = λ p v w. w;
  in16 = λ p w. (adapter_half w.address (p - 0xCFC), w);
  out32 = λ p v w.
      if p == 0xCF8
      then record w { address = v }
      else if p == 0x1000
      then record w { register = v }
      else if p == 0x1001
      then record w { regs = λ r. if r == w.register then v else w.regs r }
      else w;
  in32 = λ p w. (if p == 0xCFC then 0x1001 else w.regs w.register, w);
}

half_place :
    (a o : ℕ) → o < 4 → adapter_half a ((0xCFC + o) % 65536 - 0xCFC) % 65536 ≡ adapter_half a o
half_place a o h = let e : (0xCFC + o) % 65536 - 0xCFC ≡ o = omega arith in rw e (ground arith)

unfoldable adapter_space : ConfigSpace machine (λ w. tt {0})
unfolding inb ins inl outl
adapter_space = record {
  selected = λ w. w.address;
  byte = λ a o. 0;
  half = adapter_half;
  word = λ a. 0x1001;
  select = λ a w h. omega arith;
  select_seen = λ a w. refl;
  read8 = λ o w h. refl;
  read8_seen = λ o w. refl;
  read16 = λ o w h. half_place w.address o h;
  read16_seen = λ o w. refl;
  read32 = λ w. refl;
  read32_seen = λ w. refl;
}

no_mode : FramebufferMode
no_mode = record { width = 0; height = 0; pitch = 0; bpp = 0 }

abbrev blank : Framebuffer
blank = record {
  address = 0;
  size = 0;
  mode = no_mode;
  red_mask_shift = 0;
  red_mask_size = 0;
  green_mask_shift = 0;
  green_mask_size = 0;
  blue_mask_shift = 0;
  blue_mask_size = 0;
}

abbrev screen : Screen
screen = record {
  framebuffer = blank;
  capabilities = record {
    acceleration = none_accelerated;
    can_set_modes = false;
    set_mode = false;
    can_be_disabled = false;
    enable = false;
    max_mode = no_mode;
  };
}

abbrev off : Machine
off = record { address = 0; register = 0; regs = λ r. 0 }

single_host : (bit_and (header_of machine (λ w. tt {0}) adapter_space 0) 0x80 == 0) ≡ true
unfolding adapter_space
single_host = refl

bridgeless :
    (bus slot func : ℕ)
    → slot < 32
    → func < 8
    → type_of machine (λ w. tt {0}) adapter_space (box_device bus slot func) == 0x0604 ≡ true
    → 0 < 0
unfolding adapter_space
bridgeless bus slot func hs hf e = absurd (cc e)

fbuf_initialize_gpu-Adapted_example :
    Adapted machine adapter_space 1 0 screen (fbuf_initialize_gpu machine 1 0 screen off)
fbuf_initialize_gpu-Adapted_example =
    fbuf_initialize_gpu-Adapted machine adapter_space (λ b. 0) 1 0 screen off single_host bridgeless
      (omega arith)

module _ (r : ℕ) (w : Machine) (low : r < 64) where
  same_register : r % 4294967296 ≡ r
  same_register = omega arith

  adapter_stores : (v : ℕ) → v < 2 ^ 32 → (write_reg machine 0x1000 r v w).regs r % 2 ^ 32 ≡ v
  unfolding write_reg outl
  adapter_stores v h =
      let same : (r == r) ≡ true = ground arith in rw (same_register, same) (omega arith)

  adapter_keeps :
      (v q : ℕ)
      → (r == q) ≡ false
      → (write_reg machine 0x1000 r v w).regs q % 2 ^ 32 ≡ w.regs q % 2 ^ 32
  unfolding write_reg outl
  adapter_keeps v q ne =
      let other : (q == r) ≡ false = ground (arith, ne) in rw (same_register, other) refl

  adapter_reads : (read_reg machine 0x1000 r w).0 ≡ w.regs r % 2 ^ 32
  unfolding read_reg outl inl
  adapter_reads = rw same_register refl

abbrev adapter_registers : Adapter machine 0x1000
unfolding read_reg outl inl
adapter_registers = record {
  regs = λ w r. w.regs r % 2 ^ 32;
  stores = λ r v w low m h. adapter_stores r w low v h;
  keeps = λ r v q w low m ne. adapter_keeps r w low v q ne;
  reads = λ r w low. adapter_reads r w low;
  reads_keep = λ r q w low. refl;
}

abbrev wide_mode : FramebufferMode
wide_mode = record { width = 1024; height = 768; pitch = 4096; bpp = 32 }

set_resolution-ModeSet_example :
    ModeSet machine 0x1000 adapter_registers wide_mode
      (set_resolution machine 0x1000 blank wide_mode off).0
      (set_resolution machine 0x1000 blank wide_mode off).1
set_resolution-ModeSet_example =
    set_resolution-ModeSet machine 0x1000 adapter_registers blank wide_mode off (omega arith)
      (omega arith)
