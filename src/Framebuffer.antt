-- ===== src/Framebuffer.antt =====
-- src/dev/framebuffer.c and src/include/sipaa/framebuffer.h: the framebuffer, what the adapter can
-- do, and the choice of the adapter. Pci, Vmsvga and Bga reach the adapter through ports. The
-- framebuffer of the boot loader is an argument; log messages are left out.
pub mod Modes
use sipaa_kernel.Prelude.{
  ℕ, zero, suc, ◌+◌, ◌*◌, ◌/◌, ◌%◌, ◌^◌, Bool, true, false, Option, none, some, ◌&&◌, ◌==◌, not,
  if◌then◌else◌,
}
use sipaa_kernel.Prelude.Run.{Run, done, ◌>>=◌}
use sipaa_kernel.Io.{Ports}
use sipaa_kernel.Pci.{exists}
use sipaa_kernel.Bga.{is_available}
use sipaa_kernel.Vmsvga.{
  FramebufferMode, Framebuffer, Capabilities, Acceleration, none_accelerated, set_resolution,
  install,
}

-- the fields of `struct limine_framebuffer` that are read
pub record BootFramebuffer : Type 0 where
  pub address : ℕ
  pub width : ℕ
  pub height : ℕ
  pub pitch : ℕ
  pub bpp : ℕ
  pub red_mask_size : ℕ
  pub red_mask_shift : ℕ
  pub green_mask_size : ℕ
  pub green_mask_shift : ℕ
  pub blue_mask_size : ℕ
  pub blue_mask_shift : ℕ

-- `Framebuffer` and `Framebuffer_Capabilities`
pub record Screen : Type 0 where
  pub framebuffer : Framebuffer
  pub capabilities : Capabilities

-- `Fbuf_SetupBasicCapabilities`
unfoldable pub setup_basic_capabilities : Screen → Screen
setup_basic_capabilities s = record s {
  capabilities = record {
    acceleration = none_accelerated;
    can_set_modes = false;
    set_mode = false;
    can_be_disabled = false;
    enable = false;
    max_mode = (s.framebuffer).mode;
  };
}

-- `Fbuf_Initialize`
unfoldable pub fbuf_initialize : Option BootFramebuffer → Screen → Screen
unfolding setup_basic_capabilities
fbuf_initialize none s = record s { framebuffer = record (s.framebuffer) { address = 0 } }
fbuf_initialize (some fb) s = setup_basic_capabilities (record s {
  framebuffer = record {
    address = fb.address;
    size = (fb.height * fb.pitch * (fb.bpp / 8)) % 2 ^ 32;
    mode = record {
      width = fb.width % 2 ^ 32;
      height = fb.height % 2 ^ 32;
      pitch = fb.pitch % 2 ^ 32;
      bpp = fb.bpp;
    };
    red_mask_shift = fb.red_mask_shift;
    red_mask_size = fb.red_mask_size;
    green_mask_shift = fb.green_mask_shift;
    green_mask_size = fb.green_mask_size;
    blue_mask_shift = fb.blue_mask_shift;
    blue_mask_size = fb.blue_mask_size;
  };
})

module _ {W : Type 0} (k : Ports W) where
  -- what follows the test for the adapters; the Bochs adapter is only looked for
  choose_adapter : (fuel found io : ℕ) → Screen → W → Run (ℕ × Screen × W)
  unfolding install is_available
  choose_adapter fuel found io s w =
      if not (found == 0)
      then (do
        (ok, io1, fb, cp, w1) ← install k fuel io s.framebuffer s.capabilities w
        done (io1, record { framebuffer = fb; capabilities = cp }, w1))
      else done (io, s, (is_available k 0xB0C2 w).1)

  -- `Fbuf_InitializeGPU`, with `VMSVGA_Io`
  unfoldable pub fbuf_initialize_gpu : (fuel io : ℕ) → Screen → W → Run (ℕ × Screen × W)
  unfolding choose_adapter exists
  fbuf_initialize_gpu fuel io s w = do
    (w1, found) ← exists k fuel 0x15AD 0x0405 w
    choose_adapter fuel found io s w1

  -- `Fbuf_SetMode`
  unfoldable pub fbuf_set_mode : (io : ℕ) → FramebufferMode → Screen → W → Screen × W
  unfolding set_resolution
  fbuf_set_mode io mode s w =
      let (fb, w1) = set_resolution k io s.framebuffer mode w in
      if (s.capabilities).can_set_modes && (s.capabilities).set_mode
      then (record s { framebuffer = fb }, w1)
      else (s, w)
