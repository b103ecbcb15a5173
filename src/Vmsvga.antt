-- ===== src/Vmsvga.antt =====
-- src/dev/vmsvgaii.c, with the types of src/include/sipaa/framebuffer.h: the VMware adapter, whose
-- registers stand behind two ports from `io` on. A function pointer of the capabilities has one value
-- beside `NULL`, so that it is a Boolean. Log messages are left out.
pub mod Register
pub mod Device
use sipaa_kernel.Prelude.{
  ℕ, zero, suc, ◌+◌, ◌*◌, ◌%◌, ◌^◌, Bool, true, false, ◌&&◌, ◌==◌, not, if◌then◌else◌, bit_and,
}
use sipaa_kernel.Prelude.Run.{Run, done, ◌>>=◌}
use sipaa_kernel.Io.{Ports, inl, outl}
use sipaa_kernel.Vmsvga.Register
use sipaa_kernel.Pci.{any, beside, read_field, scan}

-- `FramebufferModeT`
pub record FramebufferMode : Type 0 where
  pub width : ℕ
  pub height : ℕ
  pub pitch : ℕ
  pub bpp : ℕ

-- `FramebufferT`
pub record Framebuffer : Type 0 where
  pub address : ℕ
  pub size : ℕ
  pub mode : FramebufferMode
  pub red_mask_shift : ℕ
  pub red_mask_size : ℕ
  pub green_mask_shift : ℕ
  pub green_mask_size : ℕ
  pub blue_mask_shift : ℕ
  pub blue_mask_size : ℕ

-- `FramebufferGraphicsAccelerationT`
pub data Acceleration : Type 0 where
  bochsga vmsvgaii i915 none_accelerated : Acceleration

-- `FramebufferCapabilitiesT`
pub record Capabilities : Type 0 where
  pub acceleration : Acceleration
  pub can_set_modes : Bool
  pub set_mode : Bool
  pub can_be_disabled : Bool
  pub enable : Bool
  pub max_mode : FramebufferMode

-- `vmware_svga_version_2_id`
abbrev pub version_2_id : ℕ
version_2_id = 0x90000002

-- the mode that `VMSVGA_Install` sets
abbrev pub install_mode : FramebufferMode
install_mode = record { width = 1280; height = 720; pitch = 5120; bpp = 32 }

module _ {W : Type 0} (k : Ports W) where
  -- `VMSVGA_ScanPCI`, where `extra` is the address of `VMSVGA_Io`, the second part
  unfoldable pub scan_pci : (device v d : ℕ) → W × ℕ → W × ℕ
  unfolding read_field
  scan_pci device v d x =
      let (t, w1) = read_field k device 0x10 4 x.0 in
      if (v == 0x15AD) && (d == 0x0405)
      then (w1, if t == 0 then x.1 else bit_and t 0xFFFFFFF0)
      else x

  -- `VMSVGA_Write`
  unfoldable pub write_reg : (io reg value : ℕ) → W → W
  unfolding outl
  write_reg io reg value w = outl k (1 + io) value (outl k io reg w)

  -- `VMSVGA_Read`
  unfoldable pub read_reg : (io reg : ℕ) → W → ℕ × W
  unfolding outl inl
  read_reg io reg w = inl k (1 + io) (outl k io reg w)

  -- `VMSVGA_SetResolution`
  unfoldable pub set_resolution : (io : ℕ) → Framebuffer → FramebufferMode → W → Framebuffer × W
  unfolding write_reg read_reg
  set_resolution io fb mode w =
      let w1 : W = write_reg io Register.enable 0 w in
      let w2 : W = write_reg io Register.width mode.width w1 in
      let w3 : W = write_reg io Register.height mode.height w2 in
      let w4 : W = write_reg io Register.bits_per_pixel 32 w3 in
      let w5 : W = write_reg io Register.enable 1 w4 in
      let (size, w6) = read_reg io Register.fb_size w5 in
      let (line, w7) = read_reg io Register.bytes_per_line w6 in
      (
        record fb {
          mode = record { width = mode.width; height = mode.height; pitch = line; bpp = 32 };
          size = size;
        },
        w7,
      )

  -- `VMSVGA_NegotiateDeviceVersion`
  unfoldable pub negotiate_device_version : (io : ℕ) → W → Bool × W
  unfolding write_reg read_reg
  negotiate_device_version io w =
      let (accepted, w1) = read_reg io Register.id (write_reg io Register.id version_2_id w) in
      (accepted == version_2_id, w1)

  -- the part of `VMSVGA_Install` after the device has been found
  unfoldable pub install_found :
      (io : ℕ) → Framebuffer → Capabilities → W → Bool × Framebuffer × Capabilities × W
  unfolding negotiate_device_version set_resolution read_reg
  install_found io fb cp w =
      let (ok, w1) = negotiate_device_version io w in
      let (fb1, w2) = set_resolution io fb install_mode w1 in
      let (start, w3) = read_reg io Register.fb_start w2 in
      let (size, w4) = read_reg io Register.fb_size w3 in
      let w5 : W = (read_reg io Register.capabilities w4).1 in
      if ok
      then (
        true,
        record fb1 { size = size; address = start },
        record cp { can_set_modes = true; set_mode = true },
        w5,
      )
      else (false, fb, cp, w1)

  after_scan : Framebuffer → Capabilities → W × ℕ → Run (Bool × ℕ × Framebuffer × Capabilities × W)
  unfolding install_found
  after_scan fb cp (w, io) =
      let (ok, fb1, cp1, w1) = install_found io fb cp w in
      if io == 0 then done (false, io, fb, cp, w) else done (ok, io, fb1, cp1, w1)

  -- `VMSVGA_Install`, with `VMSVGA_Io`
  unfoldable pub install :
      (fuel io : ℕ)
      → Framebuffer
      → Capabilities
      → W
      → Run (Bool × ℕ × Framebuffer × Capabilities × W)
  unfolding scan scan_pci after_scan
  install fuel io fb cp w = do x ← scan (beside k) scan_pci fuel any (w, io); after_scan fb cp x
