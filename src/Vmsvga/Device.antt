-- ===== src/Vmsvga/Device.antt =====
-- The mode that the device is left in, and what the framebuffer says of it.
use sipaa_kernel.Prelude.{
  ℕ, ◌^◌, ◌<◌, ◌≡◌, refl, ap, sym, ◌∙◌, arith, Bool, true, false, ◌==◌, ◌||◌,
}
use sipaa_kernel.Io.{Ports}
use sipaa_kernel.Vmsvga.{Framebuffer, FramebufferMode, read_reg, write_reg, set_resolution}
use sipaa_kernel.Vmsvga.Register

-- the registers that a mode is set with
abbrev pub is_mode : ℕ → Bool
is_mode r =
    (r == Register.enable)
    || (r == Register.width)
    || (r == Register.height)
    || (r == Register.bits_per_pixel)

-- A write of one of these registers stays in it and leaves the others alone; a read of a register
-- gives what is in it and changes none.
pub record Adapter {W : Type 0} (k : Ports W) (io : ℕ) : Type 0 where
  pub regs : W → ℕ → ℕ
  pub stores :
      (r v : ℕ) (w : W) → r < 64 → is_mode r ≡ true → v < 2 ^ 32 → regs (write_reg k io r v w) r ≡ v
  pub keeps :
      (r v q : ℕ) (w : W)
      → r < 64
      → is_mode q ≡ true
      → (r == q) ≡ false
      → regs (write_reg k io r v w) q ≡ regs w q
  pub reads : (r : ℕ) (w : W) → r < 64 → (read_reg k io r w).0 ≡ regs w r
  pub reads_keep : (r q : ℕ) (w : W) → r < 64 → regs (read_reg k io r w).1 q ≡ regs w q

abbrev with_pitch : FramebufferMode → ℕ → FramebufferMode
with_pitch mode p = record { width = mode.width; height = mode.height; pitch = p; bpp = 32 }

module _ {W : Type 0} (k : Ports W) (io : ℕ) (a : Adapter k io) where
  pub record ModeSet (mode : FramebufferMode) (fb : Framebuffer) (w : W) : Type 0 where
    pub enabled : a.regs w Register.enable ≡ 1
    pub width : a.regs w Register.width ≡ mode.width
    pub height : a.regs w Register.height ≡ mode.height
    pub depth : a.regs w Register.bits_per_pixel ≡ 32
    pub screen : fb.mode ≡ record {
      width = mode.width;
      height = mode.height;
      pitch = a.regs w Register.bytes_per_line;
      bpp = 32;
    }
    pub size : fb.size ≡ a.regs w Register.fb_size

  -- For a width and a height of 32 bits, after `VMSVGA_SetResolution` the device is enabled with the
  -- width, the height and 32 bits per pixel, and the framebuffer has this mode with the bytes per line
  -- and the size that the device reports.
  pub set_resolution-ModeSet :
      (fb : Framebuffer) (mode : FramebufferMode) (w : W)
      → mode.width < 2 ^ 32
      → mode.height < 2 ^ 32
      → ModeSet mode (set_resolution k io fb mode w).0 (set_resolution k io fb mode w).1
  unfolding set_resolution
  set_resolution-ModeSet fb mode w hw hh =
      let w1 : W = write_reg k io Register.enable 0 w in
      let w2 : W = write_reg k io Register.width mode.width w1 in
      let w3 : W = write_reg k io Register.height mode.height w2 in
      let w4 : W = write_reg k io Register.bits_per_pixel 32 w3 in
      let w5 : W = write_reg k io Register.enable 1 w4 in
      let w6 : W = (read_reg k io Register.fb_size w5).1 in
      let w7 : W = (read_reg k io Register.bytes_per_line w6).1 in
      let last : (q : ℕ) → a.regs w7 q ≡ a.regs w5 q = λ q.
        a.reads_keep Register.bytes_per_line q w6 (omega arith)
        ∙ a.reads_keep Register.fb_size q w5 (omega arith) in
      record {
        enabled =
            last Register.enable ∙ a.stores Register.enable 1 w4 (omega arith) refl (omega arith);
        width =
            last Register.width
            ∙ a.keeps Register.enable 1 Register.width w4 (omega arith) refl refl
            ∙ a.keeps Register.bits_per_pixel 32 Register.width w3 (omega arith) refl refl
            ∙ a.keeps Register.height mode.height Register.width w2 (omega arith) refl refl
            ∙ a.stores Register.width mode.width w1 (omega arith) refl hw;
        height =
            last Register.height
            ∙ a.keeps Register.enable 1 Register.height w4 (omega arith) refl refl
            ∙ a.keeps Register.bits_per_pixel 32 Register.height w3 (omega arith) refl refl
            ∙ a.stores Register.height mode.height w2 (omega arith) refl hh;
        depth =
            last Register.bits_per_pixel
            ∙ a.keeps Register.enable 1 Register.bits_per_pixel w4 (omega arith) refl refl
            ∙ a.stores Register.bits_per_pixel 32 w3 (omega arith) refl (omega arith);
        screen = ap (with_pitch mode) (
            a.reads Register.bytes_per_line w6 (omega arith)
            ∙ sym (a.reads_keep Register.bytes_per_line Register.bytes_per_line w6 (omega arith)));
        size = a.reads Register.fb_size w5 (omega arith) ∙ sym (last Register.fb_size);
      }
