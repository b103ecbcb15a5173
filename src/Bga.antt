-- ===== src/Bga.antt =====
-- src/dev/bga.c: the registers of the Bochs graphics adapter behind two ports.
use sipaa_kernel.Prelude.{ℕ, ◌%◌, ◌^◌, Bool, leb, ◌==◌, not, if◌then◌else◌, bit_or}
use sipaa_kernel.Io.{Ports, outw, inw}

abbrev pub vbe_index_port : ℕ
vbe_index_port = 0x01CE

abbrev pub vbe_data_port : ℕ
vbe_data_port = 0x01CF

module _ {W : Type 0} (k : Ports W) where
  -- `BochsGA_WriteReg`
  unfoldable pub write_reg : (index value : ℕ) → W → W
  unfolding outw
  write_reg index value w = outw k vbe_data_port value (outw k vbe_index_port index w)

  -- `BochsGA_ReadReg`
  unfoldable pub read_reg : (index : ℕ) → W → ℕ × W
  unfolding outw inw
  read_reg index w = inw k vbe_data_port (outw k vbe_index_port index w)

  -- `BochsGA_IsAvailable`
  unfoldable pub is_available : (version : ℕ) → W → Bool × W
  unfolding read_reg
  is_available version w = let (v, w1) = read_reg 0 w in (leb (version % 2 ^ 16) v, w1)

  -- `BochsGA_SetVideoMode`
  unfoldable pub set_video_mode :
      (width height bit_depth use_linear_frame_buffer clear_video_memory : ℕ) → W → W
  unfolding write_reg
  set_video_mode width height bit_depth use_linear_frame_buffer clear_video_memory w =
      let w1 : W = write_reg 4 0 w in
      let w2 : W = write_reg 1 width w1 in
      let w3 : W = write_reg 2 height w2 in
      let w4 : W = write_reg 3 bit_depth w3 in
      write_reg 4
        (bit_or (bit_or 0x01 (if not (use_linear_frame_buffer == 0) then 0x40 else 0))
          (if not (clear_video_memory == 0) then 0 else 0x80))
        w4

  -- `BochsGA_SetBank`
  unfoldable pub set_bank : (bank_number : ℕ) → W → W
  unfolding write_reg
  set_bank bank_number w = write_reg 5 bank_number w
