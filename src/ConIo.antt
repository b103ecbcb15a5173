-- ===== src/ConIo.antt =====
-- src/dev/conio.c: the console on the screen. The terminal behind it is another project's, an
-- interface over a world `W`; the font is data.
use sipaa_kernel.Prelude.{ℕ, Bool, true, ◌==◌, if◌then◌else◌, not}

-- the functions of the terminal that are called
pub record Sterm (W : Type 0) : Type 0 where
  pub init : (address width height bg fg font font_width font_height spacing : ℕ) → W → W
  pub clear : W → W
  pub put_string : (buf : ℕ) → W → W
  pub set_bg : (color : ℕ) → W → W
  pub set_fg : (color : ℕ) → W → W

-- `defbg` and `deffg`
abbrev pub defbg : ℕ
defbg = 0x101010

abbrev pub deffg : ℕ
deffg = 0xECECEC

module _ {W : Type 0} (k : Sterm W) where
  -- `initialized` is `ConIO_Initialized`.
  unfoldable pub conio_clear : (initialized : Bool) → W → W
  conio_clear initialized w = if not initialized then w else k.clear w

  unfoldable pub conio_print : (initialized : Bool) → (buf : ℕ) → W → W
  conio_print initialized buf w = if not initialized then w else k.put_string buf w

  unfoldable pub conio_set_bg : (initialized : Bool) → (bg : ℕ) → W → W
  conio_set_bg initialized bg w = if not initialized then w else k.set_bg bg w

  unfoldable pub conio_set_fg : (initialized : Bool) → (fg : ℕ) → W → W
  conio_set_fg initialized fg w = if not initialized then w else k.set_fg fg w

  unfoldable pub conio_reset_color : (initialized : Bool) → W → W
  conio_reset_color initialized w = if not initialized then w else k.set_fg deffg (k.set_bg defbg w)

  -- `ConIO_Initialize`; `framebuffer` is the pointer that `Fbuf_Get` returns, `address`, `width` and
  -- `height` are what it points to, and `font` is the address of `VGA8`.
  unfoldable pub conio_initialize :
      (framebuffer address width height font : ℕ) → Bool × W → Bool × W
  conio_initialize framebuffer address width height font (initialized, w) =
      if not (framebuffer == 0)
      then (true, k.init address width height defbg deffg font 8 16 0 w)
      else (initialized, w)
