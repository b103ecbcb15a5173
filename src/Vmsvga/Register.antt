-- ===== src/Vmsvga/Register.antt =====
-- The registers of `enum VMwareSVGARegisters` in src/include/sipaa/dev/vmsvgaii.h that the driver uses.
use sipaa_kernel.Prelude.{ℕ}

abbrev pub id : ℕ
id = 0

abbrev pub enable : ℕ
enable = 1

abbrev pub width : ℕ
width = 2

abbrev pub height : ℕ
height = 3

abbrev pub bits_per_pixel : ℕ
bits_per_pixel = 7

abbrev pub bytes_per_line : ℕ
bytes_per_line = 12

abbrev pub fb_start : ℕ
fb_start = 13

abbrev pub fb_size : ℕ
fb_size = 16

abbrev pub capabilities : ℕ
capabilities = 17
