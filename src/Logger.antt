-- ===== src/Logger.antt =====
-- src/log/logger.c and the levels of src/include/sipaa/logger.h: what a log line sends to the screen
-- and to the serial line. nanoprintf, which fills the buffer, is an argument, as is the address of
-- each literal. `Sterm` and `Ports` share the world.
pub mod Disabled
use sipaa_kernel.Prelude.{
  ℕ, zero, suc, Bool, true, false, ◌==◌, not, ◌&&◌, ◌||◌, if◌then◌else◌, List, [], ◌∷◌,
}
use sipaa_kernel.Prelude.Run.{Run, done, ◌>>=◌}
use sipaa_kernel.Mem.{Mem}
use sipaa_kernel.Io.{Ports}
use sipaa_kernel.ConIo.{Sterm, conio_print, conio_set_fg, conio_reset_color}
use sipaa_kernel.Kdebug.{Debugger, dbg_print}

-- `enum LogType`
pub data LogType : Type 0 where
  info warning error success fatal debug : LogType

-- the globals of the file, of the console and of the debugger
pub record Logger : Type 0 where
  pub logger_enabled : ℕ
  pub enable_serial : Bool
  pub enable_conio : Bool
  pub conio_initialized : Bool
  pub debugger : Debugger

-- `Logger_SetEnabled` and `Logger_IsEnabled`
unfoldable pub set_enabled : (enabled : ℕ) → Logger → Logger
set_enabled enabled s = record s { logger_enabled = enabled }

unfoldable pub is_enabled : Logger → ℕ
is_enabled s = s.logger_enabled

-- `lineColors`, by the characters of each. The third and the fourth literal stand side by side
-- without a comma and are one; the array's last entry is `NULL`.
unfoldable pub line_color : (literal : List ℕ → ℕ) → LogType → ℕ
line_color literal info = literal (27 ∷ 91 ∷ 51 ∷ 54 ∷ 109 ∷ [])
line_color literal warning = literal (27 ∷ 91 ∷ 51 ∷ 51 ∷ 109 ∷ [])
line_color literal error = literal (27 ∷ 91 ∷ 51 ∷ 49 ∷ 109 ∷ 27 ∷ 91 ∷ 51 ∷ 53 ∷ 109 ∷ [])
line_color literal success = literal (27 ∷ 91 ∷ 51 ∷ 48 ∷ 109 ∷ [])
line_color literal fatal = literal (27 ∷ 91 ∷ 51 ∷ 52 ∷ 109 ∷ [])
line_color literal debug = 0

-- `graphicalLineColors`
unfoldable pub graphical_color : LogType → ℕ
graphical_color info = 0x03b6fc
graphical_color warning = 0xfcc203
graphical_color error = 0xff0000
graphical_color success = 0xB200DE
graphical_color fatal = 0x505050
graphical_color debug = 0x00DF86

abbrev pub is_fatal : LogType → Bool
is_fatal fatal = true
is_fatal _ = false

module _ {W : Type 0} (screen : Sterm W) (ports : Ports W) (literal : List ℕ → ℕ)
    (rounds fuel : ℕ) where
  -- the serial half of the functions below
  to_serial : (text : ℕ) → Logger → Mem → W → Run W
  unfolding dbg_print
  to_serial text s m w =
      if s.debugger.ready && s.enable_serial
      then dbg_print ports rounds fuel text s.debugger m w
      else done w

  -- `shared_print`
  unfoldable pub shared_print : (buf : ℕ) → Logger → Mem → W → Run W
  unfolding to_serial conio_print
  shared_print buf s m w =
      to_serial buf s m (if s.enable_conio then conio_print screen s.conio_initialized buf w else w)

  -- `shared_vprintf`; `vsnprintf` fills the 32767 bytes at `buf`
  unfoldable pub shared_vprintf :
      (vsnprintf : (buf size format : ℕ) → Mem → Mem)
      → (buf format : ℕ) → Logger
      → Mem
      → W
      → Run (Mem × W)
  unfolding shared_print
  shared_vprintf vsnprintf buf format s m w =
      let m1 : Mem = vsnprintf buf 32767 format m in do w1 ← shared_print buf s m1 w; done (m1, w1)

  -- `shared_chfg`
  unfoldable pub shared_chfg : LogType → Logger → Mem → W → Run W
  unfolding to_serial conio_set_fg line_color graphical_color
  shared_chfg kind s m w = to_serial (line_color literal kind) s m (
      if s.enable_conio
      then conio_set_fg screen s.conio_initialized (graphical_color kind) w
      else w)

  -- `shared_rstcol`
  unfoldable pub shared_rstcol : Logger → Mem → W → Run W
  unfolding to_serial conio_reset_color
  shared_rstcol s m w =
      to_serial (literal (27 ∷ 91 ∷ 48 ∷ 109 ∷ [])) s m
        (if s.enable_conio then conio_reset_color screen s.conio_initialized w else w)

  -- `__internal_log`; `SK_SHOWDBGLINES` is defined, so that the test of `LT_DEBUG` is not compiled
  unfoldable pub internal_log :
      (vsnprintf : (buf size format : ℕ) → Mem → Mem)
      → (buf file : ℕ) → LogType
      → (message : ℕ) → Logger
      → Mem
      → W
      → Run (Mem × W)
  unfolding shared_chfg shared_print shared_rstcol shared_vprintf
  internal_log vsnprintf buf file kind message s m w =
      if not (s.logger_enabled == 1) && not (is_fatal kind) then done (m, w) else (do
        w1 ← shared_chfg kind s m w
        w2 ← shared_print file s m w1
        w3 ← shared_rstcol s m w2
        w4 ← shared_print (literal (58 ∷ 32 ∷ [])) s m w3
        shared_vprintf vsnprintf buf message s m w4)
