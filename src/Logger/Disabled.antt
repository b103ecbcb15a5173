-- ===== src/Logger/Disabled.antt =====
-- What a disabled log does.
use sipaa_kernel.Prelude.{ℕ, ◌≡◌, ◌≢◌, arith, List, false}
use sipaa_kernel.Prelude.Run.{done}
use sipaa_kernel.Mem.{Mem}
use sipaa_kernel.Io.{Ports}
use sipaa_kernel.ConIo.{Sterm}
use sipaa_kernel.Logger.{LogType, Logger, set_enabled, is_fatal, internal_log}

-- Once the logger is set to anything but 1, a line that is not fatal writes nothing and formats
-- nothing.
pub internal_log_disabled :
    {W : Type 0} (screen : Sterm W) (ports : Ports W) (literal : List ℕ → ℕ) (rounds fuel : ℕ)
    (vsnprintf : (buf size format : ℕ) → Mem → Mem) (enabled buf file message : ℕ) (kind : LogType)
    (s : Logger) (m : Mem) (w : W)
    → enabled ≢ 1
    → is_fatal kind ≡ false
    → internal_log screen ports literal rounds fuel vsnprintf buf file kind message
        (set_enabled enabled s)
        m
        w
      ≡ done (m, w)
unfolding internal_log set_enabled
internal_log_disabled screen ports literal rounds fuel vsnprintf enabled buf file message kind s m w
      off mild =
    ground arith
