-- ===== src/BootSrv/Cpu.antt =====
-- Which positions `BootSrv_GetCPU` answers.
use sipaa_kernel.Prelude.{ℕ, ◌^◌, ◌<◌, ◌≢◌, ◌↔◌, arith}
use sipaa_kernel.BootSrv.{BootInfo, get_cpu}

-- With fewer than 2 ^ 63 processors, none of them at `NULL`, `BootSrv_GetCPU` answers `NULL` exactly
-- for a negative position and for one that is not below their number.
pub get_cpu-eq_null_iff :
    (b : BootInfo) (pos : ℕ)
    → pos < 2 ^ 32
    → b.cpu_count < 2 ^ 63
    → ((i : ℕ) → i < b.cpu_count → b.cpus i ≢ 0)
    → (get_cpu b pos ≢ 0) ↔ ((pos < 2 ^ 31) × (pos < b.cpu_count))
unfolding get_cpu
get_cpu-eq_null_iff b pos h few real = (λ e. ground (arith, e), λ p. ground (arith, real pos, p))
