-- ===== src/Framebuffer/Modes.antt =====
-- Which framebuffer is in use after the choice of the adapter.
use sipaa_kernel.Prelude.{
  ℕ, ◌<◌, ◌≡◌, ◌≢◌, refl, ap, ◌∙◌, arith, true, false, ◌==◌, ◌&&◌, if◌then◌else◌, Bool-cases, inl,
  inr, bit_and,
}
use sipaa_kernel.Prelude.Run.{Run, done}
use sipaa_kernel.Io.{Ports}
use sipaa_kernel.Bga.{is_available}
use sipaa_kernel.Pci.{any, beside, box_device, scan}
use sipaa_kernel.Pci.Space.{ConfigSpace, bar0_of, header_of, secondary_of, type_of, read_bar0}
use sipaa_kernel.Pci.Scan.{Hit, after_hits, scan-Visits}
use sipaa_kernel.Pci.Exists.{has_number, listed, space_beside, exists-listed}
use sipaa_kernel.Vmsvga.{
  Framebuffer, scan_pci, install_found, install, set_resolution, read_reg, negotiate_device_version,
  install_mode,
}
use sipaa_kernel.Vmsvga.Register
use sipaa_kernel.Framebuffer.{Screen, choose_adapter, fbuf_initialize_gpu}

module _ {W : Type 0} (k : Ports W) (c : ConfigSpace k (λ w. tt {0})) where
  -- what the scan does to `VMSVGA_Io` at one device: the address without its low bits, if the device
  -- is the adapter and has one
  abbrev pub take_base : Hit → ℕ → ℕ
  take_base h io =
      if (h.vendor == 0x15AD) && (h.number == 0x0405)
      then (if bar0_of k (λ w. tt {0}) c h.device == 0
          then io
          else bit_and (bar0_of k (λ w. tt {0}) c h.device) 0xFFFFFFF0)
      else io

  scan_pci-take_base :
      (d v n : ℕ) (x : W × ℕ)
      → (scan_pci k d v n x).1 ≡ take_base (record { device = d; vendor = v; number = n }) x.1
  unfolding scan_pci
  scan_pci-take_base d v n x =
      let bar = read_bar0 k (λ w. tt {0}) c d x.0 in
      elim (Bool-cases ((v == 0x15AD) && (n == 0x0405))) [
        | inl adapter ↦ rw (bar.0, adapter) refl
        | inr other ↦ rw other refl
      ]

  -- the port of the adapter after the scan
  abbrev pub base_found : (fuel io : ℕ) → ℕ
  base_found fuel io = after_hits take_base (listed k c fuel 0) io

  -- how the choice of the adapter ends
  pub data Adapted (fuel io : ℕ) (s : Screen) (r : Run (ℕ × Screen × W)) : Type 0 where
    absent :
        (w : W)
        → has_number 0x0405 (listed k c fuel 0) ≡ false
        → r ≡ done (io, s, w)
        → Adapted fuel io s r
    no_base :
        (w : W)
        → has_number 0x0405 (listed k c fuel 0) ≡ true
        → base_found fuel io ≡ 0
        → r ≡ done (0, s, w)
        → Adapted fuel io s r
    refused :
        (w w' : W)
        → has_number 0x0405 (listed k c fuel 0) ≡ true
        → base_found fuel io ≢ 0
        → (negotiate_device_version k (base_found fuel io) w).0 ≡ false
        → r ≡ done (base_found fuel io, s, w')
        → Adapted fuel io s r
    installed :
        (w w' : W) (fb : Framebuffer)
        → has_number 0x0405 (listed k c fuel 0) ≡ true
        → base_found fuel io ≢ 0
        → (negotiate_device_version k (base_found fuel io) w).0 ≡ true
        → ((fb.mode).width ≡ 1280) × ((fb.mode).height ≡ 720) × ((fb.mode).bpp ≡ 32)
        → r
          ≡ done (
            base_found fuel io,
            record {
              framebuffer = fb;
              capabilities = record (s.capabilities) { can_set_modes = true; set_mode = true };
            },
            w',
          )
        → Adapted fuel io s r

  -- the part after the test of the devices, where one with the number is there
  module _ (fuel io : ℕ) (s : Screen) (there : has_number 0x0405 (listed k c fuel 0) ≡ true) where
    choose_adapter-Adapted :
        (w1 w : W)
        → scan (beside k) (scan_pci k) fuel any (w, io) ≡ done (w1, base_found fuel io)
        → Adapted fuel io s (choose_adapter k fuel 1 io s w)
    unfolding choose_adapter install install_found set_resolution
    choose_adapter-Adapted w1 w run = elim (Bool-cases (base_found fuel io == 0)) [
      | inl zero_base ↦
          let nil : base_found fuel io ≡ 0 = ground (arith, zero_base) in
          no_base w1 there nil (rw (run, zero_base) (ap (λ b. done (b, s, w1)) nil))
      | inr real ↦
          let some_base : base_found fuel io ≢ 0 = λ z. ground (arith, z, real) in
          elim (Bool-cases (negotiate_device_version k (base_found fuel io) w1).0) [
            | inl ok ↦
                let base : ℕ = base_found fuel io in
                let (fb, w2) =
                  set_resolution k base s.framebuffer install_mode
                    (negotiate_device_version k base w1).1 in
                let (start, w3) = read_reg k base Register.fb_start w2 in
                let (size, w4) = read_reg k base Register.fb_size w3 in
                let w5 : W = (read_reg k base Register.capabilities w4).1 in
                installed w1 w5 (record fb { size = size; address = start }) there some_base ok
                  (refl, refl, refl) (rw (run, real, ok) refl)
            | inr no_version ↦
                refused w1 (negotiate_device_version k (base_found fuel io) w1).1 there some_base
                  no_version (rw (run, real, no_version) refl)
          ]
    ]

  -- With one host bridge, and bridges that lead to buses of lower levels, `Fbuf_InitializeGPU` ends,
  -- with fuel for one round more than the level of bus 0. Without a device that has the number of the
  -- VMware adapter nothing changes. With one, the port is taken from the last such device of VMware
  -- that has an address; the framebuffer is as before when there is none or the device does not accept
  -- the version, and otherwise it is that of a mode of 1280 times 720 with 32 bits, and its mode can
  -- be set from then on.
  pub fbuf_initialize_gpu-Adapted :
      (level : ℕ → ℕ) (fuel io : ℕ) (s : Screen) (w : W)
      → (bit_and (header_of k (λ w. tt {0}) c 0) 0x80 == 0) ≡ true
      → ((bus slot func : ℕ)
          → slot < 32
          → func < 8
          → type_of k (λ w. tt {0}) c (box_device bus slot func) == 0x0604 ≡ true
          → level (secondary_of k (λ w. tt {0}) c (box_device bus slot func)) < level bus)
      → level 0 < fuel
      → Adapted fuel io s (fbuf_initialize_gpu k fuel io s w)
  unfolding fbuf_initialize_gpu space_beside
  fbuf_initialize_gpu-Adapted level fuel io s w host falls enough =
      let (w1, answer) = exists-listed k c level fuel 0x15AD 0x0405 w host falls enough in
      let v =
        scan-Visits (beside k) (λ x. x.1) (space_beside k c) (scan_pci k) take_base
          scan_pci-take_base level any falls fuel (w1, io) host enough in
      elim (Bool-cases (has_number 0x0405 (listed k c fuel 0))) [
        | inl there ↦
            rw (answer, there)
              (choose_adapter-Adapted fuel io s there v.world.0 w1
                (v.ends ∙ ap (λ n. done (v.world.0, n)) v.observed))
        | inr missing ↦ rw (answer, missing) (absent (is_available k 0xB0C2 w1).1 missing refl)
      ]
