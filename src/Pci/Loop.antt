-- ===== src/Pci/Loop.antt =====
-- A scan with a bridge that leads back to the bus it is on.
use sipaa_kernel.Prelude.{
  ℕ, zero, suc, ◌+◌, ◌≤◌, ◌<◌, ◌≡◌, refl, arith, true, false, ◌==◌, Bool-cases, inl, inr, subst,
}
use sipaa_kernel.Prelude.Run.{Run, done, out_of_fuel, ◌>>=◌}
use sipaa_kernel.Io.{Ports}
use sipaa_kernel.Pci.{
  Wanted, box_device, read_field, find_type, hit_if, scan_func, scan_slot, scan_slots, scan_bus,
}
use sipaa_kernel.Pci.Space.{
  ConfigSpace, vendor_of, secondary_of, type_of, read_vendor, read_secondary, read_type,
}

-- what follows a part that does not end
after_none :
    {A B : Type 0} (r : Run A) (g : A → Run B)
    → ((a : A) → g a ≡ out_of_fuel)
    → (r >>= g) ≡ out_of_fuel
after_none (done a) g h = h a
after_none out_of_fuel g h = refl

module _ {W S : Type 0} (k : Ports W) (seen : W → S) (c : ConfigSpace k seen)
    (f : (device vendor_id device_id : ℕ) → W → W) (kind : Wanted) (bus slot : ℕ)
    (there : (vendor_of k seen c (box_device bus slot 0) == 0xFFFF) ≡ false)
    (bridge : (type_of k seen c (box_device bus slot 0) == 0x0604) ≡ true)
    (back : secondary_of k seen c (box_device bus slot 0) ≡ bus) where
  module _ (scan_below : ℕ → W → Run W) (never : (w : W) → scan_below bus w ≡ out_of_fuel) where
    scan_func_never : (w : W) → scan_func k f scan_below kind bus slot 0 w ≡ out_of_fuel
    unfolding scan_func
    scan_func_never w =
        let d : ℕ = box_device bus slot 0 in
        let w1 : W = hit_if k f kind d w in
        let u = read_type k seen c d w1 in
        let s = read_secondary k seen c d (find_type k d w1).1 in
        rw (u.0, s.0, bridge, back) (never _)

    scan_slot_never : (w : W) → scan_slot k f scan_below kind bus slot w ≡ out_of_fuel
    unfolding scan_slot
    scan_slot_never w =
        let v = read_vendor k seen c (box_device bus slot 0) w in
        rw (v.0, there) (rw (scan_func_never (read_field k (box_device bus slot 0) 0 2 w).1) refl)

    scan_slots_never :
        (n i : ℕ) (w : W)
        → i ≤ slot
        → slot < i + n
        → scan_slots k f scan_below kind n bus i w ≡ out_of_fuel
    unfolding scan_slots
    scan_slots_never zero i w lo hi = absurd (omega arith)
    scan_slots_never (suc n) i w lo hi = elim (Bool-cases (i == slot)) [
      | inl here ↦
          let e : slot ≡ i = ground (arith, here) in
          let stuck : scan_slot k f scan_below kind bus i w ≡ out_of_fuel =
            subst (λ j. scan_slot k f scan_below kind bus j w ≡ out_of_fuel) e
              (scan_slot_never w) in
          rw stuck refl
      | inr later ↦
          after_none (scan_slot k f scan_below kind bus i w) _
            (λ w'. scan_slots_never n (i + 1) w' (ground (arith, later)) (omega arith))
    ]

  -- With a bridge at function 0 of a slot that has the number of its own bus as the bus behind it,
  -- the scan of that bus ends with no fuel.
  pub scan_bus_never : (fuel : ℕ) (w : W) → slot < 32 → scan_bus k f fuel kind bus w ≡ out_of_fuel
  unfolding scan_bus
  scan_bus_never zero w h = refl
  scan_bus_never (suc fuel) w h =
      scan_slots_never (scan_bus k f fuel kind) (λ w'. scan_bus_never fuel w' h) 32 0 w
        (omega arith) (omega arith)
