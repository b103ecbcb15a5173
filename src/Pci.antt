-- ===== src/Pci.antt =====
-- src/sys/pci.c and src/include/sipaa/pci.h: device numbers, the configuration space through ports,
-- and the scan of buses. The ports are the interface `Ports` over a world `W`. Bridges lead from
-- bus to bus, so that the scan runs on fuel for their depth.
pub mod Address
pub mod Space
pub mod Scan
pub mod Loop
pub mod Exists
use sipaa_kernel.Prelude.{
  ℕ, zero, suc, ◌+◌, ◌*◌, ◌/◌, ◌%◌, ◌^◌, Bool, true, false, Option, none, some, ◌&&◌, ◌||◌, not,
  ◌==◌, if◌then◌else◌, bit_and, bit_or,
}
use sipaa_kernel.Io.{Ports, inb, ins, inl, outl}
use sipaa_kernel.Prelude.Run.{Run, done, out_of_fuel, ◌>>=◌}

unfoldable pub extract_bus : ℕ → ℕ
extract_bus device = (device / 2 ^ 16) % 2 ^ 8

unfoldable pub extract_slot : ℕ → ℕ
extract_slot device = (device / 2 ^ 8) % 2 ^ 8

unfoldable pub extract_func : ℕ → ℕ
extract_func device = device % 2 ^ 8

-- `Pci_BoxDevice`
unfoldable pub box_device : (bus slot func : ℕ) → ℕ
box_device bus slot func = bit_or (bit_or (bus * 2 ^ 16) (slot * 2 ^ 8)) func % 2 ^ 32

-- `Pci_GetAddress`
unfoldable pub get_address : (device field : ℕ) → ℕ
unfolding extract_bus extract_slot extract_func
get_address device field =
    bit_or
      (bit_or
        (bit_or (bit_or 0x80000000 (extract_bus device * 2 ^ 16)) (extract_slot device * 2 ^ 11))
        (extract_func device * 2 ^ 8))
      (bit_and field 0xFC)
    % 2 ^ 32

-- the types of devices that a scan looks for, all or one
pub data Wanted : Type 0 where
  any : Wanted
  only : ℕ → Wanted

module _ {W : Type 0} (k : Ports W) where
  -- `Pci_WriteField`
  unfoldable pub write_field : (device field value : ℕ) → W → W
  unfolding outl
  write_field device field value w = outl k 0xCFC value (outl k 0xCF8 (get_address device field) w)

  -- `Pci_ReadField`
  unfoldable pub read_field : (device field size : ℕ) → W → ℕ × W
  unfolding inb ins inl outl
  read_field device field size w =
      let w1 : W = outl k 0xCF8 (get_address device field) w in
      if size == 4
      then inl k 0xCFC w1
      else if size == 2
      then ins k (0xCFC + bit_and field 2) w1
      else (if size == 1 then inb k (0xCFC + bit_and field 3) w1 else (0xFFFF, w1))

  -- `Pci_FindType`
  unfoldable pub find_type : (device : ℕ) → W → ℕ × W
  unfolding read_field
  find_type device w =
      let (class, w1) = read_field device 0x0b 1 w in
      let (subclass, w2) = read_field device 0x0a 1 w1 in
      (bit_or (class * 2 ^ 8) subclass % 2 ^ 16, w2)

  module _ (f : (device vendor_id device_id : ℕ) → W → W) where
    -- `Pci_ScanHit`
    unfoldable pub scan_hit : (device : ℕ) → W → W
    unfolding read_field
    scan_hit device w =
        let (vendor, w1) = read_field device 0 2 w in
        let (number, w2) = read_field device 2 2 w1 in f device vendor number w2

    hit_if : Wanted → (device : ℕ) → W → W
    unfolding scan_hit find_type
    hit_if any device w = scan_hit device w
    hit_if (only t) device w =
        let (u, w1) = find_type device w in if t == u then scan_hit device w1 else w1

    -- `Pci_ScanFunc`; `scan_bus` is the scan of the bus behind a bridge
    scan_func : (scan_bus : ℕ → W → Run W) → Wanted → (bus slot func : ℕ) → W → Run W
    unfolding hit_if find_type read_field
    scan_func scan_bus kind bus slot func w =
        let device : ℕ = box_device bus slot func in
        let w1 : W = hit_if kind device w in
        let (t, w2) = find_type device w1 in
        let (behind, w3) = read_field device 0x19 1 w2 in
        if t == 0x0604 then scan_bus behind w3 else done w2

    -- the loop of `Pci_ScanSlot`, with `n` rounds left
    scan_funcs : (scan_bus : ℕ → W → Run W) → Wanted → (n bus slot func : ℕ) → W → Run W
    unfolding scan_func read_field
    scan_funcs scan_bus kind zero bus slot func w = done w
    scan_funcs scan_bus kind (suc n) bus slot func w = do
      w2 ←
          (let (vendor, w1) = read_field (box_device bus slot func) 0 2 w in
            if not (vendor == 0xFFFF) then scan_func scan_bus kind bus slot func w1 else done w1)
      scan_funcs scan_bus kind n bus slot (func + 1) w2

    -- the part of `Pci_ScanSlot` after function 0
    more_funcs : (scan_bus : ℕ → W → Run W) → Wanted → (bus slot : ℕ) → W → Run W
    unfolding scan_funcs read_field
    more_funcs scan_bus kind bus slot w =
        let (header, w1) = read_field (box_device bus slot 0) 0x0e 1 w in
        if header == 0 then done w1 else scan_funcs scan_bus kind 7 bus slot 1 w1

    -- `Pci_ScanSlot`
    scan_slot : (scan_bus : ℕ → W → Run W) → Wanted → (bus slot : ℕ) → W → Run W
    unfolding scan_func more_funcs read_field
    scan_slot scan_bus kind bus slot w =
        let (vendor, w1) = read_field (box_device bus slot 0) 0 2 w in
        if vendor == 0xFFFF
        then done w1
        else (do w2 ← scan_func scan_bus kind bus slot 0 w1; more_funcs scan_bus kind bus slot w2)

    -- the loop over the slots of a bus, with `n` rounds left
    scan_slots : (scan_bus : ℕ → W → Run W) → Wanted → (n bus slot : ℕ) → W → Run W
    unfolding scan_slot
    scan_slots scan_bus kind zero bus slot w = done w
    scan_slots scan_bus kind (suc n) bus slot w = do
      w1 ← scan_slot scan_bus kind bus slot w
      scan_slots scan_bus kind n bus (slot + 1) w1

    -- `Pci_ScanBus`
    unfoldable pub scan_bus : (fuel : ℕ) → Wanted → (bus : ℕ) → W → Run W
    unfolding scan_slots
    scan_bus zero kind bus w = out_of_fuel
    scan_bus (suc fuel) kind bus w = scan_slots (scan_bus fuel kind) kind 32 bus 0 w

    -- the loop of `Pci_Scan` over the host functions, with `n` rounds left; the flag is `hit`
    scan_hosts : (fuel : ℕ) → Wanted → (n func : ℕ) → Bool → W → Run (Bool × W)
    unfolding scan_bus read_field
    scan_hosts fuel kind zero func hit w = done (hit, w)
    scan_hosts fuel kind (suc n) func hit w =
        let (vendor, w1) = read_field (box_device 0 0 func) 0 2 w in
        if vendor == 0xFFFF
        then done (hit, w1)
        else (do w2 ← scan_bus fuel kind func w1; scan_hosts fuel kind n (func + 1) true w2)

    -- the loop of `Pci_Scan` over all buses, with `n` rounds left
    scan_buses : (fuel : ℕ) → Wanted → (n bus : ℕ) → W → Run W
    unfolding scan_bus
    scan_buses fuel kind zero bus w = done w
    scan_buses fuel kind (suc n) bus w = do
      w1 ← scan_bus fuel kind bus w
      scan_buses fuel kind n (bus + 1) w1

    -- `Pci_Scan`
    unfoldable pub scan : (fuel : ℕ) → Wanted → W → Run W
    unfolding scan_bus scan_hosts scan_buses read_field
    scan fuel kind w =
        let (header, w1) = read_field 0 0x0e 1 w in
        if bit_and header 0x80 == 0 then scan_bus fuel kind 0 w1 else (do
          r ← scan_hosts fuel kind 8 0 false w1
          (if r.0 then done r.1 else scan_buses fuel kind 256 0 r.1))

  -- `Pci_GetInterrupt`
  unfoldable pub get_interrupt : (device : ℕ) → W → ℕ × W
  unfolding read_field
  get_interrupt device w = read_field device 0x3C 1 w

-- `Pci_Exists_Callback`, which assigns the vendor that it is given: `found` becomes 1 where the
-- vendor that is looked for is not 0 and the device number is the one that is looked for
unfoldable pub exists_callback :
    {W : Type 0} → (vid did : ℕ) → (device vendor_id device_id : ℕ) → W × ℕ → W × ℕ
exists_callback vid did device vendor_id device_id (w, found) =
    if not (vid == 0) && (device_id == did) then (w, 1) else (w, found)

-- the ports, beside the variable `found`
abbrev pub beside : {W : Type 0} → Ports W → Ports (W × ℕ)
beside k = record {
  out8 = λ p v x. (k.out8 p v x.0, x.1);
  in8 = λ p x. ((k.in8 p x.0).0, ((k.in8 p x.0).1, x.1));
  out16 = λ p v x. (k.out16 p v x.0, x.1);
  in16 = λ p x. ((k.in16 p x.0).0, ((k.in16 p x.0).1, x.1));
  out32 = λ p v x. (k.out32 p v x.0, x.1);
  in32 = λ p x. ((k.in32 p x.0).0, ((k.in32 p x.0).1, x.1));
}

-- `Pci_Exists`; its `found`, a block that `Pmm_Allocate` gives, is the number beside the world
unfoldable pub exists : {W : Type 0} → Ports W → (fuel vid did : ℕ) → W → Run (W × ℕ)
unfolding scan exists_callback
exists k fuel vid did w = scan (beside k) (exists_callback vid did) fuel any (w, 0)
