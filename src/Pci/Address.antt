-- ===== src/Pci/Address.antt =====
-- Device numbers and configuration addresses.
use sipaa_kernel.Prelude.{
  ℕ, ◌+◌, ◌*◌, ◌/◌, ◌%◌, ◌^◌, ◌<◌, ◌≡◌, refl, arith, bit_and, bit_or, and_shifted, and_mask,
  or_fields, ap, ◌∙◌,
}
use sipaa_kernel.Pci.{extract_bus, extract_slot, extract_func, box_device, get_address}

box_device-sum :
    (bus slot func : ℕ)
    → bus < 256
    → slot < 256
    → func < 256
    → box_device bus slot func ≡ bus * 2 ^ 16 + slot * 2 ^ 8 + func
unfolding box_device
box_device-sum bus slot func hb hs hf =
    let one : bit_or (bus * 2 ^ 16) (slot * 2 ^ 8) ≡ (bus * 2 ^ 8 + slot) * 2 ^ 8 =
      or_fields 16 bus (slot * 2 ^ 8) (omega arith) ∙ omega arith in
    let two : bit_or ((bus * 2 ^ 8 + slot) * 2 ^ 8) func ≡ (bus * 2 ^ 8 + slot) * 2 ^ 8 + func =
      or_fields 8 (bus * 2 ^ 8 + slot) func hf in
    rw (one, two) (omega arith)

field_aligned : (field : ℕ) → field < 256 → bit_and field 0xFC ≡ field / 4 * 4
field_aligned field h =
    and_shifted 2 field 63 ∙ ap (λ t. t * 2 ^ 2) (and_mask 6 (field / 2 ^ 2) 63 refl) ∙ omega arith

-- The fields of an address: bit 31, the bus from bit 16, the slot from bit 11, the function from
-- bit 8 and the offset.
address-sum :
    (bus slot func offset : ℕ)
    → bus < 256
    → slot < 32
    → func < 8
    → offset < 256
    → bit_or
        (bit_or (bit_or (bit_or 0x80000000 (bus * 2 ^ 16)) (slot * 2 ^ 11)) (func * 2 ^ 8))
        offset
      ≡ 2 ^ 31 + bus * 2 ^ 16 + slot * 2 ^ 11 + func * 2 ^ 8 + offset
address-sum bus slot func offset hb hs hf ho =
    let a : ℕ = 2 ^ 15 + bus in
    let b : ℕ = a * 2 ^ 5 + slot in
    let c : ℕ = b * 2 ^ 3 + func in
    let one : bit_or 0x80000000 (bus * 2 ^ 16) ≡ a * 2 ^ 16 =
      or_fields 31 1 (bus * 2 ^ 16) (omega arith) ∙ omega arith in
    let two : bit_or (a * 2 ^ 16) (slot * 2 ^ 11) ≡ b * 2 ^ 11 =
      or_fields 16 a (slot * 2 ^ 11) (omega arith) ∙ omega arith in
    let three : bit_or (b * 2 ^ 11) (func * 2 ^ 8) ≡ c * 2 ^ 8 =
      or_fields 11 b (func * 2 ^ 8) (omega arith) ∙ omega arith in
    let four : bit_or (c * 2 ^ 8) offset ≡ c * 2 ^ 8 + offset = or_fields 8 c offset ho in
    rw (one, two, three, four) (omega arith)

-- what a device number says of its device, and where its configuration space is
pub record Boxed (bus slot func field device : ℕ) : Type 0 where
  bus_back : extract_bus device ≡ bus
  slot_back : extract_slot device ≡ slot
  func_back : extract_func device ≡ func
  address :
      get_address device field
      ≡ 2 ^ 31 + bus * 2 ^ 16 + slot * 2 ^ 11 + func * 2 ^ 8 + field / 4 * 4

-- For a bus below 256, a slot below 32, a function below 8 and a field below 256, the device number
-- of `Pci_BoxDevice` gives the three back, and `Pci_GetAddress` makes of it the address of the
-- field's aligned word: the enable bit, the bus, the slot, the function and the offset stand in
-- their own bits and do not mix.
pub box_device-Boxed :
    (bus slot func field : ℕ)
    → bus < 256
    → slot < 32
    → func < 8
    → field < 256
    → Boxed bus slot func field (box_device bus slot func)
unfolding get_address extract_bus extract_slot extract_func
box_device-Boxed bus slot func field hb hs hf hx =
    let e : box_device bus slot func ≡ bus * 2 ^ 16 + slot * 2 ^ 8 + func =
      box_device-sum bus slot func hb (omega arith) (omega arith) in
    let b : (box_device bus slot func / 2 ^ 16) % 2 ^ 8 ≡ bus = omega (arith, e) in
    let s : (box_device bus slot func / 2 ^ 8) % 2 ^ 8 ≡ slot = omega (arith, e) in
    let f : box_device bus slot func % 2 ^ 8 ≡ func = omega (arith, e) in
    record {
      bus_back = b;
      slot_back = s;
      func_back = f;
      address =
          rw (b, s, f, field_aligned field hx)
            (rw (address-sum bus slot func (field / 4 * 4) hb hs hf (omega arith)) (omega arith));
    }
