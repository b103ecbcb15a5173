-- ===== src/Tests/Buses.antt =====
-- Configuration spaces.
use sipaa_kernel.Prelude.{
  ℕ, ◌+◌, ◌-◌, ◌%◌, ◌^◌, ◌<◌, ◌≡◌, refl, arith, List, [], ◌∷◌, ◌++◌, ◌==◌, ◌&&◌, true, false,
  bit_and, if◌then◌else◌, not,
}
use sipaa_kernel.Prelude.Run.{done, out_of_fuel}
use sipaa_kernel.Io.{Ports, inb, ins, inl, outl}
use sipaa_kernel.Pci.{any, beside, box_device, get_address, scan_bus, exists}
use sipaa_kernel.Pci.Space.{ConfigSpace, type_of, header_of, vendor_of, secondary_of}
use sipaa_kernel.Pci.Scan.{Hit, devices, Visits, scan_bus-Visits}
use sipaa_kernel.Pci.Loop.{scan_bus_never}
use sipaa_kernel.Pci.Exists.{has_number, listed, space_beside, exists-listed}

-- one device, at the first slot of bus 0: of the vendor 0x1234 and with the number 0x1111
abbrev one_half : (a o : ℕ) → ℕ
one_half a o =
    if a == 0x80000000 then (if o == 0 then 0x1234 else (if o == 2 then 0x1111 else 0)) else 0xFFFF

-- a device that is no bridge
abbrev plain : (a o : ℕ) → ℕ
plain a o = 0

-- a bridge with bus 0 behind it
abbrev bridging : (a o : ℕ) → ℕ
bridging a o = if a == 0x80000008 then (if o == 3 then 6 else (if o == 2 then 4 else 0)) else 0

-- the selected address, and the calls
abbrev ports : (byte : ℕ → ℕ → ℕ) → Ports (ℕ × List Hit)
ports byte = record {
  out8 = λ p v w. w;
  in8 = λ p w. (byte w.0 (p - 0xCFC), w);
  out16 = λ p v w. w;
  in16 = λ p w. (one_half w.0 (p - 0xCFC), w);
  out32 = λ p v w. if p == 0xCF8 then (v, w.1) else w;
  in32 = λ p w. (0, w);
}

abbrev record_hit : (d v n : ℕ) → ℕ × List Hit → ℕ × List Hit
record_hit d v n w = (w.0, w.1 ++ record { device = d; vendor = v; number = n } ∷ [])

port-place : (o : ℕ) → o < 4 → (0xCFC + o) % 65536 - 0xCFC ≡ o
port-place o h = omega arith

one_half-bound : (a o : ℕ) → one_half a o % 65536 ≡ one_half a o
one_half-bound a o = ground arith

-- what is observed is a view of the calls
module _ {S : Type 0} (view : List Hit → S) (byte : ℕ → ℕ → ℕ)
    (small : (a o : ℕ) → byte a o % 256 ≡ byte a o) where
  selects : (a : ℕ) (w : ℕ × List Hit) → a < 2 ^ 32 → (outl (ports byte) 0xCF8 a w).0 ≡ a
  unfolding outl
  selects a w h = omega arith

  reads8 : (o : ℕ) (w : ℕ × List Hit) → o < 4 → (inb (ports byte) (0xCFC + o) w).0 ≡ byte w.0 o
  unfolding inb
  reads8 o w h = rw (port-place o h, small w.0 o) refl

  reads16 : (o : ℕ) (w : ℕ × List Hit) → o < 4 → (ins (ports byte) (0xCFC + o) w).0 ≡ one_half w.0 o
  unfolding ins
  reads16 o w h = rw (port-place o h, one_half-bound w.0 o) refl

  unfoldable space : ConfigSpace (ports byte) (λ w. view w.1)
  unfolding inb ins inl outl
  space = record {
    selected = λ w. w.0;
    byte = byte;
    half = one_half;
    word = λ a. 0;
    select = selects;
    select_seen = λ a w. refl;
    read8 = reads8;
    read8_seen = λ o w. refl;
    read16 = reads16;
    read16_seen = λ o w. refl;
    read32 = λ w. refl;
    read32_seen = λ w. refl;
  }

plain-small : (a o : ℕ) → plain a o % 256 ≡ plain a o
plain-small a o = refl

bridging-small : (a o : ℕ) → bridging a o % 256 ≡ bridging a o
bridging-small a o = ground arith

abbrev calls : ConfigSpace (ports plain) (λ w. w.1)
calls = space (λ hs. hs) plain plain-small

abbrev unseen : ConfigSpace (ports plain) (λ w. tt {0})
unseen = space (λ hs. tt {0}) plain plain-small

abbrev beside_calls : ConfigSpace (beside (ports plain)) (λ x. x.1)
beside_calls = space_beside (ports plain) unseen

no_bridge :
    (bus slot func : ℕ)
    → slot < 32
    → func < 8
    → type_of (ports plain) (λ w. w.1) calls (box_device bus slot func) == 0x0604 ≡ true
    → 0 < 0
unfolding space
no_bridge bus slot func hs hf e = absurd (cc e)

scan_bus-Visits_example :
    Visits
      (ports plain)
      (λ w. w.1)
      calls
      record_hit
      (λ h hs. hs ++ h ∷ [])
      (λ d v n w. refl)
      (devices (ports plain) (λ w. w.1) calls 1 any 0)
      (0, [])
      (scan_bus (ports plain) record_hit 1 any 0 (0, []))
scan_bus-Visits_example =
    scan_bus-Visits (ports plain) (λ w. w.1) calls record_hit (λ h hs. hs ++ h ∷ [])
      (λ d v n w. refl) (λ b. 0) any no_bridge 1 0 (0, []) (omega arith)

-- the list has the one device
one_listed :
    devices (ports plain) (λ w. w.1) calls 1 any 0
    ≡ record { device = 0; vendor = 0x1234; number = 0x1111 } ∷ []
unfolding devices space get_address box_device
one_listed = refl

plain-beside :
    (bus slot func : ℕ)
    → slot < 32
    → func < 8
    → type_of (beside (ports plain)) (λ x. x.1) beside_calls (box_device bus slot func) == 0x0604
      ≡ true
    → 0 < 0
unfolding space space_beside
plain-beside bus slot func hs hf e = absurd (cc e)

one_host : (bit_and (header_of (beside (ports plain)) (λ x. x.1) beside_calls 0) 0x80 == 0) ≡ true
unfolding space space_beside
one_host = refl

exists-listed_example :
    (w' : ℕ × List Hit) × (exists (ports plain) 1 0x15AD 0x1111 (0, [])
      ≡ done (
        w',
        if not (0x15AD == 0) && has_number 0x1111 (listed (ports plain) unseen 1 0) then 1 else 0,
      ))
exists-listed_example =
    exists-listed (ports plain) unseen (λ b. 0) 1 0x15AD 0x1111 (0, []) one_host plain-beside
      (omega arith)

abbrev looping : ConfigSpace (ports bridging) (λ w. w.1)
looping = space (λ hs. hs) bridging bridging-small

bridge_there :
    ((vendor_of (ports bridging) (λ w. w.1) looping (box_device 0 0 0) == 0xFFFF) ≡ false)
    × ((type_of (ports bridging) (λ w. w.1) looping (box_device 0 0 0) == 0x0604) ≡ true)
    × (secondary_of (ports bridging) (λ w. w.1) looping (box_device 0 0 0) ≡ 0)
unfolding space box_device get_address
bridge_there = (refl, refl, refl)

scan_bus_never_example : scan_bus (ports bridging) record_hit 100 any 0 (0, []) ≡ out_of_fuel
scan_bus_never_example =
    scan_bus_never (ports bridging) (λ w. w.1) looping record_hit any 0 0 bridge_there.0
      bridge_there.1 bridge_there.2 100 (0, []) (omega arith)
