-- ===== src/Pci/Space.antt =====
-- What the scan of the buses relies on: the configuration space behind the two ports.
use sipaa_kernel.Prelude.{ℕ, ◌+◌, ◌*◌, ◌%◌, ◌^◌, ◌<◌, ◌≡◌, refl, ap, ◌∙◌, arith, bit_or}
use sipaa_kernel.Io.{Ports, inb, ins, inl, outl}
use sipaa_kernel.Pci.{get_address, read_field, find_type}

-- The selected address is the last one written, a read at a data port gives the part of the
-- configuration space there, and none of this touches what the caller of the scan observes.
pub record ConfigSpace {W S : Type 0} (k : Ports W) (seen : W → S) : Type 0 where
  pub selected : W → ℕ
  pub byte : (address offset : ℕ) → ℕ
  pub half : (address offset : ℕ) → ℕ
  pub word : (address : ℕ) → ℕ
  pub select : (a : ℕ) (w : W) → a < 2 ^ 32 → selected (outl k 0xCF8 a w) ≡ a
  pub select_seen : (a : ℕ) (w : W) → seen (outl k 0xCF8 a w) ≡ seen w
  pub read8 : (o : ℕ) (w : W) → o < 4 → (inb k (0xCFC + o) w).0 ≡ byte (selected w) o
  pub read8_seen : (o : ℕ) (w : W) → seen (inb k (0xCFC + o) w).1 ≡ seen w
  pub read16 : (o : ℕ) (w : W) → o < 4 → (ins k (0xCFC + o) w).0 ≡ half (selected w) o
  pub read16_seen : (o : ℕ) (w : W) → seen (ins k (0xCFC + o) w).1 ≡ seen w
  pub read32 : (w : W) → (inl k 0xCFC w).0 ≡ word (selected w)
  pub read32_seen : (w : W) → seen (inl k 0xCFC w).1 ≡ seen w

address_bound : (d field : ℕ) → get_address d field < 2 ^ 32
unfolding get_address
address_bound d field = omega arith

module _ {W S : Type 0} (k : Ports W) (seen : W → S) (c : ConfigSpace k seen) where
  -- the fields of a device
  abbrev pub vendor_of : ℕ → ℕ
  vendor_of d = c.half (get_address d 0) 0

  abbrev pub number_of : ℕ → ℕ
  number_of d = c.half (get_address d 2) 2

  abbrev pub header_of : ℕ → ℕ
  header_of d = c.byte (get_address d 0x0e) 2

  abbrev pub secondary_of : ℕ → ℕ
  secondary_of d = c.byte (get_address d 0x19) 1

  abbrev pub type_of : ℕ → ℕ
  type_of d =
      bit_or (c.byte (get_address d 0x0b) 3 * 2 ^ 8) (c.byte (get_address d 0x0a) 2) % 2 ^ 16

  abbrev pub bar0_of : ℕ → ℕ
  bar0_of d = c.word (get_address d 0x10)

  half_at :
      (d field o : ℕ) (w : W)
      → o < 4
      → ((ins k (0xCFC + o) (outl k 0xCF8 (get_address d field) w)).0
          ≡ c.half (get_address d field) o)
        × (seen (ins k (0xCFC + o) (outl k 0xCF8 (get_address d field) w)).1 ≡ seen w)
  half_at d field o w h =
      let w1 : W = outl k 0xCF8 (get_address d field) w in
      (
        c.read16 o w1 h ∙ ap (λ a. c.half a o) (c.select _ w (address_bound d field)),
        c.read16_seen o w1 ∙ c.select_seen _ w,
      )

  byte_at :
      (d field o : ℕ) (w : W)
      → o < 4
      → ((inb k (0xCFC + o) (outl k 0xCF8 (get_address d field) w)).0
          ≡ c.byte (get_address d field) o)
        × (seen (inb k (0xCFC + o) (outl k 0xCF8 (get_address d field) w)).1 ≡ seen w)
  byte_at d field o w h =
      let w1 : W = outl k 0xCF8 (get_address d field) w in
      (
        c.read8 o w1 h ∙ ap (λ a. c.byte a o) (c.select _ w (address_bound d field)),
        c.read8_seen o w1 ∙ c.select_seen _ w,
      )

  -- what each read of the scan gives, and that it is not seen
  pub read_vendor :
      (d : ℕ) (w : W)
      → ((read_field k d 0 2 w).0 ≡ vendor_of d) × (seen (read_field k d 0 2 w).1 ≡ seen w)
  unfolding read_field
  read_vendor d w = half_at d 0 0 w (omega arith)

  pub read_number :
      (d : ℕ) (w : W)
      → ((read_field k d 2 2 w).0 ≡ number_of d) × (seen (read_field k d 2 2 w).1 ≡ seen w)
  unfolding read_field
  read_number d w = half_at d 2 2 w (omega arith)

  pub read_header :
      (d : ℕ) (w : W)
      → ((read_field k d 0x0e 1 w).0 ≡ header_of d) × (seen (read_field k d 0x0e 1 w).1 ≡ seen w)
  unfolding read_field
  read_header d w = byte_at d 0x0e 2 w (omega arith)

  pub read_secondary :
      (d : ℕ) (w : W)
      → ((read_field k d 0x19 1 w).0 ≡ secondary_of d) × (seen (read_field k d 0x19 1 w).1 ≡ seen w)
  unfolding read_field
  read_secondary d w = byte_at d 0x19 1 w (omega arith)

  pub read_type :
      (d : ℕ) (w : W) → ((find_type k d w).0 ≡ type_of d) × (seen (find_type k d w).1 ≡ seen w)
  unfolding find_type read_field
  read_type d w =
      let w1 : W = (read_field k d 0x0b 1 w).1 in
      let class = byte_at d 0x0b 3 w (omega arith) in
      let subclass = byte_at d 0x0a 2 w1 (omega arith) in
      (rw (class.0, subclass.0) refl, subclass.1 ∙ class.1)

  pub read_bar0 :
      (d : ℕ) (w : W)
      → ((read_field k d 0x10 4 w).0 ≡ bar0_of d) × (seen (read_field k d 0x10 4 w).1 ≡ seen w)
  unfolding read_field
  read_bar0 d w =
      let w1 : W = outl k 0xCF8 (get_address d 0x10) w in
      (
        c.read32 w1 ∙ ap c.word (c.select _ w (address_bound d 0x10)),
        c.read32_seen w1 ∙ c.select_seen _ w,
      )
