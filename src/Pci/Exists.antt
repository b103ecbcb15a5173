-- ===== src/Pci/Exists.antt =====
-- What `Pci_Exists` answers.
use sipaa_kernel.Prelude.{
  ℕ, ◌<◌, ◌≡◌, refl, ap, ◌∙◌, arith, List, [], ◌∷◌, Bool, true, false, ◌==◌, ◌&&◌, ◌||◌, not,
  if◌then◌else◌, Bool-cases, inl, inr, bit_and,
}
use sipaa_kernel.Prelude.Run.{done}
use sipaa_kernel.Io.{Ports, inb, ins, inl as inl_port, outl}
use sipaa_kernel.Pci.{any, box_device, beside, exists, exists_callback}
use sipaa_kernel.Pci.Space.{ConfigSpace, header_of, secondary_of, type_of}
use sipaa_kernel.Pci.Scan.{Hit, after_hits, devices, scan-Visits}

-- some device of the list has the number
abbrev pub has_number : (did : ℕ) → List Hit → Bool
has_number did [] = false
has_number did (h ∷ hs) = (h.number == did) || has_number did hs

-- what a call of the callback does to the variable
abbrev mark_found : (vid did : ℕ) → Hit → ℕ → ℕ
mark_found vid did h found = if not (vid == 0) && (h.number == did) then 1 else found

after_hits-found :
    (vid did found : ℕ) (hs : List Hit)
    → after_hits (mark_found vid did) hs found
      ≡ (if not (vid == 0) && has_number did hs then 1 else found)
after_hits-found vid did found [] = elim (Bool-cases (vid == 0)) [
  | inl none ↦ rw none refl
  | inr some ↦ rw some refl
]
after_hits-found vid did found (h ∷ hs) =
    after_hits-found vid did (mark_found vid did h found) hs ∙ ground arith

callback_marks :
    {W : Type 0} (vid did d u n : ℕ) (x : W × ℕ)
    → (exists_callback vid did d u n x).1
      ≡ mark_found vid did (record { device = d; vendor = u; number = n }) x.1
unfolding exists_callback
callback_marks vid did d u n x = elim (Bool-cases (not (vid == 0) && (n == did))) [
  | inl this ↦ rw this refl
  | inr other ↦ rw other refl
]

module _ {W : Type 0} (k : Ports W) (c : ConfigSpace k (λ w. tt {0})) where
  -- the configuration space, where the variable is observed
  unfoldable pub space_beside : ConfigSpace (beside k) (λ x. x.1)
  unfolding inb ins inl_port outl
  space_beside = record {
    selected = λ x. c.selected x.0;
    byte = c.byte;
    half = c.half;
    word = c.word;
    select = λ a x h. c.select a x.0 h;
    select_seen = λ a x. refl;
    read8 = λ o x h. c.read8 o x.0 h;
    read8_seen = λ o x. refl;
    read16 = λ o x h. c.read16 o x.0 h;
    read16_seen = λ o x. refl;
    read32 = λ x. c.read32 x.0;
    read32_seen = λ x. refl;
  }

  -- the devices of a bus and behind its bridges
  abbrev pub listed : (fuel bus : ℕ) → List Hit
  listed fuel bus = devices (beside k) (λ x. x.1) space_beside fuel any bus

  -- With one host bridge, which the header type of the first device tells, and bridges that lead to
  -- buses of lower levels, `Pci_Exists` ends, with fuel for one round more than the level of bus 0. It
  -- answers 1 exactly when the vendor that is asked for is not 0 and some device has the device number
  -- that is asked for, of whatever vendor, and 0 otherwise.
  pub exists-listed :
      (level : ℕ → ℕ) (fuel vid did : ℕ) (w : W)
      → (bit_and (header_of (beside k) (λ x. x.1) space_beside 0) 0x80 == 0) ≡ true
      → ((bus slot func : ℕ)
          → slot < 32
          → func < 8
          → type_of (beside k) (λ x. x.1) space_beside (box_device bus slot func) == 0x0604 ≡ true
          → level (secondary_of (beside k) (λ x. x.1) space_beside (box_device bus slot func))
            < level bus)
      → level 0 < fuel
      → (w' : W) × (exists k fuel vid did w
          ≡ done (w', if not (vid == 0) && has_number did (listed fuel 0) then 1 else 0))
  unfolding exists
  exists-listed level fuel vid did w host falls enough =
      let v =
        scan-Visits (beside k) (λ x. x.1) space_beside (exists_callback vid did)
          (mark_found vid did) (callback_marks vid did) level any falls fuel (w, 0) host enough in
      let found : v.world.1 ≡ (if not (vid == 0) && has_number did (listed fuel 0) then 1 else 0) =
        v.observed ∙ after_hits-found vid did 0 (listed fuel 0) in
      (v.world.0, v.ends ∙ ap (λ n. done (v.world.0, n)) found)
