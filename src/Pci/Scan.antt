-- ===== src/Pci/Scan.antt =====
-- What a scan of the buses calls its function with, against a list of the devices.
use sipaa_kernel.Prelude.{
  ℕ, zero, suc, ◌+◌, ◌≤◌, ◌<◌, ◌≡◌, refl, ap, ◌∙◌, arith, List, [], ◌∷◌, ◌++◌, true, ◌==◌,
  if◌then◌else◌, Bool-cases, inl, inr, bit_and,
}
use sipaa_kernel.Prelude.Run.{Run, done, ◌>>=◌}
use sipaa_kernel.Io.{Ports}
use sipaa_kernel.Pci.{
  Wanted, any, only, box_device, read_field, find_type, scan_hit, hit_if, scan_func, scan_funcs,
  more_funcs, scan_slot, scan_slots, scan_bus, scan,
}
use sipaa_kernel.Pci.Space.{
  ConfigSpace, vendor_of, number_of, header_of, secondary_of, type_of, read_vendor, read_number,
  read_header, read_secondary, read_type,
}

-- the arguments of a call of the function
pub record Hit : Type 0 where
  pub device : ℕ
  pub vendor : ℕ
  pub number : ℕ

-- what is observed after the calls with a list of arguments
abbrev pub after_hits : {S : Type 0} → (Hit → S → S) → List Hit → S → S
after_hits act [] s = s
after_hits act (h ∷ hs) s = after_hits act hs (act h s)

after_hits-append :
    {S : Type 0} (act : Hit → S → S) (hs js : List Hit) (s : S)
    → after_hits act (hs ++ js) s ≡ after_hits act js (after_hits act hs s)
after_hits-append act [] js s = refl
after_hits-append act (h ∷ hs) js s = after_hits-append act hs js (act h s)

module _ {W S : Type 0} (k : Ports W) (seen : W → S) (c : ConfigSpace k seen) where
  -- the hits at one device, among the functions and the slots of a bus, where `below` gives those
  -- on the bus behind a bridge
  abbrev pub hit_of : ℕ → Hit
  hit_of d = record { device = d; vendor = vendor_of k seen c d; number = number_of k seen c d }

  abbrev pub own_hits : Wanted → ℕ → List Hit
  own_hits any d = hit_of d ∷ []
  own_hits (only t) d = if t == type_of k seen c d then hit_of d ∷ [] else []

  abbrev pub device_hits : (below : ℕ → List Hit) → Wanted → ℕ → List Hit
  device_hits below kind d =
      own_hits kind d
      ++ (if type_of k seen c d == 0x0604 then below (secondary_of k seen c d) else [])

  abbrev pub func_hits : (below : ℕ → List Hit) → Wanted → (n bus slot func : ℕ) → List Hit
  func_hits below kind zero bus slot func = []
  func_hits below kind (suc n) bus slot func =
      (if vendor_of k seen c (box_device bus slot func) == 0xFFFF
        then []
        else device_hits below kind (box_device bus slot func))
      ++ func_hits below kind n bus slot (func + 1)

  abbrev pub slot_hits : (below : ℕ → List Hit) → Wanted → (bus slot : ℕ) → List Hit
  slot_hits below kind bus slot =
      let d : ℕ = box_device bus slot 0 in
      if vendor_of k seen c d == 0xFFFF
      then []
      else device_hits below kind d
        ++ (if header_of k seen c d == 0 then [] else func_hits below kind 7 bus slot 1)

  abbrev pub bus_hits : (below : ℕ → List Hit) → Wanted → (n bus slot : ℕ) → List Hit
  bus_hits below kind zero bus slot = []
  bus_hits below kind (suc n) bus slot =
      slot_hits below kind bus slot ++ bus_hits below kind n bus (slot + 1)

  -- the devices on a bus and behind its bridges, down to `depth` buses
  unfoldable pub devices : (depth : ℕ) → Wanted → (bus : ℕ) → List Hit
  devices zero kind bus = []
  devices (suc depth) kind bus = bus_hits (devices depth kind) kind 32 bus 0

  module _ (f : (device vendor_id device_id : ℕ) → W → W) (act : Hit → S → S)
      (acts : (d v n : ℕ) (w : W)
        → seen (f d v n w) ≡ act (record { device = d; vendor = v; number = n }) (seen w)) where
    -- the end of a part of the scan, after calls with `hs`
    pub record Visits (hs : List Hit) (w : W) (r : Run W) : Type 0 where
      pub world : W
      pub ends : r ≡ done world
      pub observed : seen world ≡ after_hits act hs (seen w)

    Visits-none : (w w' : W) → seen w' ≡ seen w → Visits [] w (done w')
    Visits-none w w' e = record { world = w'; ends = refl; observed = e }

    -- a part after a step that is not seen
    Visits-from :
        (hs : List Hit) (w w' : W) (r : Run W) → seen w' ≡ seen w → Visits hs w' r → Visits hs w r
    Visits-from hs w w' r e v = record {
      world = v.world;
      ends = v.ends;
      observed = v.observed ∙ ap (after_hits act hs) e;
    }

    Visits-bind :
        (hs js : List Hit) (w : W) (r : Run W) (g : W → Run W)
        → Visits hs w r
        → ((w' : W) → Visits js w' (g w'))
        → Visits (hs ++ js) w (r >>= g)
    Visits-bind hs js w r g first next =
        let v = next first.world in
        record {
          world = v.world;
          ends = rw first.ends v.ends;
          observed =
              v.observed
              ∙ ap (after_hits act js) first.observed
              ∙ rw (after_hits-append act hs js (seen w)) refl;
        }

    scan_hit_seen : (d : ℕ) (w : W) → seen (scan_hit k f d w) ≡ act (hit_of d) (seen w)
    unfolding scan_hit
    scan_hit_seen d w =
        let w1 : W = (read_field k d 0 2 w).1 in
        let v = read_vendor k seen c d w in
        let n = read_number k seen c d w1 in
        acts d (read_field k d 0 2 w).0 (read_field k d 2 2 w1).0 (read_field k d 2 2 w1).1
        ∙ rw (v.0, n.0, n.1, v.1) refl

    hit_if_seen :
        (kind : Wanted) (d : ℕ) (w : W)
        → seen (hit_if k f kind d w) ≡ after_hits act (own_hits kind d) (seen w)
    unfolding hit_if
    hit_if_seen any d w = scan_hit_seen d w
    hit_if_seen (only t) d w =
        let u = read_type k seen c d w in
        rw u.0 (elim (Bool-cases (t == type_of k seen c d)) [
          | inl same ↦ rw same (scan_hit_seen d (find_type k d w).1 ∙ ap (act (hit_of d)) u.1)
          | inr other ↦ rw other u.1
        ])

    module _ (below : ℕ → List Hit) (scan_below : ℕ → W → Run W) (kind : Wanted) (bus : ℕ)
        (reached : ℕ → Type 0)
        (behind : (b : ℕ) → reached b → (w : W) → Visits (below b) w (scan_below b w))
        (bridges : (slot func : ℕ)
          → slot < 32
          → func < 8
          → type_of k seen c (box_device bus slot func) == 0x0604 ≡ true
          → reached (secondary_of k seen c (box_device bus slot func))) where
      own_Visits :
          (d : ℕ) (w w' : W)
          → seen w' ≡ seen (hit_if k f kind d w)
          → Visits (own_hits kind d) w (done w')
      own_Visits d w w' e = record { world = w'; ends = refl; observed = e ∙ hit_if_seen kind d w }

      scan_func-Visits :
          (slot func : ℕ) (w : W)
          → slot < 32
          → func < 8
          → Visits
              (device_hits below kind (box_device bus slot func))
              w
              (scan_func k f scan_below kind bus slot func w)
      unfolding scan_func
      scan_func-Visits slot func w hs hf =
          let d : ℕ = box_device bus slot func in
          let w1 : W = hit_if k f kind d w in
          let w2 : W = (find_type k d w1).1 in
          let u = read_type k seen c d w1 in
          let s = read_secondary k seen c d w2 in
          rw (u.0, s.0)
            (elim (Bool-cases (type_of k seen c d == 0x0604)) [
              | inl bridge ↦ rw bridge (
                  Visits-bind (own_hits kind d) (below (secondary_of k seen c d)) w
                    (done (read_field k d 0x19 1 w2).1) (scan_below (secondary_of k seen c d))
                    (own_Visits d w (read_field k d 0x19 1 w2).1 (s.1 ∙ u.1))
                    (behind (secondary_of k seen c d) (bridges slot func hs hf bridge)))
              | inr other ↦ rw other (
                  Visits-bind (own_hits kind d) [] w (done w2) done (own_Visits d w w2 u.1)
                    (λ w'. Visits-none w' w' refl))
            ])

      scan_funcs-Visits :
          (n slot func : ℕ) (w : W)
          → slot < 32
          → func + n ≤ 8
          → Visits
              (func_hits below kind n bus slot func)
              w
              (scan_funcs k f scan_below kind n bus slot func w)
      unfolding scan_funcs
      scan_funcs-Visits zero slot func w hs hf = Visits-none w w refl
      scan_funcs-Visits (suc n) slot func w hs hf =
          let d : ℕ = box_device bus slot func in
          let v = read_vendor k seen c d w in
          let w1 : W = (read_field k d 0 2 w).1 in
          rw v.0 (elim (Bool-cases (vendor_of k seen c d == 0xFFFF)) [
            | inl missing ↦ rw missing (
                Visits-from (func_hits below kind n bus slot (func + 1)) w w1 _ v.1
                  (scan_funcs-Visits n slot (func + 1) w1 hs (omega arith)))
            | inr present ↦ rw present (
                Visits-from _ w w1 _ v.1 (
                  Visits-bind _ (func_hits below kind n bus slot (func + 1)) w1 _ _
                    (scan_func-Visits slot func w1 hs (omega arith))
                    (λ w'. scan_funcs-Visits n slot (func + 1) w' hs (omega arith))))
          ])

      more_funcs-Visits :
          (slot : ℕ) (w : W)
          → slot < 32
          → Visits
              (if header_of k seen c (box_device bus slot 0) == 0
                then []
                else func_hits below kind 7 bus slot 1)
              w
              (more_funcs k f scan_below kind bus slot w)
      unfolding more_funcs
      more_funcs-Visits slot w hs =
          let d : ℕ = box_device bus slot 0 in
          let v = read_header k seen c d w in
          let w1 : W = (read_field k d 0x0e 1 w).1 in
          rw v.0 (elim (Bool-cases (header_of k seen c d == 0)) [
            | inl single ↦ rw single (Visits-none w w1 v.1)
            | inr many ↦ rw many (
                Visits-from (func_hits below kind 7 bus slot 1) w w1 _ v.1
                  (scan_funcs-Visits 7 slot 1 w1 hs (omega arith)))
          ])

      scan_slot-Visits :
          (slot : ℕ) (w : W)
          → slot < 32
          → Visits (slot_hits below kind bus slot) w (scan_slot k f scan_below kind bus slot w)
      unfolding scan_slot
      scan_slot-Visits slot w hs =
          let d : ℕ = box_device bus slot 0 in
          let v = read_vendor k seen c d w in
          let w1 : W = (read_field k d 0 2 w).1 in
          rw v.0 (elim (Bool-cases (vendor_of k seen c d == 0xFFFF)) [
            | inl missing ↦ rw missing (Visits-none w w1 v.1)
            | inr present ↦ rw present (
                Visits-from _ w w1 _ v.1 (
                  Visits-bind _ _ w1 _ _ (scan_func-Visits slot 0 w1 hs (omega arith))
                    (λ w'. more_funcs-Visits slot w' hs)))
          ])

      scan_slots-Visits :
          (n slot : ℕ) (w : W)
          → slot + n ≤ 32
          → Visits (bus_hits below kind n bus slot) w (scan_slots k f scan_below kind n bus slot w)
      unfolding scan_slots
      scan_slots-Visits zero slot w hs = Visits-none w w refl
      scan_slots-Visits (suc n) slot w hs =
          Visits-bind (slot_hits below kind bus slot) (bus_hits below kind n bus (slot + 1)) w _ _
            (scan_slot-Visits slot w (omega arith))
            (λ w'. scan_slots-Visits n (slot + 1) w' (omega arith))

    -- If every bridge leads to a bus of a lower level than its own, then with fuel for one round more
    -- than the level of a bus, the scan of that bus ends and calls the function exactly with the
    -- devices that are on it and behind its bridges: of each slot the first function, and the others
    -- if that has a header type other than 0; those that have a vendor, of the type that is wanted,
    -- each before the devices behind it.
    pub scan_bus-Visits :
        (level : ℕ → ℕ) (kind : Wanted)
        → ((bus slot func : ℕ)
            → slot < 32
            → func < 8
            → type_of k seen c (box_device bus slot func) == 0x0604 ≡ true
            → level (secondary_of k seen c (box_device bus slot func)) < level bus)
        → (fuel bus : ℕ) (w : W) → level bus < fuel
        → Visits (devices fuel kind bus) w (scan_bus k f fuel kind bus w)
    unfolding scan_bus devices
    scan_bus-Visits level kind falls zero bus w enough = absurd (omega arith)
    scan_bus-Visits level kind falls (suc fuel) bus w enough =
        scan_slots-Visits (devices fuel kind) (scan_bus k f fuel kind) kind bus
          (λ b. level b < level bus)
          (λ b lower w'. scan_bus-Visits level kind falls fuel b w' (omega arith)) (falls bus) 32 0
          w (omega arith)

    -- the whole scan where the first device tells of one host bridge
    pub scan-Visits :
        (level : ℕ → ℕ) (kind : Wanted)
        → ((bus slot func : ℕ)
            → slot < 32
            → func < 8
            → type_of k seen c (box_device bus slot func) == 0x0604 ≡ true
            → level (secondary_of k seen c (box_device bus slot func)) < level bus)
        → (fuel : ℕ) (w : W) → (bit_and (header_of k seen c 0) 0x80 == 0) ≡ true
        → level 0 < fuel
        → Visits (devices fuel kind 0) w (scan k f fuel kind w)
    unfolding scan
    scan-Visits level kind falls fuel w host enough =
        let header = read_header k seen c 0 w in
        let w1 : W = (read_field k 0 0x0e 1 w).1 in
        rw (header.0, host)
          (Visits-from (devices fuel kind 0) w w1 (scan_bus k f fuel kind 0 w1) header.1
            (scan_bus-Visits level kind falls fuel 0 w1 enough))
