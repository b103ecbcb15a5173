-- ===== src/Ata/Drive.antt =====
-- What the transfers rely on of an ATA drive without errors: the registers that select sectors, the
-- two commands, the words behind the data port, and a status that is busy for a bounded time.
use sipaa_kernel.Prelude.{
  ℕ, zero, suc, ◌+◌, ◌*◌, ◌/◌, ◌%◌, ◌^◌, ◌≤◌, ◌<◌, ◌≡◌, refl, ◌∙◌, arith, List, [], ◌∷◌, ◌++◌, ◌==◌,
  if◌then◌else◌, none, some,
}
use sipaa_kernel.Prelude.Run.{done}
use sipaa_kernel.Io.{Ports, inb, outb, inw, outw}
use sipaa_kernel.Ata.{wait_rounds, ata_wait, ata_poll, ata_okay, ata_master}
use sipaa_kernel.Ata.Poll.{after, status, verdict, ata_poll-verdict}

-- sectors of one of the two drives at the ports, 0 for the first
pub record Sectors : Type 0 where
  pub lba : ℕ
  pub count : ℕ
  pub drive : ℕ

-- the sectors that the registers 2 to 6 address, by a number of 28 bits; the count 0 is 256
abbrev pub addressed : (ℕ → ℕ) → Sectors
addressed reg = record {
  lba = reg 6 % 16 * 2 ^ 24 + reg 5 * 2 ^ 16 + reg 4 * 2 ^ 8 + reg 3;
  count = if reg 2 == 0 then 256 else reg 2;
  drive = reg 6 / 16 % 2;
}

-- what `Ata_Read` and `Ata_Write` are to select
abbrev pub wanted : (kind lba count : ℕ) → Sectors
wanted kind lba count = record {
  lba = lba;
  count = count;
  drive = if kind == ata_master then 0 else 1;
}

module _ {W : Type 0} (k : Ports W) (base delay : ℕ) where
  -- `target` are the sectors that the last write addressed, `taken` the words it got since, and
  -- `given` the words that a read still gives.
  pub record Drive : Type 0 where
    pub reg : W → ℕ → ℕ
    pub given : W → List ℕ
    pub taken : W → List ℕ
    pub target : W → Sectors
    pub sets :
        (i v j : ℕ) (w : W)
        → 0 < i
        → i < 7
        → reg (outb k (base + i) v w) j ≡ (if j == i then v % 2 ^ 8 else reg w j)
    pub set_waits :
        (i v : ℕ) (w : W)
        → 0 < i
        → i < 7
        → (taken (outb k (base + i) v w) ≡ taken w) × (target (outb k (base + i) v w) ≡ target w)
    pub begins_write :
        (w : W)
        → (taken (outb k (base + 7) 0x30 w) ≡ [])
          × (target (outb k (base + 7) 0x30 w) ≡ addressed (reg w))
    pub begins_read :
        (w : W) → addressed (reg w) ≡ target w → given (outb k (base + 7) 0x20 w) ≡ taken w
    pub given_waits : (w : W) → given (inb k (base + 7) w).1 ≡ given w
    pub taken_waits : (w : W) → taken (inb k (base + 7) w).1 ≡ taken w
    pub target_waits : (w : W) → target (inb k (base + 7) w).1 ≡ target w
    pub ready :
        (w : W)
        → (n : ℕ) × (n ≤ delay)
          × ((i : ℕ) → i < n → verdict (status k base (after k base i w)) ≡ none)
          × (verdict (status k base (after k base n w)) ≡ some ata_okay)
    pub gives :
        (w : W) (v : ℕ) (vs : List ℕ)
        → v < 2 ^ 16
        → given w ≡ v ∷ vs
        → ((inw k base w).0 ≡ v) × (given (inw k base w).1 ≡ vs)
    pub takes :
        (w : W) (v : ℕ)
        → v < 2 ^ 16
        → (taken (outw k base v w) ≡ taken w ++ v ∷ []) × (target (outw k base v w) ≡ target w)

  module _ (drive : Drive) where
    open drive use {
      reg, given, taken, target, sets, set_waits, begins_write, begins_read, given_waits,
      taken_waits, target_waits, ready,
    }

    -- after any number of reads of the status
    pub after-Waits :
        (n : ℕ) (w : W)
        → let v : W = after k base n w in
          (given v ≡ given w) × (taken v ≡ taken w) × (target v ≡ target w)
    after-Waits zero w = (refl, refl, refl)
    after-Waits (suc n) w =
        let (g, t, s) = after-Waits n (inb k (base + 7) w).1 in
        (g ∙ given_waits w, t ∙ taken_waits w, s ∙ target_waits w)

    pub wait-after : (w : W) → ata_wait k base w ≡ after k base 4 w
    unfolding ata_wait wait_rounds
    wait-after w = refl

    -- a poll succeeds with fuel for the delay, and loses nothing
    pub record Polled (f : ℕ) (w : W) : Type 0 where
      pub world : W
      pub returns : ata_poll k f base w ≡ done (ata_okay, world)
      pub given_kept : given world ≡ given w
      pub taken_kept : taken world ≡ taken w
      pub target_kept : target world ≡ target w

    pub ata_poll-Polled : (f : ℕ) (w : W) → delay < f → Polled f w
    ata_poll-Polled f w fuel =
        let v : W = after k base 4 w in
        let (n, soon, undecided, decided) = ready v in
        let (g, t, s) = after-Waits (suc n) v in
        let (g', t', s') = after-Waits 4 w in
        record {
          world = after k base (suc n) v;
          returns = ata_poll-verdict k base n ata_okay f w undecided decided (omega arith);
          given_kept = g ∙ g';
          taken_kept = t ∙ t';
          target_kept = s ∙ s';
        }
