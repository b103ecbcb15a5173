-- ===== src/Ata/Poll.antt =====
-- `Ata_Poll` ends with the first status that decides.
use sipaa_kernel.Prelude.{
  ℕ, zero, suc, ◌+◌, ◌<◌, ◌≡◌, arith, Option, none, some, bit_and, ◌==◌, not, if◌then◌else◌,
}
use sipaa_kernel.Prelude.Run.{done}
use sipaa_kernel.Io.{Ports, inb}
use sipaa_kernel.Ata.{wait_rounds, ata_wait, poll_loop, ata_poll, ata_okay, ata_disk_err}

-- what a status says: the drive is not busy or has data, it has an error, or nothing yet
abbrev pub verdict : ℕ → Option ℕ
verdict status =
    if bit_and status 0x80 == 0
    then some ata_okay
    else if not (bit_and status 0x08 == 0)
    then some ata_okay
    else if not (bit_and status 0x01 == 0)
    then some ata_disk_err
    else none

module _ {W : Type 0} (k : Ports W) (base : ℕ) where
  -- the world after `n` reads of the status, and the status that is read next
  abbrev pub after : ℕ → W → W
  after zero w = w
  after (suc n) w = after n (inb k (base + 7) w).1

  abbrev pub status : W → ℕ
  status w = (inb k (base + 7) w).0

  poll_loop_lem :
      (n r f : ℕ) (w : W)
      → ((i : ℕ) → i < n → verdict (status (after i w)) ≡ none)
      → verdict (status (after n w)) ≡ some r
      → n < f
      → poll_loop k f base w ≡ done (r, after (suc n) w)
  unfolding poll_loop
  poll_loop_lem n r zero w undecided decided fuel = absurd (omega arith)
  poll_loop_lem zero r (suc f) w undecided decided fuel = ground arith
  poll_loop_lem (suc n) r (suc f) w undecided decided fuel = ground (
    arith,
    undecided 0 (omega arith),
    poll_loop_lem n r f (inb k (base + 7) w).1 (λ i lt. undecided (suc i) (omega arith)) decided
        (omega arith),
  )

  -- `Ata_Poll` reads the status four times and then as often as the status is undecided: where the
  -- first decided one is number `n` after those four, it ends with the verdict of that status,
  -- success where the drive is not busy or has data, else the error, having read no further; fuel
  -- for one round more than `n` is enough.
  pub ata_poll-verdict :
      (n r f : ℕ) (w : W)
      → ((i : ℕ) → i < n → verdict (status (after i (after 4 w))) ≡ none)
      → verdict (status (after n (after 4 w))) ≡ some r
      → n < f
      → ata_poll k f base w ≡ done (r, after (suc n) (after 4 w))
  unfolding ata_poll ata_wait wait_rounds
  ata_poll-verdict n r f w undecided decided fuel =
      poll_loop_lem n r f (after 4 w) undecided decided fuel
