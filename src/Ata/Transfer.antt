-- ===== src/Ata/Transfer.antt =====
-- What `Ata_Write` and `Ata_Read` move between memory and a drive.
use sipaa_kernel.Prelude.{
  ℕ, zero, suc, ◌+◌, ◌-◌, ◌*◌, ◌/◌, ◌%◌, ◌^◌, ◌<◌, ◌≡◌, refl, sym, ap, ◌∙◌, arith, List, [], ◌∷◌,
  ◌++◌, ◌==◌, ltb, leb, true, ◌&&◌, if◌then◌else◌, bit_and, bit_or, and_mask, or_fields, or_comm,
}
use mathlib.Core.List.{append-nil, append_assoc}
use sipaa_kernel.Prelude.Run.{Run, done, ◌>>=◌}
use sipaa_kernel.Mem.{Mem, store}
use sipaa_kernel.Io.{Ports, inw}
use sipaa_kernel.Ata.{
  Outcome, ata_okay, ata_disk_err, ata_wait, read_word, read_rounds, write_word, write_rounds,
}
use sipaa_kernel.Ata.Drive.{Drive, ata_poll-Polled, after-Waits, wait-after}

-- the words of the `2 * n` bytes from `p` on, low byte first
abbrev pub pack : (n p : ℕ) → Mem → List ℕ
pack zero p m = []
pack (suc n) p m = (m p + m (p + 1) * 256) ∷ pack n (p + 2) m

abbrev pub AreBytes : Mem → Type 0
AreBytes m = (a : ℕ) → m a < 256

-- `m'` is `m` but for the bytes from index `i` to `total` of the buffer, which are those that `old`
-- has at the same indices from `src` on
abbrev pub IsFilled : (buffer i total src : ℕ) → (old m m' : Mem) → Type 0
IsFilled buffer i total src old m m' =
    (a : ℕ)
    → m' a
      ≡ (if leb (buffer + i) a && ltb a (buffer + total) then old (src + (a - buffer)) else m a)

module _ {W : Type 0} (k : Ports W) (base delay : ℕ) (drive : Drive k base delay) where
  open drive use {given, taken, target, gives, takes}

  word : (lo hi : ℕ) → lo < 256 → hi < 256 → bit_or lo (hi * 2 ^ 8 % 2 ^ 16) ≡ lo + hi * 256
  word lo hi hlo hhi =
      let e : hi * 2 ^ 8 % 2 ^ 16 ≡ hi * 2 ^ 8 = omega arith in
      rw (e, or_comm lo (hi * 2 ^ 8), or_fields 8 hi lo hlo) (omega arith)

  taken-write_word :
      (buffer i total : ℕ) (m : Mem) (w : W)
      → AreBytes m
      → i + 1 < total
      → let v : W = write_word k base buffer i total m w in
        (taken v ≡ taken w ++ (m (buffer + i) + m (buffer + i + 1) * 256) ∷ [])
        × (target v ≡ target w)
  unfolding write_word
  taken-write_word buffer i total m w bytes room =
      let lo : m (buffer + i) < 256 = bytes (buffer + i) in
      let hi : m (buffer + i + 1) < 256 = bytes (buffer + i + 1) in
      let place : buffer + (i + 1) ≡ buffer + i + 1 = omega arith in
      let inside : ltb (i + 1) total ≡ true = ground arith in
      rw (inside, place, word (m (buffer + i)) (m (buffer + i + 1)) lo hi)
        (takes w (m (buffer + i) + m (buffer + i + 1) * 256) (omega arith))

  -- what a transfer to the drive leaves
  pub record Sent (n p : ℕ) (m : Mem) (w : W) (r : Run (Outcome W)) : Type 0 where
    pub world : W
    pub returns : r ≡ done (record { status = ata_okay; memory = m; world = world })
    pub words : taken world ≡ taken w ++ pack n p m
    pub held : target world ≡ target w

  pub write_rounds-Sent :
      (f n buffer i total : ℕ) (m : Mem) (w : W)
      → delay < f
      → AreBytes m
      → i + 2 * n ≡ total
      → Sent n (buffer + i) m w (write_rounds k f n base buffer i total m w)
  unfolding write_rounds
  write_rounds-Sent f zero buffer i total m w fuel bytes fits =
      let (g, t, s) = after-Waits k base delay drive 4 w in
      record {
        world = ata_wait k base w;
        returns = refl;
        words = ap taken (wait-after k base delay drive w) ∙ t ∙ sym (append-nil (taken w));
        held = ap target (wait-after k base delay drive w) ∙ s;
      }
  write_rounds-Sent f (suc n) buffer i total m w fuel bytes fits =
      let polled = ata_poll-Polled k base delay drive f w fuel in
      let v : W = write_word k base buffer i total m polled.world in
      let rest = write_rounds-Sent f n buffer (i + 2) total m v fuel bytes (omega arith) in
      let here : buffer + (i + 2) ≡ buffer + i + 2 = omega arith in
      let (added, kept) = taken-write_word buffer i total m polled.world bytes (omega arith) in
      record {
        world = rest.world;
        returns =
            ap
              (λ (r : Run (ℕ × W)). r >>= λ polled.
                if polled.0 == ata_okay
                then write_rounds k f n base buffer (i + 2) total m
                    (write_word k base buffer i total m polled.1)
                else done (record { status = ata_disk_err; memory = m; world = polled.1 }))
              polled.returns
            ∙ rest.returns;
        words = rest.words ∙ rw (here, added, polled.taken_kept) (append_assoc (taken w) _ _);
        held = rest.held ∙ kept ∙ polled.target_kept;
      }

  -- what a transfer from the drive leaves
  pub record Received (buffer i total src : ℕ) (old m : Mem) (r : Run (Outcome W)) : Type 0 where
    pub memory : Mem
    pub world : W
    pub returns : r ≡ done (record { status = ata_okay; memory = memory; world = world })
    pub filled : IsFilled buffer i total src old m memory

  -- one word that comes in: the memory after it
  read_word-memory :
      (buffer i total lo hi : ℕ) (m : Mem) (w : W)
      → (inw k base w).0 ≡ lo + hi * 256
      → lo < 256
      → hi < 256
      → i + 1 < total
      → (a : ℕ)
      → (read_word k base buffer i total m w).0 a
        ≡ (if a == buffer + (i + 1) then hi else if a == buffer + i then lo else m a)
  unfolding read_word store
  read_word-memory buffer i total lo hi m w e hlo hhi room a =
      let v : ℕ = lo + hi * 256 in
      let inside : ltb (i + 1) total ≡ true = ground arith in
      let low : bit_and v 0x00ff ≡ lo = and_mask 8 v 0xFF refl ∙ omega arith in
      let high : bit_and (v / 2 ^ 8) 0x00ff ≡ hi = and_mask 8 (v / 2 ^ 8) 0xFF refl ∙ omega arith in
      rw (e, inside, low, high) refl

  pub read_rounds-Received :
      (f n buffer i total src : ℕ) (old m : Mem) (w : W)
      → delay < f
      → AreBytes old
      → i + 2 * n ≡ total
      → given w ≡ pack n (src + i) old
      → Received buffer i total src old m (read_rounds k f n base buffer i total m w)
  unfolding read_rounds read_word
  read_rounds-Received f zero buffer i total src old m w fuel bytes fits words = record {
    memory = m;
    world = ata_wait k base w;
    returns = refl;
    filled = λ a. ground arith;
  }
  read_rounds-Received f (suc n) buffer i total src old m w fuel bytes fits words =
      let polled = ata_poll-Polled k base delay drive f w fuel in
      let ready : W = polled.world in
      let lo : ℕ = old (src + i) in
      let hi : ℕ = old (src + i + 1) in
      let (small_lo, small_hi) : (lo < 256) × (hi < 256) = (bytes (src + i), bytes (src + i + 1)) in
      let got =
        gives ready (lo + hi * 256) (pack n (src + i + 2) old) (omega arith)
          (polled.given_kept ∙ words) in
      let (m1, w1) = read_word k base buffer i total m ready in
      let here : src + (i + 2) ≡ src + i + 2 = omega arith in
      let rest =
        read_rounds-Received f n buffer (i + 2) total src old m1 w1 fuel bytes (omega arith)
          (rw here got.1) in
      record {
        memory = rest.memory;
        world = rest.world;
        returns =
            ap
              (λ (r : Run (ℕ × W)). r >>= λ polled.
                if polled.0 == ata_okay
                then (let r = read_word k base buffer i total m polled.1 in
                    read_rounds k f n base buffer (i + 2) total r.0 r.1)
                else done (record { status = ata_disk_err; memory = m; world = polled.1 }))
              polled.returns
            ∙ rest.returns;
        filled = λ a. ground (
          arith,
          rest.filled a,
          read_word-memory buffer i total lo hi m ready got.0 (bytes (src + i))
              (bytes (src + i + 1)) (omega arith) a,
        );
      }
