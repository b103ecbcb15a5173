-- ===== src/Kdebug/Print.antt =====
-- What `Dbg_Print` sends.
use sipaa_kernel.Prelude.{
  ℕ, zero, suc, ◌+◌, ◌%◌, ◌<◌, ◌≡◌, ◌≢◌, sym, ap, ◌∙◌, arith, true, false, List, [], ◌∷◌, ◌++◌,
  length, bit_and, ◌==◌,
}
use mathlib.Core.List.{append-nil, append_assoc}
use sipaa_kernel.Prelude.Run.{Run, done, ◌>>=◌}
use sipaa_kernel.Mem.{Mem}
use sipaa_kernel.Strings.Holds.{HoldsString}
use sipaa_kernel.Io.{Ports, inb, outb}
use sipaa_kernel.Kdebug.{Debugger, wait_for, serial_putc, print_from, dbg_print}

-- a serial line whose transmitter is always free: reads of the status change nothing that was sent,
-- and a byte that is written is sent
pub record Line {W : Type 0} (k : Ports W) (sp : ℕ) : Type 0 where
  pub sent : W → List ℕ
  pub free : (w : W) → bit_and (inb k (sp + 5) w).0 0x20 ≢ 0
  pub status_keeps : (w : W) → sent (inb k (sp + 5) w).1 ≡ sent w
  pub sends : (a : ℕ) (w : W) → sent (outb k sp a w) ≡ sent w ++ a % 256 ∷ []

module _ {W : Type 0} (k : Ports W) (d : Debugger) (line : Line k d.current_sp)
    (ready : d.ready ≡ true) where
  -- the end of a print, with what was sent
  pub record Printed (xs : List ℕ) (w : W) (r : Run W) : Type 0 where
    pub world : W
    pub returns : r ≡ done world
    pub sent_after : line.sent world ≡ line.sent w ++ xs

  serial_putc-Printed : (f a : ℕ) (w : W) → Printed (a % 256 ∷ []) w (serial_putc k (suc f) a d w)
  unfolding serial_putc wait_for
  serial_putc-Printed f a w = record {
    world = outb k d.current_sp a (inb k (d.current_sp + 5) w).1;
    returns = ground (arith, ready, line.free w);
    sent_after =
        line.sends a (inb k (d.current_sp + 5) w).1
        ∙ ap (λ l. l ++ a % 256 ∷ []) (line.status_keeps w);
  }

  print_from-Printed :
      (n f i format : ℕ) (m : Mem) (w : W) (xs : List ℕ)
      → ((a : ℕ) → m a < 256)
      → HoldsString m (format + i) xs
      → length xs < n
      → Printed xs w (print_from k n (suc f) i format d m w)
  unfolding print_from
  print_from-Printed zero f i format m w xs bytes h enough = absurd (omega arith)
  print_from-Printed (suc n) f i format m w [] bytes h enough = record {
    world = w;
    returns = ground arith;
    sent_after = sym (append-nil (line.sent w));
  }
  print_from-Printed (suc n) f i format m w (x ∷ xs) bytes h enough =
      let place : format + i + 1 ≡ format + (i + 1) = omega arith in
      let here = serial_putc-Printed f (m (format + i)) w in
      let rest =
        print_from-Printed n f (i + 1) format m here.world xs bytes (rw place at h.2)
          (omega arith) in
      let byte : m (format + i) % 256 ≡ x = omega (arith, bytes (format + i), h.0) in
      let there : (m (format + i) == 0) ≡ false = ground (arith, h) in
      record {
        world = rest.world;
        returns = rw there (
            ap (λ r. r >>= λ w1. print_from k n (suc f) (i + 1) format d m w1) here.returns
            ∙ rest.returns);
        sent_after =
            rest.sent_after
            ∙ ap (λ l. l ++ xs) here.sent_after
            ∙ append_assoc (line.sent w) (m (format + i) % 256 ∷ []) xs
            ∙ ap (λ b. line.sent w ++ b ∷ xs) byte;
      }

  -- On a line that is ready and whose transmitter is free, `Dbg_Print` ends and sends exactly the
  -- characters of its string, in order; as many rounds as characters and one are enough, and fuel for
  -- one status in each.
  pub dbg_print-Printed :
      (n f format : ℕ) (m : Mem) (w : W) (xs : List ℕ)
      → ((a : ℕ) → m a < 256)
      → HoldsString m format xs
      → length xs < n
      → Printed xs w (dbg_print k n (suc f) format d m w)
  unfolding dbg_print
  dbg_print-Printed n f format m w xs bytes h enough =
      let place : format ≡ format + 0 = omega arith in
      print_from-Printed n f 0 format m w xs bytes (rw place at h) enough
