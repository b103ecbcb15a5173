-- ===== src/Tests/Devices.antt =====
-- Drives and the timer.
use sipaa_kernel.Prelude.{ℕ, zero, suc, ◌+◌, ◌<◌, ◌≡◌, refl, arith, ltb, none, some, if◌then◌else◌}
use sipaa_kernel.Prelude.Run.{done}
use sipaa_kernel.Io.{Ports, inb}
use sipaa_kernel.Ata.{ata_poll}
use sipaa_kernel.Ata.Poll.{after, status, verdict, ata_poll-verdict}
use sipaa_kernel.Gdt.{Gdt}
use sipaa_kernel.Pit.{sleep}
use sipaa_kernel.Pit.Wait.{EndsWithin, sleep-EndsWithin}

-- a drive that is busy until its seventh status, which has an error
abbrev failing : Ports ℕ
failing = record {
  out8 = λ p v w. w;
  in8 = λ p w. (if ltb w 6 then 0x80 else 0x81, w + 1);
  out16 = λ p v w. w;
  in16 = λ p w. (0, w);
  out32 = λ p v w. w;
  in32 = λ p w. (0, w);
}

failing-busy :
    (i : ℕ)
    → i < 2
    → verdict (status failing 0x1F0 (after failing 0x1F0 i (after failing 0x1F0 4 0))) ≡ none
unfolding inb
failing-busy zero h = refl
failing-busy (suc zero) h = refl
failing-busy (suc (suc i)) h = absurd (omega arith)

failing-err :
    verdict (status failing 0x1F0 (after failing 0x1F0 2 (after failing 0x1F0 4 0))) ≡ some 2
unfolding inb
failing-err = refl

ata_poll-verdict_example :
    ata_poll failing 3 0x1F0 0 ≡ done (2, after failing 0x1F0 3 (after failing 0x1F0 4 0))
ata_poll-verdict_example =
    ata_poll-verdict failing 0x1F0 2 2 3 0 failing-busy failing-err (omega arith)

abbrev no_segments : Gdt
no_segments = record {
  gdt = λ i. record { limit0 = 0; base0 = 0; base1 = 0; access = 0; limit1_flags = 0; base2 = 0 };
  gdt_ptr = record { size = 0; offset = 0 };
  tss_entry = record {
    reserved0 = 0;
    rsp0 = 0;
    rsp1 = 0;
    rsp2 = 0;
    reserved1 = 0;
    ist1 = 0;
    ist2 = 0;
    ist3 = 0;
    ist4 = 0;
    ist5 = 0;
    ist6 = 0;
    ist7 = 0;
    reserved2 = 0;
    reserved3 = 0;
    iomap_base = 0;
  };
}

sleep-EndsWithin_example : EndsWithin 2 2500 (sleep 2001 2 (λ i. 1) 500)
sleep-EndsWithin_example =
    sleep-EndsWithin 2001 2 2 500 (λ i. 1) (λ i. (omega arith, omega arith)) (omega arith)
      (omega arith)
