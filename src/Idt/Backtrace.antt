-- ===== src/Idt/Backtrace.antt =====
-- `Idt_SaveState`, `Idt_RestoreState` and `Idt_DumpBackTrace` of src/arch/x86_64/idt.c: the registers
-- of the current process, and the functions that the frames on the stack belong to.
-- A line of the log is its three arguments.
use sipaa_kernel.Prelude.{
  ℕ, zero, suc, ◌+◌, ◌^◌, ◌<◌, ◌≡◌, ◌≢◌, refl, true, false, ◌==◌, if◌then◌else◌, arith, List, [],
  ◌∷◌, ◌++◌, length, Option, none, some,
}
use sipaa_kernel.Prelude.Run.{Run, done, out_of_fuel, ◌>>=◌}
use sipaa_kernel.Mem.{Mem}
use sipaa_kernel.Mem.Words.{load_word}
use sipaa_kernel.Sched.{Registers, Scheduler, put}
use sipaa_kernel.Ksym.{Sym, Tables, rounds, get_from_ip, get_symbol_name}
use sipaa_kernel.Ksym.Find.{covers, First, at, nowhere, get_from_ip-First}

-- `Idt_SaveState`
unfoldable pub save_state : {W : Type 0} → Registers → Scheduler W → Scheduler W
save_state regs s =
    let p : ℕ = s.current_process in
    if p == 0 then s else record s { procs = put s.procs p (record (s.procs p) { regs = regs }) }

-- `Idt_RestoreState`
unfoldable pub restore_state : {W : Type 0} → Registers → Scheduler W → Registers
restore_state regs s = if s.current_process == 0 then regs else (s.procs s.current_process).regs

pub record Line : Type 0 where
  pub name : ℕ
  pub start : ℕ
  pub ip : ℕ

module _ (t : Tables) (table : ℕ → Sym) where
  -- what a frame is logged as
  frame_line : (symbol : Option ℕ) (ip : ℕ) → List Line
  frame_line none ip = []
  frame_line (some i) ip =
      record { name = get_symbol_name t (table i).st_name; start = (table i).st_value; ip = ip }
      ∷ []

  -- its loop, from the frame at `frame` on
  dump_frames : (fuel : ℕ) → Mem → (frame : ℕ) → Run (List Line)
  unfolding frame_line
  dump_frames zero m frame = out_of_fuel
  dump_frames (suc f) m frame =
      let rest = dump_frames f m (load_word 8 frame m) in
      let ip : ℕ = load_word 8 (frame + 8) m in
      if frame == 0
      then done []
      else (do ls ← rest; done (frame_line (get_from_ip t.sym_count ip table) ip ++ ls))

  -- `Idt_DumpBackTrace`
  unfoldable pub dump_back_trace : (fuel : ℕ) → Registers → Mem → Run (List Line)
  unfolding dump_frames
  dump_back_trace f r m = dump_frames f m r.rbp

  -- the stack has frames from `frame` on, up to one that is `NULL`, with the instructions `ips`
  pub data HasFrames (m : Mem) : (frame : ℕ) (ips : List ℕ) → Type 0 where
    bottom : HasFrames m 0 []
    above :
        (a b ip : ℕ) {ips : List ℕ}
        → a ≢ 0
        → load_word 8 a m ≡ b
        → load_word 8 (a + 8) m ≡ ip
        → ip < 2 ^ 64
        → HasFrames m b ips
        → HasFrames m a (ip ∷ ips)

  -- each instruction that a symbol covers has a line, with the first such symbol
  pub data Reported : List ℕ → List Line → Type 0 where
    none_left : Reported [] []
    named :
        (i : ℕ) {ip : ℕ} {ips : List ℕ} {ls : List Line}
        → i < rounds t.sym_count
        → covers (table i) ip ≡ true
        → ((j : ℕ) → j < i → covers (table j) ip ≡ false)
        → Reported ips ls
        → Reported (ip ∷ ips) (
            record {
              name = get_symbol_name t (table i).st_name;
              start = (table i).st_value;
              ip = ip;
            }
            ∷ ls)
    unnamed :
        {ip : ℕ} {ips : List ℕ} {ls : List Line}
        → ((j : ℕ) → j < rounds t.sym_count → covers (table j) ip ≡ false)
        → Reported ips ls
        → Reported (ip ∷ ips) ls

  pub record Dumped (ips : List ℕ) (r : Run (List Line)) : Type 0 where
    pub lines : List Line
    pub ends : r ≡ done lines
    pub reported : Reported ips lines

  frame_line-Reported :
      (o : Option ℕ) (ip : ℕ) {ips : List ℕ} {ls : List Line}
      → First table ip (rounds t.sym_count) o
      → Reported ips ls
      → Reported (ip ∷ ips) (frame_line o ip ++ ls)
  unfolding frame_line
  frame_line-Reported none ip (nowhere never) r = unnamed never r
  frame_line-Reported (some _) ip (at i low hit first) r = named i low hit first r

  module _ (m : Mem)
      (wide : (j : ℕ) → ((table j).st_value < 2 ^ 64) × ((table j).st_size < 2 ^ 64)) where
    dump_frames-Dumped :
        (f frame : ℕ) (ips : List ℕ)
        → HasFrames m frame ips
        → length ips < f
        → Dumped ips (dump_frames f m frame)
    unfolding dump_frames
    dump_frames-Dumped zero frame ips frames fuel = elim fuel [ ]
    dump_frames-Dumped (suc f) _ _ bottom fuel = record {
      lines = [];
      ends = refl;
      reported = none_left;
    }
    dump_frames-Dumped (suc f) _ _ (above a b ip {ips} real down here small rest) fuel =
        let d = dump_frames-Dumped f b ips rest (omega arith) in
        record {
          lines = frame_line (get_from_ip t.sym_count ip table) ip ++ d.lines;
          ends = rw down (rw here (rw d.ends (ground arith)));
          reported =
              frame_line-Reported (get_from_ip t.sym_count ip table) ip
                (get_from_ip-First table ip t.sym_count wide small) d.reported;
        }

    -- On a stack whose frames end at one that is `NULL`, with 64-bit addresses and sizes in the
    -- symbol table and fuel for the frames, `Idt_DumpBackTrace` ends and logs, from the innermost
    -- frame on, a line for each frame whose instruction a symbol covers, with the name and the
    -- address of the first such symbol, and nothing for the other frames; a count of symbols from
    -- 2 ^ 31 on is negative, and then nothing is logged.
    pub dump_back_trace-Dumped :
        (f : ℕ) (r : Registers) (ips : List ℕ)
        → HasFrames m r.rbp ips
        → length ips < f
        → Dumped ips (dump_back_trace f r m)
    unfolding dump_back_trace
    dump_back_trace-Dumped f r ips frames fuel = dump_frames-Dumped f r.rbp ips frames fuel
