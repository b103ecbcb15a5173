-- ===== src/Boot/Stacked.antt =====
-- What `Pmm_Initialize` leaves on the page stack: frames that do not overlap.
use sipaa_kernel.Prelude.{
  ℕ, zero, suc, ◌+◌, ◌-◌, ◌*◌, ◌^◌, ◌≤◌, ◌<◌, ◌≡◌, refl, arith, List, [], ◌∷◌, ◌==◌, leb,
  Bool-cases, false, inl, inr,
}
use sipaa_kernel.Prelude.Run.{done}
use sipaa_kernel.Pmm.{
  Pmm, MemmapEntry, block_size, stack_size, free_page, add_region, add_entries, initialize,
}
use sipaa_kernel.Pmm.Regions.{Fits}
use sipaa_kernel.Vmm.Map.{Frames}
use sipaa_kernel.Vmm.KernelTable.{Distinct}

-- The usable entries have whole pages of 52-bit memory, but not the first one, and come in the order
-- of their addresses, from `lo` on.
pub data Ordered : (lo : ℕ) → List MemmapEntry → Type 0 where
  over : (lo : ℕ) → Ordered lo []
  usable :
      (lo : ℕ) (e : MemmapEntry) (n : ℕ) {es : List MemmapEntry}
      → e.kind ≡ 0
      → e.base ≡ n * 4096
      → lo ≤ e.base
      → 0 < e.base
      → e.base + e.length ≤ 2 ^ 52
      → Ordered (e.base + e.length) es
      → Ordered lo (e ∷ es)
  other :
      (lo : ℕ) (e : MemmapEntry) {es : List MemmapEntry}
      → 0 < e.kind
      → Ordered lo es
      → Ordered lo (e ∷ es)

-- The stack has frames below `hi`, from the lowest up, and no block has been allocated.
pub record Rising (hi : ℕ) (s : Pmm) : Type 0 where
  pub frames : Frames s
  pub no_blocks : s.free_blocks ≡ 0
  pub below : (j : ℕ) → j < s.stack_top → s.stack j + 4096 ≤ hi
  pub real : (j : ℕ) → j < s.stack_top → 0 < s.stack j
  pub rising : (i j : ℕ) → i < s.stack_top → j < i → s.stack j + 4096 ≤ s.stack i

Rising-mono : (lo hi : ℕ) (s : Pmm) → lo ≤ hi → Rising lo s → Rising hi s
Rising-mono lo hi s h r = record {
  frames = r.frames;
  no_blocks = r.no_blocks;
  below = λ j m. omega (arith, r.below j m);
  real = r.real;
  rising = r.rising;
}

free_page-Rising :
    (n hi addr : ℕ) (s : Pmm)
    → n < 2 ^ 40
    → addr ≡ n * 4096
    → 0 < addr
    → hi ≤ addr
    → Rising hi s
    → Rising (addr + 4096) (free_page addr s)
unfolding free_page
free_page-Rising n hi addr s small at pos lo r = elim (Bool-cases (s.stack_top == stack_size)) [
  | inl full ↦ rw full (Rising-mono hi (addr + 4096) s (omega arith) r)
  | inr room ↦ rw room (record {
    frames = λ i. elim (Bool-cases (i == s.stack_top)) [
      | inl top ↦ rw top (record { number = n; small = small; aligned = at })
      | inr rest ↦ rw rest (r.frames i)
    ];
    no_blocks = r.no_blocks;
    below = λ j m. ground (arith, r.below j);
    real = λ j m. ground (arith, r.real j);
    rising = λ i j m h. ground (arith, r.rising i j, r.below j);
  })
]

add_region-Rising :
    (f n addr length : ℕ) (s : Pmm)
    → addr ≡ n * 4096
    → 0 < addr
    → addr + length ≤ 2 ^ 52
    → length < f
    → Rising addr s
    → (t : Pmm) × (add_region f addr length s ≡ done t) × Rising (addr + length) t
unfolding add_region
add_region-Rising zero n addr length s at pos fits fuel r = absurd (omega arith)
add_region-Rising (suc f) n addr length s at pos fits fuel r =
    elim (Bool-cases (leb block_size length)) [
      | inl more ↦
          let long : block_size ≤ length = ground (arith, more) in
          let (t, run, last) =
            add_region-Rising f (n + 1) (addr + block_size) (length - block_size) (free_page addr s)
              (omega arith) (omega arith) (omega arith) (omega arith)
              (free_page-Rising n addr addr s (omega arith) at pos (omega arith) r) in
          (t, rw more run, Rising-mono _ (addr + length) t (omega arith) last)
      | inr less ↦ (s, rw less refl, Rising-mono addr (addr + length) s (omega arith) r)
    ]

add_entries-Rising :
    (f lo : ℕ) (es : List MemmapEntry) (s : Pmm)
    → Ordered lo es
    → Fits f es
    → Rising lo s
    → (t : Pmm) × (hi : ℕ) × (add_entries f es s ≡ done t) × Rising hi t
unfolding add_entries
add_entries-Rising f _ _ s (over lo) fits r = (s, lo, refl, r)
add_entries-Rising f _ _ s (usable lo e n {es} kind at low pos wide rest) fits r =
    let (t, run, risen) =
      add_region-Rising f n e.base e.length s at pos wide fits.0
        (Rising-mono lo e.base s (omega arith) r) in
    let (u, hi, run', last) = add_entries-Rising f (e.base + e.length) es t rest fits.1 risen in
    (u, hi, rw (kind, run) run', last)
add_entries-Rising f _ _ s (other lo e {es} kind rest) fits r =
    let no : (e.kind == 0) ≡ false = ground (arith, kind) in
    let (u, hi, run', last) = add_entries-Rising f lo es s rest fits.1 r in
    (u, hi, rw no run', last)

-- `Pmm_Initialize` over an array of frames, such as one of zeros
pub initialize-Rising :
    (f : ℕ) (mmap : List MemmapEntry) (s : Pmm)
    → Ordered 0 mmap
    → Fits f mmap
    → Frames s
    → s.free_blocks ≡ 0
    → (t : Pmm) × (hi : ℕ) × (initialize f mmap s ≡ done t) × Rising hi t
unfolding initialize
initialize-Rising f mmap s ordered fits frames no_blocks =
    add_entries-Rising f 0 mmap (record s { stack_top = 0 }) ordered fits
      (record {
        frames = frames;
        no_blocks = no_blocks;
        below = λ j m. absurd (omega arith);
        real = λ j m. absurd (omega arith);
        rising = λ i j m h. absurd (omega arith);
      })

-- tables in such pages do not overlap
pub Rising-Distinct :
    (hhdm hi : ℕ) (s : Pmm) → hhdm + 2 ^ 52 ≤ 2 ^ 64 → Rising hi s → Distinct hhdm s
Rising-Distinct hhdm hi s wide r i j m h =
    let fi = r.frames i in
    let fj = r.frames j in
    inr (omega (arith, r.rising i j m h, fi.small, fi.aligned, fj.small, fj.aligned))
