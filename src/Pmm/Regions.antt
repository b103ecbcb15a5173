-- ===== src/Pmm/Regions.antt =====
-- `Pmm_Initialize` stacks the whole pages of the usable entries of the memory map.
use sipaa_kernel.Prelude.{
  ℕ, zero, suc, ◌+◌, ◌-◌, ◌/◌, ◌≤◌, ◌<◌, ◌≡◌, refl, ap, ◌∙◌, List, [], ◌∷◌, ◌++◌, arith, leb, ◌==◌,
  if◌then◌else◌, Bool-cases, inl, inr,
}
use sipaa_kernel.Prelude.Run.{done}
use sipaa_kernel.Pmm.{Pmm, MemmapEntry, block_size, add_region, add_entries, initialize, free_page}
use sipaa_kernel.Pmm.Pages.{pages, push, free_page_refines}

-- the addresses of the first `n` pages from `addr`
abbrev pub page_run : ℕ → ℕ → List ℕ
page_run addr zero = []
page_run addr (suc n) = addr ∷ page_run (addr + block_size) n

-- the pages of an entry that lie in it whole
abbrev pub pages_of : MemmapEntry → List ℕ
pages_of e = if e.kind == 0 then page_run e.base (e.length / block_size) else []

abbrev pub all_pages : List MemmapEntry → List ℕ
all_pages [] = []
all_pages (e ∷ es) = pages_of e ++ all_pages es

-- pages pushed one after the other
abbrev pub push_all : List ℕ → List ℕ → List ℕ
push_all [] q = q
push_all (p ∷ ps) q = push_all ps (push p q)

push_all-append : (ps qs q : List ℕ) → push_all (ps ++ qs) q ≡ push_all qs (push_all ps q)
push_all-append [] qs q = refl
push_all-append (p ∷ ps) qs q = push_all-append ps qs (push p q)

page_run-step :
    (addr length : ℕ)
    → block_size ≤ length
    → page_run addr (length / block_size)
      ≡ addr ∷ page_run (addr + block_size) ((length - block_size) / block_size)
page_run-step addr length h =
    let e : length / block_size ≡ suc ((length - block_size) / block_size) = omega arith in rw e

add_region-pages :
    (f addr length : ℕ) (s : Pmm)
    → length < f
    → (t : Pmm) × (add_region f addr length s ≡ done t)
      × (pages t ≡ push_all (page_run addr (length / block_size)) (pages s))
unfolding add_region
add_region-pages zero addr length s fuel = absurd (omega arith)
add_region-pages (suc f) addr length s fuel = elim (Bool-cases (leb block_size length)) [
  | inl more ↦
      let (t, run, held) =
        add_region-pages f (addr + block_size) (length - block_size) (free_page addr s)
          (ground arith) in
      (
        t,
        rw more run,
        rw (page_run-step addr length (ground arith)) (
            held
            ∙ ap (push_all (page_run (addr + block_size) ((length - block_size) / block_size)))
                (free_page_refines addr s)),
      )
  | inr less ↦ let e : length / block_size ≡ 0 = ground arith in (s, rw less, rw e)
]

-- the fuel that every usable entry needs
abbrev pub Fits : ℕ → List MemmapEntry → Type 0
Fits f [] = Unit
Fits f (e ∷ es) = (e.length < f) × Fits f es

add_entries-pages :
    (f : ℕ) (es : List MemmapEntry) (s : Pmm)
    → Fits f es
    → (t : Pmm) × (add_entries f es s ≡ done t) × (pages t ≡ push_all (all_pages es) (pages s))
unfolding add_entries
add_entries-pages f [] s fuel = (s, refl, refl)
add_entries-pages f (e ∷ es) s fuel = elim (Bool-cases (e.kind == 0)) [
  | inl usable ↦
      let (t, run, held) = add_region-pages f e.base e.length s fuel.0 in
      let (u, run', held') = add_entries-pages f es t fuel.1 in
      (u, rw (usable, run) run', rw (usable, push_all-append, ← held) held')
  | inr other ↦
      let (u, run', held') = add_entries-pages f es s fuel.1 in (u, rw other run', rw other held')
]

-- With fuel above every entry's length, `Pmm_Initialize` ends, and has stacked, in order, every
-- whole page of every usable entry as far as the stack has room, over an emptied stack.
pub initialize-pages :
    (f : ℕ) (mmap : List MemmapEntry) (s : Pmm)
    → Fits f mmap
    → (t : Pmm) × (initialize f mmap s ≡ done t) × (pages t ≡ push_all (all_pages mmap) [])
unfolding initialize
initialize-pages f mmap s fuel = add_entries-pages f mmap (record s { stack_top = 0 }) fuel
