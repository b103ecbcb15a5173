-- ===== src/Pmm/Pages.antt =====
-- `Pmm_FreePage` and `Pmm_AllocatePage` are a bounded stack of pages.
use sipaa_kernel.Prelude.{
  ℕ, zero, suc, ◌+◌, ◌-◌, ◌≤◌, ◌≡◌, refl, ap, List, [], ◌∷◌, arith, length, ◌==◌, if◌then◌else◌,
}
use sipaa_kernel.Pmm.{Pmm, stack_size, update, free_page, allocate_page}

-- the `n` lowest entries of the array, the top one first
abbrev pub entries : (ℕ → ℕ) → ℕ → List ℕ
entries stack zero = []
entries stack (suc n) = stack n ∷ entries stack n

-- the free pages, the next one to be handed out first
abbrev pub pages : Pmm → List ℕ
pages s = entries s.stack s.stack_top

pub length-entries : (stack : ℕ → ℕ) (n : ℕ) → length (entries stack n) ≡ n
length-entries stack zero = refl
length-entries stack (suc n) = ap suc (length-entries stack n)

pub entries-update :
    (stack : ℕ → ℕ) (n i v : ℕ) → n ≤ i → entries (update stack i v) n ≡ entries stack n
entries-update stack zero i v h = refl
entries-update stack (suc n) i v h = ground (arith, entries-update stack n i v)

-- The page allocator as a list: a freed page goes to the front unless `stack_size` pages are held,
-- and the front page is handed out.
unfoldable pub push : ℕ → List ℕ → List ℕ
push page q = if length q == stack_size then q else page ∷ q

unfoldable pub pop : List ℕ → ℕ × List ℕ
pop [] = (0, [])
pop (page ∷ q) = (page, q)

entries_one : (stack : ℕ → ℕ) (n : ℕ) → entries stack (n + 1) ≡ stack n ∷ entries stack n
entries_one stack n = let e : n + 1 ≡ suc n = omega arith in rw e

-- `Pmm_FreePage` pushes the page, and drops it when the stack is full.
pub free_page_refines : (page : ℕ) (s : Pmm) → pages (free_page page s) ≡ push page (pages s)
unfolding free_page push
free_page_refines page s = ground (
  arith,
  length-entries s.stack s.stack_top,
  entries_one (update s.stack s.stack_top page) s.stack_top,
  entries-update s.stack s.stack_top s.stack_top page,
)

pop-entries :
    (stack : ℕ → ℕ) (n : ℕ)
    → pop (entries stack n) ≡ (if n == 0 then 0 else stack (n - 1), entries stack (n - 1))
unfolding pop
pop-entries stack zero = refl
pop-entries stack (suc n) = let e : suc n - 1 ≡ n = omega arith in rw e (ground arith)

-- `Pmm_AllocatePage` pops the page that was freed last, and returns `NULL` when there is none.
pub allocate_page_refines : (s : Pmm) → let (p, t) = allocate_page s in (p, pages t) ≡ pop (pages s)
unfolding allocate_page
allocate_page_refines s = ground (arith, pop-entries s.stack s.stack_top)

-- The pages of the allocator are a stack that holds at most `stack_size`: `Pmm_FreePage` pushes and
-- drops the page when it is full, and `Pmm_AllocatePage` pops the page that was freed last, or
-- returns `NULL` when there is none.
pub page_stack_refines :
    (page : ℕ) (s : Pmm)
    → (pages (free_page page s) ≡ push page (pages s))
      × (((allocate_page s).0, pages (allocate_page s).1) ≡ pop (pages s))
page_stack_refines page s = (free_page_refines page s, allocate_page_refines s)
