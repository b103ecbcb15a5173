-- ===== src/Vmm/Walk.antt =====
-- The walk of the processor through the tables, and the words that the tables take.
use sipaa_kernel.Prelude.{
  ℕ, ◌+◌, ◌*◌, ◌/◌, ◌%◌, ◌^◌, ◌≤◌, ◌<◌, ◌≡◌, ◌≢◌, refl, arith, Option, none, some, ◌⊎◌, ◌==◌,
  if◌then◌else◌, sym, subst, ap,
}
use sipaa_kernel.Vmm.{virtual_to_physical, entry, slot, set_word, page_size}
use sipaa_kernel.Vmm.Bits.{entry-mod}

-- The two pages do not overlap.
abbrev pub Apart : ℕ → ℕ → Type 0
Apart a b = (a + page_size ≤ b) ⊎ (b + page_size ≤ a)

-- The word at `a` is not in the page.
abbrev pub Off : (page a : ℕ) → Type 0
Off page a = (a < page) ⊎ (page + page_size ≤ a)

-- one step of the processor: the table that entry `i` leads to, if it is present
unfoldable pub step_down : (hhdm : ℕ) → (ℕ → ℕ) → (table i : ℕ) → Option ℕ
step_down hhdm words table i =
    let e : ℕ = words (slot table i) in
    if e % 2 == 0 then none else some (virtual_to_physical hhdm ((e / 2 ^ 12) % 2 ^ 40 * 2 ^ 12))

abbrev pub index : (shift vaddr : ℕ) → ℕ
index shift vaddr = (vaddr / 2 ^ shift) % 512

infixl 5 ◌>>=◌
◌>>=◌ : {A B : Type 0} → Option A → (A → Option B) → Option B
none >>= f = none
some a >>= f = f a

-- the last entry on the way to an address, if the three before it are present
unfoldable pub lookup : (hhdm : ℕ) → (ℕ → ℕ) → (pml4 vaddr : ℕ) → Option ℕ
unfolding step_down ◌>>=◌
lookup hhdm words pml4 vaddr = do
  pml3 ← step_down hhdm words pml4 (index 39 vaddr)
  pml2 ← step_down hhdm words pml3 (index 30 vaddr)
  pml1 ← step_down hhdm words pml2 (index 21 vaddr)
  some (words (slot pml1 (index 12 vaddr)))

pub slot-Off : (t u i : ℕ) → Apart t u → i < 512 → Off u (slot t i)
slot-Off t u i apart h = ground (arith, apart)

pub slot_disjoint : (t u i j : ℕ) → Apart t u → i < 512 → j < 512 → slot t i ≢ slot u j
slot_disjoint t u i j apart hi hj = ground (arith, apart)

pub entry_bound : (shift v : ℕ) → entry shift v < 512
entry_bound shift v = rw (entry-mod shift v) (omega arith)

pub set_word_frame : (a v b : ℕ) (words : ℕ → ℕ) → b ≢ a → set_word a v words b ≡ words b
set_word_frame a v b words ne = ground (arith, ne)

pub lookup_lem :
    (hhdm : ℕ) (w : ℕ → ℕ) (pml4 vaddr t3 t2 t1 : ℕ)
    → step_down hhdm w pml4 (entry 39 vaddr) ≡ some t3
    → step_down hhdm w t3 (entry 30 vaddr) ≡ some t2
    → step_down hhdm w t2 (entry 21 vaddr) ≡ some t1
    → lookup hhdm w pml4 vaddr ≡ some (w (slot t1 (entry 12 vaddr)))
unfolding lookup ◌>>=◌
lookup_lem hhdm w pml4 vaddr t3 t2 t1 h4 h3 h2 =
    let g4 = subst (λ i. step_down hhdm w pml4 i ≡ some t3) (entry-mod 39 vaddr) h4 in
    let g3 = subst (λ i. step_down hhdm w t3 i ≡ some t2) (entry-mod 30 vaddr) h3 in
    let g2 = subst (λ i. step_down hhdm w t2 i ≡ some t1) (entry-mod 21 vaddr) h2 in
    rw g4 (rw g3 (rw g2 (ap (λ i. some (w (slot t1 i))) (sym (entry-mod 12 vaddr)))))

pub Off-slot : (t a i : ℕ) → Off t a → i < 512 → a ≢ slot t i
Off-slot t a i off h = ground (arith, off)

pub step_down_cong :
    (hhdm : ℕ) (w w' : ℕ → ℕ) (t i : ℕ)
    → w (slot t i) ≡ w' (slot t i)
    → step_down hhdm w t i ≡ step_down hhdm w' t i
unfolding step_down
step_down_cong hhdm w w' t i e = rw e refl

bind-eq-some :
    {A B : Type 0} (m : Option A) (f : A → Option B) (b : B)
    → (m >>= f) ≡ some b
    → (a : A) × (m ≡ some a) × (f a ≡ some b)
unfolding ◌>>=◌
bind-eq-some none f b h = cc h
bind-eq-some (some a) f b h = (a, refl, h)

-- the tables on the way of a walk that ends
pub record Walked (hhdm : ℕ) (w : ℕ → ℕ) (pml4 vaddr x : ℕ) : Type 0 where
  pub u3 : ℕ
  pub u2 : ℕ
  pub u1 : ℕ
  pub to3 : step_down hhdm w pml4 (entry 39 vaddr) ≡ some u3
  pub to2 : step_down hhdm w u3 (entry 30 vaddr) ≡ some u2
  pub to1 : step_down hhdm w u2 (entry 21 vaddr) ≡ some u1
  pub value : w (slot u1 (entry 12 vaddr)) ≡ x

pub lookup-Walked :
    (hhdm : ℕ) (w : ℕ → ℕ) (pml4 vaddr x : ℕ)
    → lookup hhdm w pml4 vaddr ≡ some x
    → Walked hhdm w pml4 vaddr x
unfolding lookup
lookup-Walked hhdm w pml4 vaddr x h =
    let (a3, d3, r3) = bind-eq-some (step_down hhdm w pml4 (index 39 vaddr)) _ x h in
    let (a2, d2, r2) = bind-eq-some (step_down hhdm w a3 (index 30 vaddr)) _ x r3 in
    let (a1, d1, r1) = bind-eq-some (step_down hhdm w a2 (index 21 vaddr)) _ x r2 in
    record {
      u3 = a3;
      u2 = a2;
      u1 = a1;
      to3 = rw (entry-mod 39 vaddr) d3;
      to2 = rw (entry-mod 30 vaddr) d2;
      to1 = rw (entry-mod 21 vaddr) d1;
      value = rw (entry-mod 12 vaddr) (ground (arith, r1));
    }
