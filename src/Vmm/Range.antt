-- ===== src/Vmm/Range.antt =====
-- Pages that follow one another, mapped one after the other.
use sipaa_kernel.Prelude.{
  ℕ, zero, suc, ◌+◌, ◌-◌, ◌*◌, ◌^◌, ◌≤◌, ◌<◌, ◌≡◌, ◌∙◌, arith, some, ◌==◌, Bool-cases, inl, inr,
  bit_or,
}
use sipaa_kernel.Vmm.{Vmm, map}
use sipaa_kernel.Vmm.Walk.{lookup}
use sipaa_kernel.Vmm.Paging.{IsPaging}
use sipaa_kernel.Vmm.Keeps.{SamePage, map-Maps}

-- `n` pages from `addr` on are mapped to as many from `frame` on
unfoldable pub map_range : (n hhdm pml4 addr frame flags : ℕ) → Vmm → Vmm
map_range zero hhdm pml4 addr frame flags v = v
map_range (suc n) hhdm pml4 addr frame flags v =
    map_range n hhdm pml4 (addr + 4096) (frame + 4096) flags (map hhdm pml4 addr frame flags v)

module _ (hhdm : ℕ) (wide : hhdm < 2 ^ 64) (pml4 flags : ℕ) where
  pub record MapsRange (n addr frame : ℕ) (level : ℕ → ℕ) (v after : Vmm) : Type 0 where
    pub level' : ℕ → ℕ
    pub paging : IsPaging hhdm level' after
    pub root : level' pml4 ≡ 4
    pub used : (v.pmm).stack_top ≤ (after.pmm).stack_top + 3 * n
    pub found :
        (j : ℕ)
        → j < n
        → lookup hhdm after.words pml4 (addr + j * 4096) ≡ some (bit_or (frame + j * 4096) flags)
    pub others :
        (other x : ℕ)
        → ((j : ℕ) → j < n → SamePage other (addr + j * 4096) → ⊥)
        → lookup hhdm v.words pml4 other ≡ some x
        → lookup hhdm after.words pml4 other ≡ some x

  pages_differ :
      (n addr j : ℕ) → suc n ≤ 2 ^ 36 → j < n → SamePage addr (addr + 4096 + j * 4096) → ⊥
  pages_differ n addr j small low same = omega (arith, same)

  -- With well-formed tables and three pages on the stack for each page that is mapped, and no more
  -- than 2 ^ 36 pages, the tables stay well formed, the walk of the processor finds each page with its
  -- frame and the flags, and finds what it found before for each address of any other page.
  pub map_range-MapsRange :
      (n addr frame : ℕ) (level : ℕ → ℕ) (v : Vmm)
      → IsPaging hhdm level v
      → level pml4 ≡ 4
      → 3 * n ≤ (v.pmm).stack_top
      → n ≤ 2 ^ 36
      → MapsRange n addr frame level v (map_range n hhdm pml4 addr frame flags v)
  unfolding map_range
  map_range-MapsRange zero addr frame level v ok root room small = record {
    level' = level;
    paging = ok;
    root = root;
    used = omega arith;
    found = λ j h. elim h [ ];
    others = λ other x apart h. h;
  }
  map_range-MapsRange (suc n) addr frame level v ok root room small =
      let one = map-Maps hhdm wide level v pml4 addr frame flags ok root (omega arith) in
      let rest =
        map_range-MapsRange n (addr + 4096) (frame + 4096) one.level'
          (map hhdm pml4 addr frame flags v) one.paging
          (one.grows pml4 (omega (arith, root)) ∙ root) (omega (arith, one.used)) (omega arith) in
      record {
        level' = rest.level';
        paging = rest.paging;
        root = rest.root;
        used = omega (arith, one.used, rest.used);
        found = λ j h. elim (Bool-cases (j == 0)) [
          | inl first ↦
              let at : addr + j * 4096 ≡ addr = ground (arith, first) in
              let frame_at : frame + j * 4096 ≡ frame = ground (arith, first) in
              rw (at, frame_at)
                (rest.others addr (bit_or frame flags) (λ k hk. pages_differ n addr k small hk)
                  one.found)
          | inr later ↦
              let at : addr + j * 4096 ≡ addr + 4096 + (j - 1) * 4096 = ground (arith, later) in
              let frame_at : frame + j * 4096 ≡ frame + 4096 + (j - 1) * 4096 =
                ground (arith, later) in
              rw (at, frame_at) (rest.found (j - 1) (ground (arith, later)))
        ];
        others = λ other x apart h.
            rest.others other x (λ j hj same. apart (suc j) (omega arith) (omega (arith, same)))
              (one.others other x (λ same. apart 0 (omega arith) (omega (arith, same))) h);
      }
