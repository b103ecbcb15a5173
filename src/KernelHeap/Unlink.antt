-- ===== src/KernelHeap/Unlink.antt =====
-- Taking a block out of the circle.
use sipaa_kernel.Prelude.{
  ℕ, ◌≡◌, ◌≢◌, refl, List, [], ◌∷◌, ◌++◌, arith, ◌==◌, false, ◌||◌, has, sym, ◌∙◌,
}
use sipaa_kernel.KernelHeap.{HeapBlock}
use sipaa_kernel.KernelHeap.Circle.{Chained, last_of, has-last_of}

-- `b'` has the links of `b`, but that `c` follows `a`
pub record Unlinked (a c : ℕ) (b b' : ℕ → HeapBlock) : Type 0 where
  pub next_a : (b' a).next ≡ c
  pub prev_c : (b' c).prev ≡ a
  pub nexts : (k : ℕ) → k ≢ a → (b' k).next ≡ (b k).next
  pub prevs : (k : ℕ) → k ≢ c → (b' k).prev ≡ (b k).prev

pub has-append : (q : ℕ) (xs ys : List ℕ) → has q (xs ++ ys) ≡ (has q xs || has q ys)
has-append q [] ys = refl
has-append q (x ∷ xs) ys = ground (arith, has-append q xs ys)

-- the first block of a list, or the one where it stops
abbrev pub first_of : ℕ → List ℕ → ℕ
first_of stop [] = stop
first_of stop (z ∷ zs) = z

module _ (a c : ℕ) (b b' : ℕ → HeapBlock) (un : Unlinked a c b b') (stop : ℕ) where
  -- A part of the list behind the gap stays as it is.
  Chained-behind :
      (q p : ℕ) (zs : List ℕ)
      → has a zs ≡ false
      → has c zs ≡ false
      → c ≢ stop
      → Chained b stop q p zs
      → Chained b' stop q p zs
  Chained-behind q p [] na nc ne h = (h.0, un.prevs stop (λ e. ne (sym e)) ∙ h.1)
  Chained-behind q p (z ∷ zs) na nc ne h =
      let same_next : (b' z).next ≡ (b z).next = un.nexts z (ground (arith, na)) in
      let same_prev : (b' z).prev ≡ (b z).prev = un.prevs z (ground (arith, nc)) in
      (
        h.0,
        h.1,
        h.2,
        same_prev ∙ h.3,
        rw same_next (Chained-behind z (b z).next zs (ground arith) (ground arith) ne h.4),
      )

  not_first :
      (x y : ℕ) (xs ys : List ℕ) → has x (xs ++ y ∷ ys) ≡ false → x ≢ stop → x ≢ first_of stop ys
  not_first x y xs [] out ne = ne
  not_first x y xs (z ∷ zs) out ne = ground (arith, has-append x xs (y ∷ z ∷ zs))

  -- The block after the gap is dropped from the list.
  pub Chained-unlink :
      (q y : ℕ) (xs ys : List ℕ)
      → last_of q xs ≡ a
      → c ≡ first_of stop ys
      → has q (xs ++ y ∷ ys) ≡ false
      → Chained b stop q (b q).next (xs ++ y ∷ ys)
      → Chained b' stop q (b' q).next (xs ++ ys)
  Chained-unlink q y [] [] last first out h =
      (cc (un.next_a, last, first), cc (un.prev_c, last, first))
  Chained-unlink q y [] (z ∷ zs) last first out h =
      let apart : z ≢ a = ground (arith, out, last) in
      let ends : c ≢ stop = λ e. h.4.1 (sym first ∙ e) in
      let clear : has c zs ≡ false = rw first h.4.2 in
      (
        cc (un.next_a, last, first),
        h.4.1,
        h.4.2,
        cc (un.prev_c, last, first),
        rw (un.nexts z apart)
            (Chained-behind z (b z).next zs (ground (arith, out, last)) clear ends h.4.4),
      )
  Chained-unlink q y (x ∷ xs) ys last first out h =
      let none_before : has q (x ∷ xs) ≡ false =
        ground (arith, has-append q (x ∷ xs) (y ∷ ys), out) in
      let end : (last_of x xs == q) ≡ false = has-last_of q x xs none_before in
      let apart : q ≢ a = ground (arith, end, last) in
      let not_c : x ≢ c = λ e. not_first x y xs ys h.2 h.1 (e ∙ first) in
      (
        un.nexts q apart ∙ h.0,
        h.1,
        ground (arith, has-append x xs (y ∷ ys), has-append x xs ys, h.2),
        un.prevs x not_c ∙ h.3,
        Chained-unlink x y xs ys last first h.2 h.4,
      )
