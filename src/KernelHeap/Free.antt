-- ===== src/KernelHeap/Free.antt =====
-- `KHeap_Free`: the circle without the blocks that were merged.
use sipaa_kernel.Prelude.{
  ℕ, ◌+◌, ◌-◌, ◌%◌, ◌^◌, ◌<◌, ◌≡◌, ◌≢◌, refl, List, [], ◌∷◌, ◌++◌, arith, ◌==◌, ◌&&◌, not, false,
  Bool, Bool-both, sym, subst, ◌∙◌, if◌then◌else◌,
}
use mathlib.Core.List.{append_assoc}
use sipaa_kernel.KernelHeap.{
  KernelHeap, HeapBlock, set_block, absorb_next, join_prev, merge_next, merge_prev, heap_free,
  heap_magic, block_header,
}
use sipaa_kernel.KernelHeap.Circle.{Chained, IsCircle, last_of, Chained-frame, has-stop}
use sipaa_kernel.KernelHeap.Unlink.{has-append, Unlinked, Chained-unlink, first_of}

next-first_of :
    (b : ℕ → HeapBlock) (stop q p y : ℕ) (xs ys : List ℕ)
    → Chained b stop q p (xs ++ y ∷ ys)
    → (b y).next ≡ first_of stop ys
next-first_of b stop q p y [] [] h = h.4.0
next-first_of b stop q p y [] (z ∷ zs) h = h.4.0
next-first_of b stop q p y (x ∷ xs) ys h = next-first_of b stop x (b x).next y xs ys h.4

prev-before :
    (b : ℕ → HeapBlock) (stop q p y : ℕ) (xs ys : List ℕ)
    → Chained b stop q p (xs ++ y ∷ ys)
    → (b y).prev ≡ last_of q xs
prev-before b stop q p y [] ys h = h.3
prev-before b stop q p y (x ∷ xs) ys h = prev-before b stop x (b x).next y xs ys h.4

not_stop :
    (b : ℕ → HeapBlock) (stop q p y : ℕ) (xs ys : List ℕ)
    → Chained b stop q p (xs ++ y ∷ ys)
    → y ≢ stop
not_stop b stop q p y [] ys h = h.1
not_stop b stop q p y (x ∷ xs) ys h = not_stop b stop x (b x).next y xs ys h.4

last-snoc : (q y : ℕ) (xs : List ℕ) → last_of q (xs ++ y ∷ []) ≡ y
last-snoc q y [] = refl
last-snoc q y (x ∷ xs) = last-snoc x y xs

-- what follows a block that is freed: without the next block, if that is free
abbrev pub rest_after : (ℕ → HeapBlock) → List ℕ → List ℕ
rest_after b [] = []
rest_after b (z ∷ zs) = if (b z).state == 0 then zs else z ∷ zs

-- the circle once the block `y` between `xs` and `ys` is freed: without `y` if the one before it,
-- which is not the head, is free
abbrev pub freed : (ℕ → HeapBlock) → (head y : ℕ) → (xs ys : List ℕ) → List ℕ
freed b head y xs ys =
    if not (last_of head xs == head) && ((b (last_of head xs)).state == 0)
    then xs ++ rest_after b ys
    else xs ++ y ∷ rest_after b ys

module _ (head y : ℕ) (xs : List ℕ) (b : ℕ → HeapBlock) where
  absorb_next-Unlinked : (z : ℕ) → (b y).next ≡ z → Unlinked y (b z).next b (absorb_next y b)
  absorb_next-Unlinked z e = record {
    next_a = ground (arith, e);
    prev_c = ground (arith, e);
    nexts = λ k ne. ground (arith, e, ne);
    prevs = λ k ne. ground (arith, e, ne);
  }

  join_prev-Unlinked : (q : ℕ) → (b y).prev ≡ q → q ≢ y → Unlinked q (b y).next b (join_prev y b)
  join_prev-Unlinked q e apart = record {
    next_a = ground (arith, e, apart);
    prev_c = ground (arith, e, apart);
    nexts = λ k ne. ground (arith, e, ne, apart);
    prevs = λ k ne. ground (arith, e, ne, apart);
  }

  absorb_next-IsCircle :
      (z : ℕ) (zs : List ℕ)
      → IsCircle b head (xs ++ y ∷ z ∷ zs)
      → IsCircle (absorb_next y b) head (xs ++ y ∷ zs)
  absorb_next-IsCircle z zs circle =
      let e : (b y).next ≡ z = next-first_of b head head (b head).next y xs (z ∷ zs) circle in
      let again : IsCircle b head ((xs ++ y ∷ []) ++ z ∷ zs) =
        subst (IsCircle b head) (sym (append_assoc xs (y ∷ []) (z ∷ zs))) circle in
      let after : (b z).next ≡ first_of head zs =
        next-first_of b head head (b head).next z (xs ++ y ∷ []) zs again in
      subst (IsCircle (absorb_next y b) head) (append_assoc xs (y ∷ []) zs) (
        Chained-unlink y (b z).next b (absorb_next y b) (absorb_next-Unlinked z e) head head z
          (xs ++ y ∷ []) zs (last-snoc head y xs) after
          (has-stop b head head (b head).next ((xs ++ y ∷ []) ++ z ∷ zs) again) again)

  join_prev-IsCircle :
      (ys : List ℕ)
      → last_of head xs ≢ y
      → IsCircle b head (xs ++ y ∷ ys)
      → IsCircle (join_prev y b) head (xs ++ ys)
  join_prev-IsCircle ys apart circle =
      let e : (b y).prev ≡ last_of head xs = prev-before b head head (b head).next y xs ys circle in
      Chained-unlink (last_of head xs) (b y).next b (join_prev y b)
        (join_prev-Unlinked (last_of head xs) e apart) head head y xs ys refl
        (next-first_of b head head (b head).next y xs ys circle)
        (has-stop b head head (b head).next (xs ++ y ∷ ys) circle) circle

  merge_next-IsCircle :
      (ys : List ℕ)
      → IsCircle b head (xs ++ y ∷ ys)
      → IsCircle (merge_next head y b) head (xs ++ y ∷ rest_after b ys)
  unfolding merge_next
  merge_next-IsCircle [] circle =
      let e : (b y).next ≡ head = next-first_of b head head (b head).next y xs [] circle in
      let stays : (not ((b y).next == head) && ((b (b y).next).state == 0)) ≡ false =
        ground (arith, e) in
      subst (λ t. IsCircle (if t then absorb_next y b else b) head (xs ++ y ∷ [])) (sym stays)
        circle
  merge_next-IsCircle (z ∷ zs) circle =
      let e : (b y).next ≡ z = next-first_of b head head (b head).next y xs (z ∷ zs) circle in
      let again : IsCircle b head ((xs ++ y ∷ []) ++ z ∷ zs) =
        subst (IsCircle b head) (sym (append_assoc xs (y ∷ []) (z ∷ zs))) circle in
      let away : (z == head) ≡ false =
        ground (arith, not_stop b head head (b head).next z (xs ++ y ∷ []) zs again) in
      let test : (not ((b y).next == head) && ((b (b y).next).state == 0)) ≡ ((b z).state == 0) =
        rw (e, away) refl in
      let merges : Bool → Type 0 = λ t.
        IsCircle (if t then absorb_next y b else b) head (xs ++ y ∷ (if t then zs else z ∷ zs)) in
      let both : (t : Bool) → merges t =
        Bool-both merges (absorb_next-IsCircle z zs circle) circle in
      subst
        (λ t. IsCircle (if t then absorb_next y b else b) head (xs ++ y ∷ rest_after b (z ∷ zs)))
        (sym test) (both ((b z).state == 0))

  merge_prev-IsCircle :
      (ys : List ℕ)
      → last_of head xs ≢ y
      → IsCircle b head (xs ++ y ∷ ys)
      → IsCircle (merge_prev head y b) head (
          if not (last_of head xs == head) && ((b (last_of head xs)).state == 0)
          then xs ++ ys
          else xs ++ y ∷ ys)
  unfolding merge_prev
  merge_prev-IsCircle ys apart circle =
      let e : (b y).prev ≡ last_of head xs = prev-before b head head (b head).next y xs ys circle in
      let joins : Bool → Type 0 = λ t.
        IsCircle (if t then join_prev y b else b) head (if t then xs ++ ys else xs ++ y ∷ ys) in
      let both : (t : Bool) → joins t =
        Bool-both joins (join_prev-IsCircle ys apart circle) circle in
      let test : (not ((b y).prev == head) && ((b (b y).prev).state == 0))
          ≡ (not (last_of head xs == head) && ((b (last_of head xs)).state == 0)) =
        rw e refl in
      subst
        (λ t. IsCircle (if t then join_prev y b else b) head (
          if not (last_of head xs == head) && ((b (last_of head xs)).state == 0)
          then xs ++ ys
          else xs ++ y ∷ ys))
        (sym test) (both (not (last_of head xs == head) && ((b (last_of head xs)).state == 0)))

last-apart :
    (b : ℕ → HeapBlock) (stop q p y : ℕ) (xs ys : List ℕ)
    → Chained b stop q p (xs ++ y ∷ ys)
    → q ≢ y
    → last_of q xs ≢ y
last-apart b stop q p y [] ys h ne = ne
last-apart b stop q p y (x ∷ xs) ys h ne =
    last-apart b stop x (b x).next y xs ys h.4 (ground (arith, has-append x xs (y ∷ ys), h.2))

-- Merging and freeing keep the states of other blocks.
merge_next-state : (head y k : ℕ) (b : ℕ → HeapBlock) → (merge_next head y b k).state ≡ (b k).state
unfolding merge_next
merge_next-state head y k b =
    Bool-both (λ t. ((if t then absorb_next y b else b) k).state ≡ (b k).state) (ground arith) refl
      (not ((b y).next == head) && ((b (b y).next).state == 0))

-- the store with the block marked as free
abbrev pub marked : (y : ℕ) → (ℕ → HeapBlock) → ℕ → HeapBlock
marked y b = set_block y (record (b y) { state = 0 }) b

heap_free-blocks :
    (ptr y : ℕ) (s : KernelHeap)
    → ptr ≡ y + block_header
    → ptr < 2 ^ 64
    → (s.blocks y).magic ≡ heap_magic
    → (heap_free ptr s).blocks
      ≡ merge_prev s.block_head y (merge_next s.block_head y (marked y s.blocks))
unfolding heap_free
heap_free-blocks ptr y s e small magic =
    let place : (ptr + (2 ^ 64 - block_header)) % 2 ^ 64 ≡ y = omega arith in
    let real : (ptr == 0) ≡ false = ground arith in
    let valid : not ((s.blocks y).magic == heap_magic) ≡ false = ground (arith, magic) in
    rw (real, place, valid) refl

rest_after-marked :
    (b : ℕ → HeapBlock) (stop q p y : ℕ) (xs ys : List ℕ)
    → Chained b stop q p (xs ++ y ∷ ys)
    → rest_after (marked y b) ys ≡ rest_after b ys
rest_after-marked b stop q p y [] [] h = refl
rest_after-marked b stop q p y [] (z ∷ zs) h = ground (arith, h.2)
rest_after-marked b stop q p y (x ∷ xs) ys h = rest_after-marked b stop x (b x).next y xs ys h.4

-- `KHeap_Free` of a block of the circle keeps the circle linked both ways: the next block is
-- dropped if it is free, and the block itself is dropped if the one before it, which must not be the
-- head, is free; all others stay, in order.
pub heap_free-IsCircle :
    (ptr y : ℕ) (xs ys : List ℕ) (s : KernelHeap)
    → IsCircle s.blocks s.block_head (xs ++ y ∷ ys)
    → ptr ≡ y + block_header
    → ptr < 2 ^ 64
    → (s.blocks y).magic ≡ heap_magic
    → IsCircle (heap_free ptr s).blocks s.block_head (freed s.blocks s.block_head y xs ys)
heap_free-IsCircle ptr y xs ys s circle e small magic =
    let head : ℕ = s.block_head in
    let b : ℕ → HeapBlock = marked y s.blocks in
    let last : ℕ = last_of head xs in
    let apart : last ≢ y =
      last-apart s.blocks head head (s.blocks head).next y xs ys circle
        (λ eq. not_stop s.blocks head head (s.blocks head).next y xs ys circle (sym eq)) in
    let same : (a : ℕ) → ((b a).next ≡ (s.blocks a).next) × ((b a).prev ≡ (s.blocks a).prev) =
      λ a. (ground arith, ground arith) in
    let start : IsCircle b head (xs ++ y ∷ ys) =
      subst (λ p. Chained b head head p (xs ++ y ∷ ys)) (sym (same head).0)
        (Chained-frame s.blocks b head head (s.blocks head).next (xs ++ y ∷ ys) same circle) in
    let rest : rest_after b ys ≡ rest_after s.blocks ys =
      rest_after-marked s.blocks head head (s.blocks head).next y xs ys circle in
    let state : (merge_next head y b last).state ≡ (s.blocks last).state =
      merge_next-state head y last b ∙ ground (arith, apart) in
    let done_next = merge_next-IsCircle head y xs b ys start in
    let done_prev =
      merge_prev-IsCircle head y xs (merge_next head y b) (rest_after b ys) apart done_next in
    rw (heap_free-blocks ptr y s e small magic) (
      subst
        (λ r.
          IsCircle (merge_prev head y (merge_next head y b)) head
            (if not (last == head) && ((s.blocks last).state == 0) then xs ++ r else xs ++ y ∷ r))
        rest
        (subst
          (λ t. IsCircle (merge_prev head y (merge_next head y b)) head (
            if not (last == head) && (t == 0)
            then xs ++ rest_after b ys
            else xs ++ y ∷ rest_after b ys))
          state done_prev))
