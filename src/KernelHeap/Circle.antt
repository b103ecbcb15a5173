-- ===== src/KernelHeap/Circle.antt =====
-- The circular list of blocks, linked both ways.
use sipaa_kernel.Prelude.{
  ℕ, ◌≡◌, ◌≢◌, refl, List, [], ◌∷◌, ◌++◌, arith, ◌==◌, false, ◌||◌, has, sym, subst,
}
use sipaa_kernel.KernelHeap.{HeapBlock, set_block, link_block, heap_magic}

-- from `p`, which comes after `q`, the links lead through the distinct blocks `xs` to `stop`, and
-- back
abbrev pub Chained : (ℕ → HeapBlock) → (stop q p : ℕ) → List ℕ → Type 0
Chained b stop q p [] = (p ≡ stop) × ((b stop).prev ≡ q)
Chained b stop q p (x ∷ xs) =
    (p ≡ x) × (x ≢ stop) × (has x xs ≡ false) × ((b x).prev ≡ q) × Chained b stop x (b x).next xs

-- The blocks are the head and then `xs`, in a circle.
abbrev pub IsCircle : (ℕ → HeapBlock) → ℕ → List ℕ → Type 0
IsCircle b head xs = Chained b head head (b head).next xs

-- the last block
abbrev pub last_of : ℕ → List ℕ → ℕ
last_of q [] = q
last_of q (x ∷ xs) = last_of x xs

pub prev-last_of :
    (b : ℕ → HeapBlock) (stop q p : ℕ) (xs : List ℕ)
    → Chained b stop q p xs
    → (b stop).prev ≡ last_of q xs
prev-last_of b stop q p [] h = h.1
prev-last_of b stop q p (x ∷ xs) h = prev-last_of b stop x (b x).next xs h.4

pub has-stop :
    (b : ℕ → HeapBlock) (stop q p : ℕ) (xs : List ℕ) → Chained b stop q p xs → has stop xs ≡ false
has-stop b stop q p [] h = ground arith
has-stop b stop q p (x ∷ xs) h = ground (arith, has-stop b stop x (b x).next xs h.4)

pub has-last_of : (q x : ℕ) (xs : List ℕ) → has q (x ∷ xs) ≡ false → (last_of x xs == q) ≡ false
has-last_of q x [] h = ground arith
has-last_of q x (y ∷ ys) h = has-last_of q y ys (ground arith)

has-snoc : (q p : ℕ) (xs : List ℕ) → has q (xs ++ p ∷ []) ≡ (has q xs || (q == p))
has-snoc q p [] = ground arith
has-snoc q p (x ∷ xs) = ground (arith, has-snoc q p xs)

module _ (b : ℕ → HeapBlock) (stop p : ℕ) (v : HeapBlock) where
  -- the links once `p`, filled with `v`, stands between the last block and `stop`
  abbrev pub linked : ℕ → ℕ → HeapBlock
  linked last =
      let b1 : ℕ → HeapBlock = set_block p v b in
      let b2 : ℕ → HeapBlock = set_block last (record (b1 last) { next = p }) b1 in
      set_block stop (record (b2 stop) { prev = p }) b2

  pub linked-Chained :
      (q : ℕ) (xs : List ℕ)
      → v.next ≡ stop
      → v.prev ≡ last_of q xs
      → p ≢ stop
      → p ≢ q
      → has p xs ≡ false
      → has q xs ≡ false
      → Chained b stop q (b q).next xs
      → Chained (linked (last_of q xs)) stop q (linked (last_of q xs) q).next (xs ++ p ∷ [])
  linked-Chained q [] after before new ne out own h = ground arith
  linked-Chained q (x ∷ xs) after before new ne out own h =
      let e : (last_of x xs == q) ≡ false = has-last_of q x xs own in
      ground (
        arith,
        e,
        has-snoc x p xs,
        linked-Chained x xs after before new (ground arith) (ground arith) h.2 h.4,
      )

-- A change that keeps the links keeps the list.
pub Chained-frame :
    (b b' : ℕ → HeapBlock) (stop q p : ℕ) (xs : List ℕ)
    → ((a : ℕ) → ((b' a).next ≡ (b a).next) × ((b' a).prev ≡ (b a).prev))
    → Chained b stop q p xs
    → Chained b' stop q p xs
Chained-frame b b' stop q p [] same h = (h.0, rw (same stop).1 h.1)
Chained-frame b b' stop q p (x ∷ xs) same h = (
  h.0,
  h.1,
  h.2,
  rw (same x).1 h.3,
  rw (same x).0 (Chained-frame b b' stop x (b x).next xs same h.4),
)

-- A block that is linked in front of the head becomes the last of the circle.
pub link_block-IsCircle :
    (p size head : ℕ) (b : ℕ → HeapBlock) (xs : List ℕ)
    → IsCircle b head xs
    → p ≢ head
    → has p xs ≡ false
    → IsCircle (link_block p size head b) head (xs ++ p ∷ [])
unfolding link_block
link_block-IsCircle p size head b xs circle new out =
    let made : HeapBlock = record {
      next = head;
      prev = (b head).prev;
      state = 1;
      magic = heap_magic;
      size = size;
    } in
    let back : (b head).prev ≡ last_of head xs = prev-last_of b head head (b head).next xs circle in
    let same : (set_block p made b head).prev ≡ last_of head xs = ground (arith, back) in
    subst (λ l. IsCircle (linked b head p made l) head (xs ++ p ∷ [])) (sym same)
      (linked-Chained b head p made head xs refl back new new out
        (has-stop b head head (b head).next xs circle) circle)
