-- ===== src/Pmm/Grow.antt =====
-- `Pmm_Allocate` with a page from the stack: the block at the end of the list.
use sipaa_kernel.Prelude.{
  has, ℕ, ◌+◌, ◌-◌, ◌^◌, ◌≤◌, ◌<◌, ◌≡◌, ◌≢◌, ◌⊎◌, refl, ap, ◌∙◌, true, false, List, [], ◌∷◌, ◌++◌,
  ◌||◌, arith, length, ◌==◌, Bool-cases, inl, inr, All,
}
use sipaa_kernel.Prelude.Run.{Run, done}
use sipaa_kernel.Pmm.{MemoryBlock, Pmm, Scan, missed, header, add64, update, grow, allocate, place}
use sipaa_kernel.Pmm.Chain.{Segment, fits, first_fit}
use sipaa_kernel.Pmm.Laid.{Apart, Laid, Laid-same_size}
use sipaa_kernel.Pmm.Allocate.{IsHeap, allocate-place}

module _ (b : ℕ → MemoryBlock) (size : ℕ) where
  missed-has :
      (x prev : ℕ) (xs : List ℕ) → first_fit b size x xs ≡ missed prev → has prev (x ∷ xs) ≡ true
  unfolding first_fit
  missed-has x prev [] e = ground arith
  missed-has x prev (y ∷ ys) e = elim (Bool-cases (fits b size y)) [
    | inl here ↦ ground arith
    | inr later ↦
        let e' : first_fit b size y ys ≡ missed prev = rw later at e in
        ground (arith, missed-has y prev ys e')
  ]

  missed-step :
      (x y prev : ℕ) (ys : List ℕ)
      → first_fit b size x (y ∷ ys) ≡ missed prev
      → first_fit b size y ys ≡ missed prev
  unfolding first_fit
  missed-step x y prev ys e = elim (Bool-cases (fits b size y)) [
    | inl here ↦ ground arith
    | inr later ↦ rw later at e
  ]

  missed-end : (x prev : ℕ) → first_fit b size x [] ≡ missed prev → prev ≡ x
  unfolding first_fit
  missed-end x prev e = cc

has-append : (a : ℕ) (xs ys : List ℕ) → has a (xs ++ ys) ≡ (has a xs || has a ys)
has-append a [] ys = refl
has-append a (x ∷ xs) ys = ground (arith, has-append a xs ys)

-- the blocks once `new` stands at `v` and the block at `prev` is linked to it
abbrev linked : (ℕ → MemoryBlock) → ℕ → ℕ → MemoryBlock → ℕ → MemoryBlock
linked b prev v new = update (update b v new) prev (record ((update b v new) prev) { next = v })

module _ (b : ℕ → MemoryBlock) (size prev v : ℕ) (new : MemoryBlock) (end : new.next ≡ 0) where
  link-Segment :
      (p x : ℕ) (xs : List ℕ)
      → v ≢ 0
      → has v (x ∷ xs) ≡ false
      → first_fit b size x xs ≡ missed prev
      → Segment b 0 p (x ∷ xs)
      → Segment (linked b prev v new) 0 p ((x ∷ xs) ++ (v ∷ []))
  link-Segment p x [] pos out e h =
      let eq : prev ≡ x = missed-end b size x prev e in
      (h.0, h.1, ground arith, (ground arith, pos, refl, ground arith))
  link-Segment p x (y ∷ ys) pos out e h =
      let e' = missed-step b size x y prev ys e in
      let later : has prev (y ∷ ys) ≡ true = missed-has b size y prev ys e' in
      let ne : x ≢ prev = λ same. cc (ap (λ t. has t (y ∷ ys)) same, h.2) in
      let step : (linked b prev v new x).next ≡ (b x).next = ground arith in
      (
        h.0,
        h.1,
        ground (arith, has-append x (y ∷ ys) (v ∷ [])),
        rw step (link-Segment (b x).next y ys pos (ground arith) e' h.3),
      )

  Laid-linked :
      (xs : List ℕ)
      → header ≤ new.size
      → has v xs ≡ false
      → All (λ x. (x + (b x).size ≤ v) ⊎ (v + new.size ≤ x)) xs
      → Laid b xs
      → Laid (update b v new) (xs ++ (v ∷ []))
  Laid-linked [] room out clear h = (ground arith, tt, tt)
  Laid-linked (x ∷ xs) room out clear h =
      (ground arith, apart xs (ground arith) h.1, Laid-linked xs room (ground arith) clear.1 h.2)
    where
      apart :
          (ys : List ℕ)
          → has v ys ≡ false
          → All (Apart b x) ys
          → All (Apart (update b v new) x) (ys ++ (v ∷ []))
      apart [] o k = (ground arith, tt)
      apart (y ∷ ys) o k = (ground arith, apart ys (ground arith) k.1)

has-ne-zero :
    (b : ℕ → MemoryBlock) (p a : ℕ) (xs : List ℕ) → Segment b 0 p xs → has a xs ≡ true → a ≢ 0
has-ne-zero b p a [] h i = cc
has-ne-zero b p a (x ∷ xs) h i = elim (Bool-cases (a == x)) [
  | inl e ↦ ground arith
  | inr ne ↦ has-ne-zero b (b x).next a xs h.3 (ground arith)
]

abbrev fresh_block : ℕ → MemoryBlock
fresh_block size = record { size = size; next = 0; is_free = false }

-- the page is unused by the blocks of the list, and so are the `size` bytes from it on
pub record IsUnused (b : ℕ → MemoryBlock) (page size : ℕ) (xs : List ℕ) : Type 0 where
  pub real : page ≢ 0
  pub outside : has page xs ≡ false
  pub clear : All (λ x. (x + (b x).size ≤ page) ⊎ (page + size ≤ x)) xs

-- what the state is once a block of `size` bytes stands at `page`, behind the blocks `xs`
pub record Grown (s t : Pmm) (page size : ℕ) (xs : List ℕ) : Type 0 where
  pub heap : IsHeap t (xs ++ (page ∷ []))
  pub fills : (t.block page).size ≡ size
  pub in_use : (t.block page).is_free ≡ false
  pub top : t.stack_top ≡ s.stack_top - 1
  pub kept : t.bytes ≡ s.bytes

grow_first :
    (s : Pmm) (page size : ℕ)
    → s.stack_top ≢ 0
    → s.stack (s.stack_top - 1) ≡ page
    → IsUnused s.block page size []
    → header ≤ size
    → (t : Pmm) × (grow size 0 s ≡ (page + header, t)) × Grown s t page size []
unfolding grow
grow_first s page size some_page e unused room = (
  record s {
    stack_top = s.stack_top - 1;
    free_blocks = page;
    block = update s.block page (fresh_block size);
  },
  ground (arith, unused.real),
  record {
    heap = record {
      chain = (refl, unused.real, refl, ground arith);
      laid = (ground arith, tt, tt);
    };
    fills = ground arith;
    in_use = ground arith;
    top = refl;
    kept = refl;
  },
)

grow_next :
    (s : Pmm) (page size prev x : ℕ) (xs : List ℕ)
    → s.stack_top ≢ 0
    → s.stack (s.stack_top - 1) ≡ page
    → IsUnused s.block page size (x ∷ xs)
    → header ≤ size
    → IsHeap s (x ∷ xs)
    → first_fit s.block size 0 (x ∷ xs) ≡ missed prev
    → (t : Pmm) × (grow size prev s ≡ (page + header, t)) × Grown s t page size (x ∷ xs)
unfolding grow
grow_next s page size prev x xs some_page e unused room heap none_fits =
    let later = missed-step s.block size 0 x prev xs none_fits in
    let mem = missed-has s.block size x prev xs later in
    let prev_pos = has-ne-zero s.block s.free_blocks prev (x ∷ xs) heap.chain mem in
    let apart : page ≢ prev = λ same. cc (ap (λ t. has t (x ∷ xs)) same, unused.outside) in
    let b' = linked s.block prev page (fresh_block size) in
    (
      record s { stack_top = s.stack_top - 1; block = linked s.block prev page (fresh_block size) },
      ground (arith, unused.real),
      record {
        heap = record {
          chain =
              link-Segment s.block size prev page (fresh_block size) refl s.free_blocks x xs
                unused.real unused.outside later heap.chain;
          laid =
              Laid-same_size (update s.block page (fresh_block size)) b' ((x ∷ xs) ++ (page ∷ []))
                (λ a. ground arith)
                (Laid-linked s.block size prev page (fresh_block size) refl (x ∷ xs) room
                  unused.outside unused.clear heap.laid);
        };
        fills = ground arith;
        in_use = ground arith;
        top = refl;
        kept = refl;
      },
    )

placed :
    (s : Pmm) (n size : ℕ) (xs : List ℕ) {r : Scan}
    → n ≡ size
    → first_fit s.block size 0 xs ≡ r
    → ◌≡◌ {A = Run (ℕ × Pmm)} (done (place n (first_fit s.block n 0 xs) s)) (done (place size r s))
placed s n size xs exact e = rw (exact, e)

missed_nil : (b : ℕ → MemoryBlock) (size : ℕ) → first_fit b size 0 [] ≡ missed 0
unfolding first_fit
missed_nil b size = refl

-- When no block of the list is large enough, `Pmm_Allocate` takes the top page of the stack: it
-- ends with a block of exactly the header and the request there, in use, behind the others, and
-- the list and the extents stay well formed, if those bytes are unused.
pub allocate_fresh :
    (f size : ℕ) (s : Pmm) (xs : List ℕ) (prev : ℕ)
    → IsHeap s xs
    → length xs < f
    → size ≢ 0
    → size + header < 2 ^ 64
    → first_fit s.block (size + header) 0 xs ≡ missed prev
    → s.stack_top ≢ 0
    → IsUnused s.block (s.stack (s.stack_top - 1)) (size + header) xs
    → (t : Pmm) × (allocate f size s ≡ done (s.stack (s.stack_top - 1) + header, t))
      × Grown s t (s.stack (s.stack_top - 1)) (size + header) xs
allocate_fresh f size s [] prev heap fuel pos small e top unused =
    let exact : add64 size header ≡ size + header = omega arith in
    let (t, run, grown) =
      grow_first s (s.stack (s.stack_top - 1)) (size + header) top refl unused (omega arith) in
    (
      t,
      allocate-place f size s [] heap fuel pos
          ∙ placed s (add64 size header) (size + header) [] exact
              (missed_nil s.block (size + header))
          ∙ ap done run,
      grown,
    )
allocate_fresh f size s (x ∷ xs) prev heap fuel pos small e top unused =
    let exact : add64 size header ≡ size + header = omega arith in
    let (t, run, grown) =
      grow_next s (s.stack (s.stack_top - 1)) (size + header) prev x xs top refl unused
        (omega arith) heap e in
    (
      t,
      allocate-place f size s (x ∷ xs) heap fuel pos
          ∙ placed s (add64 size header) (size + header) (x ∷ xs) exact e
          ∙ ap done run,
      grown,
    )
