-- ===== src/Sched/Ring.antt =====
-- The ring that the `next` pointers of the processes form.
use sipaa_kernel.Prelude.{
  ℕ, refl, ◌≡◌, ◌≢◌, true, false, List, [], ◌∷◌, arith, ◌==◌, Bool-cases, inl, inr, has,
}
use sipaa_kernel.Sched.{Process, put}

-- from `p` the `next` pointers lead through the distinct processes `xs` to `stop`, which is not
-- one of them
abbrev pub Linked : (ℕ → Process) → (stop p : ℕ) → List ℕ → Type 0
Linked procs stop p [] = p ≡ stop
Linked procs stop p (x ∷ xs) =
    (p ≡ x) × (x ≢ stop) × (has x xs ≡ false) × Linked procs stop (procs x).next xs

-- The processes are `l` and then `xs`, and the last leads back to `l`.
abbrev pub IsRing : (ℕ → Process) → ℕ → List ℕ → Type 0
IsRing procs l xs = Linked procs l (procs l).next xs

pub Linked-frame :
    (b b' : ℕ → Process) (stop p : ℕ) (xs : List ℕ)
    → ((a : ℕ) → has a xs ≡ true → (b' a).next ≡ (b a).next)
    → Linked b stop p xs
    → Linked b' stop p xs
Linked-frame b b' stop p [] same h = h
Linked-frame b b' stop p (x ∷ xs) same h =
    let e : (b' x).next ≡ (b x).next = same x (ground arith) in
    (h.0, h.1, h.2, rw e (Linked-frame b b' stop (b x).next xs (λ a i. same a (ground arith)) h.3))

-- A write to a process off the list keeps it.
pub Linked-put :
    (b : ℕ → Process) (stop p q : ℕ) (v : Process) (xs : List ℕ)
    → has q xs ≡ false
    → Linked b stop p xs
    → Linked (put b q v) stop p xs
Linked-put b stop p q v xs out h =
    Linked-frame b (put b q v) stop p xs
      (λ a i. elim (Bool-cases (a == q)) [ inl e ↦ ground arith | inr ne ↦ rw ne ]) h

-- So does a write that keeps the successor.
pub Linked-keep :
    (b : ℕ → Process) (stop p q : ℕ) (v : Process) (xs : List ℕ)
    → v.next ≡ (b q).next
    → Linked b stop p xs
    → Linked (put b q v) stop p xs
Linked-keep b stop p q v xs same h = Linked-frame b (put b q v) stop p xs (λ a i. ground arith) h

pub stop-has :
    (b : ℕ → Process) (stop p : ℕ) (xs : List ℕ) → Linked b stop p xs → has stop xs ≡ false
stop-has b stop p [] h = ground arith
stop-has b stop p (x ∷ xs) h = ground (arith, stop-has b stop (b x).next xs h.3)

-- the writes that put `p`, filled with `v`, after `l`
abbrev pub insert_after : (ℕ → Process) → (l p : ℕ) → Process → ℕ → Process
insert_after b l p v =
    let filled : ℕ → Process = put b p v in
    let chained : ℕ → Process = put filled p (record (filled p) { next = (filled l).next }) in
    put chained l (record (chained l) { next = p })

pub insert_after-IsRing :
    (b : ℕ → Process) (l p : ℕ) (v : Process) (xs : List ℕ)
    → IsRing b l xs
    → p ≢ l
    → has p xs ≡ false
    → IsRing (insert_after b l p v) l (p ∷ xs)
insert_after-IsRing b l p v xs h new fresh =
    let b' : ℕ → Process = insert_after b l p v in
    let out : has l xs ≡ false = stop-has b l (b l).next xs h in
    let same : (a : ℕ) → has a xs ≡ true → (b' a).next ≡ (b a).next = λ a i.
      elim (Bool-cases (a == l)) [
        | inl e ↦ ground (arith, out)
        | inr nl ↦ elim (Bool-cases (a == p)) [
          | inl e ↦ ground (arith, fresh)
          | inr np ↦ rw nl (rw np refl)
        ]
      ] in
    let tail : Linked b' l (b l).next xs = Linked-frame b b' l (b l).next xs same h in
    ground (arith, tail)
