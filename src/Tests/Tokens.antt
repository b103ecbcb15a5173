-- ===== src/Tests/Tokens.antt =====
-- The tokenizer.
use sipaa_kernel.Prelude.{ℕ, ◌+◌, refl, arith, [], ◌∷◌, ◌==◌, inl, inr, if◌then◌else◌}
use sipaa_kernel.Mem.{Mem}
use sipaa_kernel.Strings.Holds.{HoldsString}
use sipaa_kernel.Tokenizer.{Heap, Statics, create_dictionary, tokenize_string}
use sipaa_kernel.Tokenizer.Calls.{
  Begun, Continued, tokenize_string-Begun, tokenize_string-Continued,
}

-- a heap that gives the next address
abbrev bump : Heap ℕ
bump = record { allocate = λ size w. (w, w + size); free = λ p w. w }

-- a space at 16, and the string " a b" at 32
abbrev line : Mem
line a =
    if a == 16
    then 32
    else if a == 32
    then 32
    else if a == 33
    then 97
    else if a == 34
    then 32
    else if a == 35
    then 98
    else 0

line-text : HoldsString line 32 (32 ∷ 97 ∷ 32 ∷ 98 ∷ [])
line-text = (
  refl,
  (λ e. omega (arith, e)),
  (
    refl,
    (λ e. omega (arith, e)),
    (refl, (λ e. omega (arith, e)), (refl, (λ e. omega (arith, e)), refl)),
  ),
)

abbrev statics : Statics
statics = record { last = 32; to_free = 32 }

tokenize_string-Begun_example :
    Begun bump
      (32 ∷ [])
      (32 ∷ 97 ∷ 32 ∷ 98 ∷ [])
      32
      4096
      5120
      line
      5125
      (tokenize_string bump 5 32 16 statics line 4096)
tokenize_string-Begun_example =
    tokenize_string-Begun bump 5 32 16 (32 ∷ []) (32 ∷ 97 ∷ 32 ∷ 98 ∷ []) statics line 4096
      (refl, (λ e. omega (arith, e)), refl) line-text (ground arith) (ground arith) (omega arith)
      (omega arith) (λ e. omega (arith, e))
      (
        (λ e. omega (arith, e)),
        inl (omega arith),
        inl (omega arith),
        (λ e. omega (arith, e)),
        inr (omega arith),
        inr (omega arith),
      )

tokenize_string-Continued_example :
    Continued bump
      (32 ∷ [])
      (32 ∷ 97 ∷ 32 ∷ 98 ∷ [])
      statics
      line
      4096
      (create_dictionary bump 5 16 line 4096)
      (tokenize_string bump 5 0 16 statics line 4096)
tokenize_string-Continued_example =
    tokenize_string-Continued bump 5 16 (32 ∷ []) (32 ∷ 97 ∷ 32 ∷ 98 ∷ []) statics line 4096
      (refl, (λ e. omega (arith, e)), refl) line-text (ground arith) (ground arith) (omega arith)
      (omega arith) (λ e. omega (arith, e)) (inl (omega arith)) (inl (omega arith))
