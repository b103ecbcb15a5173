-- ===== src/Idt/Entry.antt =====
-- The entries that `Idt_Initialize` makes, as the processor reads them.
use sipaa_kernel.Prelude.{
  ℕ, ◌+◌, ◌-◌, ◌*◌, ◌/◌, ◌^◌, ◌<◌, ◌≡◌, refl, true, false, arith, ◌==◌, List, [], ◌∷◌, Bool-cases,
  inl, inr, has, and_mask, ◌∙◌, sym, subst, ==_iff,
}
use sipaa_kernel.Idt.{IdtEntry, Idt, vectors, install, set_entry, initialize}

-- the address that the three parts of an entry make up
abbrev pub offset : IdtEntry → ℕ
offset e = e.offset_low + e.offset_mid * 2 ^ 16 + e.offset_high * 2 ^ 32

-- a present interrupt gate of the kernel's code segment, to `base`
pub record IsGate (e : IdtEntry) (base : ℕ) : Type 0 where
  target : offset e ≡ base
  segment : e.selector ≡ 8
  kind : e.types_attr ≡ 0x8E
  no_stack : e.ist ≡ 0
  reserved : e.zero_bits ≡ 0

set_entry-IsGate :
    (v base : ℕ) (idt : ℕ → IdtEntry) → base < 2 ^ 64 → IsGate (set_entry v base 8 0x8E idt v) base
unfolding set_entry
set_entry-IsGate v base idt h = record {
  target = ground (arith, and_mask 16 base (2 ^ 16 - 1), and_mask 16 (base / 2 ^ 16) (2 ^ 16 - 1));
  segment = ground arith;
  kind = ground arith;
  no_stack = ground arith;
  reserved = ground arith;
}

set_entry_frame :
    (v base q : ℕ) (idt : ℕ → IdtEntry) → (q == v) ≡ false → set_entry v base 8 0x8E idt q ≡ idt q
unfolding set_entry
set_entry_frame v base q idt ne = ground (arith, ne)

module _ (isr : ℕ → ℕ) where
  install_frame :
      (q : ℕ) (vs : List ℕ) (idt : ℕ → IdtEntry) → has q vs ≡ false → install isr vs idt q ≡ idt q
  unfolding install
  install_frame q [] idt out = refl
  install_frame q (v ∷ vs) idt out =
      install_frame q vs (set_entry v (isr v) 8 0x8E idt) (ground arith)
      ∙ set_entry_frame v (isr v) q idt (ground arith)

  install-IsGate :
      (q : ℕ) (vs : List ℕ) (idt : ℕ → IdtEntry)
      → ((v : ℕ) → isr v < 2 ^ 64)
      → has q vs ≡ true
      → IsGate (install isr vs idt q) (isr q)
  unfolding install
  install-IsGate q [] idt wide h = ground arith
  install-IsGate q (v ∷ vs) idt wide h =
      let idt' : ℕ → IdtEntry = set_entry v (isr v) 8 0x8E idt in
      elim (Bool-cases (has q vs)) [
        | inl later ↦ install-IsGate q vs idt' wide later
        | inr none_later ↦
            let same : v ≡ q = sym ((==_iff q v).0 (ground arith)) in
            subst (λ e. IsGate e (isr q)) (sym (install_frame q vs idt' none_later))
              (subst (λ w. IsGate (set_entry v (isr v) 8 0x8E idt w) (isr w)) same
                (set_entry-IsGate v (isr v) idt (wide v)))
      ]

  -- what `Idt_Initialize` leaves behind
  pub record Initialized (before after : Idt) : Type 0 where
    gates : (q : ℕ) → has q vectors ≡ true → IsGate (after.idt q) (isr q)
    others : (q : ℕ) → has q vectors ≡ false → after.idt q ≡ before.idt q
    no_handlers : (q : ℕ) → q < 256 → after.isrh q ≡ 0

  -- If the stubs' addresses are 64-bit numbers, then after `Idt_Initialize` each vector that it
  -- lists has a present interrupt gate of the kernel's code segment, whose parts make up exactly
  -- the address of the vector's stub; every other entry, among them that of vector 15, is as it
  -- was; and no vector below 256 has a handler.
  pub initialize-IsGate :
      (a1 a2 : ℕ) (d : Idt) → ((v : ℕ) → isr v < 2 ^ 64) → Initialized d (initialize isr a1 a2 d)
  unfolding initialize
  initialize-IsGate a1 a2 d wide = record {
    gates = λ q h. install-IsGate q vectors d.idt wide h;
    others = λ q out. install_frame q vectors d.idt out;
    no_handlers = λ q h. ground arith;
  }
