-- ===== src/Tests/Paging.antt =====
-- Page tables.
use sipaa_kernel.Prelude.{
  ℕ, ◌%◌, ◌<◌, ◌≡◌, ◌≢◌, refl, ◌==◌, if◌then◌else◌, arith, inl, inr, some, false, Bool-cases,
}
use sipaa_kernel.Pmm.{Pmm, allocate_page}
use sipaa_kernel.Vmm.{Vmm, unmap, descend, new_table, entry, slot}
use sipaa_kernel.Vmm.Walk.{lookup, step_down}
use sipaa_kernel.Vmm.Map.{Frames, IsTree}
use sipaa_kernel.Vmm.Others.{IsKept}
use sipaa_kernel.Vmm.Unmap.{Present, unmap-lookup}

-- the frames from number 16 on are free
abbrev frames_free : Pmm
frames_free = record {
  stack = λ i. if i == 0 then 0x10000 else (if i == 1 then 0x11000 else 0x12000);
  stack_top = 3;
  free_blocks = 0;
  block = λ p. record { size = 0; next = 0; is_free = false };
  bytes = λ a. 0;
}

abbrev empty : Vmm
empty = record {
  pmm = frames_free;
  words = λ a. 0;
  kernel_address_space = 0;
  current_address_space = 0;
}

frames_free-Frames : Frames frames_free
frames_free-Frames i = elim (Bool-cases (i == 0)) [
  | inl first ↦ rw first (record { number = 16; small = omega arith; aligned = refl })
  | inr later ↦ rw later (elim (Bool-cases (i == 1)) [
    | inl second ↦ rw second (record { number = 17; small = omega arith; aligned = refl })
    | inr rest ↦ rw rest (record { number = 18; small = omega arith; aligned = refl })
  ])
]

empty-IsTree : IsTree 0x1000000 (omega arith) 0x1020000 0x40201000 empty
unfolding descend new_table entry allocate_page
empty-IsTree = record {
  a43 = inr (omega arith);
  a42 = inr (omega arith);
  a41 = inr (omega arith);
  a32 = inr (omega arith);
  a31 = inr (omega arith);
  a21 = inr (omega arith);
}

-- tables at 0x2000, 0x3000 and 0x4000 under the one at 0x1000
abbrev chain : Vmm
chain = record empty {
  words = λ a.
      if a == 0x1000
      then 0x2003
      else (if a == 0x2000 then 0x3003 else (if a == 0x3000 then 0x4003 else 7));
}

chain-Present : Present 0 (omega arith) chain.words 0x1000 0x5000 0x2000 0x3000 0x4000
unfolding step_down entry
chain-Present = record {
  h4 = refl;
  h3 = refl;
  h2 = refl;
  a41 = inl (omega arith);
  a31 = inl (omega arith);
  a21 = inl (omega arith);
  real = (omega arith, omega arith, omega arith);
}

unmap-lookup_example :
    (lookup 0 (unmap 0 0x1000 0x5000 chain).words 0x1000 0x5000 ≡ some 0)
    × ((a : ℕ)
        → a ≢ slot 0x4000 (entry 12 0x5000)
        → (unmap 0 0x1000 0x5000 chain).words a ≡ chain.words a)
unmap-lookup_example =
    unmap-lookup 0 (omega arith) 0x1000 0x5000 0x2000 0x3000 0x4000 chain chain-Present

-- Page 0x6000 is mapped beside the page at 0x5000; 0x12000 is the next free page.
abbrev shared : Vmm
shared = record chain { pmm = frames_free }

shared-IsKept :
    (a : ℕ) → shared.words a % 2 ≡ 1 → a < 0x4030 → IsKept 0 (omega arith) 0x1000 0x6000 shared a
unfolding descend entry allocate_page
shared-IsKept a present low = record {
  present = present;
  off3 = inl (omega arith);
  off2 = inl (omega arith);
  off1 = inl (omega arith);
  other = λ e. omega (arith, e);
}

shared-steps :
    (step_down 0 shared.words 0x1000 (entry 39 0x5000) ≡ some 0x2000)
    × (step_down 0 shared.words 0x2000 (entry 30 0x5000) ≡ some 0x3000)
    × (step_down 0 shared.words 0x3000 (entry 21 0x5000) ≡ some 0x4000)
unfolding step_down entry
shared-steps = (refl, refl, refl)

shared_slots-IsKept :
    IsKept 0 (omega arith) 0x1000 0x6000 shared (slot 0x1000 (entry 39 0x5000))
    × IsKept 0 (omega arith) 0x1000 0x6000 shared (slot 0x2000 (entry 30 0x5000))
    × IsKept 0 (omega arith) 0x1000 0x6000 shared (slot 0x3000 (entry 21 0x5000))
    × IsKept 0 (omega arith) 0x1000 0x6000 shared (slot 0x4000 (entry 12 0x5000))
unfolding entry
shared_slots-IsKept = (
  shared-IsKept 0x1000 refl (omega arith),
  shared-IsKept 0x2000 refl (omega arith),
  shared-IsKept 0x3000 refl (omega arith),
  shared-IsKept 0x4028 refl (omega arith),
)
