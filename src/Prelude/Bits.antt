-- ===== src/Prelude/Bits.antt =====
-- Laws of the native `bit_and` and `bit_or` at the masks and shifts that the kernel uses.
use Prim.Native.Nat.{
  ℕ, zero, suc, ◌+◌, ◌*◌, ◌/◌, ◌%◌, ◌^◌, ◌≤◌, ◌<◌, min, max, bit_and, bit_or, digits,
  bit_and-bitwise, bit_or-bitwise,
}
use mathlib.Core.Path.{◌≡◌, refl, ap}
use native.Mathlib.Omega.{arith}
use native.Mathlib.Nat.{pow-suc, mul-one, mul_comm, div-one, div-add-mod, div-div-eq-div-mul}

-- The recursion behind the native operations gives the same digits on any sufficient fuel.
same_digits :
    (z : ℕ → ℕ) (f : ℕ → ℕ → ℕ) (j k a b : ℕ) → a ≤ j → a ≤ k → digits z f j a b ≡ digits z f k a b
same_digits z f zero zero a b p q = refl
same_digits z f zero (suc k) zero b p q = refl
same_digits z f zero (suc k) (suc a) b p q = absurd (omega arith)
same_digits z f (suc j) zero zero b p q = refl
same_digits z f (suc j) zero (suc a) b p q = absurd (omega arith)
same_digits z f (suc j) (suc k) zero b p q = refl
same_digits z f (suc j) (suc k) (suc a) b p q =
    omega (arith, same_digits z f j k (suc a / 2) (b / 2) (omega arith) (omega arith))

and_unfold : (a b : ℕ) → bit_and a b ≡ bit_and (a / 2) (b / 2) * 2 + min (a % 2) (b % 2)
and_unfold zero b = omega (arith, bit_and-bitwise 0 b, bit_and-bitwise 0 (b / 2))
and_unfold (suc a) b = omega (
  arith,
  bit_and-bitwise (suc a) b,
  bit_and-bitwise (suc a / 2) (b / 2),
  same_digits (λ _. 0) min a (suc a / 2) (suc a / 2) (b / 2) (omega arith) (omega arith),
)

pub or_unfold : (a b : ℕ) → bit_or a b ≡ bit_or (a / 2) (b / 2) * 2 + max (a % 2) (b % 2)
or_unfold zero b = omega (arith, bit_or-bitwise 0 b, bit_or-bitwise 0 (b / 2))
or_unfold (suc a) b = omega (
  arith,
  bit_or-bitwise (suc a) b,
  bit_or-bitwise (suc a / 2) (b / 2),
  same_digits (λ y. y) max a (suc a / 2) (suc a / 2) (b / 2) (omega arith) (omega arith),
)

pub zero_and : (b : ℕ) → bit_and 0 b ≡ 0
zero_and b = bit_and-bitwise 0 b

pub zero_or : (b : ℕ) → bit_or 0 b ≡ b
zero_or b = bit_or-bitwise 0 b

and_zero_below : (n a : ℕ) → a ≤ n → bit_and a 0 ≡ 0
and_zero_below n zero h = zero_and 0
and_zero_below zero (suc a) h = absurd (omega arith)
and_zero_below (suc n) (suc a) h =
    omega (arith, and_unfold (suc a) 0, and_zero_below n (suc a / 2) (omega arith))

or_zero_below : (n a : ℕ) → a ≤ n → bit_or a 0 ≡ a
or_zero_below n zero h = zero_or 0
or_zero_below zero (suc a) h = absurd (omega arith)
or_zero_below (suc n) (suc a) h =
    omega (arith, or_unfold (suc a) 0, or_zero_below n (suc a / 2) (omega arith))

pub and_zero : (a : ℕ) → bit_and a 0 ≡ 0
and_zero a = and_zero_below a a (omega arith)

pub or_zero : (a : ℕ) → bit_or a 0 ≡ a
or_zero a = or_zero_below a a (omega arith)

div_double : (v d : ℕ) → v / (d * 2) ≡ v / 2 / d
div_double v d = rw (div-div-eq-div-mul, mul_comm 2 d)

-- the lowest digit of a remainder by `2 * d`
mod_double : (v d : ℕ) → v % (d * 2) ≡ v / 2 % d * 2 + v % 2
mod_double v d =
    omega
      (arith, div-add-mod v (d * 2), div-add-mod (v / 2) d, ap (λ (t : ℕ). t * d) (div_double v d))

-- `v & (2 ^ k - 1)`, the mask written as the number `m` with `m + 1 = 2 ^ k`
pub and_mask : (k v m : ℕ) → m + 1 ≡ 2 ^ k → bit_and v m ≡ v % 2 ^ k
and_mask zero v m h = let e : m ≡ 0 = omega arith in rw (e, and_zero) (omega arith)
and_mask (suc k) v m h =
    let half : m / 2 + 1 ≡ 2 ^ k = omega (arith, pow-suc 2 k) in
    rw (and_unfold v m, and_mask k (v / 2) (m / 2) half, pow-suc, mod_double)
      (omega (arith, pow-suc 2 k))

-- a mask shifted left by `k` reads the digits above the `k`-th
pub and_shifted : (k v m : ℕ) → bit_and v (m * 2 ^ k) ≡ bit_and (v / 2 ^ k) m * 2 ^ k
and_shifted zero v m = simp (div-one, mul-one)
and_shifted (suc k) v m =
    let half : m * (2 ^ k * 2) / 2 ≡ m * 2 ^ k = omega arith in
    rw (pow-suc, and_unfold v (m * (2 ^ k * 2)), half, and_shifted k (v / 2) m, div_double)
      (omega arith)

-- fields that do not overlap are joined by `|` as by `+`
pub or_fields : (k q r : ℕ) → r < 2 ^ k → bit_or (q * 2 ^ k) r ≡ q * 2 ^ k + r
or_fields zero q r h = let e : r ≡ 0 = omega arith in rw (e, or_zero) (omega arith)
or_fields (suc k) q r h =
    let half : q * (2 ^ k * 2) / 2 ≡ q * 2 ^ k = omega arith in
    rw
      (
        pow-suc,
        or_unfold (q * (2 ^ k * 2)) r,
        half,
        or_fields k q (r / 2) (omega (arith, pow-suc 2 k)),
      )
      (omega arith)

or_comm_below : (n a b : ℕ) → a ≤ n → bit_or a b ≡ bit_or b a
or_comm_below n zero b h = rw (zero_or, or_zero) refl
or_comm_below zero (suc a) b h = absurd (omega arith)
or_comm_below (suc n) (suc a) b h = omega (
  arith,
  or_unfold (suc a) b,
  or_unfold b (suc a),
  or_comm_below n (suc a / 2) (b / 2) (omega arith),
)

pub or_comm : (a b : ℕ) → bit_or a b ≡ bit_or b a
or_comm a b = or_comm_below a a b (omega arith)
