-- ===== src/Base/Bits.antt =====
-- `&` with a mask of the high bits, as arithmetic.
use Prim.Native.Nat.{
  ℕ, zero, suc, ◌+◌, ◌-◌, ◌*◌, ◌/◌, ◌%◌, ◌^◌, ◌≤◌, ◌<◌, min, bit_and, digits, bit_and-bitwise,
}
use mathlib.Core.Path.{◌≡◌, refl, ap}
use native.Mathlib.Nat.{pow-suc, one-le-pow, pow-le-pow_right, div-div-eq-div-mul, mul_comm}
use native.Mathlib.Omega.{arith}

-- The native `bit_and` is a recursion on digits with fuel, which does not matter once it is enough.
and_fuel :
    (n m a b : ℕ) → a ≤ n → a ≤ m → digits (λ _. zero) min n a b ≡ digits (λ _. zero) min m a b
and_fuel zero zero a b p q = refl
and_fuel zero (suc m) zero b p q = refl
and_fuel zero (suc m) (suc a) b p q = absurd (omega arith)
and_fuel (suc n) zero zero b p q = refl
and_fuel (suc n) zero (suc a) b p q = absurd (omega arith)
and_fuel (suc n) (suc m) zero b p q = refl
and_fuel (suc n) (suc m) (suc a) b p q =
    omega (arith, and_fuel n m (suc a / 2) (b / 2) (omega arith) (omega arith))

bit_and_halves : (a b : ℕ) → bit_and a b ≡ bit_and (a / 2) (b / 2) * 2 + min (a % 2) (b % 2)
bit_and_halves zero b = omega (arith, bit_and-bitwise 0 b, bit_and-bitwise 0 (b / 2))
bit_and_halves (suc a) b = omega (
  arith,
  bit_and-bitwise (suc a) b,
  bit_and-bitwise (suc a / 2) (b / 2),
  and_fuel a (suc a / 2) (suc a / 2) (b / 2) (omega arith) (omega arith),
)

bit_and_ones : (n x : ℕ) → x < 2 ^ n → bit_and x (2 ^ n - 1) ≡ x
bit_and_ones zero x h = ground (arith, bit_and-bitwise 0 0)
bit_and_ones (suc n) x h =
    ground
      (arith, bit_and_halves x (2 ^ suc n - 1), pow-suc 2 n, one-le-pow n 2, bit_and_ones n (x / 2))

two_step : (x p : ℕ) → x / (p * 2) * (p * 2) ≡ x / 2 / p * p * 2
two_step x p = omega (
  arith,
  div-div-eq-div-mul x 2 p,
  ap (λ (q : ℕ). x / q * (p * 2)) (mul_comm p 2),
  ap (λ (q : ℕ). q * (p * 2)) (div-div-eq-div-mul x 2 p),
)

-- A mask of the bits from `k` on clears the low `k` bits.
pub bit_and_high : (k n x : ℕ) → k ≤ n → x < 2 ^ n → bit_and x (2 ^ n - 2 ^ k) ≡ x / 2 ^ k * 2 ^ k
bit_and_high zero n x le h = ground (arith, bit_and_ones n x)
bit_and_high (suc k) zero x le h = absurd (omega arith)
bit_and_high (suc k) (suc n) x le h = ground (
  arith,
  bit_and_halves x (2 ^ suc n - 2 ^ suc k),
  pow-suc 2 n,
  pow-suc 2 k,
  pow-le-pow_right {n = 2} (omega arith) {i = k} {j = n} (omega arith),
  bit_and_high k n (x / 2) (omega arith),
  two_step x (2 ^ k),
)
