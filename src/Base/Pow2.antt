-- ===== src/Base/Pow2.antt =====
-- Powers of two of a word: the Boolean test, the least one that is not below a number.
use Prim.Native.Nat.{ℕ, zero, suc, ◌+◌, ◌^◌, ◌≤◌, ◌<◌}
use mathlib.Core.Path.{◌≡◌, refl}
use mathlib.Core.Logic.{◌⊎◌, inl, inr}
use mathlib.Core.Bool.{Bool, true, false, ◌||◌}
use mathlib.Core.Option.{some}
use native.Mathlib.Nat.{one-le-pow, pow-le-pow_right}
use native.Mathlib.Omega.{arith}
use fastarena_rs.Base.Tests.{◌==◌, leb, Bool-cases, ==→eq}
use fastarena_rs.Base.Word.{
  IsPow2, is_power_of_two, power_below, power_from, checked_next_power_of_two,
}

or-cases : (a b : Bool) → (a || b) ≡ true → (a ≡ true) ⊎ (b ≡ true)
or-cases true b h = inl refl
or-cases false b h = inr h

power_below-exponent : (m n : ℕ) → power_below m n ≡ true → (k : ℕ) × (k < m) × (n ≡ 2 ^ k)
unfolding power_below
power_below-exponent zero n h = absurd (cc)
power_below-exponent (suc m) n h = elim (or-cases (n == 2 ^ m) (power_below m n) h) [
  | inl e ↦ (m, omega arith, ==→eq n (2 ^ m) e)
  | inr r ↦ let (k, lt, e) = power_below-exponent m n r in (k, omega arith, e)
]

pub IsPow2-of_is_power_of_two : (n : ℕ) → is_power_of_two n ≡ true → IsPow2 n
unfolding is_power_of_two
IsPow2-of_is_power_of_two n h = power_below-exponent 64 n h

power_below_complete : (m k : ℕ) → k < m → power_below m (2 ^ k) ≡ true
unfolding power_below
power_below_complete zero k h = absurd (omega arith)
power_below_complete (suc m) k h = ground (arith, power_below_complete m k)

pub is_power_of_two_complete : (k : ℕ) → k < 64 → is_power_of_two (2 ^ k) ≡ true
unfolding is_power_of_two
is_power_of_two_complete k h = power_below_complete 64 k h

pub IsPow2-pos : {n : ℕ} → IsPow2 n → 0 < n
IsPow2-pos (k, lt, e) = omega (arith, one-le-pow k 2)

pub IsPow2-lt : {n : ℕ} → IsPow2 n → n ≤ 2 ^ 63
IsPow2-lt (k, lt, e) =
    omega (arith, pow-le-pow_right {n = 2} (omega arith) {i = k} {j = 63} (omega arith))

-- What `checked_next_power_of_two` returns is a power of two, not below its argument.
power_from-le : (left k n p : ℕ) → k + left ≡ 64 → power_from left k n ≡ some p → IsPow2 p × (n ≤ p)
unfolding power_from
power_from-le zero k n p e h = absurd (cc)
power_from-le (suc left) k n p e h = elim (Bool-cases (leb n (2 ^ k))) [
  | inl t ↦ ((k, omega arith, ground arith), ground arith)
  | inr f ↦ power_from-le left (k + 1) n p (omega arith) (rw f at h)
]

pub checked_next_power_of_two-le :
    (n p : ℕ) → checked_next_power_of_two n ≡ some p → IsPow2 p × (n ≤ p)
unfolding checked_next_power_of_two
checked_next_power_of_two-le n p h = power_from-le 64 0 n p refl h
