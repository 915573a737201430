-- ===== src/Base/Word.antt =====
-- `usize` of a 64-bit target: wrapping, checked and saturating arithmetic, powers of two.
-- A plain `+`, `-` or `*` is the wrapping one, as in a release build.
use Prim.Native.Nat.{ℕ, zero, suc, ◌+◌, ◌-◌, ◌*◌, ◌%◌, ◌^◌, ◌<◌, min}
use mathlib.Core.Path.{◌≡◌}
use mathlib.Core.Bool.{Bool, false, ◌||◌}
use mathlib.Core.Option.{Option, none, some}
use fastarena_rs.Base.Tests.{ltb, leb, ◌==◌, if◌then◌else◌}

abbrev pub usize_mod : ℕ
usize_mod = 2 ^ 64

abbrev pub usize_max : ℕ
usize_max = 2 ^ 64 - 1

abbrev pub isize_max : ℕ
isize_max = 2 ^ 63 - 1

abbrev pub add_usize : ℕ → ℕ → ℕ
add_usize a b = (a + b) % usize_mod

abbrev pub sub_usize : ℕ → ℕ → ℕ
sub_usize a b = (a + usize_mod - b) % usize_mod

abbrev pub mul_usize : ℕ → ℕ → ℕ
mul_usize a b = a * b % usize_mod

abbrev pub not_usize : ℕ → ℕ
not_usize a = usize_max - a

abbrev pub checked_add : ℕ → ℕ → Option ℕ
checked_add a b = if ltb (a + b) usize_mod then some (a + b) else none

abbrev pub checked_mul : ℕ → ℕ → Option ℕ
checked_mul a b = if ltb (a * b) usize_mod then some (a * b) else none

abbrev pub saturating_add : ℕ → ℕ → ℕ
saturating_add a b = min (a + b) usize_max

abbrev pub saturating_sub : ℕ → ℕ → ℕ
saturating_sub a b = a - b

abbrev pub saturating_mul : ℕ → ℕ → ℕ
saturating_mul a b = min (a * b) usize_max

-- Whether `n` is one of `2 ^ 0`, …, `2 ^ (k - 1)`.
unfoldable pub power_below : ℕ → ℕ → Bool
power_below zero n = false
power_below (suc k) n = (n == 2 ^ k) || power_below k n

unfoldable pub is_power_of_two : ℕ → Bool
unfolding power_below
is_power_of_two n = power_below 64 n

-- The least of `2 ^ k`, `2 ^ (k + 1)`, … that is not below `n`, in `left` rounds.
unfoldable pub power_from : ℕ → ℕ → ℕ → Option ℕ
power_from zero k n = none
power_from (suc left) k n =
    let rest = power_from left (k + 1) n in if leb n (2 ^ k) then some (2 ^ k) else rest

unfoldable pub checked_next_power_of_two : ℕ → Option ℕ
unfolding power_from
checked_next_power_of_two n = power_from 64 0 n

abbrev pub IsPow2 : ℕ → Type 0
IsPow2 n = (k : ℕ) × (k < 64) × (n ≡ 2 ^ k)
