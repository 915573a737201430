-- ===== src/Block/Align.antt =====
-- `align_up` rounds up to a multiple.
use native.Mathlib.Nat.{
  div-mul-le_self, lt-div-mul-add, mul-mod_left, one-le-pow, pow-le-pow_right, mod-add-mod,
  mod-eq_of_lt,
}
use native.Mathlib.Decide.{dec_le}
use fastarena_rs.Base.{
  ℕ, ◌+◌, ◌-◌, ◌*◌, ◌/◌, ◌%◌, ◌^◌, ◌≤◌, ◌<◌, ◌≡◌, sym, ap, ap₂, ◌∙◌, arith, bit_and, usize_mod,
  IsPow2,
}
use fastarena_rs.Base.Bits.{bit_and_high}
use fastarena_rs.Block.{align_up}

align_up-quotient :
    (addr k : ℕ)
    → k < 64
    → addr + 2 ^ k ≤ usize_mod
    → align_up addr (2 ^ k) ≡ (addr + (2 ^ k - 1)) / 2 ^ k * 2 ^ k
unfolding align_up
align_up-quotient addr k lt fits =
    let pos : 0 < 2 ^ k = one-le-pow k 2 (omega arith) in
    let top : 2 ^ k ≤ 2 ^ 63 =
      pow-le-pow_right {n = 2} (omega arith) {i = k} {j = 63} (omega arith) in
    ap₂ bit_and {y = addr + (2 ^ k - 1)} {v = 2 ^ 64 - 2 ^ k} (omega arith) (omega arith)
    ∙ bit_and_high k 64 (addr + (2 ^ k - 1)) (omega arith) (omega arith)

-- The facts about `align_up` that the rest of the development uses.
pub record IsAligned (addr align aligned : ℕ) : Type 0 where
  pub multiple : aligned % align ≡ 0
  pub above : addr ≤ aligned
  pub near : aligned < addr + align

align_up_pow :
    (addr k : ℕ)
    → k < 64
    → addr + 2 ^ k ≤ usize_mod
    → IsAligned addr (2 ^ k) (align_up addr (2 ^ k))
align_up_pow addr k lt fits =
    let pos : 0 < 2 ^ k = one-le-pow k 2 (omega arith) in
    rw (align_up-quotient addr k lt fits) (record {
      multiple = mul-mod_left ((addr + (2 ^ k - 1)) / 2 ^ k) (2 ^ k);
      above = omega (arith, lt-div-mul-add {a = addr + (2 ^ k - 1)} pos);
      near = omega (arith, div-mul-le_self (addr + (2 ^ k - 1)) (2 ^ k));
    })

-- For a power of two, and no wrap at the top of the address space, align_up returns the least
-- multiple of the alignment that is not below the address.
pub align_up-IsAligned :
    (addr align : ℕ)
    → IsPow2 align
    → addr + align ≤ usize_mod
    → IsAligned addr align (align_up addr align)
align_up-IsAligned addr align (k, lt, e) fits = rw e (align_up_pow addr k lt (rw (← e) fits))

-- No multiple of the alignment lies between.
pub IsAligned-least :
    {addr align aligned : ℕ} (p : ℕ)
    → IsAligned addr align aligned
    → p % align ≡ 0
    → addr ≤ p
    → aligned ≤ p
IsAligned-least {align} {aligned} p v multiple above =
    let sum : (p % align + (aligned - p)) % align ≡ (p + (aligned - p)) % align =
      mod-add-mod p align (aligned - p) in
    let small : (aligned - p) % align ≡ aligned - p =
      mod-eq_of_lt (omega (arith, v.near, v.above)) in
    elim (dec_le aligned p) [
      | yes h ↦ h
      | no h ↦
          let apart : p + (aligned - p) ≡ aligned = omega arith in
          let front : aligned - p ≡ 0 + (aligned - p) = omega arith in
          let gap : aligned - p ≡ 0 =
            sym small
            ∙ ap (λ (k : ℕ). k % align) (front ∙ ap (λ (k : ℕ). k + (aligned - p)) (sym multiple))
            ∙ sum
            ∙ ap (λ (k : ℕ). k % align) apart
            ∙ v.multiple in
          omega arith
    ]
