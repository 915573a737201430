-- ===== src/Typed/Memory.antt =====
-- Reading back what was written.
use fastarena_rs.Base.{
  ℕ, zero, suc, ◌+◌, ◌≤◌, ◌<◌, ◌≡◌, refl, ap, ap₂, ◌∙◌, ◌⊎◌, inl, inr, List, [], ◌∷◌, ◌++◌, length,
  arith, ◌==◌, if◌then◌else◌, true, false, Bool-cases,
}
use mathlib.Core.Path.{fun_ext}
use fastarena_rs.Typed.{Mem, write}

-- The `n` bytes from address `p` on.
abbrev pub read : Mem → ℕ → ℕ → List ℕ
read m p zero = []
read m p (suc n) = m p ∷ read m (p + 1) n

pub write_outside :
    (m : Mem) (p : ℕ) (bs : List ℕ) (x : ℕ) → (x < p) ⊎ (p + length bs ≤ x) → write m p bs x ≡ m x
write_outside m p [] x h = refl
write_outside m p (b ∷ bs) x h =
    let other : (x == p) ≡ false = ground arith in
    rw other (write_outside m (p + 1) bs x (ground arith))

pub read_ext :
    (m m' : Mem) (p n : ℕ) → ((x : ℕ) → p ≤ x → x < p + n → m' x ≡ m x) → read m' p n ≡ read m p n
read_ext m m' p zero h = refl
read_ext m m' p (suc n) h =
    ap₂ ◌∷◌ (h p (omega arith) (omega arith))
      (read_ext m m' (p + 1) n (λ x from to. h x (omega arith) (omega arith)))

pub read-write : (m : Mem) (p : ℕ) (bs : List ℕ) → read (write m p bs) p (length bs) ≡ bs
read-write m p [] = refl
read-write m p (b ∷ bs) =
    let here : (p == p) ≡ true = ground arith in
    ap₂ ◌∷◌ (rw here refl) (
      read_ext (write m (p + 1) bs) (write m p (b ∷ bs)) (p + 1) (length bs)
        (λ x from to. let other : (x == p) ≡ false = ground arith in rw other refl)
      ∙ read-write m (p + 1) bs)

-- A write depends on the memory only outside of what it writes.
write_cong :
    (m m' : Mem) (p : ℕ) (bs : List ℕ) (x : ℕ) → m x ≡ m' x → write m p bs x ≡ write m' p bs x
write_cong m m' p [] x h = h
write_cong m m' p (b ∷ bs) x h =
    ap (λ (r : ℕ). if x == p then b else r) (write_cong m m' (p + 1) bs x h)

write_append_at :
    (m : Mem) (p : ℕ) (xs ys : List ℕ) (x : ℕ)
    → write (write m p xs) (p + length xs) ys x ≡ write m p (xs ++ ys) x
write_append_at m p [] ys x = ap (λ (q : ℕ). write m q ys x) (omega arith)
write_append_at m p (b ∷ xs) ys x = elim (Bool-cases (x == p)) [
  | inl here ↦
      write_outside (write m p (b ∷ xs)) (p + suc (length xs)) ys x (ground (arith, here))
      ∙ rw here refl
  | inr other ↦
      write_cong (write m p (b ∷ xs)) (write m (p + 1) xs) (p + suc (length xs)) ys x
        (rw other refl)
      ∙ ap (λ (q : ℕ). write (write m (p + 1) xs) q ys x) (omega arith)
      ∙ write_append_at m (p + 1) xs ys x
      ∙ rw other refl
]

-- Two writes side by side are one.
pub write-append :
    (m : Mem) (p : ℕ) (xs ys : List ℕ)
    → write (write m p xs) (p + length xs) ys ≡ write m p (xs ++ ys)
write-append m p xs ys = fun_ext (λ x. write_append_at m p xs ys x)
