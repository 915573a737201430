-- ===== src/Typed/Elements.antt =====
-- Elements of one size, one behind the other.
use fastarena_rs.Base.{
  drop, set, ◌-◌, take, get_elem?, some, inl, inr, ℕ, zero, suc, ◌+◌, ◌*◌, ◌≤◌, ◌<◌, ◌≡◌, refl, sym,
  ap, ap₂, ◌∙◌, List, [], ◌∷◌, ◌++◌, length, arith,
}
use fastarena_rs.Typed.Memory.{write_outside, read_ext, read, read-write}
use native.Mathlib.Nat.{suc-mul}
use fastarena_rs.Typed.{Mem, write}

-- The `n` elements of `size` bytes from address `p` on.
abbrev pub elements : Mem → ℕ → ℕ → ℕ → List (List ℕ)
elements m p size zero = []
elements m p size (suc n) = read m p size ∷ elements m (p + size) size n

pub length-read : (m : Mem) (p n : ℕ) → length (read m p n) ≡ n
length-read m p zero = refl
length-read m p (suc n) = ap suc (length-read m (p + 1) n)

pub length-elements : (m : Mem) (p size n : ℕ) → length (elements m p size n) ≡ n
length-elements m p size zero = refl
length-elements m p size (suc n) = ap suc (length-elements m (p + size) size n)

-- Equal bytes at two places are equal values.
read_shift :
    (m m' : Mem) (p q n : ℕ) → ((i : ℕ) → i < n → m' (q + i) ≡ m (p + i)) → read m' q n ≡ read m p n
read_shift m m' p q zero h = refl
read_shift m m' p q (suc n) h =
    ap₂ ◌∷◌ (ap m' (omega arith) ∙ h 0 (omega arith) ∙ ap m (omega arith)) (
      read_shift m m' (p + 1) (q + 1) n
        (λ i lt. ap m' (omega arith) ∙ h (i + 1) (omega arith) ∙ ap m (omega arith)))

elements_shift :
    (m m' : Mem) (p q size n : ℕ)
    → ((i : ℕ) → i < n * size → m' (q + i) ≡ m (p + i))
    → elements m' q size n ≡ elements m p size n
elements_shift m m' p q size zero h = refl
elements_shift m m' p q size (suc n) h =
    ap₂ ◌∷◌ (read_shift m m' p q size (λ i lt. h i (omega (arith, suc-mul n size)))) (
      elements_shift m m' (p + size) (q + size) size n (λ i lt.
        ap m' (omega arith) ∙ h (size + i) (omega (arith, suc-mul n size)) ∙ ap m (omega arith)))

pub elements_ext :
    (m m' : Mem) (p size n : ℕ)
    → ((x : ℕ) → p ≤ x → x < p + n * size → m' x ≡ m x)
    → elements m' p size n ≡ elements m p size n
elements_ext m m' p size n h =
    elements_shift m m' p p size n (λ i lt. h (p + i) (omega arith) (omega arith))

abbrev head : ℕ → List ℕ → ℕ
head d [] = d
head d (x ∷ xs) = x

abbrev tail : List ℕ → List ℕ → List ℕ
tail d [] = d
tail d (x ∷ xs) = xs

read_point : (m m' : Mem) (p q n i : ℕ) → read m' q n ≡ read m p n → i < n → m' (q + i) ≡ m (p + i)
read_point m m' p q zero i e lt = absurd (omega arith)
read_point m m' p q (suc n) zero e lt = ap m' (omega arith) ∙ ap (head 0) e ∙ ap m (omega arith)
read_point m m' p q (suc n) (suc i) e lt =
    ap m' (omega arith)
    ∙ read_point m m' (p + 1) (q + 1) n i (ap (tail []) e) (omega arith)
    ∙ ap m (omega arith)

-- The elements that have been copied are those of the source, also where the places overlap.
pub elements-copy :
    (m : Mem) (src dst size n : ℕ)
    → elements (write m dst (read m src (n * size))) dst size n ≡ elements m src size n
elements-copy m src dst size n =
    let bytes = read m src (n * size) in
    let back : read (write m dst bytes) dst (n * size) ≡ bytes =
      ap (λ (k : ℕ). read (write m dst bytes) dst k) (sym (length-read m src (n * size)))
      ∙ read-write m dst bytes in
    elements_shift m (write m dst bytes) src dst size n
      (λ i lt. read_point m (write m dst bytes) src dst (n * size) i back lt)

-- One more element is one more at the end.
pub elements-snoc :
    (m : Mem) (p size n : ℕ)
    → elements m p size (n + 1) ≡ elements m p size n ++ (read m (p + n * size) size ∷ [])
elements-snoc m p size zero =
    let q : p ≡ p + 0 * size = omega arith in ap (λ (k : ℕ). read m k size ∷ []) q
elements-snoc m p size (suc n) =
    let q : p + size + n * size ≡ p + suc n * size = omega (arith, suc-mul n size) in
    let k : suc n + 1 ≡ suc (n + 1) = omega arith in
    ap (elements m p size) k
    ∙ ap (λ (r : List (List ℕ)). read m p size ∷ r)
        (elements-snoc m (p + size) size n
          ∙ ap (λ (k : ℕ). elements m (p + size) size n ++ (read m k size ∷ [])) q)

-- The elements up to an index, and from it on.
pub take-elements :
    (m : Mem) (p size i n : ℕ) → i ≤ n → take i (elements m p size n) ≡ elements m p size i
take-elements m p size zero n h = refl
take-elements m p size (suc i) zero h = absurd (omega arith)
take-elements m p size (suc i) (suc n) h =
    ap (λ (r : List (List ℕ)). read m p size ∷ r)
      (take-elements m (p + size) size i n (omega arith))

pub drop-elements :
    (m : Mem) (p size i n : ℕ)
    → i ≤ n
    → drop i (elements m p size n) ≡ elements m (p + i * size) size (n - i)
drop-elements m p size zero n h =
    let q : p ≡ p + 0 * size = omega arith in
    let e : n ≡ n - 0 = omega arith in ap₂ (λ (k j : ℕ). elements m k size j) q e
drop-elements m p size (suc i) zero h = absurd (omega arith)
drop-elements m p size (suc i) (suc n) h =
    let q : p + size + i * size ≡ p + suc i * size = omega (arith, suc-mul i size) in
    let e : n - i ≡ suc n - suc i = omega arith in
    drop-elements m (p + size) size i n (omega arith) ∙ ap₂ (λ (k j : ℕ). elements m k size j) q e

pub get-elements :
    (m : Mem) (p size i n : ℕ)
    → i < n
    → get_elem? (elements m p size n) i ≡ some (read m (p + i * size) size)
get-elements m p size i zero h = absurd (omega arith)
get-elements m p size zero (suc n) h =
    let q : p ≡ p + 0 * size = omega arith in ap (λ (k : ℕ). some (read m k size)) q
get-elements m p size (suc i) (suc n) h =
    let q : p + size + i * size ≡ p + suc i * size = omega (arith, suc-mul i size) in
    get-elements m (p + size) size i n (omega arith) ∙ ap (λ (k : ℕ). some (read m k size)) q

-- Writing one element changes that element.
pub set-elements :
    (m : Mem) (p size i n : ℕ) (x : List ℕ)
    → i < n
    → length x ≡ size
    → elements (write m (p + i * size) x) p size n ≡ set (elements m p size n) i x
set-elements m p size i zero x h sized = absurd (omega arith)
set-elements m p size zero (suc n) x h sized =
    let q : p + 0 * size ≡ p = omega arith in
    ap₂ ◌∷◌ (ap₂ (λ (k j : ℕ). read (write m k x) p j) q (sym sized) ∙ read-write m p x) (
      elements_ext m (write m (p + 0 * size) x) (p + size) size n
        (λ y from to. write_outside m (p + 0 * size) x y (inr (omega arith))))
set-elements m p size (suc i) (suc n) x h sized =
    let q : p + suc i * size ≡ p + size + i * size = omega (arith, suc-mul i size) in
    ap₂ ◌∷◌
      (read_ext m (write m (p + suc i * size) x) p size
        (λ y from to. write_outside m (p + suc i * size) x y (inl (omega arith))))
      (ap (λ (k : ℕ). elements (write m k x) (p + size) size n) q
        ∙ set-elements m (p + size) size i n x (omega arith) sized)
