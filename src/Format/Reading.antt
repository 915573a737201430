-- ===== src/Format/Reading.antt =====
-- The numbers of a text can be read back, with the format string that it was written by.
use fastarena_rs.Base.{
  ℕ, zero, suc, ◌+◌, ◌-◌, ◌*◌, ◌/◌, ◌%◌, ◌^◌, ◌≤◌, ◌<◌, ◌≡◌, refl, sym, ap, ◌∙◌, Bool, true, false,
  ◌&&◌, List, [], ◌∷◌, ◌++◌, append_assoc, ltb, leb, if◌then◌else◌, arith, Bool-cases, inl, inr,
  usize_mod,
}
use native.Mathlib.Nat.{pow-suc}
use fastarena_rs.Format.Writing.{Text, Piece, text, hole, digits, decimal, write}

abbrev pub is_digit : ℕ → Bool
is_digit c = leb b'0' c && leb c b'9'

-- The digits at the front of a text, behind those of `n`, and what follows them.
unfoldable pub read_number : ℕ → Text → ℕ × Text
read_number n [] = (n, [])
read_number n (c ∷ s) =
    let rest = read_number (n * 10 + (c - b'0')) s in if is_digit c then rest else (n, c ∷ s)

-- The text behind a literal.
unfoldable pub skip : Text → Text → Text
skip [] s = s
skip (c ∷ t) [] = []
skip (c ∷ t) (d ∷ s) = skip t s

unfoldable pub read_all : List Piece → Text → List ℕ
unfolding read_number skip
read_all [] s = []
read_all (text t ∷ ps) s = read_all ps (skip t s)
read_all (hole ∷ ps) s = let (n, rest) = read_number 0 s in n ∷ read_all ps rest

abbrev pub starts_with_digit : Text → Bool
starts_with_digit [] = false
starts_with_digit (c ∷ s) = is_digit c

skip-append : (t s : Text) → skip t (t ++ s) ≡ s
unfolding skip
skip-append [] s = refl
skip-append (c ∷ t) s = skip-append t s

read_stop : (n : ℕ) (s : Text) → starts_with_digit s ≡ false → read_number n s ≡ (n, s)
unfolding read_number
read_stop n [] h = refl
read_stop n (c ∷ s) h = rw h refl

-- A digit at the front.
read_digit :
    (n d : ℕ) (s : Text) → d < 10 → read_number n ((b'0' + d) ∷ s) ≡ read_number (n * 10 + d) s
unfolding read_number
read_digit n d s small =
    let front : is_digit (b'0' + d) ≡ true = ground arith in
    let back : (b'0' + d) - b'0' ≡ d = omega arith in rw (front, back) refl

read_digits :
    (steps n : ℕ) (s : Text)
    → n < 10 ^ steps
    → read_number 0 (digits steps n ++ s) ≡ read_number n s
unfolding digits
read_digits zero n s small = let none_left : n ≡ 0 = omega arith in rw none_left refl
read_digits (suc steps) n s small = elim (Bool-cases (ltb n 10)) [
  | inl one ↦
      let value : 0 * 10 + n ≡ n = omega arith in
      rw one (read_digit 0 n s (ground arith) ∙ ap (λ (k : ℕ). read_number k s) value)
  | inr more ↦
      let last = b'0' + n % 10 in
      let tenfold : 10 ^ suc steps ≡ 10 ^ steps * 10 = pow-suc 10 steps in
      let whole : n / 10 * 10 + n % 10 ≡ n = omega arith in
      rw more (
        ap (λ (t : Text). read_number 0 t)
          (sym (append_assoc (digits steps (n / 10)) (last ∷ []) s))
        ∙ read_digits steps (n / 10) (last ∷ s) (omega (arith, tenfold))
        ∙ read_digit (n / 10) (n % 10) s (omega arith)
        ∙ ap (λ (k : ℕ). read_number k s) whole)
]

-- A number is read back where no digit follows.
pub read-decimal :
    (n : ℕ) (s : Text)
    → n < usize_mod
    → starts_with_digit s ≡ false
    → read_number 0 (decimal n ++ s) ≡ (n, s)
unfolding decimal
read-decimal n s small apart = read_digits 20 n s (omega arith) ∙ read_stop n s apart

positive_steps : (steps n : ℕ) → n < 10 ^ suc steps → ltb n 10 ≡ false → 0 < steps
positive_steps zero n small more = absurd (ground arith)
positive_steps (suc steps) n small more = omega arith

-- More steps than a number has digits change nothing.
pub digits_enough :
    (steps more n : ℕ) → 0 < steps → n < 10 ^ steps → steps ≤ more → digits more n ≡ digits steps n
unfolding digits
digits_enough zero more n pos small h = absurd (omega arith)
digits_enough (suc steps) zero n pos small h = absurd (omega arith)
digits_enough (suc steps) (suc more) n pos small h = elim (Bool-cases (ltb n 10)) [
  | inl one ↦ rw one refl
  | inr several ↦
      let tenfold : 10 ^ suc steps ≡ 10 ^ steps * 10 = pow-suc 10 steps in
      rw several (
        ap (λ (t : Text). t ++ ((b'0' + n % 10) ∷ []))
          (digits_enough steps more (n / 10) (positive_steps steps n small several)
            (omega (arith, tenfold)) (omega arith)))
]

-- Every argument is a word.
abbrev pub Words : List ℕ → Type 0
Words [] = Unit
Words (n ∷ args) = (n < usize_mod) × Words args

-- There are as many arguments as holes, and behind each hole the text ends or goes on with a
-- character that is no digit.
abbrev pub Fits : List Piece → List ℕ → Type 0
Fits [] args = args ≡ []
Fits (text t ∷ ps) args = Fits ps args
Fits (hole ∷ ps) [] = ⊥
Fits (hole ∷ ps) (n ∷ args) = (starts_with_digit (write ps args) ≡ false) × Fits ps args

-- The arguments are read back, whatever the format string.
pub read_all-write :
    (ps : List Piece) (args : List ℕ)
    → Fits ps args
    → Words args
    → read_all ps (write ps args) ≡ args
unfolding read_all write
read_all-write [] args fits words = sym fits
read_all-write (text t ∷ ps) args fits words =
    rw (skip-append t (write ps args)) (read_all-write ps args fits words)
read_all-write (hole ∷ ps) [] fits words = absurd fits
read_all-write (hole ∷ ps) (n ∷ args) (apart, fits) (small, words) =
    rw (read-decimal n (write ps args) small apart)
      (ap (λ (r : List ℕ). n ∷ r) (read_all-write ps args fits words))
