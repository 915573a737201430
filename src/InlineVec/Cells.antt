-- ===== src/InlineVec/Cells.antt =====
-- Memory that begins with the elements of a list.
use fastarena_rs.Base.{
  ℕ, zero, suc, ◌+◌, ◌<◌, ◌≡◌, refl, ap, ◌⊎◌, inl, inr, List, [], ◌∷◌, ◌++◌, take, drop, set,
  get_elem?, length, Option, none, some, Outcome, ok, panicked, index_out_of_bounds, arith,
}
use fastarena_rs.InlineVec.{Cells, read, read_all, copy_nonoverlapping}

module _ {ℓ} {A : Type ℓ} where
  abbrev pub held : List A → Cells A → Cells A
  held [] rest = rest
  held (x ∷ xs) rest = some x ∷ held xs rest

  pub length-held : (xs : List A) (rest : Cells A) → length (held xs rest) ≡ length xs + length rest
  length-held [] rest = omega arith
  length-held (x ∷ xs) rest = omega (arith, length-held xs rest)

  -- What `Index` does on a list.
  abbrev pub nth : Option A → Outcome A
  nth none = panicked index_out_of_bounds
  nth (some x) = ok x

  pub read-held :
      (xs : List A) (rest : Cells A) (i : ℕ)
      → i < length xs
      → read (held xs rest) i ≡ nth (get_elem? xs i)
  read-held [] rest i h = absurd (omega arith)
  read-held (y ∷ xs) rest zero h = refl
  read-held (y ∷ xs) rest (suc i) h = read-held xs rest i (omega arith)

  pub read-held_last :
      (xs : List A) (x : A) (rest : Cells A) → read (held (xs ++ (x ∷ [])) rest) (length xs) ≡ ok x
  read-held_last [] x rest = refl
  read-held_last (y ∷ xs) x rest = read-held_last xs x rest

  pub held-snoc :
      (xs : List A) (x : A) (rest : Cells A) → held (xs ++ (x ∷ [])) rest ≡ held xs (some x ∷ rest)
  held-snoc [] x rest = refl
  held-snoc (y ∷ xs) x rest = ap (λ (m : Cells A). some y ∷ m) (held-snoc xs x rest)

  pub read_all-held :
      (xs : List A) (rest : Cells A) → read_all (take (length xs) (held xs rest)) ≡ ok xs
  read_all-held [] rest = refl
  read_all-held (x ∷ xs) rest = rw (read_all-held xs rest) refl

  -- The next element is written behind the last one.
  pub set-held_end :
      (xs : List A) (rest : Cells A) (x : A)
      → 0 < length rest
      → set (held xs rest) (length xs) (some x) ≡ held (xs ++ (x ∷ [])) (drop 1 rest)
  set-held_end [] [] x h = absurd (omega arith)
  set-held_end [] (c ∷ rest) x h = refl
  set-held_end (y ∷ xs) rest x h = ap (λ (m : Cells A). some y ∷ m) (set-held_end xs rest x h)

  pub set-held :
      (xs : List A) (rest : Cells A) (i : ℕ) (x : A)
      → i < length xs
      → set (held xs rest) i (some x) ≡ held (set xs i x) rest
  set-held [] rest i x h = absurd (omega arith)
  set-held (y ∷ xs) rest zero x h = refl
  set-held (y ∷ xs) rest (suc i) x h =
      ap (λ (m : Cells A). some y ∷ m) (set-held xs rest i x (omega arith))

  take-held : (xs : List A) (rest m : Cells A) → take (length xs) (held xs rest) ++ m ≡ held xs m
  take-held [] rest m = refl
  take-held (x ∷ xs) rest m = ap (λ (k : Cells A). some x ∷ k) (take-held xs rest m)

  -- A copy of the elements to new memory.
  pub copy-held :
      (xs : List A) (rest m : Cells A)
      → copy_nonoverlapping (held xs rest) m (length xs) ≡ held xs (drop (length xs) m)
  copy-held xs rest m = take-held xs rest (drop (length xs) m)

  -- A list is empty or has a last element.
  pub last_cases : (xs : List A) → (xs ≡ []) ⊎ ((ys : List A) × (y : A) × (xs ≡ ys ++ (y ∷ [])))
  last_cases [] = inl refl
  last_cases (x ∷ xs) = elim (last_cases xs) [
    | inl e ↦ inr ([], x, ap (λ (ys : List A). x ∷ ys) e)
    | inr (ys, y, e) ↦ inr (x ∷ ys, y, ap (λ (zs : List A). x ∷ zs) e)
  ]
