-- ===== src/Typed/Iterators.antt =====
-- A slice filled from an iterator is the slice of what the iterator yields.
use fastarena_rs.Base.{
  ℕ, ◌+◌, ◌*◌, ◌≡◌, refl, ap, ◌∙◌, List, [], ◌∷◌, ◌++◌, length, Option, none, some, Outcome, ok,
  panicked, sym, ◌==◌, Bool-cases, inl, inr, ltb, usize_mod,
}
use fastarena_rs.Block.{Os}
use fastarena_rs.Arena.{Arena}
use fastarena_rs.Arena.Alloc as Alloc
use fastarena_rs.Typed.{
  Store, Mem, write, concat, with_ptr, with_try, copied, try_copied, slice_of, try_slice_of,
  alloc_slice, alloc_slice_copy, try_alloc_slice, try_alloc_slice_copy, write_slice_bulk,
}
use fastarena_rs.Typed.Memory.{write-append}
use fastarena_rs.Typed.Slices.{AllSized}

bulk_write :
    (size p : ℕ) (xs more : List (List ℕ)) (m : Mem)
    → AllSized size xs
    → write_slice_bulk size p (xs ++ more) (length xs) m ≡ (ok tt, write m p (concat xs))
unfolding write_slice_bulk
bulk_write size p [] more m all = refl
bulk_write size p (x ∷ xs) more m (here, all) =
    bulk_write size (p + size) xs more (write m p x) all
    ∙ ap (λ (k : ℕ). (ok (tt {0}), write (write m p x) (p + k) (concat xs))) (sym here)
    ∙ ap (λ (w : Mem). (ok (tt {0}), w)) (write-append m p x (concat xs))

module _ (size align : ℕ) (xs more : List (List ℕ)) (all : AllSized size xs) where
  filled :
      (out : Outcome ℕ × Arena) (m : Mem)
      → with_ptr out m
          (λ p m. slice_of p (length xs) (write_slice_bulk size p (xs ++ more) (length xs) m))
        ≡ with_ptr out m (copied xs)
  filled (ok p, a) m = rw (bulk_write size p xs more m all) refl
  filled (panicked e, a) m = refl

  try_filled :
      (out : Outcome (Option ℕ) × Arena) (m : Mem)
      → with_try out m
          (λ p m. try_slice_of p (length xs) (write_slice_bulk size p (xs ++ more) (length xs) m))
        ≡ with_try out m (try_copied xs)
  try_filled (ok (some p), a) m = rw (bulk_write size p xs more m all) refl
  try_filled (ok none, a) m = refl
  try_filled (panicked e, a) m = refl

  -- When an iterator yields at least the elements that it reports, all of the size of their type,
  -- alloc_slice and try_alloc_slice do what alloc_slice_copy and try_alloc_slice_copy do with a
  -- slice of these elements; what it would yield after them is left alone.
  pub alloc_slice_lem :
      (os : Os) (s : Store)
      → (alloc_slice os size align (length xs) (xs ++ more) s ≡ alloc_slice_copy os size align xs s)
        × (try_alloc_slice os size align (length xs) (xs ++ more) s
            ≡ try_alloc_slice_copy os size align xs s)
  unfolding alloc_slice alloc_slice_copy try_alloc_slice try_alloc_slice_copy
  alloc_slice_lem os s = elim (Bool-cases (length xs == 0)) [
    | inl empty ↦ (rw empty refl, rw empty refl)
    | inr some_left ↦ elim (Bool-cases (ltb (size * length xs) usize_mod)) [
      | inr over ↦ (rw (some_left, over) refl, rw (some_left, over) refl)
      | inl sized ↦ (
        rw (some_left, sized)
            (filled (Alloc.alloc_raw_inner os (size * length xs) align s.arena) s.mem),
        rw (some_left, sized)
            (try_filled (Alloc.try_alloc_raw_inner os (size * length xs) align s.arena) s.mem),
      )
    ]
  ]
