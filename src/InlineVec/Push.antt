-- ===== src/InlineVec/Push.antt =====
-- `push` of util/inline_vec.rs appends, whether the element fits inline, on the heap, or makes the
-- vector move to the heap or to more memory.
use fastarena_rs.Base.{
  ℕ, ◌+◌, ◌-◌, ◌*◌, ◌≤◌, ◌<◌, ◌≡◌, refl, sym, ap, ap₂, ◌∙◌, ◌⊎◌, inl, inr, true, false, List, [],
  ◌∷◌, ◌++◌, drop, ◌||◌, set, replicate, length, length-append, length-drop, length-replicate,
  Option, none, some, Panic, Outcome, ok, panicked, arith, ltb, ◌==◌, if◌then◌else◌, Bool-cases,
  capacity_overflow, out_of_memory, usize_mod, not, ap,
}
use fastarena_rs.Block.{Os}
use fastarena_rs.InlineVec.{
  InlineVec, inline, Cells, array_ok, push, push_slow, push_heap, appended, heap_of, heap_grow,
  heap_alloc, doubled, promote_and_push, copy_nonoverlapping,
}
use fastarena_rs.InlineVec.Cells.{held, set-held_end, copy-held}
use fastarena_rs.InlineVec.Laws.{
  Holds, stays_inline, spilled, inline_form, heap_form, heap_cong, at_heap,
}

module _ {ℓ} {A : Type ℓ} where
  inline_form-append :
      (xs : List A) (rest : Cells A) (x : A)
      → 0 < length rest
      → appended (inline (set (held xs rest) (length xs) (some x))) false (inline_form xs rest)
        ≡ inline_form (xs ++ (x ∷ [])) (drop 1 rest)
  inline_form-append xs rest x room =
      ap₂ (λ (m : Cells A) (k : ℕ). record { storage = inline m; len = k; on_heap = false })
        (set-held_end xs rest x room) (omega (arith, length-append xs (x ∷ [])))

  heap_form-append :
      (xs : List A) (rest : Cells A) (x : A)
      → 0 < length rest
      → at_heap (set (held xs rest) (length xs) (some x)) (length xs + length rest) (length xs + 1)
        ≡ heap_form (xs ++ (x ∷ [])) (drop 1 rest)
  heap_form-append xs rest x room =
      heap_cong (set-held_end xs rest x room)
        (omega (arith, length-append xs (x ∷ []), length-drop 1 rest))
        (omega (arith, length-append xs (x ∷ [])))

  -- The number of elements that fit the memory of the vector.
  abbrev pub room : ℕ → InlineVec A → ℕ
  room n v = if v.on_heap then (heap_of v.storage).cap else n

  module _ (os : Os) (elem_size elem_align : ℕ) where
    -- The vector is full, and memory for twice the elements is refused.
    abbrev pub Refused : ℕ → InlineVec A → Panic → Type ℓ
    Refused n v e =
        (v.len ≡ room n v)
        × (((usize_mod ≤ room n v * 2) × (e ≡ capacity_overflow))
            ⊎ (heap_alloc {A = A} os elem_size elem_align (room n v * 2) ≡ panicked e))

    abbrev pub Appends : ℕ → InlineVec A → List A → Outcome (Unit {0}) × InlineVec A → Type ℓ
    Appends n v xs out =
        ((v' : InlineVec A) × (out ≡ (ok tt, v')) × Holds n elem_size elem_align v' xs)
        ⊎ ((e : Panic) × (out ≡ (panicked e, v)) × Refused n v e)

    -- What is allocated fits a layout and holds nothing.
    heap_alloc_lem :
        (capacity : ℕ)
        → ((array_ok elem_size elem_align capacity ≡ true)
            × (heap_alloc {A = A} os elem_size elem_align capacity ≡ ok (replicate capacity none)))
          ⊎ ((e : Panic) × (heap_alloc {A = A} os elem_size elem_align capacity ≡ panicked e))
    unfolding heap_alloc
    heap_alloc_lem capacity = elim (Bool-cases (array_ok elem_size elem_align capacity)) [
      | inr over ↦ inr (capacity_overflow, rw over refl)
      | inl fits ↦
          elim (Bool-cases
            ((elem_size * capacity == 0) || not (os (elem_size * capacity) elem_align == 0))) [
              | inl got ↦ inl (fits, rw (fits, got) refl)
              | inr null ↦ inr (out_of_memory, rw (fits, null) refl)
            ]
    ]

    doubled_lem :
        (capacity : ℕ)
        → ((array_ok elem_size elem_align (capacity * 2) ≡ true)
            × (doubled {A = A} os elem_size elem_align capacity
                ≡ ok (capacity * 2, replicate (capacity * 2) none)))
          ⊎ ((e : Panic) × (doubled {A = A} os elem_size elem_align capacity ≡ panicked e)
              × (((usize_mod ≤ capacity * 2) × (e ≡ capacity_overflow))
                  ⊎ (heap_alloc {A = A} os elem_size elem_align (capacity * 2) ≡ panicked e)))
    unfolding doubled
    doubled_lem capacity = elim (Bool-cases (ltb (capacity * 2) usize_mod)) [
      | inr over ↦ inr (capacity_overflow, rw over refl, inl (ground (arith, over), refl))
      | inl small ↦ elim (heap_alloc_lem (capacity * 2)) [
        | inl (fits, got) ↦ inl (fits, rw (small, got) refl)
        | inr (e, none_left) ↦ inr (e, rw (small, none_left) refl, inr none_left)
      ]
    ]

    module _ (n : ℕ) where
      inline_push :
          (xs : List A) (rest : Cells A) (x : A)
          → length xs + length rest ≡ n
          → 0 < length rest
          → push os elem_size elem_align n x (inline_form xs rest)
            ≡ (ok tt, inline_form (xs ++ (x ∷ [])) (drop 1 rest))
      unfolding push
      inline_push xs rest x size room =
          let fits : ltb (length xs) n ≡ true = ground arith in
          rw fits (ap (λ (v : InlineVec A). (ok (tt {0}), v)) (inline_form-append xs rest x room))

      heap_push :
          (xs : List A) (rest : Cells A) (x : A)
          → 0 < length rest
          → push os elem_size elem_align n x (heap_form xs rest)
            ≡ (ok tt, heap_form (xs ++ (x ∷ [])) (drop 1 rest))
      unfolding push push_slow
      heap_push xs rest x room =
          let more : (length xs == length xs + length rest) ≡ false = ground arith in
          rw more (ap (λ (v : InlineVec A). (ok (tt {0}), v)) (heap_form-append xs rest x room))

      -- The elements moved to the heap, with the new one behind them.
      moved :
          (xs : List A) (x : A) (count new_cap : ℕ)
          → length xs ≡ count
          → length xs < new_cap
          → array_ok elem_size elem_align new_cap ≡ true
          → Holds n elem_size elem_align
              (at_heap
                (set
                  (copy_nonoverlapping (held xs []) (replicate new_cap none) count)
                  (length xs)
                  (some x))
                new_cap
                (length xs + 1))
              (xs ++ (x ∷ []))
      moved xs x count new_cap all more fits =
          let cleared : length (replicate {A = Option A} new_cap none) ≡ new_cap =
            length-replicate new_cap none in
          let unused = drop (length xs) (replicate {A = Option A} new_cap none) in
          let size : length unused ≡ new_cap - length xs =
            omega
              (arith, length-drop (length xs) (replicate {A = Option A} new_cap none), cleared) in
          let written : set (copy_nonoverlapping (held xs []) (replicate new_cap none) count)
                (length xs) (some x)
              ≡ held (xs ++ (x ∷ [])) (drop 1 unused) =
            ap (λ (m : Cells A). set m (length xs) (some x))
              (ap (copy_nonoverlapping (held xs []) (replicate new_cap none)) (sym all)
                ∙ copy-held xs [] (replicate new_cap none))
            ∙ set-held_end xs unused x (omega arith) in
          let total : length (xs ++ (x ∷ [])) + length (drop 1 unused) ≡ new_cap =
            omega (arith, length-append xs (x ∷ []), length-drop 1 unused) in
          spilled (drop 1 unused)
            (heap_cong written (sym total) (omega (arith, length-append xs (x ∷ [])))) (omega arith)
            (ap (array_ok elem_size elem_align) total ∙ fits)

      promote :
          (xs : List A) (x : A)
          → length xs ≡ n
          → 0 < n
          → Appends n
              (inline_form xs [])
              (xs ++ (x ∷ []))
              (promote_and_push os elem_size elem_align n x (inline_form xs []))
      unfolding promote_and_push
      promote xs x size pos = elim (doubled_lem n) [
        | inl (fits, got) ↦
            rw (promote_and_push, got) (inl (_, refl, moved xs x n (n * 2) size (omega arith) fits))
        | inr (e, none_left, why) ↦ rw (promote_and_push, none_left) (inr (e, refl, (size, why)))
      ]

      regrow :
          (xs : List A) (x : A)
          → 0 < length xs
          → array_ok elem_size elem_align (length xs + 0) ≡ true
          → Appends n
              (heap_form xs [])
              (xs ++ (x ∷ []))
              (push_heap x (heap_grow os elem_size elem_align (heap_form xs [])))
      unfolding heap_grow
      regrow xs x pos fits = elim (doubled_lem (length xs + 0)) [
        | inl (more, got) ↦
            rw (heap_grow, got, fits)
              (inl (_, refl, moved xs x (length xs) ((length xs + 0) * 2) refl (omega arith) more))
        | inr (e, none_left, why) ↦ rw (heap_grow, none_left) (inr (e, refl, (omega arith, why)))
      ]

      push_inline :
          (xs : List A) (rest : Cells A) (x : A)
          → 0 < n
          → length xs + length rest ≡ n
          → Appends n
              (inline_form xs rest)
              (xs ++ (x ∷ []))
              (push os elem_size elem_align n x (inline_form xs rest))
      unfolding push push_slow
      push_inline xs [] x pos size =
          let not_below : ltb (length xs) n ≡ false = ground arith in
          let full : push os elem_size elem_align n x (inline_form xs [])
              ≡ promote_and_push os elem_size elem_align n x (inline_form xs []) =
            rw (not_below) refl in
          rw full (promote xs x (omega arith) pos)
      push_inline xs (c ∷ rest) x pos size = inl (
        _,
        inline_push xs (c ∷ rest) x size (omega arith),
        stays_inline rest refl (omega (arith, length-append xs (x ∷ []))),
      )

      push_spilled :
          (xs : List A) (rest : Cells A) (x : A)
          → 0 < length xs + length rest
          → array_ok elem_size elem_align (length xs + length rest) ≡ true
          → Appends n
              (heap_form xs rest)
              (xs ++ (x ∷ []))
              (push os elem_size elem_align n x (heap_form xs rest))
      unfolding push push_slow
      push_spilled xs [] x more fits =
          let at_end : (length xs == length xs + 0) ≡ true = ground arith in
          let full : push os elem_size elem_align n x (heap_form xs [])
              ≡ push_heap x (heap_grow os elem_size elem_align (heap_form xs [])) =
            rw at_end refl in
          rw full (regrow xs x (omega arith) fits)
      push_spilled xs (c ∷ rest) x more fits =
          let total : length (xs ++ (x ∷ [])) + length rest ≡ length xs + length (c ∷ rest) =
            omega (arith, length-append xs (x ∷ [])) in
          inl (
            _,
            heap_push xs (c ∷ rest) x (omega arith),
            spilled rest refl (omega arith) (ap (array_ok elem_size elem_align) total ∙ fits),
          )

      -- With at least one inline place, push on a vector that stands for a list appends to the
      -- list, inline, on the heap, or by moving to more memory; it panics only when the vector is
      -- full and memory for twice the elements is refused, and then changes nothing.
      pub push_lem :
          {v : InlineVec A} {xs : List A} (x : A)
          → 0 < n
          → Holds n elem_size elem_align v xs
          → Appends n v (xs ++ (x ∷ [])) (push os elem_size elem_align n x v)
      push_lem {v} {xs} x pos h = elim h [
        | stays_inline rest e size ↦ rw e (push_inline xs rest x pos size)
        | spilled rest e more fits ↦ rw e (push_spilled xs rest x more fits)
      ]
