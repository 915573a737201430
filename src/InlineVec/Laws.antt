-- ===== src/InlineVec/Laws.antt =====
-- The vector of util/inline_vec.rs is a list, inline and on the heap.
use fastarena_rs.Base.{
  ℕ, ◌+◌, ◌-◌, ◌<◌, ◌≡◌, refl, sym, ap, ap₂, ◌∙◌, ◌⊎◌, inl, inr, true, false, List, [], ◌∷◌, ◌++◌,
  take, set, get_elem?, replicate, length, length-append, length-set, length-replicate,
  get_elem?_past, Option, none, some, Outcome, ok, arith, ltb, ◌==◌, Bool-cases,
}
use fastarena_rs.InlineVec.{
  InlineVec, inline, heap, Cells, array_ok, new, as_slice, set_at, index, pop, cells, read_all,
  dropped, popped, read,
}
use fastarena_rs.InlineVec.Cells.{
  held, read-held, read-held_last, held-snoc, read_all-held, set-held, last_cases, nth,
}

module _ {ℓ} {A : Type ℓ} where
  abbrev pub inline_form : List A → Cells A → InlineVec A
  inline_form xs rest = record { storage = inline (held xs rest); len = length xs; on_heap = false }

  abbrev pub heap_form : List A → Cells A → InlineVec A
  heap_form xs rest = record {
    storage = heap (record { ptr = held xs rest; cap = length xs + length rest });
    len = length xs;
    on_heap = true;
  }

  abbrev pub shorter : InlineVec A → InlineVec A
  shorter v = record v { len = v.len - 1 }

  shorter-inline_form :
      (ys : List A) (y : A) (rest : Cells A)
      → shorter (inline_form (ys ++ (y ∷ [])) rest) ≡ inline_form ys (some y ∷ rest)
  shorter-inline_form ys y rest =
      ap₂ (λ (m : Cells A) (k : ℕ). record { storage = inline m; len = k; on_heap = false })
        (held-snoc ys y rest) (omega (arith, length-append ys (y ∷ [])))

  abbrev pub at_heap : Cells A → ℕ → ℕ → InlineVec A
  at_heap m c k = record { storage = heap (record { ptr = m; cap = c }); len = k; on_heap = true }

  pub heap_cong :
      {m m' : Cells A} {c c' k k' : ℕ} → m ≡ m' → c ≡ c' → k ≡ k' → at_heap m c k ≡ at_heap m' c' k'
  heap_cong {m} {c'} {k'} em ec ek =
      ap₂ (at_heap m) ec ek ∙ ap (λ (x : Cells A). at_heap x c' k') em

  shorter-heap_form :
      (ys : List A) (y : A) (rest : Cells A)
      → shorter (heap_form (ys ++ (y ∷ [])) rest) ≡ heap_form ys (some y ∷ rest)
  shorter-heap_form ys y rest =
      heap_cong (held-snoc ys y rest) (omega (arith, length-append ys (y ∷ [])))
        (omega (arith, length-append ys (y ∷ [])))

  -- The vector stands for the list: inline, where `n` is the constant `N`, or on the heap.
  pub data Holds (n elem_size elem_align : ℕ) (v : InlineVec A) (xs : List A) : Type ℓ where
    stays_inline :
        (rest : Cells A)
        → v ≡ inline_form xs rest
        → length xs + length rest ≡ n
        → Holds n elem_size elem_align v xs
    spilled :
        (rest : Cells A)
        → v ≡ heap_form xs rest
        → 0 < length xs + length rest
        → array_ok elem_size elem_align (length xs + length rest) ≡ true
        → Holds n elem_size elem_align v xs

  module _ (n elem_size elem_align : ℕ) where
    pub new-Holds : Holds n elem_size elem_align (new n) []
    unfolding new
    new-Holds = stays_inline (replicate n none) refl (rw length-replicate (omega arith))

    module _ {v : InlineVec A} {xs : List A} (h : Holds n elem_size elem_align v xs) where
      pub len_lem : v.len ≡ length xs
      len_lem = elim h [
        | stays_inline rest e size ↦ ap (λ (w : InlineVec A). w.len) e
        | spilled rest e pos fits ↦ ap (λ (w : InlineVec A). w.len) e
      ]

      pub cells_lem : (rest : Cells A) × (cells v ≡ held xs rest)
      cells_lem = elim h [
        | stays_inline rest e size ↦ (rest, rw e refl)
        | spilled rest e pos fits ↦ (rest, rw e refl)
      ]

      -- The slice of a vector that stands for a list is the list, and Drop drops its elements in
      -- order; no memory is read that holds no element.
      pub as_slice_lem : (as_slice v ≡ ok xs) × (dropped true v ≡ ok xs)
      unfolding as_slice dropped
      as_slice_lem =
          let (rest, e) = cells_lem in
          let all : read_all (take v.len (cells v)) ≡ ok xs =
            ap₂ (λ (k : ℕ) (m : Cells A). read_all (take k m)) len_lem e ∙ read_all-held xs rest in
          (all, all)

      -- indexing a vector that stands for a list panics where the list has no such element, and
      -- gives the element of the list otherwise.
      pub index_lem : (i : ℕ) → index v i ≡ nth (get_elem? xs i)
      unfolding index
      index_lem i =
          let (rest, e) = cells_lem in
          elim (Bool-cases (ltb i (length xs))) [
            | inl inside ↦ rw (e, len_lem, inside) (read-held xs rest i (ground (arith, inside)))
            | inr outside ↦
                rw (len_lem, outside) (sym (ap nth (get_elem?_past xs i (ground (arith, outside)))))
          ]

      shorter-Holds :
          (ys : List A) (y : A) → xs ≡ ys ++ (y ∷ []) → Holds n elem_size elem_align (shorter v) ys
      shorter-Holds ys y e =
          let more : length xs ≡ length ys + 1 =
            omega (arith, ap length e, length-append ys (y ∷ [])) in
          elim h [
            | stays_inline rest q size ↦
                stays_inline (some y ∷ rest)
                  (ap shorter (q ∙ ap (λ (zs : List A). inline_form zs rest) e)
                    ∙ shorter-inline_form ys y rest)
                  (omega arith)
            | spilled rest q pos fits ↦
                spilled (some y ∷ rest)
                  (ap shorter (q ∙ ap (λ (zs : List A). heap_form zs rest) e)
                    ∙ shorter-heap_form ys y rest)
                  (omega arith) (ap (array_ok elem_size elem_align) (omega arith) ∙ fits)
          ]

      last_read :
          (ys : List A) (y : A)
          → xs ≡ ys ++ (y ∷ [])
          → popped (read (cells v) (v.len - 1)) ≡ ok (some y)
      last_read ys y e =
          let (rest, q) = cells_lem in
          ap₂ (λ (m : Cells A) (k : ℕ). popped (read m k))
            (q ∙ ap (λ (zs : List A). held zs rest) e)
            (omega (arith, len_lem, ap length e, length-append ys (y ∷ [])))
          ∙ ap popped (read-held_last ys y rest)

      pub pop_last :
          (ys : List A) (y : A)
          → xs ≡ ys ++ (y ∷ [])
          → (pop v ≡ (ok (some y), shorter v)) × Holds n elem_size elem_align (shorter v) ys
      unfolding pop
      pop_last ys y e =
          let more : (v.len == 0) ≡ false =
            ground (arith, len_lem, ap length e, length-append ys (y ∷ [])) in
          (
            rw more (ap (λ (r : Outcome (Option A)). (r, shorter v)) (last_read ys y e)),
            shorter-Holds ys y e,
          )

      -- pop on a vector that stands for a list returns None and changes nothing if the list is
      -- empty; otherwise it returns the last element, and the vector stands for the others.
      pub pop_lem :
          ((xs ≡ []) × (pop v ≡ (ok none, v)))
          ⊎ ((ys : List A) × (y : A) × (v' : InlineVec A) × (xs ≡ ys ++ (y ∷ []))
              × (pop v ≡ (ok (some y), v'))
              × Holds n elem_size elem_align v' ys)
      unfolding pop
      pop_lem = elim (last_cases xs) [
        | inl e ↦ inl (e, rw (len_lem ∙ ap length e) refl)
        | inr (ys, y, e) ↦ inr (ys, y, shorter v, e, (pop_last ys y e).0, (pop_last ys y e).1)
      ]

      pub set_at_lem :
          (i : ℕ) (x : A) → i < length xs → Holds n elem_size elem_align (set_at i x v) (set xs i x)
      unfolding set_at
      set_at_lem i x inside = elim h [
        | stays_inline rest e size ↦
            stays_inline rest
              (rw e (
                ap₂
                  (λ (m : Cells A) (k : ℕ). record { storage = inline m; len = k; on_heap = false })
                  (set-held xs rest i x inside) (sym (length-set xs i x))))
              (omega (arith, length-set xs i x))
        | spilled rest e pos fits ↦
            let total : length (set xs i x) + length rest ≡ length xs + length rest =
              omega (arith, length-set xs i x) in
            spilled rest
              (rw e (heap_cong (set-held xs rest i x inside) (sym total) (sym (length-set xs i x))))
              (omega arith) (ap (array_ok elem_size elem_align) total ∙ fits)
      ]
