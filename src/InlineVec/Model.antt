-- ===== src/InlineVec/Model.antt =====
-- The vector of util/inline_vec.rs against its specification: a transition system on lists, in which
-- only a push may fail, for want of memory.
use fastarena_rs.Base.{
  ℕ, ◌*◌, ◌<◌, ◌≡◌, sym, subst, ◌⊎◌, inl, inr, true, List, [], ◌∷◌, ◌++◌, length, set, get_elem?,
  Option, none, some, Outcome, ok, panicked, Panic, index_out_of_bounds, out_of_memory,
  capacity_overflow, ◌≤◌, ltb, Bool-cases, arith,
}
use fastarena_rs.Block.{Os}
use fastarena_rs.InlineVec as Inline
use fastarena_rs.InlineVec.{InlineVec}
use fastarena_rs.InlineVec.Cells.{nth}
use fastarena_rs.InlineVec.Laws.{Holds, as_slice_lem, index_lem, pop_lem, set_at_lem, len_lem}
use fastarena_rs.InlineVec.Push.{Refused, room, push_lem}

-- The calls that the owner of a vector can make.
pub data Op {ℓ} (A : Type ℓ) : Type ℓ where
  call_push : A → Op A
  call_pop : Op A
  call_index : ℕ → Op A
  call_index_set : ℕ → A → Op A
  call_as_slice : Op A

pub data Reply {ℓ} (A : Type ℓ) : Type ℓ where
  returned : Reply A
  panics : Panic → Reply A
  value : Option A → Reply A
  items : List A → Reply A

module _ {ℓ} {A : Type ℓ} where
  abbrev pub unit_reply : Outcome (Unit {0}) × InlineVec A → Reply A × InlineVec A
  unit_reply (ok _, v) = (returned, v)
  unit_reply (panicked e, v) = (panics e, v)

  abbrev pub pop_reply : Outcome (Option A) × InlineVec A → Reply A × InlineVec A
  pop_reply (ok x, v) = (value x, v)
  pop_reply (panicked e, v) = (panics e, v)

  abbrev pub index_reply : Outcome A → Reply A
  index_reply (ok x) = value (some x)
  index_reply (panicked e) = panics e

  abbrev pub slice_reply : Outcome (List A) → Reply A
  slice_reply (ok xs) = items xs
  slice_reply (panicked e) = panics e

  -- One call on the list: what it answers, and the list after it. A read of memory that holds no
  -- value would be the panic `undefined`, which no step has.
  pub data Step : List A → Op A → Reply A → List A → Type ℓ where
    pushes : {xs : List A} {x : A} → Step xs (call_push x) returned (xs ++ (x ∷ []))
    refuses :
        {xs : List A} {x : A} {e : Panic}
        → (e ≡ out_of_memory) ⊎ (e ≡ capacity_overflow)
        → Step xs (call_push x) (panics e) xs
    pops_none : Step [] call_pop (value none) []
    pops : {ys : List A} {y : A} → Step (ys ++ (y ∷ [])) call_pop (value (some y)) ys
    indexes : {xs : List A} {i : ℕ} → Step xs (call_index i) (index_reply (nth (get_elem? xs i))) xs
    sets :
        {xs : List A} {i : ℕ} {x : A}
        → i < length xs
        → Step xs (call_index_set i x) returned (set xs i x)
    set_panics :
        {xs : List A} {i : ℕ} {x : A}
        → length xs ≤ i
        → Step xs (call_index_set i x) (panics index_out_of_bounds) xs
    slices : {xs : List A} → Step xs call_as_slice (items xs) xs

  -- Each call with the system allocator as it is then; the owner may go on after a panic.
  pub data Steps : List A → List (Os × Op A) → List (Reply A) → List A → Type ℓ where
    stops : {xs : List A} → Steps xs [] [] xs
    goes_on :
        {xs ys zs : List A} {os : Os} {op : Op A} {reply : Reply A} {ops : List (Os × Op A)}
        {replies : List (Reply A)}
        → Step xs op reply ys
        → Steps ys ops replies zs
        → Steps xs ((os, op) ∷ ops) (reply ∷ replies) zs

  module _ (elem_size elem_align n : ℕ) where
    abbrev pub exec : Os → Op A → InlineVec A → Reply A × InlineVec A
    exec os (call_push x) v = unit_reply (Inline.push os elem_size elem_align n x v)
    exec os call_pop v = pop_reply (Inline.pop v)
    exec os (call_index i) v = (index_reply (Inline.index v i), v)
    exec os (call_index_set i x) v = unit_reply (Inline.index_set i x v)
    exec os call_as_slice v = (slice_reply (Inline.as_slice v), v)

    abbrev pub exec_all : List (Os × Op A) → InlineVec A → List (Reply A) × InlineVec A
    exec_all [] v = ([], v)
    exec_all ((os, op) ∷ ops) v =
        let (reply, w) = exec os op v in let (replies, u) = exec_all ops w in (reply ∷ replies, u)

    -- The specification has a step with this reply, and the vector stands for the list after it.
    abbrev Refined : List A → Op A → Reply A × InlineVec A → Type ℓ
    Refined xs op (reply, w) =
        (ys : List A) × Step xs op reply ys × Holds n elem_size elem_align w ys

    heap_alloc_why :
        (os : Os) (capacity : ℕ) (e : Panic)
        → Inline.heap_alloc {A = A} os elem_size elem_align capacity ≡ panicked e
        → (e ≡ out_of_memory) ⊎ (e ≡ capacity_overflow)
    unfolding Inline.heap_alloc
    heap_alloc_why os capacity e h = ground (arith, h)

    refusal_why :
        (os : Os) (v : InlineVec A) (e : Panic)
        → Refused {A = A} os elem_size elem_align n v e
        → (e ≡ out_of_memory) ⊎ (e ≡ capacity_overflow)
    refusal_why os v e (full, inl (over, why)) = inr why
    refusal_why os v e (full, inr none_given) = heap_alloc_why os (room n v * 2) e none_given

    push-Refined :
        (os : Os) (x : A) (v : InlineVec A) (xs : List A)
        → 0 < n
        → Holds n elem_size elem_align v xs
        → Refined xs (call_push x) (exec os (call_push x) v)
    push-Refined os x v xs pos h = elim (push_lem os elem_size elem_align n x pos h) [
      | inl (v', e, holds) ↦ rw e (xs ++ (x ∷ []), pushes, holds)
      | inr (e, q, (full, why)) ↦ rw q (xs, refuses (refusal_why os v e (full, why)), h)
    ]

    pop-Refined :
        (os : Os) (v : InlineVec A) (xs : List A)
        → Holds n elem_size elem_align v xs
        → Refined xs call_pop (exec os call_pop v)
    pop-Refined os v xs h = elim (pop_lem n elem_size elem_align h) [
      | inl (empty, e) ↦ rw e (
        [],
        subst (λ (r : List A). Step r call_pop (value none) []) (sym empty) pops_none,
        subst (λ (r : List A). Holds n elem_size elem_align v r) empty h,
      )
      | inr (ys, y, v', split, e, holds) ↦
          rw e (
            ys,
            subst (λ (r : List A). Step r call_pop (value (some y)) ys) (sym split) pops,
            holds,
          )
    ]

    set-Refined :
        (os : Os) (i : ℕ) (x : A) (v : InlineVec A) (xs : List A)
        → Holds n elem_size elem_align v xs
        → Refined xs (call_index_set i x) (exec os (call_index_set i x) v)
    unfolding Inline.index_set
    set-Refined os i x v xs h =
        let count = len_lem n elem_size elem_align h in
        elim (Bool-cases (ltb i v.len)) [
          | inl inside ↦
              let less : i < length xs = ground (arith, inside) in
              rw inside (set xs i x, sets less, set_at_lem n elem_size elem_align h i x less)
          | inr outside ↦ rw outside (xs, set_panics (ground (arith, outside)), h)
        ]

    exec-Refined :
        (os : Os) (op : Op A) (v : InlineVec A) (xs : List A)
        → 0 < n
        → Holds n elem_size elem_align v xs
        → Refined xs op (exec os op v)
    exec-Refined os (call_push x) v xs pos h = push-Refined os x v xs pos h
    exec-Refined os call_pop v xs pos h = pop-Refined os v xs h
    exec-Refined os (call_index i) v xs pos h =
        rw (index_lem n elem_size elem_align h i) (xs, indexes, h)
    exec-Refined os (call_index_set i x) v xs pos h = set-Refined os i x v xs h
    exec-Refined os call_as_slice v xs pos h =
        rw ((as_slice_lem n elem_size elem_align h).0) (xs, slices, h)

    -- With at least one inline place, when a vector stands for a list: after any sequence of
    -- pushes, pops, reads and writes of an element and of views of the slice, with any system
    -- allocator at each, the answers are those of a run of the specification on the list, the
    -- vector stands for the list at the end of that run, inline or on the heap, and Drop drops
    -- its elements in order. In the specification only a push may refuse, for want of memory, and
    -- then leaves the list as it is, and no memory is read that holds no element.
    pub exec_all-Steps :
        (ops : List (Os × Op A)) (v : InlineVec A) (xs : List A)
        → 0 < n
        → Holds n elem_size elem_align v xs
        → let (replies, w) = exec_all ops v in
          (ys : List A) × Steps xs ops replies ys
          × Holds n elem_size elem_align w ys
          × (Inline.dropped true w ≡ ok ys)
    exec_all-Steps [] v xs pos h = (xs, stops, h, (as_slice_lem n elem_size elem_align h).1)
    exec_all-Steps ((os, op) ∷ ops) v xs pos h =
        let (ys, step, holds) = exec-Refined os op v xs pos h in
        let (zs, steps, last, dropped) = exec_all-Steps ops (exec os op v).1 ys pos holds in
        (zs, goes_on step steps, last, dropped)
