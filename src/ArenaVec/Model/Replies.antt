-- ===== src/ArenaVec/Model/Replies.antt =====
-- What a call answers and leaves behind is what a step of the specification allows.
use fastarena_rs.Base.{
  Bool-cases, Option-cases, index_out_of_bounds, inl, inr, ℕ, ◌-◌, ◌≡◌, refl, sym, subst, List, [],
  ◌∷◌, ◌++◌, length, arith, Bool, true, if◌then◌else◌, Option, none, some, Outcome, ok, panicked,
  Result, done, failed, take, replicate, set, get_elem?, ltb, set_past,
}
use fastarena_rs.ArenaVec.{ArenaVec, TryReserveError}
use fastarena_rs.ArenaVec.Frame.{Holds, Became}
use fastarena_rs.ArenaVec.Push.{PushAfter, TryPushAfter}
use fastarena_rs.ArenaVec.Items.{unchanged, PopAfter, element_or_panic}
use fastarena_rs.ArenaVec.Reserve.{ReserveAfter, TryReserveAfter}
use fastarena_rs.ArenaVec.Bulk.Laws.{ExtendAfter}
use fastarena_rs.ArenaVec.Bulk.Resize.{ResizeAfter}
use fastarena_rs.ArenaVec.Model.{
  Op, Reply, Step, pushes, try_pushes, hands_back, pops_none, pops, indexes, index_panics, sets,
  set_panics, extends, extends_from_slice, resizes, refuses, unit_reply, try_reply, try_push_reply,
  dropped_reply, index_reply, call_push, call_try_push, call_pop, call_index, call_index_set,
  call_extend_exact, call_extend_from_slice, call_resize, returned, handed_back, value, dropped,
  may_refuse,
}

module _ (size : ℕ) where
  -- The specification has a step with this reply, and the vector holds the list after it.
  abbrev pub Refined : ArenaVec → List (List ℕ) → Op → Reply × ArenaVec → Type 0
  Refined v xs op (r, w) = (ys : List (List ℕ)) × Step xs op r ys × Became size v ys w

  module _ (v : ArenaVec) (xs : List (List ℕ)) where
    pub push-Refined :
        (x : List ℕ) (out : Outcome (Unit {0}) × ArenaVec)
        → PushAfter size v xs (x ∷ []) out
        → Refined v xs (call_push x) (unit_reply out)
    push-Refined x (ok _, w) became = (xs ++ (x ∷ []), pushes, became)
    push-Refined x (panicked e, w) became = (xs, refuses refl, became)

    pub try_push-Refined :
        (x : List ℕ) (out : Outcome (Result (Unit {0}) (List ℕ)) × ArenaVec)
        → TryPushAfter size v xs x out
        → Refined v xs (call_try_push x) (try_push_reply out)
    try_push-Refined x (ok (done _), w) became = (xs ++ (x ∷ []), try_pushes, became)
    try_push-Refined x (ok (failed y), w) (same, became) = (
      xs,
      subst (λ (z : List ℕ). Step xs (call_try_push x) (handed_back z) xs) (sym same) hands_back,
      became,
    )
    try_push-Refined x (panicked e, w) became = (xs, refuses refl, became)

    pub pop-Refined :
        (out : Option (List ℕ) × ArenaVec)
        → Holds size v xs
        → PopAfter size v xs out
        → Refined v xs call_pop (value out.0, out.1)
    pop-Refined (none, w) h (empty, same) = (
      [],
      subst (λ (r : List (List ℕ)). Step r call_pop (value none) []) (sym empty) pops_none,
      subst (λ (u : ArenaVec). Became size v [] u) (sym same)
          (subst (λ (r : List (List ℕ)). Became size v r v) empty (unchanged size h)),
    )
    pop-Refined (some x, w) h (ys, split, became) = (
      ys,
      subst (λ (r : List (List ℕ)). Step r call_pop (value (some x)) ys) (sym split) pops,
      became,
    )

    pub extend_exact-Refined :
        (n : ℕ) (iter : List (List ℕ)) (out : Outcome (Unit {0}) × ArenaVec)
        → ExtendAfter size v xs n iter out
        → Refined v xs (call_extend_exact n iter) (unit_reply out)
    extend_exact-Refined n iter (ok _, w) (enough, became) =
        (xs ++ take n iter, extends enough, became)
    extend_exact-Refined n iter (panicked e, w) became = (xs, refuses refl, became)

    pub extend_from_slice-Refined :
        (ys : List (List ℕ)) (out : Outcome (Unit {0}) × ArenaVec)
        → PushAfter size v xs ys out
        → Refined v xs (call_extend_from_slice ys) (unit_reply out)
    extend_from_slice-Refined ys (ok _, w) became = (xs ++ ys, extends_from_slice, became)
    extend_from_slice-Refined ys (panicked e, w) became = (xs, refuses refl, became)

    pub resize-Refined :
        (clone : List ℕ → List ℕ) (needs_drop : Bool) (n : ℕ) (x : List ℕ)
        (out : Outcome (List (List ℕ)) × ArenaVec)
        → length xs ≡ v.len
        → ResizeAfter size v xs needs_drop n (clone x) out
        → Refined v xs (call_resize clone needs_drop n x) (dropped_reply out)
    resize-Refined clone needs_drop n x (ok gone, w) count (same, became) = (
      take n xs ++ replicate (n - length xs) (clone x),
      subst
          (λ (r : List (List ℕ)).
            Step xs (call_resize clone needs_drop n x) (dropped r)
              (take n xs ++ replicate (n - length xs) (clone x)))
          (sym same) resizes,
      rw count became,
    )
    resize-Refined clone needs_drop n x (panicked e, w) count became = (xs, refuses refl, became)

    pub reserve-Refined :
        (op : Op) (required : ℕ) (out : Outcome (Unit {0}) × ArenaVec)
        → may_refuse op ≡ true
        → Step xs op returned xs
        → ReserveAfter size v xs required out
        → Refined v xs op (unit_reply out)
    reserve-Refined op required (ok _, w) refusing step (became, enough, more) = (xs, step, became)
    reserve-Refined op required (panicked e, w) refusing step (became, same) =
        (xs, refuses refusing, became)

    pub try_reserve-Refined :
        (op : Op) (required : ℕ) (out : Outcome (Result (Unit {0}) TryReserveError) × ArenaVec)
        → may_refuse op ≡ true
        → Step xs op returned xs
        → TryReserveAfter size v xs required out
        → Refined v xs op (try_reply out)
    try_reserve-Refined op required (ok (done _), w) refusing step (became, enough, more) =
        (xs, step, became)
    try_reserve-Refined op required (ok (failed e), w) refusing step (became, same) =
        (xs, refuses refusing, became)
    try_reserve-Refined op required (panicked e, w) refusing step (became, same) =
        (xs, refuses refusing, became)

    pub index-Refined :
        (i : ℕ)
        → Holds size v xs
        → Refined v xs (call_index i) (index_reply v (element_or_panic (get_elem? xs i)))
    index-Refined i h = elim (Option-cases (get_elem? xs i)) [
      | inl past ↦ rw past (xs, index_panics past, unchanged size h)
      | inr (x, here) ↦ rw here (xs, indexes here, unchanged size h)
    ]

    pub index_set-Refined :
        (i : ℕ) (x : List ℕ) (out : Outcome (Unit {0}) × ArenaVec)
        → out.0 ≡ (if ltb i (length xs) then ok tt else panicked index_out_of_bounds)
        → Became size v (set xs i x) out.1
        → Refined v xs (call_index_set i x) (unit_reply out)
    index_set-Refined i x (ok _, w) e became = elim (Bool-cases (ltb i (length xs))) [
      | inl inside ↦ (set xs i x, sets inside, became)
      | inr outside ↦ absurd (ground arith)
    ]
    index_set-Refined i x (panicked q, w) e became = elim (Bool-cases (ltb i (length xs))) [
      | inl inside ↦ absurd (ground arith)
      | inr outside ↦ (
        xs,
        set_panics outside,
        subst (λ (r : List (List ℕ)). Became size v r w) (set_past xs i x (ground arith)) became,
      )
    ]
