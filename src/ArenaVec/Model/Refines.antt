-- ===== src/ArenaVec/Model/Refines.antt =====
-- Every call of a vector in an arena is a step of the specification.
use fastarena_rs.Base.{
  ◌<◌, ℕ, ◌+◌, ◌≡◌, refl, sym, subst, List, [], ◌∷◌, length, true, is_power_of_two, take, min,
  usize_max, usize_mod,
}
use fastarena_rs.Block.{Os}
use fastarena_rs.Arena.Valid.{IsFresh}
use fastarena_rs.Typed.Slices.{AllSized}
use fastarena_rs.ArenaVec.{ArenaVec}
use fastarena_rs.ArenaVec.Frame.{Holds, Became, Became-trans}
use fastarena_rs.ArenaVec.Resize.{Reaches}
use fastarena_rs.ArenaVec.Push.{push_lem, try_push_lem}
use fastarena_rs.ArenaVec.Items.{
  length-Holds, unchanged, pop_lem, truncate_lem, clear_lem, index_lem, index_set_lem,
}
use fastarena_rs.ArenaVec.Reserve.{
  reserve_lem, reserve_exact_lem, try_reserve_lem, try_reserve_exact_lem,
}
use fastarena_rs.ArenaVec.Bulk.Laws.{extend_exact_lem, extend_from_slice_lem}
use fastarena_rs.ArenaVec.Bulk.Resize.{resize_lem}
use fastarena_rs.ArenaVec.Model.{
  Op, Step, Steps, stops, goes_on, exec, run, truncates, clears, reserves, reserves_exact,
  try_reserves, try_reserves_exact, call_push, call_try_push, call_pop, call_truncate, call_clear,
  call_index, call_index_set, call_extend_exact, call_extend_from_slice, call_resize, call_reserve,
  call_reserve_exact, call_try_reserve, call_try_reserve_exact, dropped,
}
use fastarena_rs.ArenaVec.Model.Replies.{
  Refined, push-Refined, try_push-Refined, pop-Refined, extend_exact-Refined,
  extend_from_slice-Refined, resize-Refined, reserve-Refined, try_reserve-Refined, index-Refined,
  index_set-Refined,
}

module _ (size : ℕ) where
  -- Elements have the size of their type, and a reservation stays within the address space.
  abbrev pub Fits : Op → ArenaVec → Type 0
  Fits (call_push x) v = length x ≡ size
  Fits (call_try_push x) v = length x ≡ size
  Fits call_pop v = Unit {0}
  Fits (call_truncate needs_drop n) v = Unit {0}
  Fits (call_clear needs_drop) v = Unit {0}
  Fits (call_index i) v = Unit {0}
  Fits (call_index_set i x) v = length x ≡ size
  Fits (call_extend_exact n iter) v = AllSized size iter × Reaches size v (v.len + n)
  Fits (call_extend_from_slice xs) v = AllSized size xs × Reaches size v (v.len + length xs)
  Fits (call_resize clone needs_drop n x) v = (length (clone x) ≡ size) × Reaches size v n
  Fits (call_reserve n) v = (v.len < usize_mod) × Reaches size v (min (v.len + n) usize_max)
  Fits (call_reserve_exact n) v = Reaches size v (v.len + n)
  Fits (call_try_reserve n) v = (v.len < usize_mod) × Reaches size v (min (v.len + n) usize_max)
  Fits (call_try_reserve_exact n) v = Reaches size v (v.len + n)

  -- At each call the system allocator returns memory that the arena does not own, and the call fits.
  abbrev pub IsServed : ℕ → List (Os × Op) → ArenaVec → Type 0
  IsServed align [] v = Unit {0}
  IsServed align ((os, op) ∷ ops) v =
      IsFresh os v.store.arena.blocks × Fits op v × IsServed align ops (exec size align os op v).1

  module _ (align : ℕ) (two : is_power_of_two align ≡ true) where
    -- A call that fits is a step of the specification.
    pub exec-Step :
        (os : Os) (op : Op) (v : ArenaVec) (xs : List (List ℕ))
        → Holds size v xs
        → IsFresh os v.store.arena.blocks
        → Fits op v
        → Refined size v xs op (exec size align os op v)
    exec-Step os (call_push x) v xs h fresh sized =
        push-Refined size v xs x _ (push_lem size os align x h fresh two sized)
    exec-Step os (call_try_push x) v xs h fresh sized =
        try_push-Refined size v xs x _ (try_push_lem size os align x h fresh two sized)
    exec-Step os call_pop v xs h fresh _ = pop-Refined size v xs _ h (pop_lem size h)
    exec-Step os (call_truncate needs_drop n) v xs h fresh _ =
        let (gone, became) = truncate_lem size h needs_drop n in
        (
          take n xs,
          subst
              (λ (r : List (List ℕ)). Step xs (call_truncate needs_drop n) (dropped r) (take n xs))
              (sym gone) truncates,
          became,
        )
    exec-Step os (call_clear needs_drop) v xs h fresh _ =
        let (gone, became) = clear_lem size h needs_drop in
        (
          [],
          subst (λ (r : List (List ℕ)). Step xs (call_clear needs_drop) (dropped r) []) (sym gone)
              clears,
          became,
        )
    exec-Step os (call_index i) v xs h fresh _ =
        rw (index_lem size h i) (index-Refined size v xs i h)
    exec-Step os (call_index_set i x) v xs h fresh sized =
        let (e, became) = index_set_lem size h i x sized in
        index_set-Refined size v xs i x _ e became
    exec-Step os (call_extend_exact n iter) v xs h fresh (all, reaches) =
        extend_exact-Refined size v xs n iter _
          (extend_exact_lem size h os align fresh two n iter all reaches)
    exec-Step os (call_extend_from_slice ys) v xs h fresh (all, reaches) =
        extend_from_slice-Refined size v xs ys _
          (extend_from_slice_lem size h os align fresh two ys all reaches)
    exec-Step os (call_resize clone needs_drop n x) v xs h fresh (sized, reaches) =
        resize-Refined size v xs clone needs_drop n x _ (length-Holds size h)
          (resize_lem size h os align fresh two clone needs_drop n x sized reaches)
    exec-Step os (call_reserve n) v xs h fresh (small, reaches) =
        reserve-Refined size v xs (call_reserve n) _ _ refl reserves
          (reserve_lem size h os align fresh two n small reaches)
    exec-Step os (call_reserve_exact n) v xs h fresh reaches =
        reserve-Refined size v xs (call_reserve_exact n) _ _ refl reserves_exact
          (reserve_exact_lem size h os align fresh two n reaches)
    exec-Step os (call_try_reserve n) v xs h fresh (small, reaches) =
        try_reserve-Refined size v xs (call_try_reserve n) _ _ refl try_reserves
          (try_reserve_lem size h os align fresh two n small reaches)
    exec-Step os (call_try_reserve_exact n) v xs h fresh reaches =
        try_reserve-Refined size v xs (call_try_reserve_exact n) _ _ refl try_reserves_exact
          (try_reserve_exact_lem size h os align fresh two n reaches)

    -- When a vector in a valid arena stands for a list of elements of one size, with an alignment
    -- that is a power of two: after any sequence of pushes, pops, truncations, clears, reads,
    -- writes, extensions from an iterator or a slice, resizes and reservations, the fallible ones
    -- too, where each call meets a system allocator that keeps its promises and returns memory
    -- apart from the blocks of the arena, is given elements of that size, and, if it names a
    -- capacity for a vector that has one, keeps the end of that capacity within the address
    -- space, the replies are those of a run of the specification on the list, the vector stands
    -- for the list at the end of that run, and memory that was in use outside of the vector is as
    -- it was. In the specification a call that may grow the vector can refuse and then leaves the
    -- list as it is.
    pub run-Steps :
        (ops : List (Os × Op)) (v : ArenaVec) (xs : List (List ℕ))
        → Holds size v xs
        → IsServed align ops v
        → (ys : List (List ℕ)) × Steps xs ops (run size align ops v).0 ys
          × Became size v ys (run size align ops v).1
    run-Steps [] v xs h served = (xs, stops, unchanged size h)
    run-Steps ((os, op) ∷ ops) v xs h (fresh, fits, served) =
        let (ys, step, first) = exec-Step os op v xs h fresh fits in
        let (zs, steps, rest) = run-Steps ops (exec size align os op v).1 ys first.holds served in
        (zs, goes_on step steps, Became-trans size h.vec first rest)
