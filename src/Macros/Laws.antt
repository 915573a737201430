-- ===== src/Macros/Laws.antt =====
-- What the vectors of `arenavec!` hold.
use fastarena_rs.Base.{
  ℕ, ◌+◌, ◌*◌, ◌≡◌, refl, ap, inr, List, [], ◌∷◌, replicate, length, length-replicate, arith, true,
  Outcome, ok, panicked, is_power_of_two, and_then, M, take_all,
}
use fastarena_rs.Block.{Os}
use fastarena_rs.Arena.Valid.{IsValid, IsFresh}
use fastarena_rs.Typed.{Store}
use fastarena_rs.ArenaVec.{ArenaVec, new, with_capacity, push}
use fastarena_rs.ArenaVec.Bulk.{extend, extend_exact}
use fastarena_rs.ArenaVec.Bulk.Laws.{ExtendAfter, extend_exact_lem}
use fastarena_rs.ArenaVec.Bulk.Writes.{AllSized-replicate}
use fastarena_rs.ArenaVec.Bulk.Extend.{IsServed, ExtendedAfter, items, extend_lem}
use fastarena_rs.ArenaVec.Resize.{GrowAfter, Resized}
use fastarena_rs.ArenaVec.Push.{Resized-Became}
use fastarena_rs.ArenaVec.Frame.{Became, Became-trans}
use fastarena_rs.ArenaVec.Reserve.{new-Holds, with_capacity_lem}
use mathlib.Core.Path.{fun_ext}
use fastarena_rs.Macros.{push_each, arenavec_list, arenavec_repeat}

push_each-extend :
    (size align : ℕ) (elems : List (Os × List ℕ)) (v : ArenaVec)
    → push_each size align elems v ≡ extend size align elems v
unfolding push_each extend
push_each-extend size align [] v = refl
push_each-extend size align ((os, x) ∷ elems) v =
    let rest : push_each size align elems ≡ extend size align elems =
      fun_ext (λ w. push_each-extend size align elems w) in
    ap (λ (f : M ArenaVec (Unit {0})). and_then (push size os align x v) (λ _. f)) rest

-- A panic leaves the vector empty.
abbrev pub RepeatAfter : ℕ → ℕ → Store → ℕ → List ℕ → Outcome (Unit {0}) × ArenaVec → Type 0
RepeatAfter size align s count x (ok _, w) = Became size (new align s) (replicate count x) w
RepeatAfter size align s count x (panicked e, w) = Became size (new align s) [] w

module _ (size align : ℕ) (s : Store) (valid : IsValid s.arena)
    (two : is_power_of_two align ≡ true) where
  -- The list form is a push for each element: the vector stands for them, or, where a push
  -- panics, for the first of them.
  pub arenavec_list_lem :
      (elems : List (Os × List ℕ))
      → IsServed size align elems (new align s)
      → ExtendedAfter size align
          (new align s)
          []
          (items size align elems)
          (arenavec_list size align elems s)
  unfolding arenavec_list
  arenavec_list_lem elems served =
      rw (push_each-extend size align elems (new align s))
        (extend_lem size align two elems (new align s) [] (new-Holds size align s two valid) served)

  repeated :
      (count : ℕ) (x : List ℕ) (w : ArenaVec) (out : Outcome (Unit {0}) × ArenaVec)
      → Became size (new align s) [] w
      → ExtendAfter size w [] count (replicate count x) out
      → RepeatAfter size align s count x out
  repeated count x w (ok _, w') first (enough, then) =
      let e = take_all count (replicate count x) (omega (arith, length-replicate count x)) in
      Became-trans size (new-Holds size align s two valid).vec first (rw e at then)
  repeated count x w (panicked e, w') first same =
      Became-trans size (new-Holds size align s two valid).vec first same

  filled_up :
      (later_os : Os) (count : ℕ) (x : List ℕ) (out : Outcome (Unit {0}) × ArenaVec)
      → length x ≡ size
      → GrowAfter size (new align s) [] count out
      → ((w : ArenaVec) → out ≡ (ok tt, w) → IsFresh later_os w.store.arena.blocks)
      → RepeatAfter size align s count x
          (and_then out (λ _. extend_exact size later_os align count (replicate count x)))
  unfolding new
  filled_up later_os count x (ok _, w) sized r fresh =
      let g : Resized size (new align s) [] count w = r in
      let first = Resized-Became size g in
      let all_of_it : (w.len + count) * size ≡ w.cap * size =
        ap (λ (n : ℕ). n * size) (omega (arith, g.len, g.cap)) in
      repeated count x w _ first (
        extend_exact_lem size r.holds later_os align (fresh w refl) two count (replicate count x)
          (AllSized-replicate size count x sized) (inr (omega (arith, first.holds.vec.low))))
  filled_up later_os count x (panicked e, w) sized r fresh = Resized-Became size r

  -- On a valid arena, with an alignment that is a power of two and a clone of the size of the
  -- type, if the system allocator keeps its promises and returns memory apart from the blocks of
  -- the arena at both calls, arenavec![in arena; elem; count] makes a vector that stands for
  -- count clones, or panics with a vector that stands for the empty list; memory in use before is
  -- as it was.
  pub arenavec_repeat_lem :
      (clone : List ℕ → List ℕ) (os later_os : Os) (elem : List ℕ) (count : ℕ)
      → length (clone elem) ≡ size
      → IsFresh os s.arena.blocks
      → ((w : ArenaVec)
          → with_capacity size os align count s ≡ (ok tt, w)
          → IsFresh later_os w.store.arena.blocks)
      → RepeatAfter size align s count
          (clone elem)
          (arenavec_repeat size align clone os later_os elem count s)
  unfolding arenavec_repeat
  arenavec_repeat_lem clone os later_os elem count sized fresh later_fresh =
      filled_up later_os count (clone elem) (with_capacity size os align count s) sized
        (with_capacity_lem size os align count s valid fresh two) later_fresh
