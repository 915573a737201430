-- ===== src/ArenaVec/Bulk/Extend.antt =====
-- `Extend::extend`: a push for each element, up to the first that panics.
use fastarena_rs.Base.{
  ℕ, suc, ◌≡◌, refl, sym, subst, List, [], ◌∷◌, ◌++◌, append_assoc, append_nil, length, arith, true,
  Outcome, ok, panicked, is_power_of_two, take, and_then, ◌<◌,
}
use fastarena_rs.Block.{Os}
use fastarena_rs.Arena.Valid.{IsFresh}
use fastarena_rs.ArenaVec.{ArenaVec, push}
use fastarena_rs.ArenaVec.Bulk.{extend}
use fastarena_rs.ArenaVec.Frame.{Holds, Became, Became-trans}
use fastarena_rs.ArenaVec.Push.{PushAfter, push_lem}
use fastarena_rs.ArenaVec.Items.{unchanged}

module _ (size align : ℕ) where
  -- Whenever a push is reached, the system allocator returns memory that the arena does not own.
  abbrev pub IsServed : List (Os × List ℕ) → ArenaVec → Type 0
  IsServed [] v = Unit {0}
  IsServed ((os, x) ∷ iter) v =
      IsFresh os v.store.arena.blocks
      × (length x ≡ size)
      × ((w : ArenaVec) → push size os align x v ≡ (ok tt, w) → IsServed iter w)

  abbrev pub items : List (Os × List ℕ) → List (List ℕ)
  items [] = []
  items ((os, x) ∷ iter) = x ∷ items iter

  -- All elements have come, or those before the one whose push panicked.
  abbrev pub ExtendedAfter :
      ArenaVec → List (List ℕ) → List (List ℕ) → Outcome (Unit {0}) × ArenaVec → Type 0
  ExtendedAfter v xs ys (ok _, w) = Became size v (xs ++ ys) w
  ExtendedAfter v xs ys (panicked e, w) =
      (k : ℕ) × (k < length ys) × Became size v (xs ++ take k ys) w

  then_extended :
      (u v : ArenaVec) (xs ys : List (List ℕ)) (x : List ℕ) (out : Outcome (Unit {0}) × ArenaVec)
      → Holds size u xs
      → Became size u (xs ++ (x ∷ [])) v
      → ExtendedAfter v (xs ++ (x ∷ [])) ys out
      → ExtendedAfter u xs (x ∷ ys) out
  then_extended u v xs ys x (ok _, w) h first rest =
      subst (λ (r : List (List ℕ)). Became size u r w) (sym (append_assoc xs (x ∷ []) ys))
        (Became-trans size h.vec first rest)
  then_extended u v xs ys x (panicked e, w) h first (k, less, rest) = (
    suc k,
    omega arith,
    subst (λ (r : List (List ℕ)). Became size u r w) (sym (append_assoc xs (x ∷ []) (take k ys)))
        (Became-trans size h.vec first rest),
  )

  -- A panic ends the loop; otherwise it goes on.
  pushed_on :
      (v : ArenaVec) (xs : List (List ℕ)) (os : Os) (x : List ℕ) (iter : List (Os × List ℕ))
      (out : Outcome (Unit {0}) × ArenaVec)
      → Holds size v xs
      → PushAfter size v xs (x ∷ []) out
      → ((w : ArenaVec)
          → out ≡ (ok tt, w)
          → Holds size w (xs ++ (x ∷ []))
          → ExtendedAfter w (xs ++ (x ∷ [])) (items iter) (extend size align iter w))
      → ExtendedAfter v xs (x ∷ items iter) (and_then out (λ _. extend size align iter))
  pushed_on v xs os x iter (ok _, w) h first rest =
      then_extended v w xs (items iter) x (extend size align iter w) h first
        (rest w refl first.holds)
  pushed_on v xs os x iter (panicked e, w) h same rest =
      (0, omega arith, subst (λ (r : List (List ℕ)). Became size v r w) (sym (append_nil xs)) same)

  -- When a vector in a valid arena stands for a list of elements of one size, with an alignment
  -- that is a power of two, and each push of Extend::extend meets a system allocator that keeps
  -- its promises and returns memory apart from the blocks of the arena: if extend returns, the
  -- vector stands for the list with all items of that size behind it; if it panics, for the list
  -- with some of the first items behind it, and not all of them. Memory in use outside of the
  -- vector is as it was.
  pub extend_lem :
      is_power_of_two align ≡ true
      → (iter : List (Os × List ℕ)) (v : ArenaVec) (xs : List (List ℕ)) → Holds size v xs
      → IsServed iter v
      → ExtendedAfter v xs (items iter) (extend size align iter v)
  unfolding extend
  extend_lem two [] v xs h served =
      subst (λ (r : List (List ℕ)). Became size v r v) (sym (append_nil xs)) (unchanged size h)
  extend_lem two ((os, x) ∷ iter) v xs h (fresh, sized, served) =
      pushed_on v xs os x iter (push size os align x v) h
        (push_lem size os align x h fresh two sized)
        (λ w e later. extend_lem two iter w (xs ++ (x ∷ [])) later (served w e))
