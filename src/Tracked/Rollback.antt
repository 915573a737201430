-- ===== src/Tracked/Rollback.antt =====
-- What a rollback of util/transaction.rs runs and takes back with the feature drop-tracking, and how
-- the functions end that run a closure in a transaction.
use fastarena_rs.Base.{
  ℕ, ◌≡◌, refl, ◌<◌, Bool, true, false, List, if◌then◌else◌, Outcome, ok, panicked,
  destructor_panicked, M, Ending, ended, aborted, Result, done, failed, usize_max,
}
use fastarena_rs.Arena.Valid.{IsValid}
use fastarena_rs.Txn.{TxnStatus}
use fastarena_rs.Txn.Rollback.{Undone}
use fastarena_rs.DropRegistry.{DropSlot}
use fastarena_rs.DropRegistry.Laws.{Registered, run_each}
use fastarena_rs.Tracked.{TrackedArena}
use fastarena_rs.Tracked.Laws.{Since, RewoundAfter}
use fastarena_rs.Tracked.Txn.{
  TrackedTransaction, with_txn_depth, new, commit, drop, rollback, after_rollback, after_error,
  after_panic, finish, run_with_transaction, run_with_transaction_infallible,
}
use fastarena_rs.Tracked.Nested.{Kept, new-IsValid, new-registry, commit-Since, drop-DroppedTo}
use fastarena_rs.Tracked.Steps.{Steps, Steps-Kept}

module _ {W : Type 0} where
  -- How a function ends behind the destructors: with the arena as before the transaction, or, where
  -- one of them panicked, with the arena as it is.
  abbrev pub EndedAfter :
      {R : Type 0}
      → R
      → R
      → TrackedArena W
      → TrackedTransaction W
      → Bool × W
      → R × (TrackedArena W × W)
      → Type 0
  EndedAfter returns panics a t (all, left) (out, (b, w)) =
      (out ≡ (if all then returns else panics))
      × (w ≡ left)
      × (if all
          then Undone a.store.arena b.store.arena
          else b.store ≡ (with_txn_depth a.store.arena.txn_depth t.arena).store)

module _ {W : Type 0} (slot_size slot_align : ℕ) where
  abbrev pub DropEnded :
      {R : Type 0}
      → R
      → R
      → TrackedArena W
      → TrackedTransaction W
      → List (DropSlot W)
      → List (DropSlot W)
      → W
      → R × (TrackedArena W × W)
      → Type 0
  DropEnded returns panics a t xs zs w end =
      Registered slot_size slot_align end.1.0.drop_registry xs
      × EndedAfter returns panics a t (run_each slot_size slot_align zs w) end

  -- What `run_with_transaction` makes of a closure's end: `Ok` keeps everything, with its
  -- destructors; `Err` and a panic undo it, unless a destructor panics.
  abbrev pub RanWithDrops :
      {T E : Type 0}
      → TrackedArena W
      → TrackedTransaction W
      → List (DropSlot W)
      → List (DropSlot W)
      → W
      → Outcome (Result T E)
      → Ending (Result T E) × (TrackedArena W × W)
      → Type 0
  RanWithDrops a t xs zs v (ok (done x)) end =
      (end ≡ (ended (ok (done x)), ((commit t).1, v)))
      × Since slot_size slot_align a xs zs (commit t).1
  RanWithDrops a t xs zs v (ok (failed e)) end =
      DropEnded (ended (ok (failed e))) (ended (panicked destructor_panicked)) a t xs zs v end
  RanWithDrops a t xs zs v (panicked e) end = DropEnded (ended (panicked e)) aborted a t xs zs v end

  module _ (a : TrackedArena W) (t : TrackedTransaction W) (xs zs : List (DropSlot W)) (w v : W)
      (valid : IsValid a.store.arena) (bound : a.store.arena.txn_depth < usize_max)
      (before : Registered slot_size slot_align a.drop_registry xs)
      (s : Steps slot_size slot_align (new a) w zs t v) where
    kept : Kept slot_size slot_align (new a) xs zs t
    kept =
        Steps-Kept slot_size slot_align (new-IsValid slot_size slot_align a valid)
          (new-registry slot_size slot_align a xs before) s

    -- `f` is what is done with the outcome of the drop.
    dropped_then :
        {R : Type 0} (returns panics : R)
        (f : Outcome (Unit {0}) × (TrackedArena W × W) → R × (TrackedArena W × W))
        → ((s : TrackedArena W × W) → f (ok tt, s) ≡ (returns, s))
        → ((s : TrackedArena W × W) → f (panicked destructor_panicked, s) ≡ (panics, s))
        → DropEnded returns panics a t xs zs v (f (drop t v))
    dropped_then returns panics f on_ok on_panic =
        let (slots, rewound) =
          drop-DroppedTo slot_size slot_align a t xs zs valid bound kept v before in
        by_outcome (run_each slot_size slot_align zs v) (drop t v) slots rewound
      where
        by_outcome :
            (r : Bool × W) (end : Outcome (Unit {0}) × (TrackedArena W × W))
            → Registered slot_size slot_align end.1.0.drop_registry xs
            → RewoundAfter slot_size slot_align a
                (with_txn_depth a.store.arena.txn_depth t.arena)
                r
                end
            → Registered slot_size slot_align (f end).1.0.drop_registry xs
              × EndedAfter returns panics a t r (f end)
        by_outcome (true, left) (out, (b, x)) slots (e, same, undone) =
            rw (e, on_ok (b, x)) (slots, (refl, same, undone))
        by_outcome (false, left) (out, (b, x)) slots (e, same, store) =
            rw (e, on_panic (b, x)) (slots, (refl, same, store))

    -- With the feature drop-tracking, after any steps of a transaction on a valid arena below the
    -- greatest depth with its registered destructors (stored values and slices, other uses of the
    -- arena that lose nothing in use and register nothing, changes of the limit, and nested
    -- savepoints that are kept or undone), rollback runs the destructors that have been
    -- registered since it was opened and that no nested one has run, from the last to the first,
    -- and leaves those of before registered. If all return, it succeeds, and the arena has the
    -- position, the counted bytes, the passed blocks and the depth that it had before; if one
    -- panics, the others run all the same, rollback panics, and the memory is not taken back.
    pub rollback-DropEnded :
        DropEnded
          (ok TxnStatus.rolled_back)
          (panicked destructor_panicked)
          a
          t
          xs
          zs
          v
          (rollback t v)
    unfolding rollback
    rollback-DropEnded =
        dropped_then (ok TxnStatus.rolled_back) (panicked destructor_panicked) after_rollback
          (λ _. refl) (λ _. refl)

    -- Commit keeps everything, with its destructors registered.
    pub commit_kept :
        ((commit t).0 ≡ TxnStatus.committed) × Since slot_size slot_align a xs zs (commit t).1
    unfolding commit
    commit_kept = (refl, commit-Since slot_size slot_align a t xs zs valid bound kept)

    finish-RanWithDrops :
        {T E : Type 0} (r : Outcome (Result T E)) → RanWithDrops a t xs zs v r (finish (r, (t, v)))
    finish-RanWithDrops (ok (done x)) = (refl, commit_kept.1)
    finish-RanWithDrops {T} {E} (ok (failed e)) =
        let x : Result T E = failed e in
        dropped_then (ended (ok x)) (ended (panicked destructor_panicked)) (after_error x)
          (λ _. refl) (λ _. refl)
    finish-RanWithDrops (panicked e) =
        dropped_then (ended (panicked e)) aborted (after_panic e) (λ _. refl) (λ _. refl)

  -- With the feature drop-tracking, on a valid arena below the greatest depth with its registered
  -- destructors, for a closure whose effect on its transaction is made of steps: when it returns
  -- Ok, everything is kept, with its destructors registered; when it returns Err or panics, the
  -- destructors of what it stored run, and the arena is given back as it was with the error or
  -- the panic; but if one of them panics, that panic takes the place of the error, or, behind a
  -- panic of the closure, ends the program.
  pub run_with_transaction-RanWithDrops :
      {T E : Type 0} (f : M (TrackedTransaction W × W) (Result T E)) (a : TrackedArena W)
      (xs zs : List (DropSlot W)) (w : W)
      → IsValid a.store.arena
      → a.store.arena.txn_depth < usize_max
      → Registered slot_size slot_align a.drop_registry xs
      → let (r, (t, v)) = f (new a, w) in
        Steps slot_size slot_align (new a) w zs t v
        → RanWithDrops a t xs zs v r (run_with_transaction f (a, w))
  unfolding run_with_transaction
  run_with_transaction-RanWithDrops f a xs zs w valid bound before s =
      let (r, (t, v)) = f (new a, w) in finish-RanWithDrops a t xs zs w v valid bound before s r

  -- Everything is kept, also when the closure panics, and the result or the panic is passed on.
  pub run_with_transaction_infallible-kept :
      {T : Type 0} (f : M (TrackedTransaction W × W) T) (a : TrackedArena W)
      (xs zs : List (DropSlot W)) (w : W)
      → IsValid a.store.arena
      → a.store.arena.txn_depth < usize_max
      → Registered slot_size slot_align a.drop_registry xs
      → let (r, (t, v)) = f (new a, w) in
        Steps slot_size slot_align (new a) w zs t v
        → (run_with_transaction_infallible f (a, w) ≡ (r, ((commit t).1, v)))
          × Since slot_size slot_align a xs zs (commit t).1
  unfolding run_with_transaction_infallible
  run_with_transaction_infallible-kept f a xs zs w valid bound before s =
      let (r, (t, v)) = f (new a, w) in (refl, (commit_kept a t xs zs w v valid bound before s).1)
