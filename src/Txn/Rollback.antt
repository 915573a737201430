-- ===== src/Txn/Rollback.antt =====
-- Transactions are atomic: what a rollback undoes, what a commit keeps, and what the two functions
-- that run a closure do with its result.
use fastarena_rs.Base.{
  Result, done, failed, ◌<◌, ◌≡◌, refl, ap, Outcome, ok, panicked, usize_max, M,
}
use fastarena_rs.Arena.{Arena}
use fastarena_rs.Arena.Valid.{IsValid}
use fastarena_rs.Arena.Preserved.{Preserved}
use fastarena_rs.Arena.Restore.{Restored}
use fastarena_rs.Txn.{
  Transaction, TxnStatus, new, commit, drop, rollback, after_rollback, savepoint, finish,
  run_with_transaction, run_with_transaction_infallible,
}
use fastarena_rs.Txn.Steps.{Steps, Steps-Kept, savepoint-IsValid, commit-Preserved, drop-Restored}

-- The arena, and the depth counter, as before the transaction.
pub record Undone (a a' : Arena) : Type 0 where
  pub restored : Restored a a'
  pub depth : a'.txn_depth ≡ a.txn_depth

module _ (a : Arena) (t : Transaction) (v : IsValid a) (bound : a.txn_depth < usize_max)
    (s : Steps (new a) t) where
  -- A transaction is opened as a savepoint is: only the arena of the parent is read.
  abbrev outer : Transaction
  outer = record (new a) { arena = a }

  dropped : (a' : Arena) × (drop t ≡ (ok tt, a')) × Undone a a'
  unfolding savepoint
  dropped =
      let kept = Steps-Kept s (savepoint-IsValid outer t v bound) in
      let (a', dropped_ok, restored, depth) = drop-Restored outer t v bound kept in
      (a', dropped_ok, record { restored = restored; depth = depth })

  -- After any steps of a transaction on a valid arena below the greatest depth (allocations,
  -- other uses of the arena that lose nothing in use, changes of the limit, and nested savepoints
  -- that are kept or undone), rollback succeeds, and the arena has the position, the counted
  -- bytes, the passed blocks and the depth that it had before.
  pub rollback-Undone : (a' : Arena) × (rollback t ≡ (ok TxnStatus.rolled_back, a')) × Undone a a'
  unfolding rollback
  rollback-Undone =
      let (a', dropped_ok, undone) = dropped in (a', ap after_rollback dropped_ok, undone)

  -- After any steps of a transaction on a valid arena below the greatest depth, commit leaves a
  -- valid arena in which everything is kept that was in use before, with the depth that it had
  -- before, and with the position and the blocks that the last step left.
  pub commit-kept :
      Preserved a (commit t).1
      × ((commit t).0 ≡ TxnStatus.committed)
      × ((commit t).1.blocks ≡ t.arena.blocks)
      × ((commit t).1.current ≡ t.arena.current)
      × ((commit t).1.cur_ptr ≡ t.arena.cur_ptr)
  unfolding savepoint commit
  commit-kept =
      let kept = Steps-Kept s (savepoint-IsValid outer t v bound) in
      (commit-Preserved outer t v bound kept, refl, refl, refl, refl)

-- What `run_with_transaction` makes of a closure's end: `Ok` commits, `Err` and a panic undo
-- everything, and the result is passed on.
abbrev pub Ran :
    {T E : Type 0}
    → Arena
    → Transaction
    → Outcome (Result T E)
    → Outcome (Result T E) × Arena
    → Type 0
Ran a t (ok (done x)) out = (out ≡ (ok (done x), (commit t).1)) × Preserved a (commit t).1
Ran a t (ok (failed e)) out = (a' : Arena) × (out ≡ (ok (failed e), a')) × Undone a a'
Ran a t (panicked e) out = (a' : Arena) × (out ≡ (panicked e, a')) × Undone a a'

finish-Ran :
    {T E : Type 0} (a : Arena) (t : Transaction) (r : Outcome (Result T E))
    → IsValid a
    → a.txn_depth < usize_max
    → Steps (new a) t
    → Ran a t r (finish (r, t))
finish-Ran a t (ok (done x)) v bound s = (refl, (commit-kept a t v bound s).0)
finish-Ran a t (ok (failed e)) v bound s =
    let (a', dropped_ok, undone) = dropped a t v bound s in (a', rw dropped_ok, undone)
finish-Ran a t (panicked e) v bound s =
    let (a', dropped_ok, undone) = dropped a t v bound s in (a', rw dropped_ok, undone)

-- On a valid arena below the greatest depth, for a closure whose effect on its transaction is
-- made of steps, run_with_transaction commits and keeps everything when the closure returns Ok;
-- when it returns Err or panics, the arena is given back as it was, and the error or the panic is
-- passed on.
pub run_with_transaction-Ran :
    {T E : Type 0} (f : M Transaction (Result T E)) (a : Arena)
    → IsValid a
    → a.txn_depth < usize_max
    → Steps (new a) (f (new a)).1
    → Ran a (f (new a)).1 (f (new a)).0 (run_with_transaction f a)
unfolding run_with_transaction
run_with_transaction-Ran f a v bound s = finish-Ran a (f (new a)).1 (f (new a)).0 v bound s

-- On a valid arena below the greatest depth, for a closure whose effect on its transaction is
-- made of steps, run_with_transaction_infallible keeps everything, also when the closure panics,
-- and passes the result or the panic on.
pub run_with_transaction_infallible-kept :
    {T : Type 0} (f : M Transaction T) (a : Arena)
    → IsValid a
    → a.txn_depth < usize_max
    → Steps (new a) (f (new a)).1
    → ((run_with_transaction_infallible f a).0 ≡ (f (new a)).0)
      × ((run_with_transaction_infallible f a).1 ≡ (commit (f (new a)).1).1)
      × Preserved a (run_with_transaction_infallible f a).1
unfolding run_with_transaction_infallible
run_with_transaction_infallible-kept f a v bound s =
    (refl, refl, (commit-kept a (f (new a)).1 v bound s).0)
