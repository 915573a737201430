-- ===== src/Txn.antt =====
-- util/transaction.rs: transactions, savepoints, budgets, and the closures that run inside one.
-- A transaction holds the arena that it borrows; what gives the borrow back returns the arena.
pub mod Steps
pub mod Rollback
pub mod Budget
pub mod Typed
pub mod Through
mod Tests
use fastarena_rs.Base.{
  ℕ, ◌+◌, ◌-◌, Bool, true, false, Option, none, some, leb, if◌then◌else◌, add_usize, sub_usize,
  saturating_add, saturating_sub, saturating_mul, Panic, Outcome, ok, panicked, budget_exceeded, M,
  Result, done, failed,
}
use fastarena_rs.Block.{Os}
use fastarena_rs.Arena
use fastarena_rs.Arena.{Arena, Checkpoint, cache_line_size, current_used}
use fastarena_rs.Arena.Alloc as Alloc

pub data TxnStatus : Type 0 where
  committed : TxnStatus
  rolled_back : TxnStatus

pub record TxnDiff : Type 0 where
  pub bytes_allocated : ℕ
  pub blocks_touched : ℕ

pub record Transaction : Type 0 where
  pub arena : Arena
  pub checkpoint : Checkpoint
  pub committed : Bool
  pub bytes_at_open : ℕ
  pub block_at_open : ℕ
  pub depth : ℕ
  pub limit : Option ℕ

abbrev pub deepened : Arena → Arena
deepened a = record a { txn_depth = add_usize a.txn_depth 1 }

unfoldable pub new : Arena → Transaction
new a =
    let cp = Arena.checkpoint a in
    record {
      arena = deepened a;
      checkpoint = cp;
      committed = false;
      bytes_at_open = cp.bytes_allocated;
      block_at_open = cp.block_idx;
      depth = (deepened a).txn_depth;
      limit = none;
    }

-- `ManuallyDrop`: no rollback follows.
unfoldable pub commit : Transaction → TxnStatus × Arena
commit t = (TxnStatus.committed, record t.arena { txn_depth = sub_usize t.arena.txn_depth 1 })

-- `Drop for Transaction`
unfoldable pub drop : Transaction → Outcome (Unit {0}) × Arena
drop t =
    let a = record t.arena { txn_depth = saturating_sub t.arena.txn_depth 1 } in
    if t.committed then (ok tt, a) else Arena.rewind t.checkpoint a

abbrev pub after_rollback : Outcome (Unit {0}) × Arena → Outcome TxnStatus × Arena
after_rollback (ok _, a) = (ok TxnStatus.rolled_back, a)
after_rollback (panicked e, a) = (panicked e, a)

unfoldable pub rollback : Transaction → Outcome TxnStatus × Arena
rollback t = after_rollback (drop t)

-- The child borrows the arena of its parent.
unfoldable pub savepoint : Transaction → Transaction
savepoint t = new t.arena

-- The parent, when the child has given the arena back.
abbrev pub resume : Transaction → Arena → Transaction
resume t a = record t { arena = a }

unfoldable pub set_limit : ℕ → Transaction → Transaction
set_limit bytes t = record t { limit = some bytes }

unfoldable pub bytes_used : Transaction → ℕ
bytes_used t =
    saturating_sub (add_usize t.arena.bytes_allocated (current_used t.arena)) t.bytes_at_open

unfoldable pub budget_remaining : Transaction → Option ℕ
budget_remaining t = elim t.limit [
  | none ↦ none
  | some lim ↦ some (saturating_sub lim (bytes_used t))
]

unfoldable pub budget_ok : ℕ → Transaction → Bool
budget_ok additional t = elim t.limit [
  | none ↦ true
  | some lim ↦ leb (saturating_add (bytes_used t) additional) lim
]

unfoldable pub is_committed : Transaction → Bool
is_committed t = t.committed

unfoldable pub depth : Transaction → ℕ
depth t = t.depth

unfoldable pub arena_depth : Transaction → ℕ
arena_depth t = t.arena.txn_depth

unfoldable pub checkpoint : Transaction → Checkpoint
checkpoint t = t.checkpoint

unfoldable pub diff : Transaction → TxnDiff
diff t = record {
  bytes_allocated = bytes_used t;
  blocks_touched = add_usize (saturating_sub t.arena.current t.block_at_open) 1;
}

-- An operation on the borrowed arena.
abbrev pub on_arena : {A : Type 0} → M Arena A → M Transaction A
on_arena op t = let (r, a) = op t.arena in (r, resume t a)

-- `arena_mut`: what its caller does with the arena while it borrows it. No budget is tested.
unfoldable pub arena_mut : {A : Type 0} → M Arena A → M Transaction A
arena_mut caller = on_arena caller

-- The budget test of the `alloc*` methods, and that of the `try_alloc*` methods.
abbrev pub budgeted : {A : Type 0} → ℕ → M Arena A → M Transaction A
budgeted bytes op t = if budget_ok bytes t then on_arena op t else (panicked budget_exceeded, t)

abbrev pub try_budgeted : {A : Type 0} → ℕ → M Arena (Option A) → M Transaction (Option A)
try_budgeted bytes op t = if budget_ok bytes t then on_arena op t else (ok none, t)

unfoldable pub alloc_raw : Os → ℕ → ℕ → M Transaction ℕ
alloc_raw os size align = budgeted size (Alloc.alloc_raw os size align)

unfoldable pub alloc_cache_aligned : Os → ℕ → M Transaction ℕ
alloc_cache_aligned os size = budgeted size (Alloc.alloc_raw os size cache_line_size)

unfoldable pub try_alloc_raw : Os → ℕ → ℕ → M Transaction (Option ℕ)
try_alloc_raw os size align = try_budgeted size (Alloc.try_alloc_raw os size align)

unfoldable pub try_alloc_cache_aligned : Os → ℕ → M Transaction (Option ℕ)
try_alloc_cache_aligned os size = try_budgeted size (Alloc.try_alloc_raw os size cache_line_size)

-- The result of the closure, unless the rollback itself panics.
abbrev pub after_drop : {A : Type 0} → Outcome A → Outcome (Unit {0}) × Arena → Outcome A × Arena
after_drop r (ok _, a) = (r, a)
after_drop r (panicked e, a) = (panicked e, a)

abbrev pub finish :
    {T E : Type 0} → Outcome (Result T E) × Transaction → Outcome (Result T E) × Arena
finish (ok (done x), t) = (ok (done x), (commit t).1)
finish (ok (failed e), t) = after_drop (ok (failed e)) (drop t)
finish (panicked e, t) = after_drop (panicked e) (drop t)

-- `Ok` commits; on `Err`, and when the closure unwinds, the transaction is dropped.
unfoldable pub run_with_transaction :
    {T E : Type 0} → M Transaction (Result T E) → M Arena (Result T E)
run_with_transaction f a = finish (f (new a))

-- The panic of the closure is caught, and raised again after the commit.
unfoldable pub run_with_transaction_infallible : {T : Type 0} → M Transaction T → M Arena T
run_with_transaction_infallible f a = let (r, t) = f (new a) in (r, (commit t).1)

-- The methods of `Arena` that open a transaction on it.
unfoldable pub transaction : Arena → Transaction
unfolding new
transaction a = new a

unfoldable pub with_transaction : {T E : Type 0} → M Transaction (Result T E) → M Arena (Result T E)
unfolding run_with_transaction
with_transaction f a = run_with_transaction f a

unfoldable pub with_transaction_infallible : {T : Type 0} → M Transaction T → M Arena T
unfolding run_with_transaction_infallible
with_transaction_infallible f a = run_with_transaction_infallible f a
