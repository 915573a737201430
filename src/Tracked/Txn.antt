-- ===== src/Tracked/Txn.antt =====
-- util/transaction.rs with the feature drop-tracking: a rollback also runs the destructors of what
-- has been stored in the transaction. Budgets and metrics are those of Txn.antt.
use fastarena_rs.Base.{
  ℕ, Bool, false, Option, none, some, List, if◌then◌else◌, sub_usize, saturating_sub,
  saturating_mul, Panic, Outcome, ok, panicked, budget_exceeded, M, Result, Ending, ended, aborted,
  done, failed,
}
use fastarena_rs.Block.{Os}
use fastarena_rs.Typed.{Slice}
use fastarena_rs.DropRegistry.{Elem}
use fastarena_rs.Txn as Plain
use fastarena_rs.Txn.{Transaction, TxnStatus}
use fastarena_rs.Tracked as Tracked
use fastarena_rs.Tracked.{TrackedArena, TrackedCheckpoint, with_arena}

pub record TrackedTransaction (W : Type 0) : Type 0 where
  pub arena : TrackedArena W
  pub checkpoint : TrackedCheckpoint
  pub committed : Bool
  pub bytes_at_open : ℕ
  pub block_at_open : ℕ
  pub depth : ℕ
  pub limit : Option ℕ

module _ {W : Type 0} where
  abbrev pub with_txn_depth : ℕ → TrackedArena W → TrackedArena W
  with_txn_depth d a = with_arena (record a.store.arena { txn_depth = d }) a

  unfoldable pub new : TrackedArena W → TrackedTransaction W
  unfolding Tracked.checkpoint
  new a =
      let cp = Tracked.checkpoint a in
      let opened = with_arena (Plain.deepened a.store.arena) a in
      record {
        arena = opened;
        checkpoint = cp;
        committed = false;
        bytes_at_open = cp.position.bytes_allocated;
        block_at_open = cp.position.block_idx;
        depth = opened.store.arena.txn_depth;
        limit = none;
      }

  unfoldable pub commit : TrackedTransaction W → TxnStatus × TrackedArena W
  commit t =
      (TxnStatus.committed, with_txn_depth (sub_usize t.arena.store.arena.txn_depth 1) t.arena)

  unfoldable pub drop : TrackedTransaction W → W → Outcome (Unit {0}) × (TrackedArena W × W)
  unfolding Tracked.rewind
  drop t w =
      let a = with_txn_depth (saturating_sub t.arena.store.arena.txn_depth 1) t.arena in
      if t.committed then (ok tt, (a, w)) else Tracked.rewind t.checkpoint (a, w)

  abbrev pub after_rollback :
      Outcome (Unit {0}) × (TrackedArena W × W) → Outcome TxnStatus × (TrackedArena W × W)
  after_rollback (ok _, s) = (ok TxnStatus.rolled_back, s)
  after_rollback (panicked e, s) = (panicked e, s)

  unfoldable pub rollback : TrackedTransaction W → W → Outcome TxnStatus × (TrackedArena W × W)
  rollback t w = after_rollback (drop t w)

  unfoldable pub savepoint : TrackedTransaction W → TrackedTransaction W
  savepoint t = new t.arena

  -- The parent, when the child has given the arena back.
  abbrev pub resume : TrackedTransaction W → TrackedArena W → TrackedTransaction W
  resume t a = record t { arena = a }

  -- The fields that budgets and metrics read.
  abbrev pub plain : TrackedTransaction W → Transaction
  plain t = record {
    arena = t.arena.store.arena;
    checkpoint = t.checkpoint.position;
    committed = t.committed;
    bytes_at_open = t.bytes_at_open;
    block_at_open = t.block_at_open;
    depth = t.depth;
    limit = t.limit;
  }

  unfoldable pub set_limit : ℕ → TrackedTransaction W → TrackedTransaction W
  set_limit bytes t = record t { limit = some bytes }

  unfoldable pub budget_ok : ℕ → TrackedTransaction W → Bool
  unfolding Plain.budget_ok
  budget_ok bytes t = Plain.budget_ok bytes (plain t)

  abbrev pub on_arena : {A : Type 0} → M (TrackedArena W) A → M (TrackedTransaction W) A
  on_arena op t = let (r, a) = op t.arena in (r, resume t a)

  abbrev pub budgeted : {A : Type 0} → ℕ → M (TrackedArena W) A → M (TrackedTransaction W) A
  budgeted bytes op t = if budget_ok bytes t then on_arena op t else (panicked budget_exceeded, t)

  abbrev pub try_budgeted :
      {A : Type 0} → ℕ → M (TrackedArena W) (Option A) → M (TrackedTransaction W) (Option A)
  try_budgeted bytes op t = if budget_ok bytes t then on_arena op t else (ok none, t)

  module _ (heap_os : Os) (slot_size slot_align : ℕ) where
    unfoldable pub alloc : Os → Elem W → ℕ → List ℕ → M (TrackedTransaction W) ℕ
    alloc os t align val =
        budgeted t.size (Tracked.alloc heap_os slot_size slot_align os t align val)

    unfoldable pub try_alloc : Os → Elem W → ℕ → List ℕ → M (TrackedTransaction W) (Option ℕ)
    try_alloc os t align val =
        try_budgeted t.size (Tracked.try_alloc heap_os slot_size slot_align os t align val)

    unfoldable pub alloc_slice :
        Os → Elem W → ℕ → ℕ → List (List ℕ) → M (TrackedTransaction W) Slice
    alloc_slice os t align len iter =
        budgeted (saturating_mul t.size len)
          (Tracked.alloc_slice heap_os slot_size slot_align os t align len iter)

    unfoldable pub try_alloc_slice :
        Os → Elem W → ℕ → ℕ → List (List ℕ) → M (TrackedTransaction W) (Option Slice)
    try_alloc_slice os t align len iter =
        try_budgeted (saturating_mul t.size len)
          (Tracked.try_alloc_slice heap_os slot_size slot_align os t align len iter)

  -- The transaction is dropped behind an error, and while a panic of the closure unwinds.
  abbrev pub after_error :
      {A : Type 0} → A → Outcome (Unit {0}) × (TrackedArena W × W) → Ending A × (TrackedArena W × W)
  after_error x (ok _, s) = (ended (ok x), s)
  after_error x (panicked e, s) = (ended (panicked e), s)

  abbrev pub after_panic :
      {A : Type 0}
      → Panic
      → Outcome (Unit {0}) × (TrackedArena W × W)
      → Ending A × (TrackedArena W × W)
  after_panic e (ok _, s) = (ended (panicked e), s)
  after_panic e (panicked _, s) = (aborted, s)

  abbrev pub finish :
      {T E : Type 0}
      → Outcome (Result T E) × (TrackedTransaction W × W)
      → Ending (Result T E) × (TrackedArena W × W)
  finish (ok (done x), (t, w)) = (ended (ok (done x)), ((commit t).1, w))
  finish (ok (failed e), (t, w)) = after_error (failed e) (drop t w)
  finish (panicked e, (t, w)) = after_panic e (drop t w)

  unfoldable pub run_with_transaction :
      {T E : Type 0}
      → M (TrackedTransaction W × W) (Result T E)
      → TrackedArena W × W
      → Ending (Result T E) × (TrackedArena W × W)
  run_with_transaction f (a, w) = finish (f (new a, w))

  unfoldable pub run_with_transaction_infallible :
      {T : Type 0} → M (TrackedTransaction W × W) T → M (TrackedArena W × W) T
  run_with_transaction_infallible f (a, w) =
      let (r, (t, v)) = f (new a, w) in (r, ((commit t).1, v))
